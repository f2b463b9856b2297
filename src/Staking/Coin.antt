-- ===== src/Staking/Coin.antt =====
-- The coin that a template of scripts/pqwallet/pqstaking.js spends.
use mathlib.Core.Path.{subst}
use organic_web_wallet.Prelude.{
  ℕ, ◌-◌, ◌≤◌, ◌<◌, ◌≡◌, refl, ap, ◌∙◌, true, false, not, Bool, ◌&&◌, ◌||◌, none, some, List, [],
  ◌∷◌, ◌+◌, map, length, arith, ◌==◌, ◌===◌, ===→eq, ok, bind_inv, throw_inv, ok-injective,
  not-false, or-false,
}
use organic_web_wallet.Prelude.Int.{ℤ, pos, negsuc, leb_ℤ}
use organic_web_wallet.Platform.{Bytes, Noble, bytes, hex, number, bigint}
use organic_web_wallet.Address.{address_from_public_key, pq_script_from_address}
use organic_web_wallet.Wire.Parse.{SignedIn, TxOut, Transaction, is_int, parse_coinstake, txid_of}
use organic_web_wallet.Wire.Lists.{Each}
use organic_web_wallet.Wire.Payload.{given}
use organic_web_wallet.Signer.{SignInput, SignRequest, scripted, Signed, sign_pq_transaction}
use organic_web_wallet.Signer.Keys.{MlDsa}
use organic_web_wallet.Staking.Previous.{Prevout, hex_bytes, previous_output, max_block_bytes}
use organic_web_wallet.Staking.{StakeRequest, block_transactions, is_reserved}
use organic_web_wallet.Staking.Sealed.{SealedBlock}
use organic_web_wallet.Staking.SignedBlocks.{
  SignedBlock, check_previous, keeps_principal, stake_request, second_value,
}

-- The coin stands in a transaction with the candidate's id, with its value and the owner's script.
pub record OwnCoin (noble : Noble) (r : StakeRequest) (own_script : Bytes) (prevout : Prevout)
    : Type 0 where
  pub previous : Bytes
  pub given : hex_bytes noble r.template.previous_transaction max_block_bytes ≡ ok previous
  pub txid : txid_of noble (bytes previous) ≡ ok r.candidate.txid
  pub stands : previous_output previous r.candidate.vout ≡ ok prevout
  pub value : prevout.value ≡ pos r.candidate.value_sats
  pub positive : 0 < r.candidate.value_sats
  pub script : noble.bytes_to_hex prevout.script ≡ noble.bytes_to_hex own_script

value_is : (z : ℤ) (n : ℕ) → is_int z n ≡ true → z ≡ pos n
value_is (pos m) n h = ap pos (ground arith)
value_is (negsuc m) n h = cc

pub own_coin :
    (noble : Noble) (r : StakeRequest) (own_script : Bytes) (prevout : Prevout)
    → check_previous noble r own_script ≡ ok prevout
    → OwnCoin noble r own_script prevout
unfolding check_previous
own_coin noble r own_script prevout h =
    bind_inv (hex_bytes noble r.template.previous_transaction max_block_bytes) h
      λ previous given h1. bind_inv (txid_of noble (bytes previous)) h1 λ txid is_txid h2.
        throw_inv (not (txid === r.candidate.txid)) _ _ h2 λ same h3.
          bind_inv (previous_output previous r.candidate.vout) h3 λ found stands h4.
            throw_inv
              (leb_ℤ found.value (pos 0)
                || (not (is_int found.value r.candidate.value_sats)
                    || not (noble.bytes_to_hex found.script === noble.bytes_to_hex own_script)))
              _ _ h4
              λ owned h5.
                let (above, rest) = or-false (leb_ℤ found.value (pos 0)) _ owned in
                let (is_value, is_script) =
                  or-false (not (is_int found.value r.candidate.value_sats))
                    (not (noble.bytes_to_hex found.script === noble.bytes_to_hex own_script))
                    rest in
                let value = value_is found.value r.candidate.value_sats (not-false _ is_value) in
                subst (OwnCoin noble r own_script) (ok-injective h5) (record {
                  previous = previous;
                  given = given;
                  txid = is_txid ∙ ap ok (===→eq txid r.candidate.txid (not-false _ same));
                  stands = stands;
                  value = value;
                  positive =
                      let above' : leb_ℤ (pos r.candidate.value_sats) (pos 0) ≡ false =
                        rw value at above in
                      ground arith;
                  script = ===→eq _ _ (not-false _ is_script);
                })

-- The stake spends the coin; its second output has the owner's script and the value with the reward.
pub record Keeps (noble : Noble) (r : StakeRequest) (own_script : Bytes) (prevout : Prevout)
    (inputs : List SignedIn) (outputs : List TxOut) : Type 0 where
  pub input : SignedIn
  pub first : TxOut
  pub second : TxOut
  pub more : List TxOut
  pub are_outputs : outputs ≡ first ∷ second ∷ more
  pub txid : input.tx_in.txid ≡ r.candidate.txid
  pub vout : input.tx_in.vout ≡ r.candidate.vout
  pub owner : second.script_hex ≡ noble.bytes_to_hex own_script
  pub principal : leb_ℤ prevout.value second.value ≡ true

and_true : (a b : Bool) → (a && b) ≡ true → (a ≡ true) × (b ≡ true)
and_true a b h = ground arith

pub keeps :
    (noble : Noble) (r : StakeRequest) (own_script : Bytes) (prevout : Prevout)
    (inputs : List SignedIn) (outputs : List TxOut)
    → keeps_principal noble r own_script prevout inputs outputs ≡ true
    → Keeps noble r own_script prevout inputs outputs
unfolding keeps_principal
keeps noble r own_script prevout [] outputs h = cc
keeps noble r own_script prevout (i ∷ inputs) [] h = cc
keeps noble r own_script prevout (i ∷ inputs) (first ∷ []) h = cc
keeps noble r own_script prevout (i ∷ inputs) (first ∷ second ∷ outputs) h =
    let (same_txid, rest) = and_true (i.tx_in.txid === r.candidate.txid) _ h in
    let (same_vout, rest') = and_true (i.tx_in.vout == r.candidate.vout) _ rest in
    let (owner, principal) =
      and_true (second.script_hex === noble.bytes_to_hex own_script) _ rest' in
    record {
      input = i;
      first = first;
      second = second;
      more = outputs;
      are_outputs = refl;
      txid = ===→eq _ _ same_txid;
      vout = ground arith;
      owner = ===→eq _ _ owner;
      principal = principal;
    }

-- What is signed: one input, which spends the coin with the key, and the outputs that are given, each
-- with its value and script.
pub record StakeAsked (r : StakeRequest) (script : Bytes) (outputs : List TxOut) (q : SignRequest)
    : Type 0 where
  pub input : SignInput
  pub one_input : q.inputs ≡ input ∷ []
  pub txid : input.outpoint.txid ≡ hex r.candidate.txid
  pub vout : input.outpoint.vout ≡ some (number (pos r.candidate.vout))
  pub sequence : input.outpoint.sequence ≡ none
  pub spends : input.prevout ≡ some (scripted (bigint (pos r.candidate.value_sats)) script)
  pub key : input.public_key ≡ given r.keypair.public_key
  pub pays :
      Each
        (λ o p. (p.value ≡ bigint o.value) × (p.script ≡ some (bytes o.script)))
        outputs
        q.outputs
  pub locktime : q.locktime ≡ number (pos 0)
  pub network : q.network ≡ r.network
  pub genesis_display : q.genesis_display ≡ r.genesis_display
  pub mode : q.mode ≡ 2
  pub no_data : q.payload_data ≡ []

scripted_outputs :
    (outputs : List TxOut)
    → Each
        (λ o p. (p.value ≡ bigint o.value) × (p.script ≡ some (bytes o.script)))
        outputs
        (map (λ (o : TxOut). scripted (bigint o.value) o.script) outputs)
scripted_outputs [] = tt
scripted_outputs (o ∷ outputs) = ((refl, refl), scripted_outputs outputs)

pub stake_request-StakeAsked :
    (r : StakeRequest) (prevout : Prevout) (outputs : List TxOut)
    → prevout.value ≡ pos r.candidate.value_sats
    → StakeAsked r prevout.script outputs (stake_request r prevout outputs)
unfolding stake_request
stake_request-StakeAsked r prevout outputs value = record {
  input = _;
  one_input = refl;
  txid = refl;
  vout = refl;
  sequence = refl;
  spends = ap (λ z. some (scripted (bigint z) prevout.script)) value;
  key = refl;
  pays = scripted_outputs outputs;
  locktime = refl;
  network = refl;
  genesis_display = refl;
  mode = refl;
  no_data = refl;
}

-- A signed stake: the coin is the key's own and not reserved. The template's second transaction spends
-- it and pays the owner at least what the coin is worth; the reward is what it pays beyond that. It is
-- signed with this input and these outputs, and the block is that of the template with the signed
-- transaction in its place.
pub record StakeIsSafe (noble : Noble) (ml : MlDsa) (r : StakeRequest) (b : SignedBlock)
    : Type 0 where
  pub own_script : Bytes
  pub prevout : Prevout
  pub header : Bytes
  pub first : Bytes
  pub raw_stake : Bytes
  pub others : List Bytes
  pub stake : Transaction
  pub request : SignRequest
  pub coinstake : Signed
  pub paid : ℕ
  pub not_reserved : is_reserved r.reserved_outpoints r.candidate.txid r.candidate.vout ≡ false
  pub owner : address_from_public_key noble r.keypair.public_key r.network ≡ ok r.candidate.address
  pub is_own : pq_script_from_address r.candidate.address r.network ≡ ok own_script
  pub coin : OwnCoin noble r own_script prevout
  pub is_header : hex_bytes noble r.template.header 112 ≡ ok header
  pub transactions :
      block_transactions noble (length header + 3800) r.template.transactions
      ≡ ok (first ∷ raw_stake ∷ others)
  pub is_stake : parse_coinstake noble (bytes raw_stake) ≡ ok stake
  pub kept : Keeps noble r own_script prevout stake.inputs stake.outputs
  pub asked : StakeAsked r prevout.script stake.outputs request
  pub signed : sign_pq_transaction noble ml request ≡ ok coinstake
  pub block : SealedBlock noble ml r header (first ∷ coinstake.raw ∷ others) b
  pub coinstake_hex : b.coinstake_hex ≡ coinstake.raw_hex
  pub pays : second_value stake.outputs ≡ pos paid
  pub enough : r.candidate.value_sats ≤ paid
  pub reward : b.reward_sats ≡ pos (paid - r.candidate.value_sats)
