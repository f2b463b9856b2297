-- ===== src/Staking/SignedBlocks.antt =====
-- scripts/pqwallet/pqstaking.js: the checks of a template, and the block that is signed.
use mathlib.Core.List.{flatten}
use organic_web_wallet.Prelude.{
  ◌+◌, Bool, true, false, not, ◌&&◌, ◌||◌, none, some, List, [], ◌∷◌, ◌++◌, length, take, drop,
  get_elem?, reverse, map, ltb, ◌==◌, ◌===◌, Result, ok, ◌>>=◌, ◌>>◌, throw_if, require,
  template_stale, stake_reserved, stake_key, previous_hash, previous_owner, header_size,
  header_parent, transaction_count, stake_owner, stake_output, block_signature, no_root,
}
use organic_web_wallet.Prelude.Int.{ℤ, pos, is_negative, leb_ℤ, ◌-ℤ◌}
use organic_web_wallet.Platform.{Bytes, Text, Noble, bytes, hex, bigint, number, units}
use organic_web_wallet.Address.{address_from_public_key, pq_script_from_address}
use organic_web_wallet.Wire.Codec.{encode_compact_size}
use organic_web_wallet.Wire.Payload.{given}
use organic_web_wallet.Wire.Parse.{SignedIn, TxOut, is_int, parse_coinstake, txid_of}
use organic_web_wallet.Signer.{SignRequest, Signed, scripted, sign_pq_transaction}
use organic_web_wallet.Signer.Keys.{MlDsa, pq_sign, pq_verify}
use organic_web_wallet.Staking.Previous.{Prevout, hex_bytes, previous_output, max_block_bytes}
use organic_web_wallet.Staking.Merkle.{merkle_root}
use organic_web_wallet.Staking.{
  block_transactions, StakeRequest, is_current_header, is_reserved, block_domain, is_fresh,
}

-- The coin that is staked, found in the transaction that made it.
unfoldable pub check_previous : Noble → StakeRequest → Bytes → Result Prevout
check_previous noble r own_script = do
  previous ← hex_bytes noble r.template.previous_transaction max_block_bytes
  txid ← txid_of noble (bytes previous)
  throw_if (not (txid === r.candidate.txid)) previous_hash
  prevout ← previous_output previous r.candidate.vout
  throw_if
      (leb_ℤ prevout.value (pos 0)
        || (not (is_int prevout.value r.candidate.value_sats)
            || not (noble.bytes_to_hex prevout.script === noble.bytes_to_hex own_script)))
      previous_owner
  ok prevout

-- The stake spends the coin, and its second output keeps the owner and the principal.
unfoldable pub keeps_principal :
    Noble → StakeRequest → Bytes → Prevout → List SignedIn → List TxOut → Bool
keeps_principal noble r own_script prevout (i ∷ inputs) (first ∷ second ∷ outputs) =
    i.tx_in.txid === r.candidate.txid
    && (i.tx_in.vout == r.candidate.vout
        && (second.script_hex === noble.bytes_to_hex own_script
            && leb_ℤ prevout.value second.value))
keeps_principal noble r own_script prevout _ _ = false

-- No value is negative, and from the second output on every script is a PQ script.
unfoldable pub pq_outputs : List TxOut → Bool
pq_outputs [] = true
pq_outputs (o ∷ outputs) =
    not (is_negative o.value)
    && (length o.script == 35 && (take 6 o.script_hex === units "ff5120" && pq_outputs outputs))

unfoldable pub stake_outputs : List TxOut → Bool
stake_outputs [] = true
stake_outputs (first ∷ outputs) = not (is_negative first.value) && pq_outputs outputs

-- What is signed: the stake's outputs, from the one coin.
unfoldable pub stake_request : StakeRequest → Prevout → List TxOut → SignRequest
stake_request r prevout outputs = record {
  inputs =
      record {
        outpoint = record {
          txid = hex r.candidate.txid;
          vout = some (number (pos r.candidate.vout));
          sequence = none;
        };
        prevout = some (scripted (bigint prevout.value) prevout.script);
        public_key = given r.keypair.public_key;
        secret_key = given r.keypair.secret_key;
      }
      ∷ [];
  outputs = map (λ o. scripted (bigint o.value) o.script) outputs;
  locktime = number (pos 0);
  network = r.network;
  genesis_display = r.genesis_display;
  mode = 2;
  payload_data = [];
}

-- `transactions[1] = raw`
abbrev pub replace_second : List Bytes → Bytes → List Bytes
replace_second (a ∷ b ∷ rest) raw = a ∷ raw ∷ rest
replace_second short raw = short

abbrev pub second_value : List TxOut → ℤ
second_value (first ∷ second ∷ outputs) = second.value
second_value _ = pos 0

pub record SignedBlock : Type 0 where
  pub raw_hex : Text
  pub block_hash : Text
  pub coinstake_hex : Text
  pub reward_sats : ℤ
  pub block_signature : Bytes

-- The block of the header and the transactions, signed.
unfoldable pub sign_block :
    Noble → MlDsa → StakeRequest → Bytes → List Bytes → Signed → ℤ → Result SignedBlock
sign_block noble ml r header transactions coinstake reward = do
  root ← require (merkle_root noble transactions) no_root
  let rooted = take 36 header ++ (root ++ drop 68 header)
  let hash = noble.sha256 (noble.sha256 rooted)
  signature ← pq_sign ml hash r.keypair.secret_key (block_domain r.network)
  throw_if (not (pq_verify ml signature hash r.keypair.public_key (block_domain r.network)))
      block_signature
  let authorization = (1 ∷ []) ++ (r.keypair.public_key ++ signature)
  transactions_size ← encode_compact_size (number (pos (length transactions)))
  authorization_size ← encode_compact_size (number (pos (length authorization)))
  ok (record {
    raw_hex = noble.bytes_to_hex (
        rooted
        ++ (transactions_size ++ (flatten transactions ++ (authorization_size ++ authorization))));
    block_hash = noble.bytes_to_hex (reverse hash);
    coinstake_hex = coinstake.raw_hex;
    reward_sats = reward;
    block_signature = signature;
  })

unfoldable pub sign_stake_template : Noble → MlDsa → StakeRequest → Result SignedBlock
sign_stake_template noble ml r = do
  throw_if (not (is_fresh r)) template_stale
  throw_if (is_reserved r.reserved_outpoints r.candidate.txid r.candidate.vout) stake_reserved
  address ← address_from_public_key noble r.keypair.public_key r.network
  throw_if (not (address === r.candidate.address)) stake_key
  own_script ← pq_script_from_address r.candidate.address r.network
  prevout ← check_previous noble r own_script
  header ← hex_bytes noble r.template.header 112
  throw_if (not (length header == 80) && not (length header == 112)) header_size
  throw_if (not (is_current_header noble r header)) header_parent
  throw_if (ltb (length r.template.transactions) 2 || ltb 4096 (length r.template.transactions))
      transaction_count
  transactions ← block_transactions noble (length header + 3800) r.template.transactions
  raw_stake ← require (get_elem? transactions 1) transaction_count
  stake ← parse_coinstake noble (bytes raw_stake)
  throw_if (not (keeps_principal noble r own_script prevout stake.inputs stake.outputs)) stake_owner
  throw_if (not (stake_outputs stake.outputs)) stake_output
  coinstake ← sign_pq_transaction noble ml (stake_request r prevout stake.outputs)
  sign_block noble ml r header (replace_second transactions coinstake.raw) coinstake
      (second_value stake.outputs -ℤ prevout.value)
