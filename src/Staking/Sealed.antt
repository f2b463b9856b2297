-- ===== src/Staking/Sealed.antt =====
-- How scripts/pqwallet/pqstaking.js puts a signed block together.
use mathlib.Core.Path.{subst}
use mathlib.Core.List.{flatten}
use organic_web_wallet.Prelude.{
  ◌≡◌, refl, true, not, some, List, [], ◌∷◌, ◌++◌, length, reverse, take, drop, ok, require,
  bind_inv, throw_inv, ok-injective, require_ok, not-false, no_root, block_signature,
}
use organic_web_wallet.Prelude.Int.{ℤ, pos}
use organic_web_wallet.Platform.{Bytes, Noble, number}
use organic_web_wallet.Wire.Codec.{encode_compact_size}
use organic_web_wallet.Signer.{Signed}
use organic_web_wallet.Signer.Keys.{MlDsa, pq_sign, pq_verify}
use organic_web_wallet.Staking.Merkle.{merkle_root}
use organic_web_wallet.Staking.{StakeRequest, block_domain}
use organic_web_wallet.Staking.SignedBlocks.{SignedBlock, sign_block}

-- The header with the Merkle root of the transactions in its place, signed by the key; then the number
-- of the transactions, the transactions, and the key with its signature.
pub record SealedBlock (noble : Noble) (ml : MlDsa) (r : StakeRequest) (header : Bytes)
    (transactions : List Bytes) (b : SignedBlock) : Type 0 where
  pub root : Bytes
  pub rooted : Bytes
  pub hash : Bytes
  pub authorization : Bytes
  pub transactions_size : Bytes
  pub authorization_size : Bytes
  pub is_root : merkle_root noble transactions ≡ some root
  pub is_rooted : rooted ≡ take 36 header ++ (root ++ drop 68 header)
  pub hashed : hash ≡ noble.sha256 (noble.sha256 rooted)
  pub shown_hash : b.block_hash ≡ noble.bytes_to_hex (reverse hash)
  pub verifies :
      pq_verify ml b.block_signature hash r.keypair.public_key (block_domain r.network) ≡ true
  pub is_authorization : authorization ≡ 1 ∷ (r.keypair.public_key ++ b.block_signature)
  pub is_transactions_size :
      encode_compact_size (number (pos (length transactions))) ≡ ok transactions_size
  pub is_authorization_size :
      encode_compact_size (number (pos (length authorization))) ≡ ok authorization_size
  pub raw_hex :
      b.raw_hex
      ≡ noble.bytes_to_hex (
          rooted
          ++ (transactions_size ++ (flatten transactions ++ (authorization_size ++ authorization))))

-- What is reported of the stake
pub record Reported (coinstake : Signed) (reward : ℤ) (b : SignedBlock) : Type 0 where
  pub hex : b.coinstake_hex ≡ coinstake.raw_hex
  pub sats : b.reward_sats ≡ reward

pub sign_block-SealedBlock :
    (noble : Noble) (ml : MlDsa) (r : StakeRequest) (header : Bytes) (transactions : List Bytes)
    (coinstake : Signed) (reward : ℤ) (b : SignedBlock)
    → sign_block noble ml r header transactions coinstake reward ≡ ok b
    → SealedBlock noble ml r header transactions b × Reported coinstake reward b
unfolding sign_block
sign_block-SealedBlock noble ml r header transactions coinstake reward b h =
    bind_inv (require (merkle_root noble transactions) no_root) h λ root roots h1.
      let rooted = take 36 header ++ (root ++ drop 68 header) in
      let hash = noble.sha256 (noble.sha256 rooted) in
      bind_inv (pq_sign ml hash r.keypair.secret_key (block_domain r.network)) h1 λ seal _ h2.
        throw_inv (not (pq_verify ml seal hash r.keypair.public_key (block_domain r.network)))
          block_signature _ h2
          λ verified h3.
            let authorization = (1 ∷ []) ++ (r.keypair.public_key ++ seal) in
            bind_inv (encode_compact_size (number (pos (length transactions)))) h3 λ size sizes h4.
              bind_inv (encode_compact_size (number (pos (length authorization)))) h4
                λ end_size end_sizes h5.
                  subst
                    (λ (x : SignedBlock).
                      SealedBlock noble ml r header transactions x × Reported coinstake reward x)
                    (ok-injective h5)
                    (
                      record {
                        root = root;
                        rooted = rooted;
                        hash = hash;
                        authorization = authorization;
                        transactions_size = size;
                        authorization_size = end_size;
                        is_root = require_ok _ _ roots;
                        is_rooted = refl;
                        hashed = refl;
                        shown_hash = refl;
                        verifies = not-false _ verified;
                        is_authorization = refl;
                        is_transactions_size = sizes;
                        is_authorization_size = end_sizes;
                        raw_hex = refl;
                      },
                      record { hex = refl; sats = refl },
                    )
