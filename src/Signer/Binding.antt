-- ===== src/Signer/Binding.antt =====
-- The check that a spent output belongs to the key that signs for it.
use organic_web_wallet.Prelude.{
  ◌≡◌, refl, true, not, ◌||◌, some, length, drop, arith, ◌==◌, ◌===◌, ===→eq, All-drop, ok, ◌>>=◌,
  bind_inv, throw_inv, ok-injective, not-false, or-false,
}
use mathlib.Core.Path.{subst}
use organic_web_wallet.Platform.{
  Text, Bytes, Noble, NobleLaws, IsByte, IsBytes, bytes, source_bytes,
}
use organic_web_wallet.Address.{
  Network, testnet, regtest, unknown, has_pq_prefix, hrp_for_network, script_address,
  pq_id_from_public_key, pq_address_from_script, address_from_public_key,
}
use organic_web_wallet.Signer.{assert_prevout_binds_public_key}

hex-injective :
    (noble : Noble) (laws : NobleLaws noble) (a b : Bytes)
    → IsBytes a
    → IsBytes b
    → noble.bytes_to_hex a ≡ noble.bytes_to_hex b
    → a ≡ b
hex-injective noble laws a b ha hb e =
    cc (laws.hex_to_bytes-bytes_to_hex a ha, laws.hex_to_bytes-bytes_to_hex b hb, e)

-- A key has an id on the supported networks only, and the id is made of bytes.
key_id :
    (noble : Noble) (laws : NobleLaws noble) (key id : Bytes) (network : Network)
    → pq_id_from_public_key noble key network ≡ ok id
    → IsBytes id × ((hrp : Text) × (hrp_for_network network ≡ ok hrp))
unfolding pq_id_from_public_key hrp_for_network
key_id noble laws key id testnet h =
    throw_inv (not (length key == 1312)) _ _ h
      λ _ h1. (subst IsBytes (ok-injective h1) (laws.sha256-IsBytes _), (_, refl))
key_id noble laws key id regtest h =
    throw_inv (not (length key == 1312)) _ _ h
      λ _ h1. (subst IsBytes (ok-injective h1) (laws.sha256-IsBytes _), (_, refl))
key_id noble laws key id unknown h = throw_inv (not (length key == 1312)) _ _ h λ _ h1. cc

-- An output that is accepted for a key has a script of 35 bytes, which is the script of the address
-- of that key.
pub assert_prevout_binds_public_key-address_from_public_key :
    (noble : Noble) (laws : NobleLaws noble) (network : Network) (script key : Bytes)
    → IsBytes script
    → assert_prevout_binds_public_key noble network (script, key) ≡ ok tt
    → (length script ≡ 35)
      × (pq_address_from_script noble (bytes script) network
          ≡ (address_from_public_key noble key network >>= λ address. ok (some address)))
unfolding assert_prevout_binds_public_key pq_address_from_script source_bytes script_address
    address_from_public_key
assert_prevout_binds_public_key-address_from_public_key noble laws network script key h e =
    throw_inv (not (length script == 35) || not (has_pq_prefix script)) _ _ e λ shaped e1.
      bind_inv (pq_id_from_public_key noble key network) e1 λ id is_id e2.
        throw_inv (not (noble.bytes_to_hex (drop 3 script) === noble.bytes_to_hex id)) _ _ e2
          λ same e3.
            let (sized, prefixed) =
              or-false (not (length script == 35)) (not (has_pq_prefix script)) shaped in
            let size : (length script == 35) ≡ true = not-false _ sized in
            let prefix : has_pq_prefix script ≡ true = not-false _ prefixed in
            let (id_bytes, (hrp, found)) = key_id noble laws key id network is_id in
            let same_id : drop 3 script ≡ id =
              hex-injective noble laws (drop 3 script) id (All-drop IsByte 3 script h) id_bytes
                (===→eq _ _ (not-false _ same)) in
            (ground arith, rw (found, size, prefix, same_id, is_id) refl)
