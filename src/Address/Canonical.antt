-- ===== src/Address/Canonical.antt =====
-- The addresses that scripts/pqwallet/pqaddress.js accepts, and the scripts that it makes of them.
use mathlib.Core.List.{List}
use organic_web_wallet.Prelude.{
  ℕ, ◌≡◌, refl, ap, ◌∙◌, false, not, ◌||◌, some, [], ◌∷◌, ◌++◌, length, drop, get_or, arith, ◌==◌,
  ◌===◌, ok, bind_inv, Result-cases, throw_inv, not-false, ===→eq, inl, inr,
}
use organic_web_wallet.Platform.{Text, Bytes, Noble, bytes, source_bytes}
use organic_web_wallet.Address.{
  Network, testnet, regtest, hrp_for_network, address_from_id, pq_id_from_address,
  pq_script_from_address, pq_address_from_script, script_address, has_pq_prefix,
  is_valid_pq_address, bech32m_decode, convert_bits,
}
use organic_web_wallet.Address.Bech32m.{lower}

-- What the checks of `pq_id_from_address` establish.
record Accepted (address : Text) (network : Network) (id : Bytes) : Type 0 where
  hrp : Text
  hrp_found : hrp_for_network network ≡ ok hrp
  decoded : Text × List ℕ
  decodes : bech32m_decode address ≡ ok decoded
  same_hrp : decoded.0 ≡ hrp
  sized : length id ≡ 32
  again : address_from_id id network ≡ ok address

accepted :
    (address : Text) (network : Network) (id : Bytes)
    → pq_id_from_address address network ≡ ok id
    → Accepted address network id
unfolding pq_id_from_address
accepted address network id h = bind_inv (hrp_for_network network) h λ hrp found h1.
    throw_inv (not (address === lower address)) _ _ h1 λ _ h2.
      bind_inv (bech32m_decode address) h2 λ decoded decodes h3.
        throw_inv
          (not (decoded.0 === hrp)
            || (not (length decoded.1 == 53) || not (get_or decoded.1 0 0 == 1)))
          _ _ h3
          λ shape h4. bind_inv (convert_bits (drop 1 decoded.1) 5 8 false) h4 λ groups _ h5.
            throw_inv (not (length groups == 32)) _ _ h5 λ size h6.
              bind_inv (address_from_id groups network) h6 λ again encodes h7.
                throw_inv (not (again === address)) _ _ h7 λ same h8.
                  let e : groups ≡ id = cc in
                  record {
                    hrp = hrp;
                    hrp_found = found;
                    decoded = decoded;
                    decodes = decodes;
                    same_hrp = ===→eq _ _ (ground arith);
                    sized = ground arith;
                    again = rw (← e) (encodes ∙ ap ok (===→eq _ _ (not-false _ same)));
                  }

-- An accepted address has an id of 32 bytes, and is the one text that `addressFromId` makes of it.
pub pq_id_from_address-canonical :
    (address : Text) (network : Network) (id : Bytes)
    → pq_id_from_address address network ≡ ok id
    → (length id ≡ 32) × (address_from_id id network ≡ ok address)
pq_id_from_address-canonical address network id h =
    let a : Accepted address network id = accepted address network id h in (a.sized, a.again)

hrps_differ :
    (address : Text) (id id' : Bytes)
    → Accepted address testnet id
    → Accepted address regtest id'
    → ⊥
unfolding hrp_for_network
hrps_differ address id id' a b =
    cc (a.decodes, b.decodes, a.same_hrp, b.same_hrp, a.hrp_found, b.hrp_found)

-- No address is accepted on both networks.
pub one_network :
    (address : Text) (id : Bytes)
    → pq_id_from_address address testnet ≡ ok id
    → is_valid_pq_address address regtest ≡ false
unfolding is_valid_pq_address
one_network address id h = elim (Result-cases (pq_id_from_address address regtest)) [
  | inl (id', h') ↦ absurd (hrps_differ address id id' (accepted _ _ _ h) (accepted _ _ _ h'))
  | inr (e, h') ↦ rw (h', is_valid_pq_address)
]

-- The script of an accepted address has 35 bytes, and gives the address back.
pub pq_address_from_script-pq_script_from_address :
    (noble : Noble) (address : Text) (network : Network) (script : Bytes)
    → pq_script_from_address address network ≡ ok script
    → (length script ≡ 35)
      × (pq_address_from_script noble (bytes script) network ≡ ok (some address))
unfolding pq_script_from_address pq_address_from_script source_bytes script_address has_pq_prefix
pq_address_from_script-pq_script_from_address noble address network script h =
    bind_inv (pq_id_from_address address network) h λ id decodes h1.
      let a : Accepted address network id = accepted address network id decodes in
      let e : (0xff ∷ 0x51 ∷ 0x20 ∷ []) ++ id ≡ script = cc in
      rw (← e) (omega (arith, a.sized), rw (a.hrp_found, a.sized, a.again) refl)
