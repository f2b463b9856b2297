-- ===== src/Store/Canonical.antt =====
-- The masternode records that a backup may hold.
use organic_web_wallet.Prelude.{
  ◌≡◌, refl, true, not, some, List, [], ◌∷◌, ◌===◌, ok, require, bind_inv, throw_inv, ok-injective,
  not-false, arith, bad_hex, require_ok,
}
use organic_web_wallet.Platform.{Text, Bytes, Noble}
use organic_web_wallet.Address.{Network, testnet, regtest, unknown, pq_id_from_public_key}
use organic_web_wallet.Store.Records.{MasternodeRecord}
use organic_web_wallet.Store.Checks.{
  same_network, lifecycle_is_valid, or_empty, present, record_is_well_formed,
  canonical_masternode_record,
}

pub same_network→eq : (a b : Network) → same_network a b ≡ true → a ≡ b
unfolding same_network
same_network→eq testnet testnet h = refl
same_network→eq regtest regtest h = refl
same_network→eq unknown unknown h = refl
same_network→eq testnet regtest h = cc
same_network→eq testnet unknown h = cc
same_network→eq regtest testnet h = cc
same_network→eq regtest unknown h = cc
same_network→eq unknown testnet h = cc
same_network→eq unknown regtest h = cc

same_network_refl : (a : Network) → same_network a a ≡ true
unfolding same_network
same_network_refl testnet = refl
same_network_refl regtest = refl
same_network_refl unknown = refl

pub or_empty-present : (t : Text) → or_empty (present t) ≡ t
or_empty-present [] = refl
or_empty-present (c ∷ cs) = refl

abbrev pub canonical_form : MasternodeRecord → Network → MasternodeRecord
canonical_form r network = record r {
  network = network;
  registration_txid = some (or_empty r.registration_txid);
  withdrawal_txid = present (or_empty r.withdrawal_txid);
}

-- What an accepted record satisfies.
pub record IsCanonical (noble : Noble) (r : MasternodeRecord) (network : Network)
    (local : List Text) : Type 0 where
  pub form : record_is_well_formed r network local ≡ true
  pub public_key : Bytes
  pub reads : noble.hex_to_bytes r.operator_public_key ≡ some public_key
  pub id : Bytes
  pub identity : pq_id_from_public_key noble public_key network ≡ ok id
  pub names : (r.id === noble.bytes_to_hex id) ≡ true
  pub lifecycle :
      lifecycle_is_valid r.status (or_empty r.registration_txid) (or_empty r.withdrawal_txid) ≡ true

module _ (noble : Noble) (r : MasternodeRecord) (network : Network) (local : List Text) where
  pub canonical_masternode_record-IsCanonical :
      (c : MasternodeRecord)
      → canonical_masternode_record noble r network local ≡ ok c
      → IsCanonical noble r network local × (c ≡ canonical_form r network)
  unfolding canonical_masternode_record
  canonical_masternode_record-IsCanonical c h =
      throw_inv (not (record_is_well_formed r network local)) _ _ h λ formed h1.
        bind_inv (require (noble.hex_to_bytes r.operator_public_key) bad_hex) h1
          λ public_key read h2.
            bind_inv (pq_id_from_public_key noble public_key network) h2 λ id identified h3.
              throw_inv (not (r.id === noble.bytes_to_hex id)) _ _ h3 λ named h4.
                throw_inv _ _ _ h4 λ alive h5. (
                  record {
                    form = not-false _ formed;
                    public_key = public_key;
                    reads = require_ok _ _ read;
                    id = id;
                    identity = identified;
                    names = not-false _ named;
                    lifecycle = not-false _ alive;
                  },
                  cc (ok-injective h5),
                )

  pub IsCanonical-canonical_masternode_record :
      IsCanonical noble r network local
      → canonical_masternode_record noble r network local ≡ ok (canonical_form r network)
  unfolding canonical_masternode_record
  IsCanonical-canonical_masternode_record c =
      rw (c.form, c.reads, c.identity, c.names, c.lifecycle) refl

  canonical_form-IsCanonical :
      IsCanonical noble r network local → IsCanonical noble (canonical_form r network) network local
  unfolding record_is_well_formed
  canonical_form-IsCanonical c = record {
    form = ground (arith, c.form, same_network_refl network);
    public_key = c.public_key;
    reads = c.reads;
    id = c.id;
    identity = c.identity;
    names = c.names;
    lifecycle = rw (or_empty-present) c.lifecycle;
  }

-- An accepted record is its own canonical form.
pub canonical_masternode_record_again :
    (noble : Noble) (r : MasternodeRecord) (network : Network) (local : List Text)
    (c : MasternodeRecord)
    → canonical_masternode_record noble r network local ≡ ok c
    → canonical_masternode_record noble c network local ≡ ok c
canonical_masternode_record_again noble r network local c h =
    let (accepted, shape) = canonical_masternode_record-IsCanonical noble r network local c h in
    rw shape (
      rw
        (IsCanonical-canonical_masternode_record noble (canonical_form r network) network local
          (canonical_form-IsCanonical noble r network local accepted))
        (rw or_empty-present refl))
