-- ===== src/Store/Checks.antt =====
-- The checks of scripts/pqwallet/pqwallet-store.js on passwords, networks, stored secrets and the
-- masternode records of a backup.
use organic_web_wallet.Prelude.{
  ℕ, Bool, true, false, not, ◌&&◌, ◌||◌, Option, none, some, List, [], ◌∷◌, length, ltb, leb, ◌==◌,
  ◌===◌, Result, ok, err, ◌>>=◌, ◌>>◌, throw_if, require, password_required, password_short,
  unsupported_network, backup_record, backup_identity, backup_lifecycle, service_form, bad_hex,
}
use organic_web_wallet.Platform.{Text, Noble, is_digit, max_safe_integer}
use organic_web_wallet.Address.{
  Network, testnet, regtest, unknown, pq_address_domain, is_valid_pq_address, pq_id_from_public_key,
}
use organic_web_wallet.Masternode.Service.{read_number, read_part}
use organic_web_wallet.Store.Records.{MasternodeRecord, Status, has}

abbrev pub min_pass_length : ℕ
min_pass_length = 6

abbrev pub max_keys : ℕ
max_keys = 100

abbrev pub max_encrypted_secret_length : ℕ
max_encrypted_secret_length = 512

unfoldable pub assert_password : Text → Result (Unit {0})
assert_password password = do
  throw_if (length password == 0) password_required
  throw_if (ltb (length password) min_pass_length) password_short
  ok tt

unfoldable pub assert_network : Network → Result (Unit {0})
assert_network network = do _ ← require (pq_address_domain network) unsupported_network; ok tt

unfoldable pub valid_encrypted_secret : Text → Bool
valid_encrypted_secret t = ltb 0 (length t) && leb (length t) max_encrypted_secret_length

-- `[0-9a-f]`
abbrev pub is_lower_hex : ℕ → Bool
is_lower_hex c = is_digit c || (leb b'a' c && leb c b'f')

unfoldable pub all_lower_hex : Text → Bool
all_lower_hex [] = true
all_lower_hex (c ∷ cs) = is_lower_hex c && all_lower_hex cs

-- `/^[0-9a-f]{n}$/`
unfoldable pub is_hex_text : ℕ → Text → Bool
unfolding all_lower_hex
is_hex_text n t = length t == n && all_lower_hex t

-- `/^0+$/` on a text that is not empty
unfoldable pub all_zeros : Text → Bool
all_zeros [] = true
all_zeros (c ∷ cs) = c == b'0' && all_zeros cs

unfoldable pub valid_transaction_id : Text → Bool
unfolding is_hex_text all_zeros
valid_transaction_id t = is_hex_text 64 t && not (all_zeros t)

unfoldable pub valid_outpoint : Text → ℕ → Bool
unfolding valid_transaction_id
valid_outpoint txid vout = valid_transaction_id txid && leb vout 0xffffffff

unfoldable pub read_service : Text → Result ((ℕ × ℕ × ℕ × ℕ) × ℕ)
read_service t = do
  (a, t1) ← read_part b'.' t
  (b, t2) ← read_part b'.' t1
  (c, t3) ← read_part b'.' t2
  (d, t4) ← read_part b':' t3
  (port, rest) ← require (read_number 5 t4) service_form
  throw_if (not (length rest == 0)) service_form
  ok ((a, b, c, d), port)

unfoldable pub good_endpoint : Result ((ℕ × ℕ × ℕ × ℕ) × ℕ) → Bool
good_endpoint (ok ((a, b, c, d), port)) =
    (leb a 255 && (leb b 255 && (leb c 255 && leb d 255)))
    && (leb 1 port && (leb port 65535 && not (port == 43721)))
good_endpoint (err e) = false

unfoldable pub valid_service : Text → Bool
unfolding read_service good_endpoint
valid_service [] = true
valid_service (c ∷ cs) = good_endpoint (read_service (c ∷ cs))

-- `===` of two network names
unfoldable pub same_network : Network → Network → Bool
same_network testnet testnet = true
same_network regtest regtest = true
same_network unknown unknown = true
same_network _ _ = false

unfoldable pub known_status : Status → Bool
known_status Status.other = false
known_status _ = true

-- `value ?? ''`
abbrev pub or_empty : Option Text → Text
or_empty none = []
or_empty (some t) = t

abbrev pub is_empty : Text → Bool
is_empty [] = true
is_empty (c ∷ cs) = false

unfoldable pub lifecycle_is_valid : Status → Text → Text → Bool
lifecycle_is_valid Status.draft registration withdrawal =
    is_empty registration && is_empty withdrawal
lifecycle_is_valid Status.registered registration withdrawal =
    valid_transaction_id registration && is_empty withdrawal
lifecycle_is_valid Status.withdrawn registration withdrawal =
    valid_transaction_id registration && valid_transaction_id withdrawal
lifecycle_is_valid Status.other registration withdrawal = false

-- The condition under which a record is refused at once.
unfoldable pub record_is_well_formed : MasternodeRecord → Network → List Text → Bool
record_is_well_formed r network local =
    same_network r.network network
    && (is_hex_text 64 r.id
        && (is_hex_text 2624 r.operator_public_key
            && (valid_encrypted_secret r.encrypted_operator_seed
                && (leb r.created_at max_safe_integer
                    && (known_status r.status
                        && (has local r.owner_address
                            && (has local r.collateral_address
                                && (is_valid_pq_address r.payout_address network
                                    && ((is_empty r.operator_payout_address
                                          || is_valid_pq_address r.operator_payout_address network)
                                        && (leb r.operator_reward 10000
                                            && (not (
                                                  ltb 0 r.operator_reward
                                                  && is_empty r.operator_payout_address)
                                                && (valid_service r.service
                                                    && valid_outpoint r.collateral_txid
                                                        r.collateral_vout))))))))))))

-- `...(text ? { field: text } : {})`
abbrev pub present : Text → Option Text
present [] = none
present (c ∷ cs) = some (c ∷ cs)

unfoldable pub canonical_masternode_record :
    Noble → MasternodeRecord → Network → List Text → Result MasternodeRecord
canonical_masternode_record noble r network local = do
  throw_if (not (record_is_well_formed r network local)) backup_record
  public_key ← require (noble.hex_to_bytes r.operator_public_key) bad_hex
  id ← pq_id_from_public_key noble public_key network
  throw_if (not (r.id === noble.bytes_to_hex id)) backup_identity
  throw_if
      (not
        (lifecycle_is_valid r.status (or_empty r.registration_txid) (or_empty r.withdrawal_txid)))
      backup_lifecycle
  ok (record r {
    network = network;
    registration_txid = some (or_empty r.registration_txid);
    withdrawal_txid = present (or_empty r.withdrawal_txid);
  })
