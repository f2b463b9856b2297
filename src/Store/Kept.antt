-- ===== src/Store/Kept.antt =====
-- What the stores hold after an import: the keys in the order of their numbers, and the masternodes
-- that were read.
use mathlib.Core.List.{reverse, reverse-append, append-nil, append_assoc, Perm, perm_middle}
use mathlib.Core.List.Perm
use organic_web_wallet.Prelude.{
  ℕ, suc, ◌<◌, ◌≡◌, refl, sym, ap, ◌∙◌, true, false, List, [], ◌∷◌, ◌++◌, map, All, All-append,
  All-imp, Bool-cases, inl, inr, ===→eq, ◌===◌, ===_refl, ok, bind_inv, throw_inv, ok-injective,
  arith, backup_record,
}
use organic_web_wallet.Platform.{Text}
use organic_web_wallet.Address.{Network}
use organic_web_wallet.Store.Records.{
  KeyRecord, MasternodeRecord, BackupKey, Services, put_key, put_keys, before, put_masternode,
  put_masternodes, insert_by_id, sorted_keys, has,
}
use organic_web_wallet.Store.Checks.{canonical_masternode_record}
use organic_web_wallet.Store.Wallets.{backup_key_of}
use organic_web_wallet.Store.Imports.{
  check_backup_key, check_backup_keys, numbered_keys, import_masternodes, check_operator_seed,
}
use organic_web_wallet.Wire.Lists.{Each}
use organic_web_wallet.Store.Canonical.{canonical_masternode_record_again}

-- Numbers that go up by one from `i`.
abbrev pub Numbered : ℕ → List KeyRecord → Type 0
Numbered i [] = Unit {0}
Numbered i (r ∷ rs) = (r.id ≡ i) × Numbered (suc i) rs

pub numbered_keys-Numbered :
    (now i : ℕ) (keys : List BackupKey) → Numbered i (numbered_keys now i keys)
unfolding numbered_keys
numbered_keys-Numbered now i [] = tt
numbered_keys-Numbered now i (key ∷ keys) = (refl, numbered_keys-Numbered now (suc i) keys)

put_key-append :
    (r : KeyRecord) (kept : List KeyRecord)
    → All (λ (x : KeyRecord). x.id < r.id) kept
    → put_key r kept ≡ kept ++ (r ∷ [])
unfolding put_key
put_key-append r [] h = refl
put_key-append r (x ∷ xs) h = ground (arith, put_key-append r xs h.1)

pub put_keys-Numbered :
    (i : ℕ) (rs kept : List KeyRecord)
    → Numbered i rs
    → All (λ (x : KeyRecord). x.id < i) kept
    → put_keys rs kept ≡ kept ++ rs
unfolding put_keys
put_keys-Numbered i [] kept n h = sym (append-nil kept)
put_keys-Numbered i (r ∷ rs) kept n h = rw (put_key-append r kept (rw n.0 h)) (
    put_keys-Numbered (suc i) rs (kept ++ (r ∷ [])) n.1 (
      All-append (λ (x : KeyRecord). x.id < suc i) kept (r ∷ [])
        (All-imp (λ (x : KeyRecord) (lt : x.id < i). omega arith) kept h) (omega (arith, n.0)))
    ∙ append_assoc kept (r ∷ []) rs)

insert_by_id_first :
    (r : KeyRecord) (rs : List KeyRecord) → Numbered (suc r.id) rs → insert_by_id r rs ≡ r ∷ rs
unfolding insert_by_id
insert_by_id_first r [] n = refl
insert_by_id_first r (x ∷ xs) n = ground (arith, n.0)

pub sorted_keys-Numbered : (i : ℕ) (rs : List KeyRecord) → Numbered i rs → sorted_keys rs ≡ rs
unfolding sorted_keys
sorted_keys-Numbered i [] n = refl
sorted_keys-Numbered i (r ∷ rs) n =
    rw (sorted_keys-Numbered (suc i) rs n.1) (insert_by_id_first r rs (rw n.0 n.1))

pub backup_keys_of :
    (now i : ℕ) (keys : List BackupKey) → map backup_key_of (numbered_keys now i keys) ≡ keys
unfolding numbered_keys backup_key_of
backup_keys_of now i [] = refl
backup_keys_of now i (key ∷ keys) = rw (backup_keys_of now (suc i) keys) refl

-- A record with a new id is added.
put_masternode-Perm :
    (ids : List Text) (r : MasternodeRecord) (kept : List MasternodeRecord)
    → has ids r.id ≡ false
    → All (λ (x : MasternodeRecord). has ids x.id ≡ true) kept
    → Perm (put_masternode r kept) (r ∷ kept)
unfolding put_masternode
put_masternode-Perm ids r [] fresh h = Perm.refl (r ∷ [])
put_masternode-Perm ids r (x ∷ xs) fresh h = elim (Bool-cases (x.id === r.id)) [
  | inl same ↦ absurd (let is = ===→eq x.id r.id same in cc (is, h.0, fresh))
  | inr other ↦ elim (Bool-cases (before r.id x.id)) [
    | inl first ↦ rw (other, first) (Perm.refl (r ∷ x ∷ xs))
    | inr later ↦
        rw (other, later)
          (Perm.trans (Perm.cons x (put_masternode-Perm ids r xs fresh h.1)) (Perm.swap r x xs))
  ]
]

put_masternode-All :
    (P : MasternodeRecord → Type 0) (r : MasternodeRecord) (kept : List MasternodeRecord)
    → P r
    → All P kept
    → All P (put_masternode r kept)
unfolding put_masternode
put_masternode-All P r [] p ps = (p, tt)
put_masternode-All P r (x ∷ xs) p ps = elim (Bool-cases (x.id === r.id)) [
  | inl same ↦ rw same (p, ps.1)
  | inr other ↦ elim (Bool-cases (before r.id x.id)) [
    | inl first ↦ rw (other, first) (p, ps)
    | inr later ↦ rw (other, later) (ps.0, put_masternode-All P r xs p ps.1)
  ]
]

has_more : (ids : List Text) (id t : Text) → has ids t ≡ true → has (id ∷ ids) t ≡ true
unfolding has
has_more ids id t h = ground (arith, h)

has_first : (ids : List Text) (id : Text) → has (id ∷ ids) id ≡ true
unfolding has
has_first ids id = rw (===_refl id) refl

-- The addresses that an import has seen are those of the keys, the last one first.
pub seen_addresses :
    (lib : Services) (password : Text) (network : Network) (mnemonic : Text) (index : ℕ)
    (seen out : List Text) (keys : List BackupKey)
    → check_backup_keys lib password network mnemonic index seen keys ≡ ok out
    → out ≡ reverse (map (λ (key : BackupKey). key.address) keys) ++ seen
unfolding check_backup_keys
seen_addresses lib password network mnemonic index seen out [] h = sym (ok-injective h)
seen_addresses lib password network mnemonic index seen out (key ∷ keys) h =
    let addresses = map (λ (k : BackupKey). k.address) keys in
    bind_inv (check_backup_key lib password network mnemonic index seen key) h λ _ _ h1.
      seen_addresses lib password network mnemonic (suc index) (key.address ∷ seen) out keys h1
      ∙ sym (append_assoc (reverse addresses) (key.address ∷ []) seen)
      ∙ ap (λ t. t ++ seen) (sym (reverse-append (key.address ∷ []) addresses))

module _ (lib : Services) (password : Text) (network : Network) (local : List Text) where
  -- The imported records have different ids, and so all of them are kept.
  pub put_masternodes-import_masternodes :
      (ids : List Text) (rs out kept : List MasternodeRecord)
      → import_masternodes lib password network local ids rs ≡ ok out
      → All (λ (x : MasternodeRecord). has ids x.id ≡ true) kept
      → Perm (put_masternodes out kept) (out ++ kept)
  unfolding put_masternodes import_masternodes
  put_masternodes-import_masternodes ids [] out kept h k = rw (← ok-injective h) (Perm.refl kept)
  put_masternodes-import_masternodes ids (r ∷ rs) out kept h k =
      bind_inv (canonical_masternode_record lib.noble r network local) h λ c _ h1.
        throw_inv (has ids c.id) backup_record _ h1 λ fresh h2.
          bind_inv (check_operator_seed lib password c) h2 λ _ _ h3.
            bind_inv (import_masternodes lib password network local (c.id ∷ ids) rs) h3
              λ others more h4. rw (← ok-injective h4) (
                Perm.trans
                  (put_masternodes-import_masternodes (c.id ∷ ids) rs others (put_masternode c kept)
                    more
                    (put_masternode-All (λ (x : MasternodeRecord). has (c.id ∷ ids) x.id ≡ true) c
                      kept (has_first ids c.id)
                      (All-imp (λ (x : MasternodeRecord). has_more ids c.id x.id) kept k)))
                  (Perm.trans (Perm.append_left others (put_masternode-Perm ids c kept fresh k))
                    (perm_middle others kept)))

  -- Each listed record is taken in its canonical form.
  pub import_masternodes-Each :
      (ids : List Text) (rs out : List MasternodeRecord)
      → import_masternodes lib password network local ids rs ≡ ok out
      → Each (λ r c. canonical_masternode_record lib.noble r network local ≡ ok c) rs out
  unfolding import_masternodes
  import_masternodes-Each ids [] out h = rw (← ok-injective h) tt
  import_masternodes-Each ids (r ∷ rs) out h =
      bind_inv (canonical_masternode_record lib.noble r network local) h λ c accepted h1.
        throw_inv (has ids c.id) backup_record _ h1 λ _ h2.
          bind_inv (check_operator_seed lib password c) h2 λ _ _ h3.
            bind_inv (import_masternodes lib password network local (c.id ∷ ids) rs) h3
              λ others more h4.
                rw (← ok-injective h4)
                  (accepted, import_masternodes-Each (c.id ∷ ids) rs others more)

  -- What was taken is its own canonical form.
  pub canonical_again :
      (rs out : List MasternodeRecord)
      → Each (λ r c. canonical_masternode_record lib.noble r network local ≡ ok c) rs out
      → All (λ c. canonical_masternode_record lib.noble c network local ≡ ok c) out
  canonical_again [] [] h = tt
  canonical_again [] (c ∷ out) h = absurd h
  canonical_again (r ∷ rs) [] h = absurd h
  canonical_again (r ∷ rs) (c ∷ out) h = (
    canonical_masternode_record_again lib.noble r network local c h.0,
    canonical_again rs out h.1,
  )
