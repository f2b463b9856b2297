-- ===== src/Store/Receive.antt =====
-- The receive addresses go round.
use native.Mathlib.Nat.{add-mod_right, mod-eq_of_lt, mod-lt, mod-add-mod}
use organic_web_wallet.Prelude.{
  ℕ, zero, suc, ◌+◌, ◌-◌, ◌%◌, ◌<◌, ◌≡◌, refl, sym, ap, ◌∙◌, false, inl, inr, some, List, [], ◌∷◌,
  length, get_or, get_elem?, leb, ◌==◌, Bool-cases, leb→le, Result, ok, ◌>>=◌, arith,
}
use organic_web_wallet.Platform.{Text}
use organic_web_wallet.Store.Records.{Store}
use organic_web_wallet.Store.Keys.{get_addresses, get_next_receive_address}

-- A number of calls one after another.
pub receive_many : ℕ → Store → Result (List Text × Store)
receive_many zero s = ok ([], s)
receive_many (suc n) s = do
  (address, next) ← get_next_receive_address s
  (others, last) ← receive_many n next
  ok (address ∷ others, last)

abbrev moved : Store → ℕ → Store
moved s k = record s { receive_cursor = s.receive_cursor + k }

-- What `n` calls give, from a cursor on.
abbrev pub given_out : List Text → ℕ → ℕ → List Text
given_out addresses cursor zero = []
given_out addresses cursor (suc n) =
    get_or addresses (cursor % length addresses) [] ∷ given_out addresses (cursor + 1) n

receive_many-given_out :
    (n : ℕ) (s : Store)
    → (length (get_addresses s) == 0) ≡ false
    → receive_many n s ≡ ok (given_out (get_addresses s) s.receive_cursor n, moved s n)
unfolding receive_many get_next_receive_address
receive_many-given_out zero s h =
    let still : s.receive_cursor ≡ s.receive_cursor + 0 = omega arith in
    ap (λ (c : ℕ). ok ([], record s { receive_cursor = c })) still
receive_many-given_out (suc n) s h =
    let places : s.receive_cursor + 1 + n ≡ s.receive_cursor + suc n = omega arith in
    rw (h, receive_many-given_out n (moved s 1) h)
      (ap
        (λ (c : ℕ).
          ok
            (given_out (get_addresses s) s.receive_cursor (suc n), record s { receive_cursor = c }))
        places)

-- The place in a round at which an address comes.
round : (n cursor i : ℕ) → i < n → (j : ℕ) × (j < n) × ((cursor + j) % n ≡ i)
round n cursor i h = elim (Bool-cases (leb (cursor % n) i)) [
  | inl up ↦
      let below = leb→le (cursor % n) i up in
      (
        i - cursor % n,
        omega arith,
        sym (mod-add-mod cursor n (i - cursor % n))
            ∙ ap (λ (t : ℕ). t % n) (omega (arith, below))
            ∙ mod-eq_of_lt h,
      )
  | inr down ↦
      let above : i < cursor % n = ground (arith, down) in
      let small = mod-lt cursor {m = n} (omega arith) in
      (
        i + n - cursor % n,
        omega arith,
        sym (mod-add-mod cursor n (i + n - cursor % n))
            ∙ ap (λ (t : ℕ). t % n) (omega (arith, above))
            ∙ add-mod_right i n
            ∙ mod-eq_of_lt h,
      )
]

given_out-get_elem? :
    (n cursor j : ℕ) (addresses : List Text)
    → j < n
    → get_elem? (given_out addresses cursor n) j
      ≡ some (get_or addresses ((cursor + j) % length addresses) [])
given_out-get_elem? zero cursor j addresses h = absurd (omega arith)
given_out-get_elem? (suc n) cursor zero addresses h =
    let same : cursor + 0 ≡ cursor = omega arith in rw same refl
given_out-get_elem? (suc n) cursor (suc j) addresses h =
    let same : cursor + 1 + j ≡ cursor + suc j = omega arith in
    rw (← same) (given_out-get_elem? n (cursor + 1) j addresses (omega arith))

get_or-get_elem? :
    (addresses : List Text) (i : ℕ) (a : Text)
    → get_elem? addresses i ≡ some a
    → (get_or addresses i [] ≡ a) × (i < length addresses)
get_or-get_elem? [] i a h = cc
get_or-get_elem? (x ∷ xs) zero a h = (cc, omega arith)
get_or-get_elem? (x ∷ xs) (suc i) a h =
    let (same, below) = get_or-get_elem? xs i a h in (same, omega arith)

-- A wallet with addresses gives one out at every call, and each of them among as many calls in a row as
-- there are addresses, wherever the cursor stands.
pub receive_many_all :
    (s : Store) (i : ℕ) (a : Text)
    → get_elem? (get_addresses s) i ≡ some a
    → (out : List Text) × (s' : Store) × (j : ℕ) × (receive_many (length (get_addresses s)) s
        ≡ ok (out, s'))
      × (get_elem? out j ≡ some a)
receive_many_all s i a h =
    let addresses = get_addresses s in
    let n = length addresses in
    let (same, below) = get_or-get_elem? addresses i a h in
    let some_addresses : (n == 0) ≡ false = ground (arith, below) in
    let (j, early, place) = round n s.receive_cursor i below in
    (
      given_out addresses s.receive_cursor n,
      moved s n,
      j,
      receive_many-given_out n s some_addresses,
      given_out-get_elem? n s.receive_cursor j addresses early
          ∙ ap (λ (t : ℕ). some (get_or addresses t [])) place
          ∙ ap some same,
    )
