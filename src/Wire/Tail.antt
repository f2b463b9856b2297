-- ===== src/Wire/Tail.antt =====
-- The parts of a transaction around its inputs and outputs.
use organic_web_wallet.Prelude.{
  ℕ, ◌^◌, ◌≤◌, ◌<◌, ◌≡◌, refl, sym, true, false, not, [], ◌∷◌, ◌++◌, length, arith, ◌==◌, ok,
  bind_inv, throw_inv, ok-injective,
}
use mathlib.Core.Path.{subst}
use mathlib.Core.List.{append-nil}
use organic_web_wallet.Prelude.Int.{ℤ, pos}
use organic_web_wallet.Platform.{Bytes, IsBytes, max_safe_integer, bigint, whole}
use organic_web_wallet.Wire.Codec.{
  le_bytes, compact_size, read, read_u8, read_le, read_i16, read_i64, read_count, signed, i64le,
  to_big_int,
}
use organic_web_wallet.Wire.CompactSize.{
  read_le_cuts, read_u8_cuts, read_count_cuts, read_cuts_bytes, read_u8-cons, read_le-append,
  read_count-append,
}
use organic_web_wallet.Wire.LittleEndian.{read-append}
use organic_web_wallet.Wire.Parse.{read_tail, is_int}

signed_small : (n m : ℕ) → m < 2 ^ 15 → n < 2 ^ 16 → is_int (signed 16 n) m ≡ true → n ≡ m
unfolding signed
signed_small n m hm hn h = ground arith

-- The two bytes of a field that has to hold `m`.
pub read_i16_cuts :
    (m : ℕ) (s : Bytes) (out : ℤ × Bytes)
    → m < 2 ^ 15
    → IsBytes s
    → read_i16 s ≡ ok out
    → is_int out.0 m ≡ true
    → (s ≡ le_bytes 2 m ++ out.1) × IsBytes out.1
unfolding read_i16
read_i16_cuts m s out hm h e same = bind_inv (read_le 2 s) e λ (n, rest) reads e1.
    let (cut, fits, h1) = read_le_cuts 2 n s rest h reads in
    let e2 : (signed 16 n, rest) ≡ out = ok-injective e1 in
    let value : n ≡ m =
      signed_small n m hm (omega arith) (subst (λ o. is_int o.0 m ≡ true) (sym e2) same) in
    subst (λ o. (s ≡ le_bytes 2 m ++ o.1) × IsBytes o.1) e2 (rw (← value) cut, h1)

value_bytes :
    (n v : ℕ) → n < 2 ^ 64 → signed 64 n ≡ pos v → i64le (bigint (signed 64 n)) ≡ ok (le_bytes 8 n)
unfolding signed i64le to_big_int whole
value_bytes n v hn h = ground arith

-- A value that is not negative is written with the bytes that it was read from.
pub read_i64_cuts :
    (s : Bytes) (out : ℤ × Bytes)
    → IsBytes s
    → read_i64 s ≡ ok out
    → (b : Bytes) × ((v : ℕ) → out.0 ≡ pos v → i64le (bigint out.0) ≡ ok b)
      × (s ≡ b ++ out.1)
      × IsBytes out.1
unfolding read_i64
read_i64_cuts s out h e = bind_inv (read_le 8 s) e λ (n, rest) reads e1.
    let (cut, fits, h1) = read_le_cuts 8 n s rest h reads in
    subst
      (λ o.
        (b : Bytes) × ((v : ℕ) → o.0 ≡ pos v → i64le (bigint o.0) ≡ ok b)
        × (s ≡ b ++ o.1)
        × IsBytes o.1)
      (ok-injective e1) (le_bytes 8 n, (λ v is_v. value_bytes n v (omega arith) is_v), cut, h1)

pub record TailCut (s : Bytes) (out : ℕ × Bytes) : Type 0 where
  pub cut : s ≡ le_bytes 4 out.0 ++ ((0x00 ∷ 0x01 ∷ []) ++ (compact_size (length out.1) ++ out.1))
  pub locktime_fits : out.0 < 2 ^ 32
  pub payload_fits : length out.1 ≤ max_safe_integer
  pub payload_bytes : IsBytes out.1

empty : (s : Bytes) → not (length s == 0) ≡ false → s ≡ []
empty [] h = refl
empty (b ∷ s) h = absurd (ground arith)

pub read_tail_cuts :
    (s : Bytes) (out : ℕ × Bytes) → IsBytes s → read_tail s ≡ ok out → TailCut s out
unfolding read_tail
read_tail_cuts s out h e = bind_inv (read_le 4 s) e λ (locktime, s1) r1 e1.
    bind_inv (read_u8 s1) e1 λ (sapling, s2) r2 e2.
      throw_inv (not (sapling == 0)) _ _ e2 λ is_zero e3.
        bind_inv (read_u8 s2) e3 λ (flag, s3) r3 e4. throw_inv (not (flag == 1)) _ _ e4 λ is_one e5.
          bind_inv (read_count s3) e5 λ (size, s4) r4 e6.
            bind_inv (read size s4) e6 λ (payload, s5) r5 e7.
              throw_inv (not (length s5 == 0)) _ _ e7 λ nothing e8.
                let (c1, l1, h1) = read_le_cuts 4 locktime s s1 h r1 in
                let (c2, l2, h2) = read_u8_cuts sapling s1 s2 h1 r2 in
                let (c3, l3, h3) = read_u8_cuts flag s2 s3 h2 r3 in
                let (c4, l4, h4) = read_count_cuts size s3 s4 h3 r4 in
                let (c5, l5, b5, h5) = read_cuts_bytes size s4 payload s5 h4 r5 in
                let z : sapling ≡ 0 = ground arith in
                let o : flag ≡ 1 = ground arith in
                let none_left : s5 ≡ [] = empty s5 nothing in
                subst (TailCut s) (ok-injective e8) (record {
                  cut = rw (c1, c2, c3, c4, c5, none_left, z, o, l5) (rw append-nil refl);
                  locktime_fits = omega arith;
                  payload_fits = rw l5 l4;
                  payload_bytes = b5;
                })

-- The tail that is written is read back.
pub read_tail-append :
    (locktime : ℕ) (payload : Bytes)
    → locktime < 2 ^ 32
    → length payload ≤ max_safe_integer
    → read_tail
        (le_bytes 4 locktime ++ ((0x00 ∷ 0x01 ∷ []) ++ (compact_size (length payload) ++ payload)))
      ≡ ok (locktime, payload)
unfolding read_tail
read_tail-append locktime payload hl hp =
    let whole_read : read (length payload) payload ≡ ok (payload, []) =
      subst (λ t. read (length payload) t ≡ ok (payload, [])) (append-nil payload)
        (read-append (length payload) payload [] refl) in
    rw (read_le-append 4 locktime _ (omega arith)) (
      rw read_u8-cons
        (rw read_u8-cons (rw (read_count-append (length payload) payload hp) (rw whole_read refl))))
