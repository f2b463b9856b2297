-- ===== src/Wire/LittleEndian.antt =====
-- Little-endian bytes, and the reads of a fixed number of them.
use native.Mathlib.Nat.{pow-suc}
use organic_web_wallet.Prelude.{
  ℕ, zero, suc, ◌+◌, ◌*◌, ◌/◌, ◌%◌, ◌^◌, ◌<◌, ◌≡◌, refl, ap, [], ◌∷◌, ◌++◌, length, arith, ok,
  take-append-drop, length-take, length-append, take-append_left, drop-append_left,
}
use organic_web_wallet.Platform.{Bytes, IsBytes}
use organic_web_wallet.Wire.Codec.{le_bytes, le_value, read}

pub length-le_bytes : (k n : ℕ) → length (le_bytes k n) ≡ k
unfolding le_bytes
length-le_bytes zero n = refl
length-le_bytes (suc k) n = ap suc (length-le_bytes k (n / 256))

pub le_bytes-IsBytes : (k n : ℕ) → IsBytes (le_bytes k n)
unfolding le_bytes
le_bytes-IsBytes zero n = tt
le_bytes-IsBytes (suc k) n = (omega arith, le_bytes-IsBytes k (n / 256))

pow_step : (k : ℕ) → 256 ^ suc k ≡ 256 * 256 ^ k
pow_step k = rw pow-suc (omega arith)

pub le_value-le_bytes : (k n : ℕ) → n < 256 ^ k → le_value (le_bytes k n) ≡ n
unfolding le_bytes le_value
le_value-le_bytes zero n h = omega arith
le_value-le_bytes (suc k) n h =
    omega (arith, le_value-le_bytes k (n / 256) (omega (arith, pow_step k)))

pub le_value-lt : (bs : Bytes) → IsBytes bs → le_value bs < 256 ^ length bs
unfolding le_value
le_value-lt [] h = omega arith
le_value-lt (b ∷ bs) h = omega (arith, pow_step (length bs), le_value-lt bs h.1)

pub le_bytes-le_value : (bs : Bytes) → IsBytes bs → le_bytes (length bs) (le_value bs) ≡ bs
unfolding le_bytes le_value
le_bytes-le_value [] h = refl
le_bytes-le_value (b ∷ bs) h =
    let low : (b + 256 * le_value bs) % 256 ≡ b = omega arith in
    let high : (b + 256 * le_value bs) / 256 ≡ le_value bs = omega arith in
    rw (low, high, le_bytes-le_value bs h.1)

-- A read takes the bytes that stand first.
pub read-append : (n : ℕ) (xs ys : Bytes) → length xs ≡ n → read n (xs ++ ys) ≡ ok (xs, ys)
unfolding read
read-append n xs ys h =
    rw (← h) (rw (take-append_left, drop-append_left) (ground (arith, length-append xs ys)))

-- A successful read cuts its input.
pub read_cuts :
    (n : ℕ) (s b rest : Bytes) → read n s ≡ ok (b, rest) → (s ≡ b ++ rest) × (length b ≡ n)
unfolding read
read_cuts n s b rest h = ground (arith, take-append-drop n s, length-take n s)
