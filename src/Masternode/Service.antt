-- ===== src/Masternode/Service.antt =====
-- `encodeService` of scripts/pqwallet/pqmasternode.js: a numeric IPv4 endpoint in 18 bytes.
use organic_web_wallet.Prelude.{
  ℕ, ◌/◌, ◌%◌, ◌≤◌, ◌≡◌, refl, not, ◌&&◌, ◌||◌, Option, none, some, [], ◌∷◌, ◌++◌, length,
  replicate, All-append, arith, ltb, leb, ◌==◌, if◌then◌else◌, Result, ok, ◌>>=◌, ◌>>◌, throw_if,
  require, bind_inv, throw_inv, ok-injective, service_form, service_port, service_mainnet_port,
  length-append,
}
use organic_web_wallet.Platform.{Bytes, Text, IsByte, IsBytes, is_digit, digits_value}

-- The digits at the front, and what follows them.
unfoldable pub span_digits : Text → Text × Text
span_digits [] = ([], [])
span_digits (c ∷ cs) =
    let (digits, rest) = span_digits cs in if is_digit c then (c ∷ digits, rest) else ([], c ∷ cs)

-- `\d{1,most}`, whose value is given
unfoldable pub read_number : ℕ → Text → Option (ℕ × Text)
read_number most t =
    let (digits, rest) = span_digits t in
    if leb 1 (length digits) && leb (length digits) most
    then some (digits_value 0 digits, rest)
    else none

unfoldable pub expect : ℕ → Text → Option Text
expect c [] = none
expect c (d ∷ ds) = if c == d then some ds else none

-- A number and the separator behind it.
unfoldable pub read_part : ℕ → Text → Result (ℕ × Text)
read_part separator t = do
  (n, rest) ← require (read_number 3 t) service_form
  after ← require (expect separator rest) service_form
  ok (n, after)

-- `setUint16(0, value, false)`
abbrev pub u16be : ℕ → Bytes
u16be n = (n / 256 % 256) ∷ (n % 256) ∷ []

unfoldable pub encode_endpoint : Text → Result Bytes
encode_endpoint t = do
  (a, t1) ← read_part b'.' t
  (b, t2) ← read_part b'.' t1
  (c, t3) ← read_part b'.' t2
  (d, t4) ← read_part b':' t3
  (port, rest) ← require (read_number 5 t4) service_form
  throw_if (not (length rest == 0)) service_form
  throw_if (ltb 255 a || (ltb 255 b || (ltb 255 c || ltb 255 d))) service_form
  throw_if (ltb port 1 || ltb 65535 port) service_port
  throw_if (port == 43721) service_mainnet_port
  ok (replicate 10 0 ++ ((0xff ∷ 0xff ∷ []) ++ ((a ∷ b ∷ c ∷ d ∷ []) ++ u16be port)))

-- No service, or an empty one, is 18 zeros.
unfoldable pub encode_service : Option Text → Result Bytes
encode_service none = ok (replicate 18 0)
encode_service (some []) = ok (replicate 18 0)
encode_service (some (c ∷ cs)) = encode_endpoint (c ∷ cs)

-- The endpoint that the bytes stand for; its port is not that of the main network.
pub record Endpoint (b : Bytes) : Type 0 where
  pub octets : Bytes
  pub port : ℕ
  pub are_octets : IsBytes octets
  pub four : length octets ≡ 4
  pub in_range : (1 ≤ port) × (port ≤ 65535) × (port ≡ 43721 → ⊥)
  pub bytes : b ≡ replicate 10 0 ++ ((0xff ∷ 0xff ∷ []) ++ (octets ++ u16be port))

pub encode_endpoint-Endpoint : (t : Text) (b : Bytes) → encode_endpoint t ≡ ok b → Endpoint b
unfolding encode_endpoint
encode_endpoint-Endpoint t out h = bind_inv (read_part b'.' t) h λ (a, t1) _ h1.
    bind_inv (read_part b'.' t1) h1 λ (b, t2) _ h2. bind_inv (read_part b'.' t2) h2 λ (c, t3) _ h3.
      bind_inv (read_part b':' t3) h3 λ (d, t4) _ h4.
        bind_inv (require (read_number 5 t4) service_form) h4 λ (port, rest) _ h5.
          throw_inv (not (length rest == 0)) _ _ h5 λ _ h6.
            throw_inv (ltb 255 a || (ltb 255 b || (ltb 255 c || ltb 255 d))) _ _ h6 λ small h7.
              throw_inv (ltb port 1 || ltb 65535 port) _ _ h7 λ ranged h8.
                throw_inv (port == 43721) _ _ h8 λ other h9. record {
                  octets = a ∷ b ∷ c ∷ d ∷ [];
                  port = port;
                  are_octets = (ground arith, (ground arith, (ground arith, (ground arith, tt))));
                  four = refl;
                  in_range = (ground arith, ground arith, λ e. ground arith);
                  bytes = cc (ok-injective h9);
                }

-- An endpoint is encoded in 18 bytes.
pub length-encode_service :
    (s : Option Text) (b : Bytes) → encode_service s ≡ ok b → (length b ≡ 18) × IsBytes b
unfolding encode_service
length-encode_service none b h = rw (← ok-injective h) (refl, omega arith)
length-encode_service (some []) b h = rw (← ok-injective h) (refl, omega arith)
length-encode_service (some (c ∷ cs)) b h =
    let e : Endpoint b = encode_endpoint-Endpoint (c ∷ cs) b h in
    rw e.bytes (
      omega (arith, e.four, length-append e.octets (u16be e.port)),
      All-append IsByte (replicate 10 0) ((0xff ∷ 0xff ∷ []) ++ (e.octets ++ u16be e.port))
          (omega arith)
          (All-append IsByte (0xff ∷ 0xff ∷ []) (e.octets ++ u16be e.port) (omega arith)
            (All-append IsByte e.octets (u16be e.port) e.are_octets (omega arith))),
    )
