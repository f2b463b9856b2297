-- ===== src/Platform.antt =====
-- What the modelled files take from JavaScript and from the hash and hex library that they import
-- (@noble/hashes, not part of the repository): numbers of several kinds, texts, byte arrays.
mod Numbers
pub mod Hex
unfoldable pub use Numbers.*
use Prim.Native.Char.{code}
use Prim.Native.String.{String}
use mathlib.Core.Path.{subst}
use organic_web_wallet.Prelude.{
  ℕ, ◌*◌, ◌<◌, ◌≡◌, inl, inr, Option, none, some, List, [], ◌∷◌, length, All, Result, bad_hex,
  require, ok, Option-cases,
}

-- A text is the list of its code units, a byte array the list of its elements.
abbrev pub Text : Type 0
Text = List ℕ

abbrev pub Bytes : Type 0
Bytes = List ℕ

abbrev pub IsByte : ℕ → Type 0
IsByte b = b < 256

abbrev pub IsBytes : Bytes → Type 0
IsBytes = All IsByte

-- The code units of an ASCII literal.
abbrev pub units : String → Text
units String.[] = []
units (String.◌∷◌ c s) = code c ∷ units s

-- The library's functions; `hexToBytes` throws on a text that is not hexadecimal.
pub record Noble : Type 0 where
  pub sha256 : Bytes → Bytes
  pub hex_to_bytes : Text → Option Bytes
  pub bytes_to_hex : Bytes → Text

-- What the code relies on: digests of 32 bytes, two hexadecimal digits for each byte, and hex that
-- reads back what it wrote.
pub record NobleLaws (noble : Noble) : Type 0 where
  pub length-sha256 : (b : Bytes) → length (noble.sha256 b) ≡ 32
  pub sha256-IsBytes : (b : Bytes) → IsBytes (noble.sha256 b)
  pub hex_to_bytes-IsBytes : (t : Text) (b : Bytes) → noble.hex_to_bytes t ≡ some b → IsBytes b
  pub length-hex_to_bytes :
      (t : Text) (b : Bytes) → noble.hex_to_bytes t ≡ some b → 2 * length b ≡ length t
  pub hex_to_bytes-bytes_to_hex :
      (b : Bytes) → IsBytes b → noble.hex_to_bytes (noble.bytes_to_hex b) ≡ some b

-- A `Uint8Array`, or a text for `hexToBytes`.
pub data ByteSource : Type 0 where
  bytes : Bytes → ByteSource
  hex : Text → ByteSource

-- `x instanceof Uint8Array ? x : hexToBytes(x)`
unfoldable pub source_bytes : Noble → ByteSource → Result Bytes
source_bytes noble (bytes b) = ok b
source_bytes noble (hex t) = require (noble.hex_to_bytes t) bad_hex

-- The bytes of a byte array are bytes.
abbrev pub IsSource : ByteSource → Type 0
IsSource (bytes b) = IsBytes b
IsSource (hex t) = Unit {0}

pub source_bytes-IsBytes :
    {noble : Noble} (laws : NobleLaws noble) (s : ByteSource) (b : Bytes)
    → IsSource s
    → source_bytes noble s ≡ ok b
    → IsBytes b
unfolding source_bytes
source_bytes-IsBytes laws (bytes c) b h e = subst IsBytes (cc) h
source_bytes-IsBytes {noble = noble} laws (hex t) b h e =
    elim (Option-cases (noble.hex_to_bytes t)) [
      | inl fails ↦ cc
      | inr (a, reads) ↦ laws.hex_to_bytes-IsBytes t b (cc)
    ]
