-- ===== src/Signer/Keys.antt =====
-- scripts/pqwallet/mldsa.js: signing and verification.
use organic_web_wallet.Prelude.{Bool, ◌&&◌, Option, length, ◌==◌, Result, require, signing_refused}
use organic_web_wallet.Platform.{Bytes}
use organic_web_wallet.Address.{pq_public_key_size}
use organic_web_wallet.Wire.Payload.{pq_signature_size}

-- ML-DSA-44 of @noble/post-quantum: `sign` (secret key, message, context) may throw; `verify` (public
-- key, message, signature, context) is false where the library throws.
pub record MlDsa : Type 0 where
  pub sign : Bytes → Bytes → Bytes → Option Bytes
  pub verify : Bytes → Bytes → Bytes → Bytes → Bool

unfoldable pub pq_sign : MlDsa → Bytes → Bytes → Bytes → Result Bytes
pq_sign ml message secret_key context = require (ml.sign secret_key message context) signing_refused

unfoldable pub pq_verify : MlDsa → Bytes → Bytes → Bytes → Bytes → Bool
pq_verify ml signature message public_key context =
    length signature == pq_signature_size
    && (length public_key == pq_public_key_size && ml.verify public_key message signature context)
