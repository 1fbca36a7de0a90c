-- ===== src/Link.antt =====
-- daemon/crates/kpk-spike/src/link.rs: signature checking, key loading, and what a key is called.
use Prim.Native.String.{◌++◌ as str_append}
use kpasskey.Base.{ℕ, zero, suc, ◌+◌, ◌/◌, ◌%◌, List, [], ◌∷◌, String, get_or}
use kpasskey.Base
use kpasskey.Base.Errors.{Result, ok, context, ◌>>=◌}
use kpasskey.Base.Bytes.{Bytes}
use kpasskey.Base.Text.{concat}
use kpasskey.External.{Crypto}
pub mod Identity

abbrev pub id_bytes : ℕ
id_bytes = 16

abbrev pub fingerprint_bytes : ℕ
fingerprint_bytes = 6

-- One hexadecimal digit, in lower and in upper case.
abbrev pub hex_digit : ℕ → String
hex_digit n =
    get_or
      ("0" ∷ "1" ∷ "2" ∷ "3" ∷ "4" ∷ "5" ∷ "6" ∷ "7" ∷ "8" ∷ "9" ∷ "a" ∷ "b" ∷ "c" ∷ "d" ∷ "e" ∷ "f"
        ∷ [])
      n "0"

abbrev pub upper_hex_digit : ℕ → String
upper_hex_digit n =
    get_or
      ("0" ∷ "1" ∷ "2" ∷ "3" ∷ "4" ∷ "5" ∷ "6" ∷ "7" ∷ "8" ∷ "9" ∷ "A" ∷ "B" ∷ "C" ∷ "D" ∷ "E" ∷ "F"
        ∷ [])
      n "0"

-- `hex`: "{byte:02x}" for each byte
unfoldable pub hex : Bytes → String
hex [] = ""
hex (byte ∷ bytes) =
    str_append (hex_digit (byte / 16)) (str_append (hex_digit (byte % 16)) (hex bytes))

-- `hex(…).to_uppercase()`
unfoldable pub upper_hex : Bytes → String
upper_hex [] = ""
upper_hex (byte ∷ bytes) =
    concat (upper_hex_digit (byte / 16) ∷ upper_hex_digit (byte % 16) ∷ upper_hex bytes ∷ [])

-- `bytes.chunks(2)`, each in upper-case hex
unfoldable pub groups : Bytes → List String
groups [] = []
groups (a ∷ []) = upper_hex (a ∷ []) ∷ []
groups (a ∷ b ∷ bytes) = upper_hex (a ∷ b ∷ []) ∷ groups bytes

-- `groups.join(" ")`
unfoldable pub join : String → List String → String
join separator [] = ""
join separator (s ∷ []) = s
join separator (s ∷ t ∷ ss) = concat (s ∷ separator ∷ join separator (t ∷ ss) ∷ [])

module _ (c : Crypto) where
  open c use {
    VerifyingKey, from_public_key_pem, verifying_key, to_public_key_der, sha256, from_der, verify,
  }

  unfoldable pub verify_assertion : VerifyingKey → String → Bytes → Result (Unit {0})
  verify_assertion key sent_line der_signature = do
    signature ← context "signature is not valid DER ECDSA" (from_der der_signature)
    context "signature does not verify against the enrolled device key"
        (verify key sent_line signature)

  unfoldable pub load_verifying_key : String → Result VerifyingKey
  load_verifying_key pem = do
    public ← context "device public key is not a P-256 SPKI PEM" (from_public_key_pem pem)
    ok (verifying_key public)

  unfoldable pub spki_digest : String → Result Bytes
  spki_digest pem = do
    public ← context "device public key is not a P-256 SPKI PEM" (from_public_key_pem pem)
    der ← context "re-encoding the device key as SPKI DER" (to_public_key_der public)
    ok (sha256 der)

  unfoldable pub key_id : String → Result String
  key_id pem = do digest ← spki_digest pem; ok (hex (Base.take id_bytes digest))

  unfoldable pub key_fingerprint : String → Result String
  key_fingerprint pem = do
    digest ← spki_digest pem
    ok (join " " (groups (Base.take fingerprint_bytes digest)))
