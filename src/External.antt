-- ===== src/External.antt =====
-- What the daemon takes from crates that are not part of the repository: serde_json, p256 with
-- sha2, base64, and ciborium. Each is a record of the operations that the daemon calls.
use kpasskey.Base.{ℕ, ◌<◌, ◌^◌, ◌≡◌, Bool, Option, none, some, List, [], ◌∷◌, String, if◌then◌else◌}
use text.Mathlib.Text.{◌==◌ as str_eq}
use kpasskey.Base.Int.{ℤ, pos}
use kpasskey.Base.Errors.{Result, ok}
use kpasskey.Base.Bytes.{Bytes}

-- The last field with the name.
abbrev pub last_named : {A : Type 0} → String → List (String × A) → Option A
last_named name [] = none
last_named name ((other, value) ∷ fields) =
    let rest = last_named name fields in
    elim rest [ some found ↦ some found | none ↦ if str_eq other name then some value else none ]

-- serde_json: `object`, `text`, `number` and `boolean` are what the `json!` macro builds.
pub record Json : Type 1 where
  pub Value : Type 0
  pub from_str : String → Result Value
  pub to_string : Value → String
  pub to_string_pretty : Value → Result String
  pub get : Value → String → Option Value
  pub as_str : Value → Option String
  pub as_u64 : Value → Option ℕ
  pub as_bool : Value → Option Bool
  pub object : List (String × Value) → Value
  pub text : String → Value
  pub number : ℕ → Value
  pub boolean : Bool → Value
  -- `as_object_mut()` and `insert`
  pub with_field : Value → String → Value → Value

-- What the documentation says: a match brings the contents of its variant, and an object that
-- `json!` builds has its fields, the last of those with one name.
pub record JsonLaws (j : Json) : Type 0 where
  pub as_str-text : (s : String) → j.as_str (j.text s) ≡ some s
  pub as_bool-boolean : (t : Bool) → j.as_bool (j.boolean t) ≡ some t
  pub as_u64-number : (n : ℕ) → n < 2 ^ 64 → j.as_u64 (j.number n) ≡ some n
  pub get-object :
      (fields : List (String × j.Value)) (name : String)
      → j.get (j.object fields) name ≡ last_named name fields

-- p256 and sha2
pub record Crypto : Type 1 where
  pub PublicKey : Type 0
  pub VerifyingKey : Type 0
  pub Signature : Type 0
  pub from_public_key_pem : String → Result PublicKey
  pub verifying_key : PublicKey → VerifyingKey
  pub to_public_key_der : PublicKey → Result Bytes
  -- `to_encoded_point(false)`, and its coordinates
  pub x : PublicKey → Option Bytes
  pub y : PublicKey → Option Bytes
  pub sha256 : Bytes → Bytes
  pub from_der : Bytes → Result Signature
  pub verify : VerifyingKey → String → Signature → Result (Unit {0})

-- p256's signing side, which only the self test uses.
pub record Signing (c : Crypto) : Type 1 where
  pub SigningKey : Type 0
  -- `VerifyingKey::from`
  pub public_of : SigningKey → c.VerifyingKey
  pub sign : SigningKey → String → c.Signature
  -- `to_der().as_bytes()`
  pub to_der : c.Signature → Bytes

-- What the documentation says: a signature is read back from its DER form, and the key verifies what
-- it signed.
pub record SigningLaws (c : Crypto) (s : Signing c) : Type 0 where
  pub from_der-to_der : (signature : c.Signature) → c.from_der (s.to_der signature) ≡ ok signature
  pub verify-sign :
      (key : s.SigningKey) (message : String)
      → c.verify (s.public_of key) message (s.sign key message) ≡ ok tt

-- base64: the STANDARD and the URL_SAFE_NO_PAD engines
pub record Base64 : Type 0 where
  pub encode : Bytes → String
  pub decode : String → Result Bytes
  pub url_encode : Bytes → String
  pub url_decode : String → Result Bytes

-- ciborium: its `Value`, by what a match on each variant brings, and by the variants.
pub record Cbor : Type 1 where
  pub Value : Type 0
  pub from_reader : Bytes → Result Value
  pub into_writer : Value → Result Bytes
  pub as_integer : Value → Option ℤ
  pub as_bytes : Value → Option Bytes
  pub as_text : Value → Option String
  pub as_array : Value → Option (List Value)
  pub as_map : Value → Option (List (Value × Value))
  pub integer : ℤ → Value
  pub byte_string : Bytes → Value
  pub text : String → Value
  pub map : List (Value × Value) → Value

-- What the documentation says: a match brings the contents of its variant, and what was written
-- is read back.
pub record CborLaws (b : Cbor) : Type 0 where
  pub as_integer-integer : (n : ℕ) → n < 2 ^ 64 → b.as_integer (b.integer (pos n)) ≡ some (pos n)
  pub as_bytes-byte_string : (raw : Bytes) → b.as_bytes (b.byte_string raw) ≡ some raw
  pub as_text-text : (s : String) → b.as_text (b.text s) ≡ some s
  pub as_map-map : (entries : List (b.Value × b.Value)) → b.as_map (b.map entries) ≡ some entries
  pub from_reader-into_writer :
      (value : b.Value) (bytes : Bytes)
      → b.into_writer value ≡ ok bytes
      → b.from_reader bytes ≡ ok value
