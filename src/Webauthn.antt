-- ===== src/Webauthn.antt =====
-- daemon/crates/kpk-spike/src/webauthn.rs: CTAP2 requests and responses.
use Prim.Native.String.{String}
use kpasskey.Base.{
  ℕ, ◌&&◌, Bool, true, false, Option, none, some, List, [], ◌∷◌, ◌++◌, length, ◌==◌, if◌then◌else◌,
}
use kpasskey.Base.Int.{ℤ, pos, negsuc, int_eq}
use kpasskey.Base.Errors.{Result, ok, err, bail, context, or_context, unwrap_or, ◌>>=◌}
use kpasskey.Base.Bytes.{Bytes, u16_to_be_bytes, u32_to_be_bytes, u16_try_from}
use kpasskey.Base.Text.{as_bytes}
use kpasskey.External.{Crypto, Cbor}
use kpasskey.Webauthn.Consts.{aaguid}
use text.Mathlib.Text.{◌==◌ as str_eq}
pub mod Consts
pub mod Layout

pub record MakeCredential : Type 0 where
  pub rp_id : String
  pub user_name : String

pub record GetAssertion : Type 0 where
  pub client_data_hash : Bytes
  pub rp_id : String
  pub allowed : List Bytes

unfoldable pub authenticator_data : Crypto → String → ℕ → ℕ → Option Bytes → Bytes
authenticator_data c rp_id flags sign_count attested =
    c.sha256 (as_bytes rp_id) ++ (flags ∷ u32_to_be_bytes sign_count ++ unwrap_or [] attested)

unfoldable pub attested_credential_data : Bytes → Bytes → Result Bytes
attested_credential_data credential_id cose_key = do
  len ← or_context "credential id is too long" (u16_try_from (length credential_id))
  ok (aaguid ++ (u16_to_be_bytes len ++ (credential_id ++ cose_key)))

module _ (b : Cbor) where
  open b use {Value, from_reader, into_writer, as_integer, as_text, as_array, as_map}
  open b use {integer, byte_string, text, map}

  -- `Value::Integer(number) => i128::from(*number) == key`
  unfoldable pub is_key : Value → ℤ → Bool
  is_key candidate key = elim (as_integer candidate) [ some n ↦ int_eq n key | none ↦ false ]

  unfoldable pub entry : List (Value × Value) → ℤ → Option Value
  entry [] key = none
  entry ((candidate, value) ∷ entries) key =
      if is_key candidate key then some value else entry entries key

  -- `Value::Text(text) if text == name`
  unfoldable pub is_name : Value → String → Bool
  is_name key name = elim (as_text key) [ some s ↦ str_eq s name | none ↦ false ]

  unfoldable pub named : List (Value × Value) → String → Option Value
  named [] name = none
  named ((key, found) ∷ entries) name = if is_name key name then some found else named entries name

  unfoldable pub field : Value → String → Option Value
  field value name = elim (as_map value) [ some entries ↦ named entries name | none ↦ none ]

  unfoldable pub text_field : Value → String → Option String
  text_field value name = elim (field value name) [ some v ↦ as_text v | none ↦ none ]

  unfoldable pub bytes : Value → Result Bytes
  bytes value = or_context "expected a CBOR byte string" (Cbor.as_bytes b value)

  unfoldable pub top_level_map : Bytes → Result (List (Value × Value))
  top_level_map payload = do
    value ← context "request body is not valid CBOR" (from_reader payload)
    or_context "request body is not a CBOR map" (as_map value)

  unfoldable pub encode : Value → Result Bytes
  encode value = context "encoding a CTAP2 response" (into_writer value)

  -- The user's name, if there is one.
  abbrev pub name_of : Option Value → Option String
  name_of none = none
  name_of (some user) = text_field user "name"

  unfoldable pub parse_make_credential : Bytes → Result MakeCredential
  parse_make_credential payload = do
    entries ← top_level_map payload
    rp ← or_context "makeCredential has no rp" (entry entries (pos 2))
    rp_id ← or_context "rp has no id" (text_field rp "id")
    ok (record { rp_id = rp_id; user_name = unwrap_or "user" (name_of (entry entries (pos 3))) })

  -- `filter_map` twice: an item without an id of bytes is left out.
  abbrev pub item_id : Option Value → Option Bytes
  item_id none = none
  item_id (some value) = Cbor.as_bytes b value

  unfoldable pub item_ids : List Value → List Bytes
  item_ids [] = []
  item_ids (item ∷ items) =
      let rest = item_ids items in
      elim (item_id (field item "id")) [ some raw ↦ raw ∷ rest | none ↦ rest ]

  abbrev pub items_of : Option Value → Option (List Value)
  items_of none = none
  items_of (some value) = as_array value

  unfoldable pub allowed_ids : Option Value → List Bytes
  allowed_ids value = item_ids (unwrap_or [] (items_of value))

  unfoldable pub parse_get_assertion : Bytes → Result GetAssertion
  parse_get_assertion payload = do
    entries ← top_level_map payload
    rp ← or_context "getAssertion has no rpId" (entry entries (pos 1))
    rp_id ← or_context "rpId is not a string" (as_text rp)
    hash ← or_context "getAssertion has no clientDataHash" (entry entries (pos 2))
    client_data_hash ← bytes hash
    ok (record {
      client_data_hash = client_data_hash;
      rp_id = rp_id;
      allowed = allowed_ids (entry entries (pos 3));
    })

  -- kty EC2, alg ES256, curve P-256, x and y
  abbrev pub key_map : Bytes → Bytes → Value
  key_map x y = map (
      (integer (pos 1), integer (pos 2))
      ∷ (integer (pos 3), integer (negsuc 6))
      ∷ (integer (negsuc 0), integer (pos 1))
      ∷ (integer (negsuc 1), byte_string x)
      ∷ (integer (negsuc 2), byte_string y)
      ∷ [])

  unfoldable pub cose_key : Bytes → Bytes → Result Bytes
  cose_key x y =
      if length x == 32 && length y == 32
      then encode (key_map x y)
      else bail "P-256 coordinates must be 32 bytes each"

  unfoldable pub make_credential_response : Bytes → Result Bytes
  make_credential_response auth_data = encode (
      map (
        (integer (pos 1), text "none")
        ∷ (integer (pos 2), byte_string auth_data)
        ∷ (integer (pos 3), map [])
        ∷ []))

  abbrev pub descriptor : Bytes → Value
  descriptor credential_id =
      map ((text "type", text "public-key") ∷ (text "id", byte_string credential_id) ∷ [])

  unfoldable pub get_assertion_response : Bytes → Bytes → Bytes → Result Bytes
  get_assertion_response credential_id auth_data signature = encode (
      map (
        (integer (pos 1), descriptor credential_id)
        ∷ (integer (pos 2), byte_string auth_data)
        ∷ (integer (pos 3), byte_string signature)
        ∷ []))
