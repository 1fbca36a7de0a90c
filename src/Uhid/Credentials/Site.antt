-- ===== src/Uhid/Credentials/Site.antt =====
-- daemon/crates/kpk-spike/src/webauthn.rs: what a site reads in the answers to the two commands.
use kpasskey.Base.{
  ◌<◌, ◌^◌, arith, ℕ, ◌≡◌, refl, ◌∙◌, Option, some, [], ◌∷◌, String, List, true, false, ◌==◌,
  if◌then◌else◌,
}
use kpasskey.Base.Int.{pos}
use kpasskey.Base.Errors.{Result, ok, or_context, ◌>>=◌, context-eq_ok}
use kpasskey.Base.Bytes.{Bytes}
use kpasskey.External.{Cbor, CborLaws}
use kpasskey.Webauthn.{
  make_credential_response, get_assertion_response, top_level_map, entry, is_key, named, is_name,
  field, bytes, encode, descriptor,
}

-- The parts of an answer to getAssertion.
pub record Assertion : Type 0 where
  pub credential_id : Bytes
  pub auth_data : Bytes
  pub signature : Bytes

module _ (cbor : Cbor) where
  -- CTAP2: the answer is a map from 1, 2 and 3.
  pub read_assertion : Bytes → Result Assertion
  read_assertion response = do
    entries ← top_level_map cbor response
    named_credential ← or_context "credential" (entry cbor entries (pos 1))
    id ← or_context "id" (field cbor named_credential "id")
    credential_id ← bytes cbor id
    data_value ← or_context "authData" (entry cbor entries (pos 2))
    auth_data ← bytes cbor data_value
    signature_value ← or_context "signature" (entry cbor entries (pos 3))
    signature ← bytes cbor signature_value
    ok (record { credential_id = credential_id; auth_data = auth_data; signature = signature })

  -- The format, and the authenticator data, of an answer to makeCredential.
  pub read_creation : Bytes → Result (Option String × Bytes)
  read_creation response = do
    entries ← top_level_map cbor response
    format ← or_context "fmt" (entry cbor entries (pos 1))
    data_value ← or_context "authData" (entry cbor entries (pos 2))
    auth_data ← bytes cbor data_value
    ok (Cbor.as_text cbor format, auth_data)

module _ (cbor : Cbor) (laws : CborLaws cbor) where
  open laws use {
    as_integer-integer, as_bytes-byte_string, as_text-text, as_map-map, from_reader-into_writer,
  }

  read_encoded :
      (entries : List (cbor.Value × cbor.Value)) (response : Bytes)
      → encode cbor (cbor.map entries) ≡ ok response
      → top_level_map cbor response ≡ ok entries
  unfolding encode top_level_map
  read_encoded entries response h =
      let written =
        context-eq_ok "encoding a CTAP2 response" (cbor.into_writer (cbor.map entries)) h in
      rw (from_reader-into_writer (cbor.map entries) response written, as_map-map entries) refl

  entry-cons :
      (n m : ℕ) (value : cbor.Value) (entries : List (cbor.Value × cbor.Value))
      → n < 2 ^ 64
      → entry cbor ((cbor.integer (pos n), value) ∷ entries) (pos m)
        ≡ (if n == m then some value else entry cbor entries (pos m))
  unfolding entry is_key
  entry-cons n m value entries small = rw (is_key-integer) refl
    where
      is_key-integer : is_key cbor (cbor.integer (pos n)) (pos m) ≡ (n == m)
      is_key-integer = rw (as_integer-integer n small, is_key) refl

  bytes-byte_string : (raw : Bytes) → bytes cbor (cbor.byte_string raw) ≡ ok raw
  unfolding bytes
  bytes-byte_string raw = rw (as_bytes-byte_string raw) refl

  descriptor-id : (id : Bytes) → field cbor (descriptor cbor id) "id" ≡ some (cbor.byte_string id)
  unfolding field named is_name
  descriptor-id id =
      rw
        (
          as_map-map (
              (cbor.text "type", cbor.text "public-key")
              ∷ (cbor.text "id", cbor.byte_string id)
              ∷ []),
          field,
          not_type,
          is_id,
        )
        refl
    where
      not_type : is_name cbor (cbor.text "type") "id" ≡ false
      not_type = rw (as_text-text "type", is_name) refl

      is_id : is_name cbor (cbor.text "id") "id" ≡ true
      is_id = rw (as_text-text "id", is_name) refl

  -- An answer of triple entries, numbered 1, 2 and 3.
  module _ (v1 v2 v3 : cbor.Value) where
    abbrev triple : List (cbor.Value × cbor.Value)
    triple =
        (cbor.integer (pos 1), v1) ∷ (cbor.integer (pos 2), v2) ∷ (cbor.integer (pos 3), v3) ∷ []

    entry_one : entry cbor triple (pos 1) ≡ some v1
    entry_one = entry-cons 1 1 v1 _ (omega arith)

    entry_two : entry cbor triple (pos 2) ≡ some v2
    entry_two = entry-cons 1 2 v1 _ (omega arith) ∙ entry-cons 2 2 v2 _ (omega arith)

    entry_three : entry cbor triple (pos 3) ≡ some v3
    entry_three =
        entry-cons 1 3 v1 _ (omega arith)
        ∙ entry-cons 2 3 v2 _ (omega arith)
        ∙ entry-cons 3 3 v3 _ (omega arith)

  pub read_response :
      (credential_id auth_data signature response : Bytes)
      → get_assertion_response cbor credential_id auth_data signature ≡ ok response
      → read_assertion cbor response
        ≡ ok
            (record { credential_id = credential_id; auth_data = auth_data; signature = signature })
  unfolding get_assertion_response read_assertion
  read_response credential_id auth_data signature response h =
      let v1 = descriptor cbor credential_id in
      let v2 = cbor.byte_string auth_data in
      let v3 = cbor.byte_string signature in
      rw
        (
          read_encoded (triple v1 v2 v3) response h,
          entry_one v1 v2 v3,
          descriptor-id credential_id,
          bytes-byte_string credential_id,
          entry_two v1 v2 v3,
          bytes-byte_string auth_data,
          entry_three v1 v2 v3,
          bytes-byte_string signature,
        )
        refl

  pub read_created :
      (auth_data response : Bytes)
      → make_credential_response cbor auth_data ≡ ok response
      → read_creation cbor response ≡ ok (some "none", auth_data)
  unfolding make_credential_response read_creation
  read_created auth_data response h =
      let v1 = cbor.text "none" in
      let v2 = cbor.byte_string auth_data in
      let v3 = cbor.map [] in
      rw
        (
          read_encoded (triple v1 v2 v3) response h,
          entry_one v1 v2 v3,
          entry_two v1 v2 v3,
          bytes-byte_string auth_data,
          as_text-text "none",
        )
        refl
