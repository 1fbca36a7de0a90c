-- ===== src/Tests/Webauthn.antt =====
-- The properties of the credential commands at concrete requests.
use kpasskey.Base.{◌≡◌, refl, some, [], ◌∷◌, ◌++◌, String, drop, first}
use kpasskey.Base.Int.{pos}
use kpasskey.Base.Errors.{Result, ok, unwrap_or, to_option}
use kpasskey.Base.Bytes.{Bytes}
use kpasskey.Base.Text.{as_bytes, concat, trim, trim_start, trim_end}
use kpasskey.External.{Cbor}
use kpasskey.Fidolink
use kpasskey.Fidolink.{Exchange}
use kpasskey.Store.{get_str, get_bool}
use kpasskey.Webauthn.{
  MakeCredential, GetAssertion, parse_make_credential, parse_get_assertion,
  attested_credential_data, make_credential_response, get_assertion_response, top_level_map, entry,
  is_key, named, is_name, field, bytes, encode, text_field, allowed_ids, item_ids,
  authenticator_data, cose_key,
}
use kpasskey.Uhid.Credentials.{
  ctap_reply, encoded_key, attest, created_for, create_credential, make_credential, signed_reply,
  sign_with, assert_for, assert_credential, get_assertion,
}
use kpasskey.Uhid.Credentials.Site.{read_assertion}
use kpasskey.Uhid.Credentials.Replies.{IsMade, make_credential-IsMade}
use kpasskey.Server.Pam.{fido_reply, asserted}
use kpasskey.Server.Pam.Verdicts.{answering}
use kpasskey.System.{IsPassedOn, site_data, get_assertion-phone}
use kpasskey.Tests.Toys.{some_crypto, some_base64, table_json, table_laws, Item, word, make}
use kpasskey.Tests.Tokens.{some_cbor, some_laws, read, write}

abbrev written : Cbor.Value some_cbor → Bytes
written value = unwrap_or [] (to_option (write value))

-- A site's two requests.
abbrev creation : Bytes
creation = written (
    some_cbor.map (
      (some_cbor.integer (pos 2), some_cbor.map ((some_cbor.text "id", some_cbor.text "none") ∷ []))
      ∷ []))

abbrev descriptor : Cbor.Value some_cbor
descriptor = some_cbor.map ((some_cbor.text "id", some_cbor.byte_string (3 ∷ [])) ∷ [])

abbrev assertion : Bytes
assertion = written (
    some_cbor.map (
      (some_cbor.integer (pos 1), some_cbor.text "none")
      ∷ (some_cbor.integer (pos 2), some_cbor.byte_string (9 ∷ 9 ∷ []))
      ∷ (some_cbor.integer (pos 3), some_cbor.map ((some_cbor.integer (pos 1), descriptor) ∷ []))
      ∷ []))

-- A daemon that has one answer.
abbrev made_by : String → Exchange
made_by line = answering table_json table_laws some_crypto some_base64 "publicKeyPem"

abbrev signed_by : String → Exchange
signed_by line = answering table_json table_laws some_crypto some_base64 "sig\n"

abbrev made : Bytes
made = drop 1 (make_credential table_json some_crypto some_base64 some_cbor made_by creation)

is_made : make_credential table_json some_crypto some_base64 some_cbor made_by creation ≡ 0 ∷ made
unfolding ctap_reply encoded_key attest created_for create_credential make_credential read write
    parse_make_credential attested_credential_data make_credential_response top_level_map entry
    is_key named is_name field text_field bytes encode authenticator_data cose_key as_bytes
    Fidolink.make_credential Fidolink.request Fidolink.field Fidolink.accept_reply get_str get_bool
    concat trim trim_start trim_end
is_made = refl

make_credential-IsMade_example :
    (request : MakeCredential) × (parse_make_credential some_cbor creation ≡ ok request)
    × IsMade table_json some_crypto some_base64 some_cbor made_by some_laws request made
make_credential-IsMade_example =
    make_credential-IsMade table_json some_crypto some_base64 some_cbor made_by some_laws creation
      made (λ m. refl) is_made

-- The phone's answer, which the daemon passes on.
abbrev answer : String → String → String → Result Item
answer x y z = ok (make (("sig", word "Bw==") ∷ []))

is_passed_on :
    IsPassedOn table_json table_laws some_crypto some_base64 some_cbor some_laws signed_by answer
unfolding fido_reply asserted get_str concat trim trim_start trim_end
is_passed_on = λ x y z. (refl, refl)

abbrev signed : Bytes
signed = drop 1 (get_assertion table_json some_crypto some_base64 some_cbor signed_by assertion)

is_signed :
    get_assertion table_json some_crypto some_base64 some_cbor signed_by assertion ≡ 0 ∷ signed
unfolding ctap_reply signed_reply sign_with assert_for assert_credential get_assertion read write
    parse_get_assertion allowed_ids item_ids get_assertion_response top_level_map entry is_key named
    is_name field text_field bytes encode authenticator_data as_bytes Fidolink.assert
    Fidolink.request Fidolink.field Fidolink.accept_reply get_str get_bool concat trim trim_start
    trim_end
is_signed = refl

abbrev data_of : String → Bytes
data_of =
    site_data table_json table_laws some_crypto some_base64 some_cbor some_laws signed_by answer

get_assertion-phone_example :
    (request : GetAssertion) × (credential_id signature : Bytes) × (reply : Item)
    × (encoded : String) × (parse_get_assertion some_cbor assertion ≡ ok request)
    × (first request.allowed ≡ some credential_id)
    × (answer request.rp_id
          (some_base64.url_encode credential_id)
          (some_base64.encode (data_of request.rp_id ++ request.client_data_hash))
        ≡ ok reply)
    × (get_str table_json reply "sig" ≡ some encoded)
    × (some_base64.decode encoded ≡ ok signature)
    × (read_assertion some_cbor signed
        ≡ ok (record {
          credential_id = credential_id;
          auth_data = data_of request.rp_id;
          signature = signature;
        }))
get_assertion-phone_example =
    get_assertion-phone table_json table_laws some_crypto some_base64 some_cbor some_laws signed_by
      answer assertion signed is_passed_on is_signed
