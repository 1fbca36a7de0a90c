-- ===== src/Uhid/Credentials.antt =====
-- The two CTAP2 commands of uhid.rs that ask the phone. The daemon, at the other end of the socket,
-- is a parameter, and so are the crates.
use kpasskey.Base.{ℕ, bit_or, none, some, [], ◌∷◌, ◌++◌, String, first}
use kpasskey.Base.Errors.{Result, ok, err, context, or_context, ◌>>=◌}
use kpasskey.Base.Bytes.{Bytes}
use kpasskey.External.{Json, Crypto, Base64, Cbor}
use kpasskey.Fidolink
use kpasskey.Fidolink.{Exchange, NewCredential}
use kpasskey.Webauthn.{
  MakeCredential, GetAssertion, authenticator_data, attested_credential_data, parse_make_credential,
  parse_get_assertion, cose_key, make_credential_response, get_assertion_response,
}
use kpasskey.Webauthn.Consts.{flag_user_present, flag_user_verified, flag_attested}
use kpasskey.Uhid.Consts.{ctap2_ok, ctap2_err_operation_denied, ctap2_err_no_credentials}
pub mod Site
pub mod Replies

unfoldable pub ctap_reply : Result Bytes → ℕ → Bytes
ctap_reply (ok body) failure = ctap2_ok ∷ body
ctap_reply (err e) failure = failure ∷ []

module _ (j : Json) (c : Crypto) (b : Base64) (cbor : Cbor) (daemon : String → Exchange) where
  open b use {encode, decode, url_encode, url_decode}
  open c use {from_public_key_pem, x, y}

  -- The COSE form of the key that the phone made.
  unfoldable pub encoded_key : String → Result Bytes
  encoded_key pem = do
    public ← context "phone returned a key that is not a P-256 SPKI PEM" (from_public_key_pem pem)
    x_bytes ← or_context "credential key has no x coordinate" (x public)
    y_bytes ← or_context "credential key has no y coordinate" (y public)
    cose_key cbor x_bytes y_bytes

  abbrev pub creation_data : String → Bytes → Bytes
  creation_data rp_id attested =
      authenticator_data c rp_id
        (bit_or (bit_or flag_user_present flag_user_verified) flag_attested) 0 (some attested)

  -- The answer to a request, from the credential that the phone made.
  unfoldable pub attest : MakeCredential → NewCredential → Result Bytes
  attest request created = do
    credential_id ←
        context "phone returned a credential id that is not base64url"
          (url_decode created.credential_id)
    cose ← encoded_key created.public_key_pem
    attested ← attested_credential_data credential_id cose
    make_credential_response cbor (creation_data request.rp_id attested)

  unfoldable pub created_for : MakeCredential → Result Bytes
  created_for request = do
    created ← Fidolink.make_credential j daemon request.rp_id request.user_name
    attest request created

  unfoldable pub create_credential : Bytes → Result Bytes
  create_credential body = do request ← parse_make_credential cbor body; created_for request

  unfoldable pub make_credential : Bytes → Bytes
  make_credential body = ctap_reply (create_credential body) ctap2_err_operation_denied

  abbrev pub assertion_data : String → Bytes
  assertion_data rp_id =
      authenticator_data c rp_id (bit_or flag_user_present flag_user_verified) 0 none

  -- What the site's key is asked to sign, in base64.
  abbrev pub message : GetAssertion → String
  message request = encode (assertion_data request.rp_id ++ request.client_data_hash)

  unfoldable pub signed_reply : GetAssertion → Bytes → String → Result Bytes
  signed_reply request credential_id encoded = do
    signature ← context "phone returned a signature that is not base64" (decode encoded)
    get_assertion_response cbor credential_id (assertion_data request.rp_id) signature

  unfoldable pub sign_with : GetAssertion → Bytes → Result Bytes
  sign_with request credential_id = do
    encoded ← Fidolink.assert j daemon request.rp_id (url_encode credential_id) (message request)
    signed_reply request credential_id encoded

  unfoldable pub assert_for : GetAssertion → Result Bytes
  assert_for request = do
    credential_id ←
        or_context "no credential named, and this authenticator stores none" (first request.allowed)
    sign_with request credential_id

  unfoldable pub assert_credential : Bytes → Result Bytes
  assert_credential body = do request ← parse_get_assertion cbor body; assert_for request

  unfoldable pub get_assertion : Bytes → Bytes
  get_assertion body = ctap_reply (assert_credential body) ctap2_err_no_credentials
