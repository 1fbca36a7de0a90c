-- ===== src/Uhid/Credentials/Replies.antt =====
-- daemon/crates/kpk-spike/src/uhid.rs: what the answers to the two commands stand on.
use kpasskey.Base.{ℕ, ◌<◌, arith, ◌≡◌, some, [], ◌∷◌, ◌++◌, String, first, length}
use kpasskey.Base.Errors.{
  Result, ok, err, context, or_context, ◌>>=◌, >>=-eq-ok, context-eq_ok, or_context-eq_ok,
}
use kpasskey.Base.Bytes.{Bytes}
use kpasskey.External.{Json, Crypto, Base64, Cbor, CborLaws}
use kpasskey.Fidolink
use kpasskey.Fidolink.{Exchange, NewCredential}
use kpasskey.Base.Text.{as_bytes}
use kpasskey.Webauthn.Consts.{aaguid}
use kpasskey.Webauthn.Layout.{read_auth_data, read_attested, read_attested_lem}
use kpasskey.Uhid.Credentials.Site.{read_assertion, read_creation, read_response, read_created}
use kpasskey.Webauthn.{
  MakeCredential, GetAssertion, parse_make_credential, parse_get_assertion,
  attested_credential_data, make_credential_response, get_assertion_response,
}
use kpasskey.Uhid.Credentials.{
  ctap_reply, encoded_key, creation_data, attest, created_for, create_credential, make_credential,
  assertion_data, message, signed_reply, sign_with, assert_for, assert_credential, get_assertion,
}

ctap_reply-ok :
    (r : Result Bytes) (failure : ℕ) (response : Bytes)
    → 0 < failure
    → ctap_reply r failure ≡ 0 ∷ response
    → r ≡ ok response
unfolding ctap_reply
ctap_reply-ok (ok body) failure response h e = cc
ctap_reply-ok (err x) failure response h e = absurd (ground arith)

module _ (j : Json) (c : Crypto) (b : Base64) (cbor : Cbor) (daemon : String → Exchange)
    (laws : CborLaws cbor) where
  -- What an assertion with status 0 stands on: the request names a credential, the daemon was asked to
  -- sign for its site, this credential and the message, and a site reads this signature.
  abbrev pub IsSigned : GetAssertion → Bytes → Bytes → Type 0
  IsSigned request credential_id response =
      (encoded : String) × (signature : Bytes) × (Fidolink.assert j daemon request.rp_id
          (b.url_encode credential_id)
          (b.encode (assertion_data j c b cbor daemon request.rp_id ++ request.client_data_hash))
        ≡ ok encoded)
      × (b.decode encoded ≡ ok signature)
      × (read_assertion cbor response
          ≡ ok (record {
            credential_id = credential_id;
            auth_data = assertion_data j c b cbor daemon request.rp_id;
            signature = signature;
          }))

  sign_with-IsSigned :
      (request : GetAssertion) (credential_id response : Bytes)
      → sign_with j c b cbor daemon request credential_id ≡ ok response
      → IsSigned request credential_id response
  unfolding sign_with signed_reply
  sign_with-IsSigned request credential_id response h =
      let data_ : Bytes = assertion_data j c b cbor daemon request.rp_id in
      let (encoded, asked, replied) =
        >>=-eq-ok
          (Fidolink.assert j daemon request.rp_id (b.url_encode credential_id)
            (message j c b cbor daemon request))
          (signed_reply j c b cbor daemon request credential_id) h in
      let (signature, decoded, written) =
        >>=-eq-ok (context "phone returned a signature that is not base64" (b.decode encoded))
          (get_assertion_response cbor credential_id data_) replied in
      (
        encoded,
        signature,
        asked,
        context-eq_ok "phone returned a signature that is not base64" (b.decode encoded) decoded,
        read_response cbor laws credential_id data_ signature response written,
      )

  -- If the CBOR crate reads back what it writes: when getAssertion answers with status 0, the request
  -- was parsed and names a credential, the daemon was asked, for the request's site and the first
  -- credential named, to sign the authenticator data followed by the client data hash, and a site
  -- reads that credential, these authenticator data, and the signature that the daemon gave.
  pub get_assertion-IsSigned :
      (body response : Bytes)
      → get_assertion j c b cbor daemon body ≡ 0 ∷ response
      → (request : GetAssertion) × (credential_id : Bytes) × (parse_get_assertion cbor body
          ≡ ok request)
        × (first request.allowed ≡ some credential_id)
        × IsSigned request credential_id response
  unfolding get_assertion assert_credential assert_for
  get_assertion-IsSigned body response h =
      let (request, parsed, answered) =
        >>=-eq-ok (parse_get_assertion cbor body) (assert_for j c b cbor daemon) (
          ctap_reply-ok (assert_credential j c b cbor daemon body) 0x2e response (omega arith) h) in
      let (credential_id, chosen, signed_) =
        >>=-eq-ok
          (or_context "no credential named, and this authenticator stores none"
            (first request.allowed))
          (sign_with j c b cbor daemon request) answered in
      (
        request,
        credential_id,
        parsed,
        or_context-eq_ok "no credential named, and this authenticator stores none"
            (first request.allowed) chosen,
        sign_with-IsSigned request credential_id response signed_,
      )

  -- What a new credential with status 0 stands on: the daemon made it, and a site reads its id and
  -- its key in authenticator data of its own.
  abbrev pub IsMade : MakeCredential → Bytes → Type 0
  IsMade request response =
      (created : NewCredential) × (credential_id cose data_ extra : Bytes)
      × (Fidolink.make_credential j daemon request.rp_id request.user_name ≡ ok created)
      × (b.url_decode created.credential_id ≡ ok credential_id)
      × (encoded_key j c b cbor daemon created.public_key_pem ≡ ok cose)
      × (read_creation cbor response ≡ ok (some "none", data_))
      × (read_auth_data data_ ≡ record {
        rp_id_hash = c.sha256 (as_bytes request.rp_id);
        flags = 0x45;
        sign_count = 0 ∷ 0 ∷ 0 ∷ 0 ∷ [];
        rest = extra;
      })
      × (read_attested extra
          ≡ record { guid = aaguid; credential_id = credential_id; public_key = cose })

  created_for-IsMade :
      (request : MakeCredential) (response : Bytes)
      → ((m : Bytes) → length (c.sha256 m) ≡ 32)
      → created_for j c b cbor daemon request ≡ ok response
      → IsMade request response
  unfolding created_for attest
  created_for-IsMade request response whole h =
      let (created, asked, attested_) =
        >>=-eq-ok (Fidolink.make_credential j daemon request.rp_id request.user_name)
          (attest j c b cbor daemon request) h in
      let (credential_id, decoded, keyed) =
        >>=-eq-ok
          (context "phone returned a credential id that is not base64url"
            (b.url_decode created.credential_id))
          (attest_id created) attested_ in
      let (cose, encoded, built) =
        >>=-eq-ok (encoded_key j c b cbor daemon created.public_key_pem) (attest_key credential_id)
          keyed in
      let (extra, laid, written) =
        >>=-eq-ok (attested_credential_data credential_id cose) attest_data built in
      let data_ : Bytes = creation_data j c b cbor daemon request.rp_id extra in
      let (auth, parts) =
        read_attested_lem c request.rp_id 0x45 0 credential_id cose extra whole laid in
      (
        created,
        credential_id,
        cose,
        data_,
        extra,
        asked,
        context-eq_ok "phone returned a credential id that is not base64url"
            (b.url_decode created.credential_id) decoded,
        encoded,
        read_created cbor laws data_ response written,
        auth,
        parts,
      )
    where
      attest_data : Bytes → Result Bytes
      attest_data extra =
          make_credential_response cbor (creation_data j c b cbor daemon request.rp_id extra)

      attest_key : Bytes → Bytes → Result Bytes
      attest_key credential_id cose = attested_credential_data credential_id cose >>= attest_data

      attest_id : NewCredential → Bytes → Result Bytes
      attest_id created credential_id =
          encoded_key j c b cbor daemon created.public_key_pem >>= attest_key credential_id

  -- If the CBOR crate reads back what it writes and SHA-256 digests have 32 bytes: when makeCredential
  -- answers with status 0, the request was parsed and the daemon made a credential for its site and
  -- its user; a site reads the format "none", the hash of its own id, the flags for presence,
  -- verification and attested data, a counter of 0, this authenticator's AAGUID, and the id and the
  -- COSE key of the credential that the daemon made.
  pub make_credential-IsMade :
      (body response : Bytes)
      → ((m : Bytes) → length (c.sha256 m) ≡ 32)
      → make_credential j c b cbor daemon body ≡ 0 ∷ response
      → (request : MakeCredential) × (parse_make_credential cbor body ≡ ok request)
        × IsMade request response
  unfolding make_credential create_credential
  make_credential-IsMade body response whole h =
      let (request, parsed, answered) =
        >>=-eq-ok (parse_make_credential cbor body) (created_for j c b cbor daemon) (
          ctap_reply-ok (create_credential j c b cbor daemon body) 0x27 response (omega arith) h) in
      (request, parsed, created_for-IsMade request response whole answered)
