-- ===== src/System.antt =====
-- daemon/crates/kpk-spike/src: the helper of uhid.rs and the daemon of server.rs, with the phone
-- behind it, as one.
use kpasskey.Base.{◌≡◌, some, [], ◌∷◌, ◌++◌, String, first}
use kpasskey.Base.Text.{as_bytes}
use kpasskey.Base.Errors.{Result, ok, ◌>>=◌}
use kpasskey.Base.Bytes.{Bytes}
use kpasskey.External.{Json, JsonLaws, Crypto, Base64, Cbor, CborLaws}
use kpasskey.Fidolink.{Exchange, assertion_body}
use kpasskey.Store.{get_str}
use kpasskey.Server.Pam.{printed, fido_reply, asserted}
use kpasskey.Server.Pam.Clients.{ReadsBack}
use kpasskey.Server.Pam.Verdicts.{answering}
use kpasskey.Server.Pam.Helper.Assertions.{assert-answered}
use kpasskey.Webauthn.{GetAssertion, parse_get_assertion, authenticator_data}
use kpasskey.Uhid.Credentials.{get_assertion, message}
use kpasskey.Uhid.Credentials.Site.{read_assertion}
use kpasskey.Uhid.Credentials.Replies.{get_assertion-IsSigned}

module _ (j : Json) (laws : JsonLaws j) (c : Crypto) (b : Base64) (cbor : Cbor)
    (cbor_laws : CborLaws cbor) (daemon : String → Exchange)
    (phone : String → String → String → Result (Json.Value j)) where
  -- The daemon puts the phone's answer to each assertion that it is asked for on the socket, on a line
  -- that reads back.
  abbrev pub IsPassedOn : Type 0
  IsPassedOn =
      (x y z : String)
      → (daemon (printed j c b (assertion_body j daemon x y z))
          ≡ answering j laws c b
              (printed j c b (fido_reply j c b (phone x y z >>= asserted j c b))))
        × ReadsBack j laws (fido_reply j c b (phone x y z >>= asserted j c b))

  -- WebAuthn, section 6.1, without attested data: the hash of the site's id, user present and
  -- verified, and a counter of zero.
  abbrev pub site_data : String → Bytes
  site_data rp_id = c.sha256 (as_bytes rp_id) ++ (0x05 ∷ 0 ∷ 0 ∷ 0 ∷ 0 ∷ [])

  -- If the crates keep to their documentation and the daemon passes on the phone's answers: when
  -- getAssertion answers with status 0, the phone was asked, for the site and the first credential
  -- that the request names, about the authenticator data followed by the client data hash, it
  -- answered, and a site reads in the response these authenticator data, that credential, and the
  -- phone's signature. The data are the hash of the site's id, the flags for presence and
  -- verification, and a counter of 0.
  pub get_assertion-phone :
      (body response : Bytes)
      → IsPassedOn
      → get_assertion j c b cbor daemon body ≡ 0 ∷ response
      → (request : GetAssertion) × (credential_id signature : Bytes) × (reply : Json.Value j)
        × (encoded : String) × (parse_get_assertion cbor body ≡ ok request)
        × (first request.allowed ≡ some credential_id)
        × (phone request.rp_id
              (b.url_encode credential_id)
              (b.encode (site_data request.rp_id ++ request.client_data_hash))
            ≡ ok reply)
        × (get_str j reply "sig" ≡ some encoded)
        × (b.decode encoded ≡ ok signature)
        × (read_assertion cbor response
            ≡ ok (record {
              credential_id = credential_id;
              auth_data = site_data request.rp_id;
              signature = signature;
            }))
  unfolding authenticator_data
  get_assertion-phone body response passed h =
      let (request, credential_id, parsed, chosen, (encoded, signature, asked, decoded, read_)) =
        get_assertion-IsSigned j c b cbor daemon cbor_laws body response h in
      let x : String = request.rp_id in
      let y : String = b.url_encode credential_id in
      let z : String = message j c b cbor daemon request in
      let (there, back) = passed x y z in
      let (signed_by, _) = assert-answered j laws c b daemon x y z (phone x y z) there back in
      let (reply, answered, has) = (signed_by encoded).0 asked in
      (
        request, credential_id, signature, reply, encoded, parsed, chosen, answered, has, decoded,
        read_,
      )
