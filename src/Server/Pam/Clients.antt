-- ===== src/Server/Pam/Clients.antt =====
-- daemon/crates/kpk-spike/src/server.rs and fidolink.rs: the daemon's socket between its clients,
-- which print one line each, and the daemon, which reads it and prints one.
use kpasskey.Base.{ℕ, ◌≡◌, refl, ◌∙◌, [], ◌∷◌, String}
use kpasskey.Base.Errors.{ok}
use kpasskey.Base.Text.{concat, trim}
use kpasskey.External.{Json, JsonLaws, Crypto, Base64}
use kpasskey.Fidolink.{Exchange, creation_body, assertion_body}
use kpasskey.Store.Fields.{Fields, get_str-object, get_str-missing}
use kpasskey.Server.Pam.{
  verify, make_credential, assert, route, webauthn_operation, read_request, printed, probe_request,
}

module _ (j : Json) (laws : JsonLaws j) where
  open j use {Value, from_str, to_string, object, text, boolean}

  pub route-probe_request :
      (c : Crypto) (b : Base64) (user action detail : String)
      → route j c b (probe_request j c b user action detail) ≡ ok (verify user action detail)
  unfolding route
  route-probe_request c b user action detail =
      let fields : Fields j laws =
        ("user", text user) ∷ ("action", text action) ∷ ("detail", text detail) ∷ [] in
      rw
        (
          get_str-missing j laws "op" fields refl,
          get_str-object j laws "user" user fields refl,
          get_str-object j laws "action" action fields refl,
          get_str-object j laws "detail" detail fields refl,
        )
        refl

  route-creation_body :
      (c : Crypto) (b : Base64) (daemon : String → Exchange) (rp_id user_name : String)
      → route j c b (creation_body j daemon rp_id user_name) ≡ ok (make_credential rp_id user_name)
  unfolding route webauthn_operation
  route-creation_body c b daemon rp_id user_name =
      let fields : Fields j laws =
        ("op", text "webauthn.makecred")
        ∷ ("rpId", text rp_id)
        ∷ ("userName", text user_name)
        ∷ [] in
      rw
        (
          get_str-object j laws "op" "webauthn.makecred" fields refl,
          get_str-object j laws "rpId" rp_id fields refl,
          get_str-object j laws "userName" user_name fields refl,
        )
        refl

  route-assertion_body :
      (c : Crypto) (b : Base64) (daemon : String → Exchange) (rp_id credential_id payload : String)
      → route j c b (assertion_body j daemon rp_id credential_id payload)
        ≡ ok (assert rp_id credential_id payload)
  unfolding route webauthn_operation
  route-assertion_body c b daemon rp_id credential_id payload =
      let fields : Fields j laws =
        ("op", text "webauthn.assert")
        ∷ ("rpId", text rp_id)
        ∷ ("credId", text credential_id)
        ∷ ("payload", text payload)
        ∷ [] in
      rw
        (
          get_str-object j laws "op" "webauthn.assert" fields refl,
          get_str-object j laws "rpId" rp_id fields refl,
          get_str-object j laws "credId" credential_id fields refl,
          get_str-object j laws "payload" payload fields refl,
        )
        refl

  -- What `read_request` makes of a printed value is what `route` makes of the value.
  abbrev pub ReadsBack : Value → Type 0
  ReadsBack value = from_str (trim (concat (to_string value ∷ "\n" ∷ []))) ≡ ok value

  pub read_request-printed :
      (c : Crypto) (b : Base64) (peer_uid : ℕ) (value : Value)
      → ReadsBack value
      → read_request j c b (ok peer_uid) (ok (printed j c b value)) ≡ route j c b value
  unfolding read_request
  read_request-printed c b peer_uid value back = rw back refl

  -- If serde_json finds the fields of the objects that `json!` builds: the daemon, on a connection
  -- whose peer it knows, reads the line of each client as what the client asks for, where that line
  -- reads back as its value: a probe's as a verification with its user, action and detail, and
  -- the helper's two as the creation and the assertion with their arguments.
  pub read_request-clients :
      (c : Crypto) (b : Base64) (daemon : String → Exchange) (peer_uid : ℕ) (x y z : String)
      → ReadsBack (probe_request j c b x y z)
      → ReadsBack (creation_body j daemon x y)
      → ReadsBack (assertion_body j daemon x y z)
      → (read_request j c b (ok peer_uid) (ok (printed j c b (probe_request j c b x y z)))
          ≡ ok (verify x y z))
        × (read_request j c b (ok peer_uid) (ok (printed j c b (creation_body j daemon x y)))
            ≡ ok (make_credential x y))
        × (read_request j c b (ok peer_uid) (ok (printed j c b (assertion_body j daemon x y z)))
            ≡ ok (assert x y z))
  read_request-clients c b daemon peer_uid x y z back1 back2 back3 = (
    read_request-printed c b peer_uid (probe_request j c b x y z) back1
        ∙ route-probe_request c b x y z,
    read_request-printed c b peer_uid (creation_body j daemon x y) back2
        ∙ route-creation_body c b daemon x y,
    read_request-printed c b peer_uid (assertion_body j daemon x y z) back3
        ∙ route-assertion_body c b daemon x y z,
  )
