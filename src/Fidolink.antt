-- ===== src/Fidolink.antt =====
-- daemon/crates/kpk-spike/src/fidolink.rs: the FIDO helper's line to the daemon.
use kpasskey.Base.{false, [], ◌∷◌, String, if◌then◌else◌}
use kpasskey.Base.Errors.{Result, ok, bail, context, or_context, unwrap_or, ◌>>=◌, ◌>>◌}
use kpasskey.Base.Text.{concat, trim}
use kpasskey.External.{Json}
use kpasskey.Store.{get_str, get_bool}

pub record NewCredential : Type 0 where
  pub credential_id : String
  pub public_key_pem : String

-- What the socket brings when a text is sent to it.
pub record Exchange : Type 0 where
  pub connected : Result (Unit {0})
  pub cloned : Result (Unit {0})
  pub sent : Result (Unit {0})
  pub reply : Result String

module _ (j : Json) (daemon : String → Exchange) where
  open j use {Value, from_str, to_string, object, text}

  unfoldable pub accept_reply : Value → Result Value
  accept_reply reply =
      if unwrap_or false (get_bool j reply "ok")
      then ok reply
      else bail (unwrap_or "refused" (get_str j reply "error"))

  unfoldable pub request : Value → Result Value
  request body =
      let exchange = daemon (concat (to_string body ∷ "\n" ∷ [])) in
      (do
        context "connecting to /run/kpasskey/pam.sock" exchange.connected
        context "cloning the daemon socket" exchange.cloned
        context "sending the request to the daemon" exchange.sent
        line ← context "reading the daemon's reply" exchange.reply
        reply ← context "daemon sent invalid JSON" (from_str (trim line))
        accept_reply reply)

  unfoldable pub field : Value → String → Result String
  field reply name = or_context (concat ("daemon reply has no " ∷ name ∷ [])) (get_str j reply name)

  abbrev pub creation_body : String → String → Value
  creation_body rp_id user_name =
      object (
        ("op", text "webauthn.makecred") ∷ ("rpId", text rp_id) ∷ ("userName", text user_name) ∷ [])

  unfoldable pub make_credential : String → String → Result NewCredential
  make_credential rp_id user_name = do
    reply ← request (creation_body rp_id user_name)
    credential_id ← field reply "credId"
    public_key_pem ← field reply "publicKeyPem"
    ok (record { credential_id = credential_id; public_key_pem = public_key_pem })

  abbrev pub assertion_body : String → String → String → Value
  assertion_body rp_id credential_id payload = object (
      ("op", text "webauthn.assert")
      ∷ ("rpId", text rp_id)
      ∷ ("credId", text credential_id)
      ∷ ("payload", text payload)
      ∷ [])

  unfoldable pub assert : String → String → String → Result String
  assert rp_id credential_id payload = do
    reply ← request (assertion_body rp_id credential_id payload)
    field reply "sig"
