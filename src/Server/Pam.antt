-- ===== src/Server/Pam.antt =====
-- daemon/crates/kpk-spike/src/server.rs: `handle_pam`, which serves the PAM module and the FIDO
-- helper, and `probe`, which stands in for the PAM module.
use kpasskey.Base.{
  ℕ, Bool, true, false, Option, none, some, List, [], ◌∷◌, String, if◌then◌else◌, ◌==◌,
}
use kpasskey.Base.Errors.{
  Error, Result, ok, err, bail, context, or_context, unwrap_or, show_error, ◌>>=◌, ◌>>◌,
}
use kpasskey.Base.Bytes.{Bytes}
use kpasskey.Base.Text.{concat, trim}
use kpasskey.External.{Json, Crypto, Base64}
use kpasskey.Link.{load_verifying_key}
use kpasskey.Fidolink.{Exchange}
use kpasskey.Store.{Device, Entry, get_str, get_bool}
use kpasskey.Server.{State, active_device, start_verification, start_question}
pub mod Clients
pub mod Verdicts
pub mod Helper
use text.Mathlib.Text.{◌==◌ as str_eq, starts_with}

-- What a line on the socket asks for.
pub data Operation : Type 0 where
  verify : (user : String) (action : String) (detail : String) → Operation
  make_credential : (rp_id : String) (user_name : String) → Operation
  assert : (rp_id : String) (credential_id : String) (payload : String) → Operation

-- What the system gives while a request is begun.
pub record Surroundings : Type 0 where
  pub challenge : Result Bytes
  pub host : Result String
  pub path : String
  pub directory : Result (List Entry)

-- A connection after its request was read: it waits for the end of a task, or has its reply.
pub data Connection (Value : Type 0) : Type 0 where
  verifying : (task : ℕ) → Connection Value
  creating : (task : ℕ) → Connection Value
  asserting : (task : ℕ) → Connection Value
  replying : (reply : Value) → Connection Value

unfoldable pub result_of {ℓ} : {A : Type ℓ} → ℕ → List (ℕ × A) → Option A
result_of task [] = none
result_of task ((t, result) ∷ results) = if t == task then some result else result_of task results

module _ (j : Json) (c : Crypto) (b : Base64) where
  open j use {Value, from_str, to_string, object, text, number, boolean}

  abbrev pub field : Value → String → String → String
  field request name fallback = unwrap_or fallback (get_str j request name)

  unfoldable pub webauthn_operation : Value → String → Result Operation
  webauthn_operation request operation =
      if str_eq operation "webauthn.makecred"
      then ok (make_credential (field request "rpId" "") (field request "userName" "user"))
      else if str_eq operation "webauthn.assert"
      then ok (
          assert (field request "rpId" "") (field request "credId" "") (field request "payload" ""))
      else bail (concat ("unknown operation " ∷ operation ∷ []))

  unfoldable pub route : Value → Result Operation
  route request =
      let operation = field request "op" "verify" in
      if starts_with operation "webauthn."
      then webauthn_operation request operation
      else ok (
          verify (field request "user" "unknown") (field request "action" "unknown")
            (field request "detail" ""))

  -- The request on a connection: what its peer's credentials and its first line bring.
  unfoldable pub read_request : Result ℕ → Result String → Result Operation
  read_request peer_uid read_line = do
    uid ← context "reading peer credentials" peer_uid
    line ← context "reading the PAM request" read_line
    request ← context "PAM client sent invalid JSON" (from_str (trim line))
    route request

  abbrev pub creation_request : String → String → Value
  creation_request rp_id user_name = object (
      ("v", number 1)
      ∷ ("type", text "webauthn.makecred")
      ∷ ("rpId", text rp_id)
      ∷ ("userName", text user_name)
      ∷ [])

  abbrev pub assertion_request : String → String → String → Value
  assertion_request rp_id credential_id payload = object (
      ("v", number 1)
      ∷ ("type", text "webauthn.assert")
      ∷ ("rpId", text rp_id)
      ∷ ("credId", text credential_id)
      ∷ ("payload", text payload)
      ∷ [])

  abbrev pub failure : Error → Value
  failure e = object (("ok", boolean false) ∷ ("error", text (show_error e)) ∷ [])

  -- `outcome.unwrap_or_else(…)`
  unfoldable pub fido_reply : Result Value → Value
  fido_reply (ok reply) = reply
  fido_reply (err e) = failure e

  -- The end of `webauthn_make_credential`, after the phone's answer.
  unfoldable pub created : Value → Result Value
  created reply = do
    credential_id ← or_context "phone returned no credential id" (get_str j reply "credId")
    public_key_pem ← or_context "phone returned no public key" (get_str j reply "publicKeyPem")
    key ← context "phone returned an unusable credential key" (load_verifying_key c public_key_pem)
    ok (
        object (
          ("ok", boolean true)
          ∷ ("credId", text credential_id)
          ∷ ("publicKeyPem", text public_key_pem)
          ∷ []))

  -- The end of `webauthn_assert`.
  unfoldable pub asserted : Value → Result Value
  asserted reply = do
    signature ← or_context "phone returned no signature" (get_str j reply "sig")
    ok (object (("ok", boolean true) ∷ ("sig", text signature) ∷ []))

  abbrev pub verdict_reply : Result (Unit {0}) → Value
  verdict_reply (ok u) = object (("ok", boolean true) ∷ ("reason", text "success") ∷ [])
  verdict_reply (err e) = object (("ok", boolean false) ∷ ("reason", text (show_error e)) ∷ [])

  -- `webauthn_make_credential` looks for a device first.
  unfoldable pub ask_creation :
      String → String → Result Device → State j c b → Connection Value × State j c b
  ask_creation rp_id user_name (err e) d = (replying (failure e), d)
  ask_creation rp_id user_name (ok device) d =
      (creating d.next_task, start_question j c b (creation_request rp_id user_name) d)

  unfoldable pub begin : Operation → Surroundings → State j c b → Connection Value × State j c b
  begin (verify user action detail) s d = (
    verifying d.next_task,
    start_verification j c b user action detail s.challenge s.host s.path s.directory d,
  )
  begin (make_credential rp_id user_name) s d =
      ask_creation rp_id user_name (active_device j c b s.path s.directory) d
  begin (assert rp_id credential_id payload) s d = (
    asserting d.next_task,
    start_question j c b (assertion_request rp_id credential_id payload) d,
  )

  -- The reply on a connection, once its task has ended.
  unfoldable pub reply_on : Connection Value → State j c b → Option Value
  reply_on (verifying task) d = elim (result_of task d.verdicts) [
    | none ↦ none
    | some verdict ↦ some (verdict_reply verdict)
  ]
  reply_on (creating task) d = elim (result_of task d.answers) [
    | none ↦ none
    | some answer ↦ some (fido_reply (answer >>= created))
  ]
  reply_on (asserting task) d = elim (result_of task d.answers) [
    | none ↦ none
    | some answer ↦ some (fido_reply (answer >>= asserted))
  ]
  reply_on (replying reply) d = some reply

  abbrev pub printed : Value → String
  printed value = concat (to_string value ∷ "\n" ∷ [])

  -- The end of `handle_pam`: what writing and flushing the reply bring.
  unfoldable pub write_reply :
      Connection Value → Result (Unit {0}) → Result (Unit {0}) → Result (Unit {0})
  write_reply (verifying task) wrote flushed = do
    context "replying to the PAM client" wrote
    context "flushing the PAM reply" flushed
  write_reply (creating task) wrote flushed = do
    context "replying to the FIDO helper" wrote
    context "flushing the reply" flushed
  write_reply (asserting task) wrote flushed = do
    context "replying to the FIDO helper" wrote
    context "flushing the reply" flushed
  write_reply (replying reply) wrote flushed = do
    context "replying to the FIDO helper" wrote
    context "flushing the reply" flushed

  unfoldable pub verdict_of : Value → Result (Unit {0})
  verdict_of verdict =
      if unwrap_or false (get_bool j verdict "ok")
      then ok tt
      else bail (concat ("DENIED (" ∷ field verdict "reason" "no reason" ∷ ")" ∷ []))

  abbrev pub probe_request : String → String → String → Value
  probe_request user action detail =
      object (("user", text user) ∷ ("action", text action) ∷ ("detail", text detail) ∷ [])

  -- `user` is the variable USER.
  unfoldable pub probe :
      (String → Exchange) → String → Option String → String → String → Result (Unit {0})
  probe daemon socket_path user action detail =
      let exchange = daemon (printed (probe_request (unwrap_or "unknown" user) action detail)) in
      (do
        context (concat ("connecting to " ∷ socket_path ∷ [])) exchange.connected
        context "sending the probe request" exchange.sent
        reply ← context "reading the verdict" exchange.reply
        verdict ← context "daemon sent invalid JSON" (from_str (trim reply))
        verdict_of verdict)
