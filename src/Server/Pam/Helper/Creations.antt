-- ===== src/Server/Pam/Helper/Creations.antt =====
-- daemon/crates/kpk-spike/src/server.rs and fidolink.rs: the daemon's socket between its clients,
-- for a credential that the FIDO helper asks for.
use kpasskey.Base.{subst, ◌≡◌, refl, ap, sym, ◌∙◌, ◌↔◌, true, some, [], ◌∷◌, String, inl, inr}
use kpasskey.Base.Errors.{
  Error, Result, ok, err, bail, context, or_context, show_error, ◌>>=◌, Result-cases, >>=-eq-ok,
  context-eq_ok, or_context-eq_ok,
}
use kpasskey.External.{Json, JsonLaws, Crypto, Base64}
use kpasskey.Fidolink
use kpasskey.Fidolink.{
  Exchange, NewCredential, creation_body, assertion_body, accept_reply, request,
}
use kpasskey.Store.Fields.{Fields, get_str-object, get_bool-object}
use kpasskey.Store.{get_str}
use kpasskey.Link.{load_verifying_key}
use kpasskey.Server.Pam.Clients.{ReadsBack}
use kpasskey.Server.Pam.Verdicts.{answering}
use kpasskey.Server.Pam.Helper.{ok_inj, accept_reply-failure, request-answered}
use kpasskey.Server.Pam.{printed, failure, fido_reply, created}

module _ (j : Json) (laws : JsonLaws j) (c : Crypto) (b : Base64) where
  open j use {Value, from_str, object, text, boolean}
  open c use {VerifyingKey}

  -- What the phone's answer must have for a credential.
  abbrev pub HasCredential : Value → NewCredential → Type 0
  HasCredential reply made =
      (get_str j reply "credId" ≡ some made.credential_id)
      × (get_str j reply "publicKeyPem" ≡ some made.public_key_pem)
      × ((key : VerifyingKey) × (load_verifying_key c made.public_key_pem ≡ ok key))

  abbrev created_value : NewCredential → Value
  created_value made = object (
      ("ok", boolean true)
      ∷ ("credId", text made.credential_id)
      ∷ ("publicKeyPem", text made.public_key_pem)
      ∷ [])

  created-HasCredential :
      (reply value : Value)
      → created j c b reply ≡ ok value
      → (made : NewCredential) × HasCredential reply made × (value ≡ created_value made)
  unfolding created
  created-HasCredential reply value h =
      let (id, found_id, h1) =
        >>=-eq-ok (or_context "phone returned no credential id" (get_str j reply "credId")) with_id
          h in
      let (pem, found_pem, h2) =
        >>=-eq-ok (or_context "phone returned no public key" (get_str j reply "publicKeyPem"))
          (with_pem id) h1 in
      let (key, loaded, h3) =
        >>=-eq-ok (context "phone returned an unusable credential key" (load_verifying_key c pem))
          (with_key id pem) h2 in
      (
        record { credential_id = id; public_key_pem = pem },
        (
          or_context-eq_ok "phone returned no credential id" (get_str j reply "credId") found_id,
          or_context-eq_ok "phone returned no public key" (get_str j reply "publicKeyPem")
              found_pem,
          (
            key,
            context-eq_ok "phone returned an unusable credential key" (load_verifying_key c pem)
                loaded,
          ),
        ),
        sym (ok_inj h3),
      )
    where
      with_key : String → String → VerifyingKey → Result Value
      with_key id pem key = ok (created_value (record { credential_id = id; public_key_pem = pem }))

      with_pem : String → String → Result Value
      with_pem id pem =
          context "phone returned an unusable credential key" (load_verifying_key c pem)
          >>= with_key id pem

      with_id : String → Result Value
      with_id id =
          or_context "phone returned no public key" (get_str j reply "publicKeyPem") >>= with_pem id

  HasCredential-created :
      (reply : Value) (made : NewCredential)
      → HasCredential reply made
      → created j c b reply ≡ ok (created_value made)
  unfolding created
  HasCredential-created reply made (id, pem, (key, loaded)) = rw (id, pem, loaded) refl

  make_credential-created :
      (daemon : String → Exchange) (rp_id user_name : String) (made : NewCredential)
      → request j daemon (creation_body j daemon rp_id user_name)
        ≡ accept_reply j daemon (created_value made)
      → Fidolink.make_credential j daemon rp_id user_name ≡ ok made
  unfolding Fidolink.make_credential Fidolink.field accept_reply
  make_credential-created daemon rp_id user_name made asked =
      let fields : Fields j laws =
        ("ok", boolean true)
        ∷ ("credId", text made.credential_id)
        ∷ ("publicKeyPem", text made.public_key_pem)
        ∷ [] in
      rw
        (
          asked,
          get_bool-object j laws "ok" true fields refl,
          get_str-object j laws "credId" made.credential_id fields refl,
          get_str-object j laws "publicKeyPem" made.public_key_pem fields refl,
        )
        refl

  -- What the helper is to have of the daemon's outcome.
  make_credential-failed :
      (daemon : String → Exchange) (rp_id user_name : String) (e : Error)
      → request j daemon (creation_body j daemon rp_id user_name)
        ≡ accept_reply j daemon (failure j c b e)
      → Fidolink.make_credential j daemon rp_id user_name ≡ bail (show_error e)
  unfolding Fidolink.make_credential
  make_credential-failed daemon rp_id user_name e asked =
      rw (asked, accept_reply-failure j laws c b daemon e) refl

  -- If serde_json finds the fields of the objects that `json!` builds: when the helper's socket
  -- works and brings the daemon's line for a phone's answer to a creation, and the line reads back as
  -- its value, then the helper has a credential just if the phone answered, its answer has this id
  -- and this key, and the key can be loaded; and it has the daemon's error message otherwise.
  pub make_credential-answered :
      (daemon : String → Exchange) (rp_id user_name : String) (answer : Result Value)
      → daemon (printed j c b (creation_body j daemon rp_id user_name))
        ≡ answering j laws c b (printed j c b (fido_reply j c b (answer >>= created j c b)))
      → ReadsBack j laws (fido_reply j c b (answer >>= created j c b))
      → ((made : NewCredential)
          → (Fidolink.make_credential j daemon rp_id user_name ≡ ok made)
            ↔ ((reply : Value) × (answer ≡ ok reply) × HasCredential reply made))
        × ((e : Error)
            → (answer >>= created j c b) ≡ err e
            → Fidolink.make_credential j daemon rp_id user_name ≡ bail (show_error e))
  unfolding fido_reply
  make_credential-answered daemon rp_id user_name answer there back =
      (λ made. (made_of made, of_made made), failed)
    where
      body : Value
      body = creation_body j daemon rp_id user_name

      asked :
          (value : Value)
          → fido_reply j c b (answer >>= created j c b) ≡ value
          → request j daemon body ≡ accept_reply j daemon value
      asked value same =
          request-answered j laws c b daemon body (fido_reply j c b (answer >>= created j c b))
            there back
          ∙ ap (accept_reply j daemon) same

      failed :
          (e : Error)
          → (answer >>= created j c b) ≡ err e
          → Fidolink.make_credential j daemon rp_id user_name ≡ bail (show_error e)
      failed e h =
          make_credential-failed daemon rp_id user_name e
            (asked (failure j c b e) (ap (fido_reply j c b) h))

      found :
          (made : NewCredential)
          → (answer >>= created j c b) ≡ ok (created_value made)
          → Fidolink.make_credential j daemon rp_id user_name ≡ ok made
      found made h =
          make_credential-created daemon rp_id user_name made
            (asked (created_value made) (ap (fido_reply j c b) h))

      of_made :
          (made : NewCredential)
          → ((reply : Value) × (answer ≡ ok reply) × HasCredential reply made)
          → Fidolink.make_credential j daemon rp_id user_name ≡ ok made
      of_made made (reply, answered, has) =
          found made (ap (λ a. a >>= created j c b) answered ∙ HasCredential-created reply made has)

      made_of :
          (made : NewCredential)
          → Fidolink.make_credential j daemon rp_id user_name ≡ ok made
          → (reply : Value) × (answer ≡ ok reply) × HasCredential reply made
      made_of made h = elim (Result-cases (answer >>= created j c b)) [
        | inr (e, wrong) ↦
            let clash : bail (show_error e) ≡ ok made = sym (failed e wrong) ∙ h in cc
        | inl (value, right) ↦
            let (reply, answered, valued) = >>=-eq-ok answer (created j c b) right in
            let (made', has, same) = created-HasCredential reply value valued in
            (
              reply,
              answered,
              subst (HasCredential reply) (ok_inj (sym (found made' (right ∙ ap ok same)) ∙ h)) has,
            )
      ]
