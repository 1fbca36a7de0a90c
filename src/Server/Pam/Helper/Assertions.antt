-- ===== src/Server/Pam/Helper/Assertions.antt =====
-- daemon/crates/kpk-spike/src/server.rs and fidolink.rs: the daemon's socket between its clients,
-- for a signature that the FIDO helper asks for.
use kpasskey.Base.{◌≡◌, refl, ap, sym, ◌∙◌, ◌↔◌, true, some, [], ◌∷◌, String, inl, inr}
use kpasskey.Base.Errors.{
  Error, Result, ok, err, bail, or_context, show_error, ◌>>=◌, Result-cases, >>=-eq-ok,
  or_context-eq_ok,
}
use kpasskey.External.{Json, JsonLaws, Crypto, Base64}
use kpasskey.Fidolink
use kpasskey.Fidolink.{
  Exchange, NewCredential, creation_body, assertion_body, accept_reply, request,
}
use kpasskey.Store.Fields.{Fields, get_str-object, get_bool-object}
use kpasskey.Store.{get_str}
use kpasskey.Server.Pam.Clients.{ReadsBack}
use kpasskey.Server.Pam.Verdicts.{answering}
use kpasskey.Server.Pam.Helper.{ok_inj, accept_reply-failure, request-answered}
use kpasskey.Server.Pam.{printed, failure, fido_reply, asserted}

module _ (j : Json) (laws : JsonLaws j) (c : Crypto) (b : Base64) where
  open j use {Value, from_str, object, text, boolean}

  abbrev asserted_value : String → Value
  asserted_value sig = object (("ok", boolean true) ∷ ("sig", text sig) ∷ [])

  asserted-sig :
      (reply value : Value)
      → asserted j c b reply ≡ ok value
      → (sig : String) × (get_str j reply "sig" ≡ some sig) × (value ≡ asserted_value sig)
  unfolding asserted
  asserted-sig reply value h =
      let (sig, found, h1) =
        >>=-eq-ok (or_context "phone returned no signature" (get_str j reply "sig"))
          (λ sig. ok (asserted_value sig)) h in
      (
        sig,
        or_context-eq_ok "phone returned no signature" (get_str j reply "sig") found,
        sym (ok_inj h1),
      )

  assert-asserted :
      (daemon : String → Exchange) (x y z sig : String)
      → request j daemon (assertion_body j daemon x y z)
        ≡ accept_reply j daemon (asserted_value sig)
      → Fidolink.assert j daemon x y z ≡ ok sig
  unfolding Fidolink.assert Fidolink.field accept_reply
  assert-asserted daemon x y z sig asked =
      let fields : Fields j laws = ("ok", boolean true) ∷ ("sig", text sig) ∷ [] in
      rw
        (
          asked,
          get_bool-object j laws "ok" true fields refl,
          get_str-object j laws "sig" sig fields refl,
        )
        refl

  -- If serde_json finds the fields of the objects that `json!` builds: when the helper's socket
  -- works and brings the daemon's line for a phone's answer to an assertion, and the line reads back
  -- as its value, then the helper has a signature just if the phone answered with it; and it has
  -- the daemon's error message otherwise.
  pub assert-answered :
      (daemon : String → Exchange) (x y z : String) (answer : Result Value)
      → daemon (printed j c b (assertion_body j daemon x y z))
        ≡ answering j laws c b (printed j c b (fido_reply j c b (answer >>= asserted j c b)))
      → ReadsBack j laws (fido_reply j c b (answer >>= asserted j c b))
      → ((sig : String)
          → (Fidolink.assert j daemon x y z ≡ ok sig)
            ↔ ((reply : Value) × (answer ≡ ok reply) × (get_str j reply "sig" ≡ some sig)))
        × ((e : Error)
            → (answer >>= asserted j c b) ≡ err e
            → Fidolink.assert j daemon x y z ≡ bail (show_error e))
  unfolding fido_reply Fidolink.assert asserted
  assert-answered daemon x y z answer there back = (λ sig. (signed_of sig, of_signed sig), failed)
    where
      asked :
          (value : Value)
          → fido_reply j c b (answer >>= asserted j c b) ≡ value
          → request j daemon (assertion_body j daemon x y z) ≡ accept_reply j daemon value
      asked value same =
          request-answered j laws c b daemon (assertion_body j daemon x y z)
            (fido_reply j c b (answer >>= asserted j c b)) there back
          ∙ ap (accept_reply j daemon) same

      failed :
          (e : Error)
          → (answer >>= asserted j c b) ≡ err e
          → Fidolink.assert j daemon x y z ≡ bail (show_error e)
      failed e h =
          rw
            (
              asked (failure j c b e) (ap (fido_reply j c b) h),
              accept_reply-failure j laws c b daemon e,
            )
            refl

      found :
          (sig : String)
          → (answer >>= asserted j c b) ≡ ok (asserted_value sig)
          → Fidolink.assert j daemon x y z ≡ ok sig
      found sig h =
          assert-asserted daemon x y z sig (asked (asserted_value sig) (ap (fido_reply j c b) h))

      of_signed :
          (sig : String)
          → ((reply : Value) × (answer ≡ ok reply) × (get_str j reply "sig" ≡ some sig))
          → Fidolink.assert j daemon x y z ≡ ok sig
      of_signed sig (reply, answered, has) =
          found sig (ap (λ a. a >>= asserted j c b) answered ∙ rw has refl)

      signed_of :
          (sig : String)
          → Fidolink.assert j daemon x y z ≡ ok sig
          → (reply : Value) × (answer ≡ ok reply) × (get_str j reply "sig" ≡ some sig)
      signed_of sig h = elim (Result-cases (answer >>= asserted j c b)) [
        | inr (e, wrong) ↦ let clash : bail (show_error e) ≡ ok sig = sym (failed e wrong) ∙ h in cc
        | inl (value, right) ↦
            let (reply, answered, valued) = >>=-eq-ok answer (asserted j c b) right in
            let (sig', has, same) = asserted-sig reply value valued in
            (reply, answered, has ∙ ap some (ok_inj (sym (found sig' (right ∙ ap ok same)) ∙ h)))
      ]
