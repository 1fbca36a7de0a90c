-- ===== src/Server/Pam/Helper.antt =====
-- daemon/crates/kpk-spike/src/server.rs and fidolink.rs: the daemon's socket between its clients,
-- for the FIDO helper.
use kpasskey.Base.{
  subst, ℕ, ◌≡◌, refl, ap, sym, ◌∙◌, ◌↔◌, Bool, true, false, Option, none, some, List, [], ◌∷◌,
  String, inl, inr, if◌then◌else◌, In, Bool-cases, Option-cases, ◌==◌,
}
use kpasskey.Base.Errors.{
  Error, Result, ok, err, bail, context, or_context, unwrap_or, show_error, ◌>>=◌, ◌>>◌,
  Result-cases, >>=-eq-ok, context-eq_ok, or_context-eq_ok,
}
use kpasskey.Base.Text.{concat, trim}
use kpasskey.External.{Json, JsonLaws, Crypto, Base64}
use kpasskey.Fidolink
use kpasskey.Fidolink.{
  Exchange, NewCredential, creation_body, assertion_body, accept_reply, request,
}
use kpasskey.Store.Fields.{Fields, get_str-object, get_str-missing, get_bool-object}
use kpasskey.Store.{get_str, get_bool}
use kpasskey.Link.{load_verifying_key}
use kpasskey.Server.Pam.Clients.{ReadsBack}
use kpasskey.Server.Pam.Verdicts.{answering}
use kpasskey.Server.Events.{Event, IsJustified, after_events}
use kpasskey.Server.Soundness.{approval-IsJustified}
use kpasskey.Server.Pam.{
  Operation, verify, make_credential, assert, field, route, webauthn_operation, read_request,
  printed, probe_request, probe, verdict_of, verdict_reply, verifying, reply_on, result_of, failure,
  fido_reply, created, asserted,
}
pub mod Creations
pub mod Assertions
use text.Mathlib.Text.{◌==◌ as str_eq, starts_with}

pub ok_inj : {A : Type 0} {a1 a2 : A} → ok a1 ≡ ok a2 → a1 ≡ a2
ok_inj e = cc

module _ (j : Json) (laws : JsonLaws j) (c : Crypto) (b : Base64) where
  open j use {Value, from_str, object, text, boolean}

  pub accept_reply-failure :
      (daemon : String → Exchange) (e : Error)
      → accept_reply j daemon (failure j c b e) ≡ bail (show_error e)
  unfolding accept_reply
  accept_reply-failure daemon e =
      let fields : Fields j laws = ("ok", boolean false) ∷ ("error", text (show_error e)) ∷ [] in
      rw
        (
          get_bool-object j laws "ok" false fields refl,
          get_str-object j laws "error" (show_error e) fields refl,
        )
        refl

  -- A request over a socket that works.
  pub request-answered :
      (daemon : String → Exchange) (body value : Value)
      → daemon (printed j c b body) ≡ answering j laws c b (printed j c b value)
      → ReadsBack j laws value
      → request j daemon body ≡ accept_reply j daemon value
  unfolding request
  request-answered daemon body value there back = rw (there, back) refl
