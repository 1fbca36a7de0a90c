-- ===== src/Server/Pam/Verdicts.antt =====
-- daemon/crates/kpk-spike/src/server.rs and fidolink.rs: the daemon's socket between its clients,
-- for a probe, which stands in for the PAM module.
use kpasskey.Base.{
  subst, ==_iff, ℕ, ◌≡◌, refl, ap, sym, ◌∙◌, true, false, Option, some, List, [], ◌∷◌, String, inl,
  inr, In, Bool-cases, Option-cases, ◌==◌,
}
use kpasskey.Base.Errors.{Result, ok, err, bail, unwrap_or, show_error}
use kpasskey.Base.Text.{concat}
use kpasskey.External.{Json, JsonLaws, Crypto, Base64}
use kpasskey.Fidolink.{Exchange}
use kpasskey.Store.Fields.{Fields, get_str-object, get_bool-object}
use kpasskey.Server.{State}
use kpasskey.Server.Pam.Clients.{ReadsBack}
use kpasskey.Server.Events.{Event, IsJustified, after_events}
use kpasskey.Server.Soundness.{approval-IsJustified}
use kpasskey.Server.Pam.{
  printed, probe_request, probe, verdict_of, verdict_reply, verifying, reply_on, result_of,
}

result_of-In :
    (task : ℕ) (results : List (ℕ × Result (Unit {0}))) (r : Result (Unit {0}))
    → result_of task results ≡ some r
    → In (task, r) results
unfolding result_of
result_of-In task [] r h = cc
result_of-In task ((t, result) ∷ results) r h = elim (Bool-cases (t == task)) [
  | inl same ↦ inl (sym (λ i. ((==_iff t task).0 same i, ok_inj (rw same at h) i)))
  | inr other ↦ inr (result_of-In task results r (rw other at h))
]
  where
    ok_inj : some result ≡ some r → result ≡ r
    ok_inj e = cc

module _ (j : Json) (laws : JsonLaws j) (c : Crypto) (b : Base64) where
  open j use {Value, from_str, object, text, boolean}

  -- A connection that took the request and brought a line.
  abbrev pub answering : String → Exchange
  answering line = record { connected = ok tt; cloned = ok tt; sent = ok tt; reply = ok line }

  -- What the probe is to report of a verdict.
  abbrev pub reported : Result (Unit {0}) → Result (Unit {0})
  reported (ok u) = ok tt
  reported (err e) = bail (concat ("DENIED (" ∷ show_error e ∷ ")" ∷ []))

  verdict_of-verdict_reply :
      (verdict : Result (Unit {0}))
      → verdict_of j c b (verdict_reply j c b verdict) ≡ reported verdict
  unfolding verdict_of
  verdict_of-verdict_reply (ok u) =
      rw
        (get_bool-object j laws "ok" true (("ok", boolean true) ∷ ("reason", text "success") ∷ [])
          refl)
        refl
  verdict_of-verdict_reply (err e) =
      let fields : Fields j laws = ("ok", boolean false) ∷ ("reason", text (show_error e)) ∷ [] in
      rw
        (
          get_bool-object j laws "ok" false fields refl,
          get_str-object j laws "reason" (show_error e) fields refl,
        )
        refl

  -- If serde_json finds the fields of the objects that `json!` builds: a probe whose socket works
  -- and brings the line for a verdict, where that line reads back as its value, succeeds for an
  -- approval and fails with the reason for anything else.
  pub probe-verdict :
      (daemon : String → Exchange) (path : String) (user : Option String) (action detail : String)
      (verdict : Result (Unit {0}))
      → ReadsBack j laws (verdict_reply j c b verdict)
      → daemon (printed j c b (probe_request j c b (unwrap_or "unknown" user) action detail))
        ≡ answering (printed j c b (verdict_reply j c b verdict))
      → probe j c b daemon path user action detail ≡ reported verdict
  unfolding probe
  probe-verdict daemon path user action detail verdict back there =
      rw (there, back) (verdict_of-verdict_reply verdict)

  -- The verdict that a reply on a connection of the PAM module stands for.
  reply_on-verdict :
      (task : ℕ) (d : State j c b) (value : Value)
      → reply_on j c b (verifying task) d ≡ some value
      → (verdict : Result (Unit {0})) × (result_of task d.verdicts ≡ some verdict)
        × (value ≡ verdict_reply j c b verdict)
  unfolding reply_on
  reply_on-verdict task d value h = elim (Option-cases (result_of task d.verdicts)) [
    | inl nothing ↦ cc (rw (nothing, reply_on) at h)
    | inr (verdict, found) ↦ (verdict, found, cc (rw (found, reply_on) at h))
  ]

  -- A probe that succeeds on the reply of a task's connection was approved.
  pub probe-approved :
      (task : ℕ) (value : Value) (d : State j c b) (daemon : String → Exchange) (path : String)
      (user : Option String) (action detail : String)
      → reply_on j c b (verifying task) d ≡ some value
      → ReadsBack j laws value
      → daemon (printed j c b (probe_request j c b (unwrap_or "unknown" user) action detail))
        ≡ answering (printed j c b value)
      → probe j c b daemon path user action detail ≡ ok tt
      → In (task, ok tt) d.verdicts
  probe-approved task value d daemon path user action detail replied back there h =
      let (verdict, found, is_reply) = reply_on-verdict task d value replied in
      let same =
        probe-verdict daemon path user action detail verdict
          (subst (ReadsBack j laws) is_reply back)
          (there ∙ ap (λ v. answering (printed j c b v)) is_reply) in
      subst (λ r. In (task, r) d.verdicts) (approved verdict (sym same ∙ h))
        (result_of-In task d.verdicts verdict found)
    where
      approved : (verdict : Result (Unit {0})) → reported verdict ≡ ok tt → verdict ≡ ok tt
      approved (ok u) e = refl
      approved (err x) e = cc

  -- If serde_json finds the fields of the objects that `json!` builds: whatever happened since the
  -- daemon's start, when a probe whose socket works is answered with the daemon's reply on the
  -- connection of a task, where the line reads back as its value, and succeeds, then the approval
  -- of that task is justified: by a call, the key of the device that was active then, and a line
  -- of the phone with a signature that this key verifies over the request.
  pub probe-IsJustified :
      (timeout : String) (past : List (Event Value)) (task : ℕ) (value : Value)
      (daemon : String → Exchange) (path : String) (user : Option String) (action detail : String)
      → reply_on j c b (verifying task) (after_events j c b timeout past) ≡ some value
      → ReadsBack j laws value
      → daemon (printed j c b (probe_request j c b (unwrap_or "unknown" user) action detail))
        ≡ answering (printed j c b value)
      → probe j c b daemon path user action detail ≡ ok tt
      → IsJustified j c b timeout past task
  probe-IsJustified timeout past task value daemon path user action detail replied back there h =
      approval-IsJustified j c b timeout past task (
        probe-approved task value (after_events j c b timeout past) daemon path user action detail
          replied back there h)
