-- ===== src/Server/Serve/Handlers.antt =====
-- daemon/crates/kpk-spike/src/server.rs: each handler inside `serve` keeps the grounds of what is verified.
use kpasskey.Base.{
  ◌≡◌, refl, ℕ, ap, sym, ◌∙◌, subst, Option, none, some, List, [], String, All, In, inl, inr,
  Bool-cases, Option-cases,
}
use kpasskey.Base.Errors.{Result, ok, err, ◌>>◌}
use kpasskey.Base.Text.{trim, is_empty}
use kpasskey.External.{Json, Crypto, Base64}
use kpasskey.Protocol.{to_line, VerifyRequest, new_request}
use kpasskey.Store.{Device}
use kpasskey.Server.{
  State, Question, find, active_device, start_question, question_sent, active_key,
}
use kpasskey.Server.Events.{Event}
use kpasskey.Server.Untouched.{IsUntouched, question_sent-IsUntouched}
use kpasskey.Server.Distinct.Lists.{IsDistinct}
use kpasskey.Server.Phone.{
  Moment, Desk, send_line, is_kind, kind_of, on_phone_message, on_line, complete_pairing,
  report_refused,
}
use kpasskey.Server.Pam.{Operation, verify, make_credential, assert, begin, ask_creation}
use kpasskey.Server.Serve.{Draws, Served, accept_request, write_request, write_question}
use kpasskey.Server.Serve.Sending.{
  send_line-Keeps, send_line-In, pairing-Keeps, send_line-daemon, pairing-daemon,
}
use kpasskey.Server.Serve.Grounds.{
  Known, IsPut, HasGrounds, IsOutcome, grow-HasGrounds, start-HasGrounds, told-HasGrounds,
  deliver-HasGrounds,
}

module _ (j : Json) (c : Crypto) (b : Base64) (path : String) where
  open j use {Value, to_string}
  open c use {VerifyingKey}

  abbrev Running : Type 0
  Running = Served j c b path

  abbrev Phone : Type 0
  Phone = Desk VerifyingKey Value

  abbrev pub HasGroundsAt : Known j c b → List (Event Value) → Phone → Type 0
  HasGroundsAt C past d = HasGrounds j c b C past d.sent d.daemon

  -- Nothing that the grounds are about has changed, and lines may have been added.
  pub kept-HasGrounds :
      (C : Known j c b) (past : List (Event Value)) (d : Phone) (daemon : State j c b)
      (more : List String)
      → ((line : String) → In line d.sent → In line more)
      → IsUntouched j c b d.daemon daemon
      → HasGroundsAt C past d
      → HasGrounds j c b C past more daemon
  kept-HasGrounds C past d daemon more kept (same, same_verdicts) h =
      let (put, outcomes) =
        grow-HasGrounds j c b C C [] past d.sent more d.daemon (λ task device key request k. k) kept
          h in
      (
        subst (All (IsPut j c b C more)) (sym same) put,
        subst (All (IsOutcome j c b C past more)) (sym same_verdicts) outcomes,
      )

  ask_creation-HasGrounds :
      (C : Known j c b) (past : List (Event Value)) (lines : List String) (rp_id user_name : String)
      (device : Result Device) (d : State j c b)
      → HasGrounds j c b C past lines d
      → HasGrounds j c b C past lines (ask_creation j c b rp_id user_name device d).1
  unfolding ask_creation start_question
  ask_creation-HasGrounds C past lines rp_id user_name (err e) d h = h
  ask_creation-HasGrounds C past lines rp_id user_name (ok device) d h = h

  pub accept_request-HasGrounds :
      (C : Known j c b) (past : List (Event Value)) (request : Result Operation) (draws : Draws)
      (s : Running)
      → ((user action detail : String) (device : Device) (key : VerifyingKey) (made : VerifyRequest)
          → request ≡ ok (verify user action detail)
          → active_key j c b path (draws.read_dir >> ok s.desk.files) ≡ ok (device, key)
          → new_request s.desk.daemon.next_id user action detail draws.challenge draws.host
            ≡ ok made
          → C s.desk.daemon.next_task device key made)
      → HasGroundsAt C past s.desk
      → HasGroundsAt C past (accept_request j c b path request draws s).desk
  unfolding accept_request begin start_question
  accept_request-HasGrounds C past (err e) draws s known h = h
  accept_request-HasGrounds C past (ok (verify user action detail)) draws s known h =
      start-HasGrounds j c b C past s.desk.sent user action detail draws.challenge draws.host path
        (draws.read_dir >> ok s.desk.files) s.desk.daemon
        (λ device key made active new. known user action detail device key made refl active new) h
  accept_request-HasGrounds C past (ok (make_credential rp_id user_name)) draws s known h =
      ask_creation-HasGrounds C past s.desk.sent rp_id user_name
        (active_device j c b path (draws.read_dir >> ok s.desk.files)) s.desk.daemon h
  accept_request-HasGrounds C past (ok (assert rp_id credential_id payload)) draws s known h = h

  pub write_request-HasGrounds :
      (C : Known j c b) (past : List (Event Value)) (task : ℕ) (write : Result (Unit {0}))
      (d : Phone)
      → IsDistinct d.daemon.verifications
      → HasGroundsAt C past d
      → HasGroundsAt C past
          (write_request j c b path task write (find task d.daemon.verifications) d)
  unfolding write_request
  write_request-HasGrounds C past task write d distinct h =
      elim (Option-cases (find task d.daemon.verifications)) [
        | inl gone ↦ rw (gone, write_request) h
        | inr (v, found) ↦ elim (Bool-cases v.request_sent) [
          | inl late ↦ rw (found, write_request, late) h
          | inr early ↦
              let line = to_line j b v.request in
              let written = send_line line write d in
              let same = send_line-daemon j c b path line write d in
              rw (found, write_request, early)
                (told-HasGrounds j c b C past written.1.sent task written.0 v written.1.daemon
                  (ap (λ (x : State j c b). find task x.verifications) same ∙ found)
                  (λ done. send_line-In line write d done)
                  (subst (λ (x : State j c b). IsDistinct x.verifications) (sym same) distinct)
                  (kept-HasGrounds C past d written.1.daemon written.1.sent
                    (send_line-Keeps line write d)
                    (
                      ap (λ (x : State j c b). x.verifications) same,
                      ap (λ (x : State j c b). x.verdicts) same,
                    )
                    h))
        ]
      ]

  pub write_question-HasGrounds :
      (C : Known j c b) (past : List (Event Value)) (task : ℕ) (write : Result (Unit {0}))
      (found : Option (Question Value)) (d : Phone)
      → HasGroundsAt C past d
      → HasGroundsAt C past (write_question j c b path task write found d)
  unfolding write_question
  write_question-HasGrounds C past task write none d h = h
  write_question-HasGrounds C past task write (some q) d h = elim (Bool-cases q.request_sent) [
    | inl late ↦ rw (write_question, late) h
    | inr early ↦
        let line = to_string q.request in
        let written = send_line line write d in
        let same = send_line-daemon j c b path line write d in
        let after = question_sent-IsUntouched j c b task written.0 written.1.daemon in
        rw (write_question, early)
          (kept-HasGrounds C past d (question_sent j c b task written.0 written.1.daemon)
            written.1.sent (send_line-Keeps line write d)
            (
              after.0 ∙ ap (λ (x : State j c b). x.verifications) same,
              after.1 ∙ ap (λ (x : State j c b). x.verdicts) same,
            )
            h)
  ]

  pub on_line-HasGrounds :
      (C : Known j c b) (past : List (Event Value)) (raw : String) (moment : Moment) (d : Phone)
      → HasGroundsAt C past d
      → HasGroundsAt C past (on_line j c b path raw moment d)
  unfolding on_line on_phone_message
  on_line-HasGrounds C past raw moment d h = elim (Bool-cases (is_empty (trim raw))) [
    | inl nothing ↦ rw (on_line, nothing) h
    | inr line ↦ elim (Bool-cases (is_kind (kind_of j c b path (trim raw)) "pair.request")) [
      | inl pairing ↦
          let after =
            report_refused j c b path moment (complete_pairing j c b path (trim raw) moment d) in
          let same = pairing-daemon j c b path (trim raw) moment d in
          rw (on_line, on_phone_message, line, pairing)
            (kept-HasGrounds C past d after.daemon after.sent
              (pairing-Keeps j c b path (trim raw) moment d)
              (
                ap (λ (x : State j c b). x.verifications) same,
                ap (λ (x : State j c b). x.verdicts) same,
              )
              h)
      | inr reply ↦
          rw (on_line, on_phone_message, line, reply)
            (deliver-HasGrounds j c b C past d.sent (trim raw) d.daemon h)
    ]
  ]
