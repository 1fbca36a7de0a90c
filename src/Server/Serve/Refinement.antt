-- ===== src/Server/Serve/Refinement.antt =====
-- daemon/crates/kpk-spike/src/server.rs: the daemon inside `serve` is the daemon of its events.
use kpasskey.Base.{
  ℕ, ◌≡◌, refl, ap, sym, ◌∙◌, Option, none, some, List, [], ◌∷◌, ◌++◌, String, inl, inr, Bool-cases,
}
use kpasskey.Base.Errors.{Result, ok, err, context, ◌>>◌}
use kpasskey.Base.Text.{trim, is_empty}
use kpasskey.External.{Json, Crypto, Base64}
use kpasskey.Protocol.{to_line}
use kpasskey.Store.{Device, Entry}
use kpasskey.Server.{
  State, Verification, Question, find, find_question, active_device, line_sent, question_sent,
}
use kpasskey.Server.Events.{Event, step, after_events}
use kpasskey.Server.Phone.{
  Moment, Desk, send_line, is_kind, complete_pairing, kind_of, on_phone_message, on_line,
  adopt_phone, listen,
}
use kpasskey.Server.Pam.{
  Operation, verify, make_credential, assert, read_request, begin, ask_creation,
}
use kpasskey.Server.Serve.{
  Draws, Happening, phone_accepted, pam_accepted, pam_read, request_written, verification_woken,
  question_written, question_woken, phone_read, window_begun, window_cancelled, window_asked,
  device_removed, directory_changed, Serving, going, ended, Served, opened, verify_timeout,
  accept_request, write_request, write_question, adopted, spawned, happen, proceed, serving,
}
use kpasskey.Server.Serve.Sending.{send_line-daemon, pairing-daemon}
use kpasskey.Server.Serve.History.{
  creation_events, request_events, written_events, asked_events, line_events, events_of, events_at,
  history,
}

module _ (j : Json) (c : Crypto) (b : Base64) (path : String) where
  open j use {Value, to_string}
  open c use {VerifyingKey}

  abbrev Running : Type 0
  Running = Served j c b path

  abbrev Phone : Type 0
  Phone = Desk VerifyingKey Value

  abbrev pub replay : List (Event Value) → State j c b → State j c b
  replay [] d = d
  replay (e ∷ es) d = step j c b e (replay es d)

  replay-after_events :
      (timeout : String) (es past : List (Event Value))
      → after_events j c b timeout (es ++ past) ≡ replay es (after_events j c b timeout past)
  unfolding after_events
  replay-after_events timeout [] past = refl
  replay-after_events timeout (e ∷ es) past =
      ap (step j c b e) (replay-after_events timeout es past)

  on_line-daemon :
      (raw : String) (moment : Moment) (d : Phone)
      → (on_line j c b path raw moment d).daemon
        ≡ replay (line_events j c b path (trim raw)) d.daemon
  unfolding on_line on_phone_message complete_pairing step
  on_line-daemon raw moment d = elim (Bool-cases (is_empty (trim raw))) [
    | inl nothing ↦ rw (on_line, nothing) refl
    | inr line ↦ elim (Bool-cases (is_kind (kind_of j c b path (trim raw)) "pair.request")) [
      | inl pairing ↦
          rw (on_line, on_phone_message, line, pairing)
            (pairing-daemon j c b path (trim raw) moment d)
      | inr reply ↦ rw (on_line, on_phone_message, line, reply) refl
    ]
  ]

  ask_creation-daemon :
      (rp_id user_name : String) (device : Result Device) (d : State j c b)
      → (ask_creation j c b rp_id user_name device d).1
        ≡ replay (creation_events j c b path rp_id user_name device) d
  unfolding ask_creation step
  ask_creation-daemon rp_id user_name (err e) d = refl
  ask_creation-daemon rp_id user_name (ok device) d = refl

  accept_request-daemon :
      (request : Result Operation) (draws : Draws) (s : Running)
      → (accept_request j c b path request draws s).desk.daemon
        ≡ replay (request_events j c b path request draws s.desk.files) s.desk.daemon
  unfolding accept_request begin step
  accept_request-daemon (err e) draws s = refl
  accept_request-daemon (ok (verify user action detail)) draws s = refl
  accept_request-daemon (ok (make_credential rp_id user_name)) draws s =
      ask_creation-daemon rp_id user_name
        (active_device j c b path (draws.read_dir >> ok s.desk.files)) s.desk.daemon
  accept_request-daemon (ok (assert rp_id credential_id payload)) draws s = refl

  write_request-daemon :
      (task : ℕ) (write : Result (Unit {0})) (found : Option (Verification VerifyingKey))
      (d : Phone)
      → (write_request j c b path task write found d).daemon
        ≡ replay (written_events j c b path task write found d) d.daemon
  unfolding write_request step
  write_request-daemon task write none d = refl
  write_request-daemon task write (some v) d = elim (Bool-cases v.request_sent) [
    | inl late ↦ rw (write_request, late) refl
    | inr early ↦
        let written = send_line (to_line j b v.request) write d in
        rw (write_request, early)
          (ap (line_sent j c b task written.0)
            (send_line-daemon j c b path (to_line j b v.request) write d))
  ]

  write_question-daemon :
      (task : ℕ) (write : Result (Unit {0})) (found : Option (Question Value)) (d : Phone)
      → (write_question j c b path task write found d).daemon
        ≡ replay (asked_events j c b path task write found d) d.daemon
  unfolding write_question step
  write_question-daemon task write none d = refl
  write_question-daemon task write (some q) d = elim (Bool-cases q.request_sent) [
    | inl late ↦ rw (write_question, late) refl
    | inr early ↦
        let written = send_line (to_string q.request) write d in
        rw (write_question, early)
          (ap (question_sent j c b task written.0)
            (send_line-daemon j c b path (to_string q.request) write d))
  ]

  abbrev daemon_of : Running → State j c b
  daemon_of s = s.desk.daemon

  going_daemon : (s t : Running) → going s ≡ going t → t.desk.daemon ≡ s.desk.daemon
  going_daemon s t eq = cc

  adopted-daemon :
      (accepted : Result (Unit {0})) (s t : Running)
      → adopted j c b path accepted s ≡ going t
      → t.desk.daemon ≡ s.desk.daemon
  unfolding adopt_phone listen
  adopted-daemon (err e) s t eq = cc
  adopted-daemon (ok u) s t eq =
      going_daemon (record s { desk = adopt_phone j c b path [] s.desk }) t eq

  spawned-daemon :
      (accepted : Result (Unit {0})) (s t : Running)
      → spawned j c b path accepted s ≡ going t
      → t.desk.daemon ≡ s.desk.daemon
  spawned-daemon (err e) s t eq = cc
  spawned-daemon (ok u) s t eq = going_daemon s t eq

  pub happen-daemon :
      (h : Happening) (s t : Running)
      → happen j c b path h s ≡ going t
      → t.desk.daemon ≡ replay (events_of j c b path h s) s.desk.daemon
  unfolding happen events_of step
  happen-daemon (phone_accepted accepted) s t eq =
      adopted-daemon (context "accepting a phone connection" accepted) s t eq
  happen-daemon (pam_accepted accepted) s t eq =
      spawned-daemon (context "accepting a PAM connection" accepted) s t eq
  happen-daemon (pam_read peer_uid line draws) s t eq =
      going_daemon (accept_request j c b path (read_request j c b peer_uid line) draws s) t eq
      ∙ accept_request-daemon (read_request j c b peer_uid line) draws s
  happen-daemon (request_written task write) s t eq =
      let found = find task s.desk.daemon.verifications in
      going_daemon (record s { desk = write_request j c b path task write found s.desk }) t eq
      ∙ write_request-daemon task write found s.desk
  happen-daemon (verification_woken task timer) s t eq = going_daemon _ t eq
  happen-daemon (question_written task write) s t eq =
      let found = find_question task s.desk.daemon.questions in
      going_daemon (record s { desk = write_question j c b path task write found s.desk }) t eq
      ∙ write_question-daemon task write found s.desk
  happen-daemon (question_woken task timer) s t eq = going_daemon _ t eq
  happen-daemon (phone_read raw moment) s t eq =
      going_daemon (record s { desk = on_line j c b path raw moment s.desk }) t eq
      ∙ on_line-daemon raw moment s.desk
  happen-daemon (window_begun label token host address now) s t eq = going_daemon _ t eq
  happen-daemon window_cancelled s t eq = going_daemon _ t eq
  happen-daemon (window_asked now) s t eq = going_daemon _ t eq
  happen-daemon (directory_changed files) s t eq = going_daemon _ t eq
  happen-daemon (device_removed id deleted emitted) s t eq = going_daemon _ t eq

  proceed-daemon :
      (h : Happening) (before : Serving Running) (d : State j c b) (t : Running)
      → ((s : Running) → before ≡ going s → s.desk.daemon ≡ d)
      → proceed j c b path h before ≡ going t
      → t.desk.daemon ≡ replay (events_at j c b path h before) d
  unfolding proceed events_at
  proceed-daemon h (ended e) d t so_far eq = cc
  proceed-daemon h (going s) d t so_far eq =
      happen-daemon h s t eq ∙ ap (replay (events_of j c b path h s)) (so_far s refl)

  -- As long as `serve` goes on: its daemon is in the state that the events of its history lead to.
  pub serving-history :
      (timeout_secs : ℕ) (files : List Entry) (past : List Happening) (t : Served j c b path)
      → serving j c b path (opened j c b path timeout_secs files) past ≡ going t
      → t.desk.daemon
        ≡ after_events j c b
            (verify_timeout j c b path timeout_secs)
            (history j c b path (opened j c b path timeout_secs files) past)
  unfolding serving history after_events
  serving-history timeout_secs files [] t eq =
      going_daemon (opened j c b path timeout_secs files) t eq
  serving-history timeout_secs files (h ∷ past) t eq =
      let s = opened j c b path timeout_secs files in
      let before = serving j c b path s past in
      let timeout = verify_timeout j c b path timeout_secs in
      proceed-daemon h before (after_events j c b timeout (history j c b path s past)) t
        (λ u same. serving-history timeout_secs files past u same) eq
      ∙ sym
          (replay-after_events timeout (events_at j c b path h before) (history j c b path s past))
