-- ===== src/Server/Serve/Written.antt =====
-- daemon/crates/kpk-spike/src/server.rs: inside `serve`, what is verified was written to the phone.
use kpasskey.Base.{ℕ, ◌≡◌, refl, sym, subst, List, [], ◌∷◌, ◌++◌, String, ap}
use kpasskey.Base.Errors.{Result, ok, err, context, ◌>>◌}
use kpasskey.External.{Json, Crypto, Base64}
use kpasskey.Store.{Entry, Device}
use kpasskey.Server.{State, find_question, wake_question, active_key}
use kpasskey.Server.Events.{Event, woken, IsSound}
use kpasskey.Server.Soundness.{after_events-IsSound}
use kpasskey.Server.Soundness.Begun.{later-IsSound}
use kpasskey.Server.Untouched.{wake_question-IsUntouched}
use kpasskey.Server.Distinct.{after_events-AreDistinct}
use kpasskey.Server.Distinct.Lists.{IsDistinct}
use kpasskey.Server.Phone.{adopt_phone, listen}
use kpasskey.Server.Pam.{read_request, verify}
use kpasskey.Server.Serve.{
  Happening, phone_accepted, pam_accepted, pam_read, request_written, verification_woken,
  question_written, question_woken, phone_read, window_begun, window_cancelled, window_asked,
  device_removed, directory_changed, Serving, going, ended, Served, opened, verify_timeout,
  accept_request, adopted, spawned, happen, proceed, serving, Draws,
}
use kpasskey.Server.Serve.History.{events_of, events_at, history}
use kpasskey.Server.Serve.Refinement.{serving-history}
use kpasskey.Server.Serve.Handlers.{
  HasGroundsAt, kept-HasGrounds, accept_request-HasGrounds, write_request-HasGrounds,
  write_question-HasGrounds, on_line-HasGrounds,
}
use kpasskey.Server.Serve.Grounds.{HasGrounds, grow-HasGrounds, Known}
use kpasskey.Server.Serve.Grounds.Woken.{wake-HasGrounds}
use kpasskey.Protocol.{VerifyRequest, new_request}
use kpasskey.Server.Serve.Asked.{IsAskedFor, later-IsAskedFor}

module _ (j : Json) (c : Crypto) (b : Base64) (path : String) where
  open j use {Value}
  open c use {VerifyingKey}

  abbrev Running : Type 0
  Running = Served j c b path

  going-HasGrounds :
      (C : Known j c b) (past : List (Event Value)) (s t : Running)
      → HasGroundsAt j c b path C past s.desk
      → going s ≡ going t
      → HasGroundsAt j c b path C past t.desk
  going-HasGrounds C past s t h eq =
      let same : s ≡ t = cc in subst (λ (u : Running). HasGroundsAt j c b path C past u.desk) same h

  adopted-HasGrounds :
      (C : Known j c b) (past : List (Event Value)) (accepted : Result (Unit {0})) (s t : Running)
      → HasGroundsAt j c b path C past s.desk
      → adopted j c b path accepted s ≡ going t
      → HasGroundsAt j c b path C past t.desk
  unfolding adopt_phone listen
  adopted-HasGrounds C past (err e) s t h eq = cc
  adopted-HasGrounds C past (ok u) s t h eq =
      going-HasGrounds C past (record s { desk = adopt_phone j c b path [] s.desk }) t h eq

  spawned-HasGrounds :
      (C : Known j c b) (past : List (Event Value)) (accepted : Result (Unit {0})) (s t : Running)
      → HasGroundsAt j c b path C past s.desk
      → spawned j c b path accepted s ≡ going t
      → HasGroundsAt j c b path C past t.desk
  spawned-HasGrounds C past (err e) s t h eq = cc
  spawned-HasGrounds C past (ok u) s t h eq = going-HasGrounds C past s t h eq

  -- What is known of the task that a request on the socket begins.
  abbrev Teaches : Known j c b → Happening → Running → Type 0
  Teaches C h s =
      (peer_uid : Result ℕ) (line : Result String) (draws : Draws) (user action detail : String)
      (device : Device) (key : VerifyingKey) (made : VerifyRequest)
      → h ≡ pam_read peer_uid line draws
      → read_request j c b peer_uid line ≡ ok (verify user action detail)
      → active_key j c b path (draws.read_dir >> ok s.desk.files) ≡ ok (device, key)
      → new_request s.desk.daemon.next_id user action detail draws.challenge draws.host ≡ ok made
      → C s.desk.daemon.next_task device key made

  -- The grounds are about the events and the lines that there are after a happening.
  happen-HasGrounds :
      (timeout : String) (C : Known j c b) (h : Happening) (past : List (Event Value))
      (s t : Running)
      → Teaches C h s
      → IsSound j c b timeout past s.desk.daemon
      → IsDistinct s.desk.daemon.verifications
      → HasGroundsAt j c b path C (events_of j c b path h s ++ past) s.desk
      → happen j c b path h s ≡ going t
      → HasGroundsAt j c b path C (events_of j c b path h s ++ past) t.desk
  unfolding happen events_of
  happen-HasGrounds timeout C (phone_accepted accepted) past s t known sound distinct g eq =
      adopted-HasGrounds C past (context "accepting a phone connection" accepted) s t g eq
  happen-HasGrounds timeout C (pam_accepted accepted) past s t known sound distinct g eq =
      spawned-HasGrounds C past (context "accepting a PAM connection" accepted) s t g eq
  happen-HasGrounds timeout C (pam_read peer_uid line draws) past s t known sound distinct g eq =
      let request = read_request j c b peer_uid line in
      let events = events_of j c b path (pam_read peer_uid line draws) s ++ past in
      going-HasGrounds C events (accept_request j c b path request draws s) t
        (accept_request-HasGrounds j c b path C events request draws s
          (λ user action detail device key made asks active new.
            known peer_uid line draws user action detail device key made refl asks active new)
          g)
        eq
  happen-HasGrounds timeout C (request_written task write) past s t known sound distinct g eq =
      let events = events_of j c b path (request_written task write) s ++ past in
      going-HasGrounds C events _ t
        (write_request-HasGrounds j c b path C events task write s.desk distinct g) eq
  happen-HasGrounds timeout C (verification_woken task timer) past s t known sound distinct g eq =
      let events = woken task timer ∷ past in
      going-HasGrounds C events _ t
        (wake-HasGrounds j c b timeout C events s.desk.sent task timer s.desk.daemon
          (later-IsSound j c b timeout (woken task timer) past s.desk.daemon sound) g)
        eq
  happen-HasGrounds timeout C (question_written task write) past s t known sound distinct g eq =
      let events = events_of j c b path (question_written task write) s ++ past in
      going-HasGrounds C events _ t
        (write_question-HasGrounds j c b path C events task write
          (find_question task s.desk.daemon.questions) s.desk g)
        eq
  happen-HasGrounds timeout C (question_woken task timer) past s t known sound distinct g eq =
      let events = events_of j c b path (question_woken task timer) s ++ past in
      going-HasGrounds C events _ t
        (kept-HasGrounds j c b path C events s.desk (wake_question j c b task timer s.desk.daemon)
          s.desk.sent (λ line i. i) (wake_question-IsUntouched j c b task timer s.desk.daemon) g)
        eq
  happen-HasGrounds timeout C (phone_read raw moment) past s t known sound distinct g eq =
      let events = events_of j c b path (phone_read raw moment) s ++ past in
      going-HasGrounds C events _ t (on_line-HasGrounds j c b path C events raw moment s.desk g) eq
  happen-HasGrounds timeout C (window_begun label token host address now) past s t known sound
        distinct g eq =
      going-HasGrounds C past _ t g eq
  happen-HasGrounds timeout C window_cancelled past s t known sound distinct g eq =
      going-HasGrounds C past _ t g eq
  happen-HasGrounds timeout C (window_asked now) past s t known sound distinct g eq =
      going-HasGrounds C past _ t g eq
  happen-HasGrounds timeout C (directory_changed files) past s t known sound distinct g eq =
      going-HasGrounds C past _ t g eq
  happen-HasGrounds timeout C (device_removed id deleted emitted) past s t known sound distinct g
        eq =
      going-HasGrounds C past _ t g eq

  proceed-HasGrounds :
      (timeout : String) (C : Known j c b) (h : Happening) (past : List (Event Value))
      (before : Serving Running) (t : Running)
      → ((s : Running)
          → before ≡ going s
          → Teaches C h s
            × IsSound j c b timeout past s.desk.daemon
            × IsDistinct s.desk.daemon.verifications
            × HasGroundsAt j c b path C past s.desk)
      → proceed j c b path h before ≡ going t
      → HasGroundsAt j c b path C (events_at j c b path h before ++ past) t.desk
  unfolding proceed events_at
  proceed-HasGrounds timeout C h past (ended e) t so_far eq = cc
  proceed-HasGrounds timeout C h past (going s) t so_far eq =
      let (known, sound, distinct, g) = so_far s refl in
      happen-HasGrounds timeout C h past s t known sound distinct
        (grow-HasGrounds j c b C C (events_of j c b path h s) past s.desk.sent s.desk.sent
          s.desk.daemon (λ task device key request k. k) (λ line i. i) g)
        eq

  -- As long as `serve` goes on: each verification in progress was begun for a request on the socket, the
  -- line of one that waits was written to the phone, and an approval stands on such a request, a line of
  -- the phone, and the line that was written to it.
  pub serving-HasGrounds :
      (timeout_secs : ℕ) (files : List Entry) (past : List Happening) (t : Served j c b path)
      → serving j c b path (opened j c b path timeout_secs files) past ≡ going t
      → HasGrounds j c b
          (IsAskedFor j c b path (opened j c b path timeout_secs files) past)
          (history j c b path (opened j c b path timeout_secs files) past)
          t.desk.sent
          t.desk.daemon
  unfolding serving history
  serving-HasGrounds timeout_secs files [] t eq =
      let start = opened j c b path timeout_secs files in
      going-HasGrounds (IsAskedFor j c b path start []) [] start t (tt, tt) eq
  serving-HasGrounds timeout_secs files (h ∷ past) t eq =
      let start = opened j c b path timeout_secs files in
      let timeout = verify_timeout j c b path timeout_secs in
      let events = history j c b path start past in
      proceed-HasGrounds timeout (IsAskedFor j c b path start (h ∷ past)) h events
        (serving j c b path start past) t
        (λ s same.
          let state = serving-history j c b path timeout_secs files past s same in
          (
            (λ peer_uid line draws user action detail device key made here asks active new. (
              record {
                peer_uid = peer_uid;
                line = line;
                draws = draws;
                call = record { user = user; action = action; detail = detail };
                later = [];
                before = past;
                state = s;
              },
              (ap (λ x. x ∷ past) here, same, asks),
              (refl, active, new),
            )),
            subst (IsSound j c b timeout events) (sym state)
                (after_events-IsSound j c b timeout events),
            subst (λ (d : State j c b). IsDistinct d.verifications) (sym state)
                (after_events-AreDistinct j c b timeout events),
            grow-HasGrounds j c b (IsAskedFor j c b path start past)
                (IsAskedFor j c b path start (h ∷ past)) [] events s.desk.sent s.desk.sent
                s.desk.daemon (later-IsAskedFor j c b path start h past) (λ line i. i)
                (serving-HasGrounds timeout_secs files past s same),
          ))
        eq
