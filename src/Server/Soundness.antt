-- ===== src/Server/Soundness.antt =====
-- daemon/crates/kpk-spike/src/server.rs: what stands behind an approval, whatever the order in which
-- requests, wake-ups and lines of the phone reach the daemon.
use kpasskey.Base.{
  ℕ, zero, suc, ◌+◌, ◌%◌, ◌^◌, ◌≤◌, ◌<◌, ◌≡◌, refl, ap, sym, ◌∙◌, subst, Bool, true, false, Option,
  none, some, List, [], ◌∷◌, String, ◌==◌, if◌then◌else◌, arith, All, All-map, All-zip, All-In, In,
  inl, inr, Bool-cases, Option-cases, ==_iff,
}
use mathlib.Core.Option.{some-injective}
use kpasskey.Base.Errors.{Error, Result, ok, err, bail, Result-cases}
use kpasskey.Base.Bytes.{Bytes}
use kpasskey.Base.Text.{concat}
use kpasskey.External.{Json, Crypto, Base64}
use kpasskey.Link.{load_verifying_key, verify_assertion}
use kpasskey.Store.{Device, Entry}
use kpasskey.Protocol.{VerifyRequest, VerifyResponse, new_request, to_line, parse_response}
use kpasskey.Server.{
  Pending, lookup, remove, insert, has_sender, Reply, signed, refused, Verification, Daemon, find,
  discard, fill, mark_sent, reply_of, State, init, active_key, conclude, register,
  start_verification, line_sent, judge, poll, wake, json_waiter, deliver_response, deliver,
  start_question, question_sent, wake_question, poll_question, finish, Question, find_question,
}
use kpasskey.Server.Tables.{lookup-All, remove-All, discard-All, fill-All, mark_sent-All, find-All}
use kpasskey.Server.Events.{
  Call, Event, requested, sent, woken, asked, asking_sent, asking_woken, heard, step, after_events,
  IsCalled, IsSigned, IsBacked, IsJustified, IsEntry, IsRunning, IsVerdict, IsSound,
}
use kpasskey.Server.Soundness.Begun.{later-IsSound, count-IsSound, start-IsSound}
use kpasskey.Server.Soundness.Tasks.{sent-IsSound, wake-IsSound}
use kpasskey.Server.Soundness.Lines.{deliver-IsSound}
pub mod Begun
mod Tasks
mod Lines

module _ (j : Json) (c : Crypto) (b : Base64) (timeout : String) where
  open j use {Value}
  open c use {VerifyingKey}

  start_question-IsSound :
      (past : List (Event Value)) (request : Value) (d : State j c b)
      → IsSound j c b timeout past d
      → IsSound j c b timeout past (start_question j c b request d)
  unfolding start_question
  start_question-IsSound past request d h =
      count-IsSound j c b timeout past ((d.next_id + 1) % 2 ^ 64) d h

  question_sent-IsSound :
      (past : List (Event Value)) (task : ℕ) (result : Result (Unit {0})) (d : State j c b)
      → IsSound j c b timeout past d
      → IsSound j c b timeout past (question_sent j c b task result d)
  unfolding question_sent
  question_sent-IsSound past task (ok u) d h = h
  question_sent-IsSound past task (err e) d h =
      elim (Option-cases (find_question task d.questions)) [
        | inl gone ↦ rw (gone, question_sent) h
        | inr (q, found) ↦
            rw (found, question_sent)
              (elim (Bool-cases q.request_sent) [ inl late ↦ rw late h | inr early ↦ rw early h ])
      ]

  poll_question-IsSound :
      (past : List (Event Value)) (q : Question Value) (reply : Option Value) (timer : Bool)
      (d : State j c b)
      → IsSound j c b timeout past d
      → IsSound j c b timeout past (poll_question j c b q reply timer d)
  unfolding poll_question
  poll_question-IsSound past q (some value) timer d h = h
  poll_question-IsSound past q none timer d h =
      elim (Bool-cases (has_sender q.task d.pending_json)) [
        | inr abandoned ↦ rw abandoned h
        | inl waiting ↦ elim (Bool-cases timer) [
          | inl late ↦ rw (waiting, late) h
          | inr early ↦ rw (waiting, early) h
        ]
      ]

  wake_question-IsSound :
      (past : List (Event Value)) (task : ℕ) (timer : Bool) (d : State j c b)
      → IsSound j c b timeout past d
      → IsSound j c b timeout past (wake_question j c b task timer d)
  unfolding wake_question poll_question
  wake_question-IsSound past task timer d h = elim (Option-cases (find_question task d.questions)) [
    | inl gone ↦ rw (gone, wake_question) h
    | inr (q, found) ↦
        rw (found, wake_question)
          (elim (Bool-cases q.request_sent) [
            | inl late ↦ rw late (poll_question-IsSound past q q.reply timer d h)
            | inr early ↦ rw early h
          ])
  ]

  step-IsSound :
      (e : Event Value) (past : List (Event Value)) (d : State j c b)
      → d ≡ after_events j c b timeout past
      → IsSound j c b timeout past d
      → IsSound j c b timeout (e ∷ past) (step j c b e d)
  unfolding step
  step-IsSound (requested call challenge host path directory) past d same h =
      start-IsSound j c b timeout past call challenge host path directory d same
        (later-IsSound j c b timeout _ past d h)
  step-IsSound (sent task result) past d same h =
      sent-IsSound j c b timeout (sent task result ∷ past) task result d
        (later-IsSound j c b timeout _ past d h)
  step-IsSound (woken task timer) past d same h =
      wake-IsSound j c b timeout (woken task timer ∷ past) task timer d
        (later-IsSound j c b timeout _ past d h)
  step-IsSound (asked request) past d same h =
      start_question-IsSound (asked request ∷ past) request d
        (later-IsSound j c b timeout _ past d h)
  step-IsSound (asking_sent task result) past d same h =
      question_sent-IsSound (asking_sent task result ∷ past) task result d
        (later-IsSound j c b timeout _ past d h)
  step-IsSound (asking_woken task timer) past d same h =
      wake_question-IsSound (asking_woken task timer ∷ past) task timer d
        (later-IsSound j c b timeout _ past d h)
  step-IsSound (heard line) past d same h =
      deliver-IsSound j c b timeout (heard line ∷ past) line d (inl refl)
        (later-IsSound j c b timeout _ past d h)

  -- After any history of events from the daemon's start: every entry of `pending` has a task that was
  -- numbered before, and belongs to a verification with the entry's id if to any; every verification
  -- in progress belongs to a call in the history, and a signature that it holds came in a line for its
  -- id; every verdict that approves is justified by the history.
  pub after_events-IsSound :
      (past : List (Event Value)) → IsSound j c b timeout past (after_events j c b timeout past)
  unfolding after_events
  after_events-IsSound [] = (tt, tt, tt)
  after_events-IsSound (e ∷ past) =
      step-IsSound e past (after_events j c b timeout past) refl (after_events-IsSound past)

  -- Whatever the order of the events since the daemon's start: if a verification ended with an
  -- approval, then of the call that began just this verification, numbered as it is: its device was the
  -- active one at that call, its request carries the call's user, action and detail and the id that was
  -- next then, and the phone sent a line with that id that denies nothing and carries a signature, which
  -- the key loaded from the device's PEM verifies over the exact line of the request.
  pub approval-IsJustified :
      (past : List (Event Value)) (task : ℕ)
      → In (task, ok tt) (after_events j c b timeout past).verdicts
      → IsJustified j c b timeout past task
  approval-IsJustified past task approved =
      All-In (IsVerdict j c b timeout past) (task, ok tt) (after_events j c b timeout past).verdicts
        (after_events-IsSound past).2 approved refl
