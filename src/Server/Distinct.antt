-- ===== src/Server/Distinct.antt =====
-- daemon/crates/kpk-spike/src/server.rs: no two verifications in progress are the same task.
use kpasskey.Base.{
  ℕ, ◌+◌, ◌%◌, ◌^◌, ◌≡◌, ◌≢◌, refl, ap, sym, ◌∙◌, subst, Bool, true, false, Option, none, some,
  List, [], ◌∷◌, String, ◌==◌, arith, All, All-map, inl, inr, Bool-cases, Option-cases, ==_iff,
}
use mathlib.Core.Option.{some-injective}
use kpasskey.Base.Bytes.{Bytes}
use kpasskey.Base.Errors.{Result, ok, err, Result-cases}
use kpasskey.External.{Json, Crypto, Base64}
use kpasskey.Store.{Device, Entry}
use kpasskey.Protocol.{VerifyRequest, VerifyResponse, new_request, parse_response}
use kpasskey.Server.{
  Reply, Verification, find, discard, fill, mark_sent, lookup, has_sender, reply_of, State,
  active_key, conclude, register, start_verification, line_sent, judge, poll, wake, json_waiter,
  deliver_response, deliver, start_question, question_sent, wake_question, poll_question,
  find_question, Question,
}
use kpasskey.Server.Tables.{discard-All, fill-All, mark_sent-All}
use kpasskey.Server.Events.{
  Event, requested, sent, woken, asked, asking_sent, asking_woken, heard, step, after_events,
}
use kpasskey.Server.Soundness.{after_events-IsSound}
use kpasskey.Server.Untouched.{question_sent-IsUntouched, wake_question-IsUntouched}
use kpasskey.Server.Distinct.Lists.{
  IsDistinct, discard-IsDistinct, fill-IsDistinct, mark_sent-IsDistinct,
}
pub mod Lists

module _ (j : Json) (c : Crypto) (b : Base64) where
  open j use {Value}
  open c use {VerifyingKey}

  abbrev AreDistinct : State j c b → Type 0
  AreDistinct d = IsDistinct d.verifications

  start-AreDistinct :
      (user action detail : String) (challenge : Result Bytes) (host : Result String)
      (path : String) (directory : Result (List Entry)) (d : State j c b)
      → All (λ v. v.task ≢ d.next_task) d.verifications
      → AreDistinct d
      → AreDistinct (start_verification j c b user action detail challenge host path directory d)
  unfolding start_verification register
  start-AreDistinct user action detail challenge host path directory d new h =
      elim (Result-cases (active_key j c b path directory)) [
        | inr (e, refused_) ↦
            rw (refused_, start_verification) (discard-IsDistinct d.next_task d.verifications h)
        | inl ((device, key), found) ↦
            elim (Result-cases (new_request d.next_id user action detail challenge host)) [
              | inl (request, made) ↦ rw (found, start_verification, made, register) (new, h)
              | inr (e, failed) ↦
                  rw (found, start_verification, failed, register)
                    (discard-IsDistinct d.next_task d.verifications h)
            ]
      ]

  sent-AreDistinct :
      (task : ℕ) (result : Result (Unit {0})) (d : State j c b)
      → AreDistinct d
      → AreDistinct (line_sent j c b task result d)
  unfolding line_sent
  sent-AreDistinct task (ok u) d h = mark_sent-IsDistinct task d.verifications h
  sent-AreDistinct task (err e) d h = elim (Option-cases (find task d.verifications)) [
    | inl gone ↦ rw (gone, line_sent) h
    | inr (v, found) ↦
        rw (found, line_sent)
          (elim (Bool-cases v.request_sent) [
            | inl late ↦ rw late h
            | inr early ↦ rw early (discard-IsDistinct task d.verifications h)
          ])
  ]

  poll-AreDistinct :
      (v : Verification VerifyingKey) (reply : Option Reply) (timer : Bool) (d : State j c b)
      → AreDistinct d
      → AreDistinct (poll j c b v reply timer d)
  unfolding poll
  poll-AreDistinct v (some r) timer d h = discard-IsDistinct v.task d.verifications h
  poll-AreDistinct v none timer d h = elim (Bool-cases (has_sender v.task d.pending)) [
    | inr abandoned ↦ rw abandoned (discard-IsDistinct v.task d.verifications h)
    | inl waiting ↦ elim (Bool-cases timer) [
      | inl late ↦ rw (waiting, late) (discard-IsDistinct v.task d.verifications h)
      | inr early ↦ rw (waiting, early) h
    ]
  ]

  wake-AreDistinct :
      (task : ℕ) (timer : Bool) (d : State j c b)
      → AreDistinct d
      → AreDistinct (wake j c b task timer d)
  unfolding wake poll judge
  wake-AreDistinct task timer d h = elim (Option-cases (find task d.verifications)) [
    | inl gone ↦ rw (gone, wake) h
    | inr (v, found) ↦
        rw (found, wake)
          (elim (Bool-cases v.request_sent) [
            | inl late ↦ rw late (poll-AreDistinct v v.reply timer d h)
            | inr early ↦ rw early h
          ])
  ]

  response-AreDistinct :
      (parsed : Result VerifyResponse) (d : State j c b)
      → AreDistinct d
      → AreDistinct (deliver_response j c b parsed d)
  unfolding deliver_response
  response-AreDistinct (err e) d h = h
  response-AreDistinct (ok r) d h = elim (Option-cases (lookup r.id d.pending)) [
    | inl nobody ↦ rw (nobody, deliver_response) h
    | inr (task, waiting) ↦
        rw (waiting, deliver_response)
          (fill-IsDistinct task (reply_of r.denied r.signature) d.verifications h)
  ]

  deliver-AreDistinct :
      (line : String) (d : State j c b) → AreDistinct d → AreDistinct (deliver j c b line d)
  unfolding deliver
  deliver-AreDistinct line d h = elim (Option-cases (json_waiter j c b line d)) [
    | inl nobody ↦ rw (nobody, deliver) (response-AreDistinct (parse_response j b line) d h)
    | inr ((id, task, value), found) ↦ rw (found, deliver) h
  ]

  step-AreDistinct :
      (e : Event Value) (d : State j c b)
      → All (λ v. v.task ≢ d.next_task) d.verifications
      → AreDistinct d
      → AreDistinct (step j c b e d)
  unfolding step start_question
  step-AreDistinct (requested call challenge host path directory) d new h =
      start-AreDistinct call.user call.action call.detail challenge host path directory d new h
  step-AreDistinct (sent task result) d new h = sent-AreDistinct task result d h
  step-AreDistinct (woken task timer) d new h = wake-AreDistinct task timer d h
  step-AreDistinct (asked request) d new h = h
  step-AreDistinct (asking_sent task result) d new h =
      subst IsDistinct (sym (question_sent-IsUntouched j c b task result d).0) h
  step-AreDistinct (asking_woken task timer) d new h =
      subst IsDistinct (sym (wake_question-IsUntouched j c b task timer d).0) h
  step-AreDistinct (heard line) d new h = deliver-AreDistinct line d h

  -- Whatever the order of the events since the daemon's start, no two verifications in progress are the
  -- same task.
  pub after_events-AreDistinct :
      (timeout : String) (past : List (Event Value))
      → IsDistinct (after_events j c b timeout past).verifications
  unfolding after_events
  after_events-AreDistinct timeout [] = tt
  after_events-AreDistinct timeout (e ∷ past) =
      let before = after_events j c b timeout past in
      step-AreDistinct e before
        (All-map (λ v h eq. omega (arith, h.0, eq)) before.verifications
          (after_events-IsSound j c b timeout past).1)
        (after_events-AreDistinct timeout past)
