-- ===== src/Server/Counting.antt =====
-- daemon/crates/kpk-spike/src/server.rs: tasks are numbered in the order in which they are begun.
use kpasskey.Base.{
  ℕ, ◌+◌, ◌≤◌, ◌≡◌, refl, Bool, Option, none, some, List, String, arith, inl, inr, Bool-cases,
  Option-cases,
}
use kpasskey.Base.Bytes.{Bytes}
use kpasskey.Base.Errors.{Result, ok, err, Result-cases}
use kpasskey.External.{Json, Crypto, Base64}
use kpasskey.Store.{Entry}
use kpasskey.Protocol.{VerifyResponse, new_request, parse_response}
use kpasskey.Server.{
  Reply, Verification, find, lookup, has_sender, Question, find_question, State, active_key,
  register, start_verification, line_sent, judge, poll, wake, json_waiter, deliver_response,
  deliver, start_question, question_sent, poll_question, wake_question,
}
use kpasskey.Server.Events.{
  Event, requested, sent, woken, asked, asking_sent, asking_woken, heard, step,
}

module _ (j : Json) (c : Crypto) (b : Base64) where
  open j use {Value}
  open c use {VerifyingKey}

  pub start_verification-next_task :
      (user action detail : String) (challenge : Result Bytes) (host : Result String)
      (path : String) (directory : Result (List Entry)) (d : State j c b)
      → (start_verification j c b user action detail challenge host path directory d).next_task
        ≡ d.next_task + 1
  unfolding start_verification register
  start_verification-next_task user action detail challenge host path directory d =
      elim (Result-cases (active_key j c b path directory)) [
        | inr (e, refused_) ↦ rw (refused_, start_verification) refl
        | inl ((device, key), found) ↦
            elim (Result-cases (new_request d.next_id user action detail challenge host)) [
              | inl (request, made) ↦ rw (found, start_verification, made, register) refl
              | inr (e, failed) ↦ rw (found, start_verification, failed, register) refl
            ]
      ]

  -- The other steps number no task.
  abbrev IsEven : State j c b → State j c b → Type 0
  IsEven d after = after.next_task ≡ d.next_task

  sent-IsEven :
      (task : ℕ) (result : Result (Unit {0})) (d : State j c b)
      → IsEven d (line_sent j c b task result d)
  unfolding line_sent
  sent-IsEven task (ok u) d = refl
  sent-IsEven task (err e) d = elim (Option-cases (find task d.verifications)) [
    | inl gone ↦ rw (gone, line_sent) refl
    | inr (v, found) ↦
        rw (found, line_sent)
          (elim (Bool-cases v.request_sent) [ inl late ↦ rw late refl | inr early ↦ rw early refl ])
  ]

  poll-IsEven :
      (v : Verification VerifyingKey) (reply : Option Reply) (timer : Bool) (d : State j c b)
      → IsEven d (poll j c b v reply timer d)
  unfolding poll
  poll-IsEven v (some r) timer d = refl
  poll-IsEven v none timer d = elim (Bool-cases (has_sender v.task d.pending)) [
    | inr abandoned ↦ rw abandoned refl
    | inl waiting ↦ elim (Bool-cases timer) [
      | inl late ↦ rw (waiting, late) refl
      | inr early ↦ rw (waiting, early) refl
    ]
  ]

  wake-IsEven : (task : ℕ) (timer : Bool) (d : State j c b) → IsEven d (wake j c b task timer d)
  unfolding wake poll judge
  wake-IsEven task timer d = elim (Option-cases (find task d.verifications)) [
    | inl gone ↦ rw (gone, wake) refl
    | inr (v, found) ↦
        rw (found, wake)
          (elim (Bool-cases v.request_sent) [
            | inl late ↦ rw late (poll-IsEven v v.reply timer d)
            | inr early ↦ rw early refl
          ])
  ]

  question_sent-IsEven :
      (task : ℕ) (result : Result (Unit {0})) (d : State j c b)
      → IsEven d (question_sent j c b task result d)
  unfolding question_sent
  question_sent-IsEven task (ok u) d = refl
  question_sent-IsEven task (err e) d = elim (Option-cases (find_question task d.questions)) [
    | inl gone ↦ rw (gone, question_sent) refl
    | inr (q, found) ↦
        rw (found, question_sent)
          (elim (Bool-cases q.request_sent) [ inl late ↦ rw late refl | inr early ↦ rw early refl ])
  ]

  poll_question-IsEven :
      (q : Question Value) (reply : Option Value) (timer : Bool) (d : State j c b)
      → IsEven d (poll_question j c b q reply timer d)
  unfolding poll_question
  poll_question-IsEven q (some value) timer d = refl
  poll_question-IsEven q none timer d = elim (Bool-cases (has_sender q.task d.pending_json)) [
    | inr abandoned ↦ rw abandoned refl
    | inl waiting ↦ elim (Bool-cases timer) [
      | inl late ↦ rw (waiting, late) refl
      | inr early ↦ rw (waiting, early) refl
    ]
  ]

  wake_question-IsEven :
      (task : ℕ) (timer : Bool) (d : State j c b) → IsEven d (wake_question j c b task timer d)
  unfolding wake_question poll_question
  wake_question-IsEven task timer d = elim (Option-cases (find_question task d.questions)) [
    | inl gone ↦ rw (gone, wake_question) refl
    | inr (q, found) ↦
        rw (found, wake_question)
          (elim (Bool-cases q.request_sent) [
            | inl late ↦ rw late (poll_question-IsEven q q.reply timer d)
            | inr early ↦ rw early refl
          ])
  ]

  response-IsEven :
      (parsed : Result VerifyResponse) (d : State j c b)
      → IsEven d (deliver_response j c b parsed d)
  unfolding deliver_response
  response-IsEven (err e) d = refl
  response-IsEven (ok r) d = elim (Option-cases (lookup r.id d.pending)) [
    | inl nobody ↦ rw (nobody, deliver_response) refl
    | inr (task, waiting) ↦ rw (waiting, deliver_response) refl
  ]

  deliver-IsEven : (line : String) (d : State j c b) → IsEven d (deliver j c b line d)
  unfolding deliver
  deliver-IsEven line d = elim (Option-cases (json_waiter j c b line d)) [
    | inl nobody ↦ rw (nobody, deliver) (response-IsEven (parse_response j b line) d)
    | inr ((id, task, value), found) ↦ rw (found, deliver) refl
  ]

  -- No step numbers a task with a number that was given out before.
  pub step-next_task :
      (e : Event Value) (d : State j c b) → d.next_task ≤ (step j c b e d).next_task
  unfolding step start_question
  step-next_task (requested call challenge host path directory) d = omega (
    arith,
    start_verification-next_task call.user call.action call.detail challenge host path directory d,
  )
  step-next_task (sent task result) d = omega (arith, sent-IsEven task result d)
  step-next_task (woken task timer) d = omega (arith, wake-IsEven task timer d)
  step-next_task (asked request) d = omega arith
  step-next_task (asking_sent task result) d = omega (arith, question_sent-IsEven task result d)
  step-next_task (asking_woken task timer) d = omega (arith, wake_question-IsEven task timer d)
  step-next_task (heard line) d = omega (arith, deliver-IsEven line d)
