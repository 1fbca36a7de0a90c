-- ===== src/Server/Answers/Lines.antt =====
-- daemon/crates/kpk-spike/src/server.rs: `deliver`, and the steps of `run_verification`, keep track
-- of what `ask_phone` was asked and of what it heard.
use kpasskey.Base.{
  ℕ, ◌+◌, ◌%◌, ◌^◌, ◌≡◌, ap, sym, ◌∙◌, subst, Bool, Option, none, some, List, String, All-map,
  All-zip, In, inl, inr, Bool-cases, Option-cases,
}
use mathlib.Core.Option.{some-injective}
use kpasskey.Base.Errors.{Result, ok, err, Result-cases}
use kpasskey.Base.Bytes.{Bytes}
use kpasskey.External.{Json, Crypto, Base64}
use kpasskey.Store.{Device, Entry, get_u64}
use kpasskey.Protocol.{VerifyRequest, VerifyResponse, new_request, parse_response}
use kpasskey.Server.{
  lookup, remove, has_sender, Reply, Verification, find, fill_question, State, active_key, register,
  start_verification, line_sent, judge, poll, wake, json_waiter, deliver_response, deliver,
}
use kpasskey.Server.Tables.{lookup-All}
use kpasskey.Server.Events.{Event, Call, heard}
use kpasskey.Server.Answers.Tables.{remove-other, fill_question-All, fill_question-IsAsking}
use kpasskey.Server.Answers.Backing.{IsHeard, IsQuestion, IsWaiter, IsTracked}
use kpasskey.Server.Answers.Begun.{count-IsTracked}

module _ (j : Json) (c : Crypto) (b : Base64) (timeout : String) where
  open j use {Value, from_str}
  open c use {VerifyingKey}

  -- The waiter that a line finds: the line is a value with that id, and the waiter is in the table.
  json_waiter-found :
      (line : String) (d : State j c b) {id task : ℕ} {value : Value}
      → json_waiter j c b line d ≡ some (id, task, value)
      → (from_str line ≡ ok value)
        × (get_u64 j value "id" ≡ some id)
        × (lookup id d.pending_json ≡ some task)
  unfolding json_waiter
  json_waiter-found line d {id} {task} {value} eq = elim (Result-cases (from_str line)) [
    | inr (e, broken) ↦ absurd (cc (rw (broken, json_waiter) at eq))
    | inl (v, parsed) ↦ elim (Option-cases (get_u64 j v "id")) [
      | inl without ↦ absurd (cc (rw (parsed, without, json_waiter) at eq))
      | inr (n, numbered) ↦ elim (Option-cases (lookup n d.pending_json)) [
        | inl nobody ↦ absurd (cc (rw (parsed, numbered, nobody, json_waiter) at eq))
        | inr (t, waiting) ↦
            let same =
              some-injective (n, t, v) (id, task, value)
                (rw (parsed, numbered, waiting, json_waiter) at eq) in
            let same_id = ap (λ r. r.0) same in
            let same_task = ap (λ r. r.1) same in
            let same_value = ap (λ r. r.2) same in (cc, cc, cc)
      ]
    ]
  ]

  fill-IsTracked :
      (past : List (Event Value)) (id task : ℕ) (value : Value) (d : State j c b)
      → IsHeard j c b past id value
      → lookup id d.pending_json ≡ some task
      → IsTracked j c b timeout past d
      → IsTracked j c b timeout past (record d {
        pending_json = remove id d.pending_json;
        questions = fill_question task value d.questions;
      })
  fill-IsTracked past id task value d heard_ waiting (waiters, running, answers) = (
    remove-other (IsWaiter j c b d.next_task (fill_question task value d.questions)) id
        d.pending_json
        (All-map
          (λ e h apart. (
            h.0,
            fill_question-IsAsking e.1 task value d.questions h.1,
            fill_question-All (λ q. q.task ≡ e.1 → (q.id ≡ e.0) × (q.reply ≡ none)) task value
                d.questions
                (All-map
                  (λ q k. (k.0, λ same other. absurd (apart (sym (k.0 other).0 ∙ (k.1 same).0))))
                  d.questions
                  (All-zip (λ q. q.task ≡ e.1 → (q.id ≡ e.0) × (q.reply ≡ none))
                    (λ q. q.task ≡ task → (q.id ≡ id) × (q.reply ≡ none)) d.questions h.2 entry.2)),
          ))
          d.pending_json waiters),
    fill_question-All (IsQuestion j c b timeout past d.next_task) task value d.questions (
        All-map
          (λ q k. (
            k.0,
            λ same. (
              k.0.0,
              k.0.1,
              k.0.2,
              λ other eq.
                  subst (λ (r : ℕ × Value). IsHeard j c b past r.0 r.1)
                    (λ i. (sym (k.1 same).0 i, some-injective value other eq i)) heard_,
            ),
          ))
          d.questions
          (All-zip (IsQuestion j c b timeout past d.next_task)
            (λ q. q.task ≡ task → (q.id ≡ id) × (q.reply ≡ none)) d.questions running entry.2)),
    answers,
  )
    where
      entry : IsWaiter j c b d.next_task d.questions (id, task)
      entry = lookup-All (IsWaiter j c b d.next_task d.questions) id d.pending_json waiters waiting

  response-IsTracked :
      (past : List (Event Value)) (parsed : Result VerifyResponse) (d : State j c b)
      → IsTracked j c b timeout past d
      → IsTracked j c b timeout past (deliver_response j c b parsed d)
  unfolding deliver_response
  response-IsTracked past (err e) d h = h
  response-IsTracked past (ok r) d h = elim (Option-cases (lookup r.id d.pending)) [
    | inl nobody ↦ rw (nobody, deliver_response) h
    | inr (task, waiting) ↦ rw (waiting, deliver_response) h
  ]

  pub deliver-IsTracked :
      (past : List (Event Value)) (line : String) (d : State j c b)
      → In (heard line) past
      → IsTracked j c b timeout past d
      → IsTracked j c b timeout past (deliver j c b line d)
  unfolding deliver
  deliver-IsTracked past line d event h = elim (Option-cases (json_waiter j c b line d)) [
    | inl nobody ↦ rw (nobody, deliver) (response-IsTracked past (parse_response j b line) d h)
    | inr ((id, task, value), found) ↦
        let (parsed, numbered, waiting) = json_waiter-found line d found in
        rw (found, deliver)
          (fill-IsTracked past id task value d (line, event, parsed, numbered) waiting h)
  ]

  pub register-IsTracked :
      (past : List (Event Value)) (device : Device) (key : VerifyingKey)
      (request : Result VerifyRequest) (d : State j c b)
      → IsTracked j c b timeout past d
      → IsTracked j c b timeout past (register j c b device key request d)
  unfolding register
  register-IsTracked past device key (err e) d h = count-IsTracked j c b timeout past d.next_id d h
  register-IsTracked past device key (ok request) d h =
      count-IsTracked j c b timeout past d.next_id d h

  pub request-IsTracked :
      (past : List (Event Value)) (call : Call) (challenge : Result Bytes) (host : Result String)
      (path : String) (directory : Result (List Entry)) (d : State j c b)
      → IsTracked j c b timeout past d
      → IsTracked j c b timeout past (
          start_verification j c b call.user call.action call.detail challenge host path directory
            d)
  unfolding start_verification
  request-IsTracked past call challenge host path directory d h =
      elim (Result-cases (active_key j c b path directory)) [
        | inr (e, refused_) ↦
            rw (refused_, start_verification) (count-IsTracked j c b timeout past d.next_id d h)
        | inl ((device, key), found) ↦
            rw (found, start_verification)
              (register-IsTracked past device key
                (new_request d.next_id call.user call.action call.detail challenge host)
                (record d { next_id = (d.next_id + 1) % 2 ^ 64 }) h)
      ]

  pub sent-IsTracked :
      (past : List (Event Value)) (task : ℕ) (result : Result (Unit {0})) (d : State j c b)
      → IsTracked j c b timeout past d
      → IsTracked j c b timeout past (line_sent j c b task result d)
  unfolding line_sent
  sent-IsTracked past task (ok u) d h = h
  sent-IsTracked past task (err e) d h = elim (Option-cases (find task d.verifications)) [
    | inl gone ↦ rw (gone, line_sent) h
    | inr (v, found) ↦
        rw (found, line_sent)
          (elim (Bool-cases v.request_sent) [ inl late ↦ rw late h | inr early ↦ rw early h ])
  ]

  poll_reply-IsTracked :
      (past : List (Event Value)) (v : Verification VerifyingKey) (reply : Option Reply)
      (timer : Bool) (d : State j c b)
      → IsTracked j c b timeout past d
      → IsTracked j c b timeout past (poll j c b v reply timer d)
  unfolding poll
  poll_reply-IsTracked past v (some r) timer d h = h
  poll_reply-IsTracked past v none timer d h = elim (Bool-cases (has_sender v.task d.pending)) [
    | inr abandoned ↦ rw abandoned h
    | inl waiting ↦ elim (Bool-cases timer) [
      | inl late ↦ rw (waiting, late) h
      | inr early ↦ rw (waiting, early) h
    ]
  ]

  pub woken-IsTracked :
      (past : List (Event Value)) (task : ℕ) (timer : Bool) (d : State j c b)
      → IsTracked j c b timeout past d
      → IsTracked j c b timeout past (wake j c b task timer d)
  unfolding wake poll judge
  woken-IsTracked past task timer d h = elim (Option-cases (find task d.verifications)) [
    | inl gone ↦ rw (gone, wake) h
    | inr (v, found) ↦
        rw (found, wake)
          (elim (Bool-cases v.request_sent) [
            | inl late ↦ rw late (poll_reply-IsTracked past v v.reply timer d h)
            | inr early ↦ rw early h
          ])
  ]
