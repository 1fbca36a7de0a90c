-- ===== src/Server/Answers/Steps.antt =====
-- daemon/crates/kpk-spike/src/server.rs: the steps of `ask_phone` keep track of what was asked, of
-- whom, and of what was heard.
use kpasskey.Base.{
  ℕ, ◌≡◌, refl, sym, subst, true, Bool, Option, none, some, List, [], ◌∷◌, String, All, All-map, In,
  inl, inr, Bool-cases, Option-cases,
}
use kpasskey.Base.Errors.{Result, ok, err, bail}
use kpasskey.Base.Text.{concat}
use kpasskey.External.{Json, Crypto, Base64}
use kpasskey.Store.{get_str}
use kpasskey.Server.{
  Pending, remove, has_sender, Question, find_question, State, question_sent, finish, accept,
  poll_question, wake_question,
}
use kpasskey.Server.Events.{Event, asking_sent}
use kpasskey.Server.Answers.Tables.{
  remove-other, discard_question-All, mark_asked-All, find_question-All, discard_question-IsAsking,
  mark_asked-IsAsking,
}
use kpasskey.Server.Answers.Backing.{IsQuestion, IsAnswer, IsWaiter, IsTracked}

module _ (j : Json) (c : Crypto) (b : Base64) (timeout : String) where
  open j use {Value}

  -- A task ends that no entry belongs to any more.
  finish-IsTracked :
      (past : List (Event Value)) (q : Question Value) (answer : Result Value) (p : Pending)
      (d : State j c b)
      → IsAnswer j c b timeout past (q.task, answer)
      → All (λ e. IsWaiter j c b d.next_task d.questions e × (¬ (e.1 ≡ q.task))) p
      → IsTracked j c b timeout past d
      → IsTracked j c b timeout past (finish j c b q answer p d)
  finish-IsTracked past q answer p d justified entries (waiters, running, answers) = (
    All-map
        (λ e h. (
          h.0.0,
          discard_question-IsAsking e.1 q.task d.questions h.1 h.0.1,
          discard_question-All (λ r. r.task ≡ e.1 → (r.id ≡ e.0) × (r.reply ≡ none)) q.task
              d.questions h.0.2,
        ))
        p entries,
    discard_question-All (IsQuestion j c b timeout past d.next_task) q.task d.questions running,
    (justified, answers),
  )

  -- It ends without an answer, and takes its entry away.
  fail-IsTracked :
      (past : List (Event Value)) (task : ℕ) (q : Question Value) (message : String)
      (d : State j c b)
      → find_question task d.questions ≡ some q
      → IsTracked j c b timeout past d
      → IsTracked j c b timeout past (finish j c b q (bail message) (remove q.id d.pending_json) d)
  fail-IsTracked past task q message d found h =
      finish-IsTracked past q (bail message) (remove q.id d.pending_json) d (λ value eq. cc)
        (remove-other (λ e. IsWaiter j c b d.next_task d.questions e × (¬ (e.1 ≡ q.task))) q.id
          d.pending_json
          (All-map
            (λ e k apart. (
              k,
              λ same. apart (
                  sym
                    (find_question-All (λ r. r.task ≡ e.1 → (r.id ≡ e.0) × (r.reply ≡ none)) task
                      d.questions k.2 found (sym same)).0),
            ))
            d.pending_json h.0))
        h

  accept-eq_ok :
      (value other : Value)
      → accept j c b value ≡ ok other
      → (value ≡ other) × (get_str j value "denied" ≡ none)
  unfolding accept
  accept-eq_ok value other eq = elim (Option-cases (get_str j value "denied")) [
    | inl granted ↦ (cc (rw (granted, accept) at eq), granted)
    | inr (reason, denied) ↦ absurd (cc (rw (denied, accept) at eq))
  ]

  -- It ends with what its receiver holds.
  accept-IsTracked :
      (past : List (Event Value)) (task : ℕ) (q : Question Value) (value : Value) (d : State j c b)
      → find_question task d.questions ≡ some q
      → q.reply ≡ some value
      → q.request_sent ≡ true
      → IsTracked j c b timeout past d
      → IsTracked j c b timeout past (finish j c b q (accept j c b value) d.pending_json d)
  accept-IsTracked past task q value d found held late h =
      finish-IsTracked past q (accept j c b value) d.pending_json d justified
        (All-map
          (λ e k. (
            k,
            λ same.
                let empty : q.reply ≡ none =
                  (find_question-All (λ r. r.task ≡ e.1 → (r.id ≡ e.0) × (r.reply ≡ none)) task
                    d.questions k.2 found (sym same)).1 in
                cc,
          ))
          d.pending_json h.0)
        h
    where
      running : IsQuestion j c b timeout past d.next_task q
      running =
          find_question-All (IsQuestion j c b timeout past d.next_task) task d.questions h.1 found

      justified : IsAnswer j c b timeout past (q.task, accept j c b value)
      justified other eq =
          let (same, granted) = accept-eq_ok value other eq in
          (
            q,
            refl,
            running.1,
            running.2 late,
            running.3 other (cc (held, same)),
            cc (granted, same),
          )

  pub asking_sent-IsTracked :
      (past : List (Event Value)) (task : ℕ) (result : Result (Unit {0})) (d : State j c b)
      → In (asking_sent task result) past
      → IsTracked j c b timeout past d
      → IsTracked j c b timeout past (question_sent j c b task result d)
  unfolding question_sent
  asking_sent-IsTracked past task (ok u) d event (waiters, running, answers) = (
    All-map
        (λ e h. (
          h.0,
          mark_asked-IsAsking e.1 task d.questions h.1,
          mark_asked-All (λ q. q.task ≡ e.1 → (q.id ≡ e.0) × (q.reply ≡ none)) task d.questions
              (All-map (λ q k. (k, λ same. k)) d.questions h.2),
        ))
        d.pending_json waiters,
    mark_asked-All (IsQuestion j c b timeout past d.next_task) task d.questions (
        All-map
          (λ q k. (
            k,
            λ same. (
              k.0,
              k.1,
              (λ sent_. subst (λ n. In (asking_sent n (ok tt)) past) (sym same) event),
              k.3,
            ),
          ))
          d.questions running),
    answers,
  )
  asking_sent-IsTracked past task (err e) d event h =
      elim (Option-cases (find_question task d.questions)) [
        | inl gone ↦ rw (gone, question_sent) h
        | inr (q, found) ↦
            rw (found, question_sent)
              (elim (Bool-cases q.request_sent) [
                | inl late ↦ rw late h
                | inr early ↦ rw early (fail-IsTracked past task q "no phone connected" d found h)
              ])
      ]

  poll-IsTracked :
      (past : List (Event Value)) (task : ℕ) (q : Question Value) (reply : Option Value)
      (timer : Bool) (d : State j c b)
      → find_question task d.questions ≡ some q
      → q.reply ≡ reply
      → q.request_sent ≡ true
      → IsTracked j c b timeout past d
      → IsTracked j c b timeout past (poll_question j c b q reply timer d)
  unfolding poll_question
  poll-IsTracked past task q (some value) timer d found held late h =
      accept-IsTracked past task q value d found held late h
  poll-IsTracked past task q none timer d found held late h =
      elim (Bool-cases (has_sender q.task d.pending_json)) [
        | inr abandoned ↦
            rw abandoned (fail-IsTracked past task q "the request was abandoned" d found h)
        | inl waiting ↦ elim (Bool-cases timer) [
          | inl over ↦
              rw (waiting, over)
                (fail-IsTracked past task q
                  (concat ("phone did not respond within " ∷ d.verify_timeout ∷ [])) d found h)
          | inr early ↦ rw (waiting, early) h
        ]
      ]

  pub wake-IsTracked :
      (past : List (Event Value)) (task : ℕ) (timer : Bool) (d : State j c b)
      → IsTracked j c b timeout past d
      → IsTracked j c b timeout past (wake_question j c b task timer d)
  unfolding wake_question poll_question
  wake-IsTracked past task timer d h = elim (Option-cases (find_question task d.questions)) [
    | inl gone ↦ rw (gone, wake_question) h
    | inr (q, found) ↦
        rw (found, wake_question)
          (elim (Bool-cases q.request_sent) [
            | inl late ↦ rw late (poll-IsTracked past task q q.reply timer d found refl late h)
            | inr early ↦ rw early h
          ])
  ]
