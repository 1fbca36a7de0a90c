-- ===== src/Server/Untouched.antt =====
-- daemon/crates/kpk-spike/src/server.rs: what `ask_phone` leaves as it is.
use kpasskey.Base.{ℕ, ◌≡◌, refl, Bool, Option, none, some, inl, inr, Bool-cases, Option-cases}
use kpasskey.Base.Errors.{Result, ok, err}
use kpasskey.External.{Json, Crypto, Base64}
use kpasskey.Server.{
  has_sender, Question, find_question, State, question_sent, poll_question, wake_question,
}

module _ (j : Json) (c : Crypto) (b : Base64) where
  open j use {Value}

  -- The verifications and their verdicts are the same.
  abbrev pub IsUntouched : State j c b → State j c b → Type 0
  IsUntouched d after = (after.verifications ≡ d.verifications) × (after.verdicts ≡ d.verdicts)

  pub question_sent-IsUntouched :
      (task : ℕ) (result : Result (Unit {0})) (d : State j c b)
      → IsUntouched d (question_sent j c b task result d)
  unfolding question_sent
  question_sent-IsUntouched task (ok u) d = (refl, refl)
  question_sent-IsUntouched task (err e) d = elim (Option-cases (find_question task d.questions)) [
    | inl gone ↦ rw (gone, question_sent) (refl, refl)
    | inr (q, found) ↦
        rw (found, question_sent)
          (elim (Bool-cases q.request_sent) [
            | inl late ↦ rw late (refl, refl)
            | inr early ↦ rw early (refl, refl)
          ])
  ]

  poll_question-IsUntouched :
      (q : Question Value) (reply : Option Value) (timer : Bool) (d : State j c b)
      → IsUntouched d (poll_question j c b q reply timer d)
  unfolding poll_question
  poll_question-IsUntouched q (some value) timer d = (refl, refl)
  poll_question-IsUntouched q none timer d = elim (Bool-cases (has_sender q.task d.pending_json)) [
    | inr abandoned ↦ rw abandoned (refl, refl)
    | inl waiting ↦ elim (Bool-cases timer) [
      | inl late ↦ rw (waiting, late) (refl, refl)
      | inr early ↦ rw (waiting, early) (refl, refl)
    ]
  ]

  pub wake_question-IsUntouched :
      (task : ℕ) (timer : Bool) (d : State j c b) → IsUntouched d (wake_question j c b task timer d)
  unfolding wake_question poll_question
  wake_question-IsUntouched task timer d = elim (Option-cases (find_question task d.questions)) [
    | inl gone ↦ rw (gone, wake_question) (refl, refl)
    | inr (q, found) ↦
        rw (found, wake_question)
          (elim (Bool-cases q.request_sent) [
            | inl late ↦ rw late (poll_question-IsUntouched q q.reply timer d)
            | inr early ↦ rw early (refl, refl)
          ])
  ]
