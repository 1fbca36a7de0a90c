-- ===== src/Server/Answers/Tables.antt =====
-- daemon/crates/kpk-spike/src/server.rs: what holds of every `ask_phone` survives the operations on
-- the list of them, and which of them a task's number finds.
use kpasskey.Base.{
  ℕ, ◌≡◌, refl, ap, sym, ◌∙◌, subst, true, some, List, [], ◌∷◌, ◌==◌, All, inl, inr, Bool-cases,
  ==_iff,
}
use mathlib.Core.Option.{some-injective}
use kpasskey.Server.{
  Pending, remove, Question, find_question, discard_question, fill_question, mark_asked,
}

-- An entry that stays has another id than the one that goes.
pub remove-other {κ} :
    (P : ℕ × ℕ → Type κ) (id : ℕ) (p : Pending)
    → All (λ e. ¬ (e.0 ≡ id) → P e) p
    → All P (remove id p)
unfolding remove
remove-other P id [] h = tt
remove-other P id ((k, t) ∷ p) h = elim (Bool-cases (k == id)) [
  | inl same ↦ rw same (remove-other P id p h.1)
  | inr other ↦
      rw other (h.0 (λ e. absurd (cc ((==_iff k id).1 e, other))), remove-other P id p h.1)
]

module _ {κ} {Value : Type 0} (P : Question Value → Type κ) where
  pub discard_question-All :
      (t : ℕ) (qs : List (Question Value)) → All P qs → All P (discard_question t qs)
  unfolding discard_question
  discard_question-All t [] h = tt
  discard_question-All t (q ∷ qs) h = elim (Bool-cases (q.task == t)) [
    | inl same ↦ rw same (discard_question-All t qs h.1)
    | inr other ↦ rw other (h.0, discard_question-All t qs h.1)
  ]

  pub fill_question-All :
      (t : ℕ) (value : Value) (qs : List (Question Value))
      → All (λ q. P q × (q.task ≡ t → P (record q { reply = some value }))) qs
      → All P (fill_question t value qs)
  unfolding fill_question
  fill_question-All t value [] h = tt
  fill_question-All t value (q ∷ qs) h = elim (Bool-cases (q.task == t)) [
    | inl same ↦ rw same (h.0.1 ((==_iff q.task t).0 same), fill_question-All t value qs h.1)
    | inr other ↦ rw other (h.0.0, fill_question-All t value qs h.1)
  ]

  pub mark_asked-All :
      (t : ℕ) (qs : List (Question Value))
      → All (λ q. P q × (q.task ≡ t → P (record q { request_sent = true }))) qs
      → All P (mark_asked t qs)
  unfolding mark_asked
  mark_asked-All t [] h = tt
  mark_asked-All t (q ∷ qs) h = elim (Bool-cases (q.task == t)) [
    | inl same ↦ rw same (h.0.1 ((==_iff q.task t).0 same), mark_asked-All t qs h.1)
    | inr other ↦ rw other (h.0.0, mark_asked-All t qs h.1)
  ]

  pub find_question-All :
      (t : ℕ) (qs : List (Question Value)) {q : Question Value}
      → All P qs
      → find_question t qs ≡ some q
      → P q
  unfolding find_question
  find_question-All t [] h e = cc
  find_question-All t (w ∷ qs) {q} h e = elim (Bool-cases (w.task == t)) [
    | inl same ↦ subst P (some-injective w q (rw same at e)) h.0
    | inr other ↦ find_question-All t qs h.1 (rw other at e)
  ]

module _ {Value : Type 0} where
  -- The task is one of those in progress.
  abbrev pub IsAsking : ℕ → List (Question Value) → Type 0
  IsAsking t qs = (q : Question Value) × (find_question t qs ≡ some q)

  pub find_question-task :
      (t : ℕ) (qs : List (Question Value)) {q : Question Value}
      → find_question t qs ≡ some q
      → q.task ≡ t
  unfolding find_question
  find_question-task t [] e = cc
  find_question-task t (w ∷ qs) {q} e = elim (Bool-cases (w.task == t)) [
    | inl same ↦
        ap (λ u. u.task) (sym (some-injective w q (rw same at e))) ∙ (==_iff w.task t).0 same
    | inr other ↦ find_question-task t qs (rw other at e)
  ]

  pub cons-IsAsking :
      (t : ℕ) (q : Question Value) (qs : List (Question Value))
      → IsAsking t qs
      → IsAsking t (q ∷ qs)
  unfolding find_question
  cons-IsAsking t q qs h = elim (Bool-cases (q.task == t)) [
    | inl same ↦ (q, rw same refl)
    | inr other ↦ (h.0, rw other h.1)
  ]

  pub head-IsAsking : (q : Question Value) (qs : List (Question Value)) → IsAsking q.task (q ∷ qs)
  unfolding find_question
  head-IsAsking q qs = (q, rw ((==_iff q.task q.task).1 refl) refl)

  pub discard_question-IsAsking :
      (t u : ℕ) (qs : List (Question Value))
      → ¬ (t ≡ u)
      → IsAsking t qs
      → IsAsking t (discard_question u qs)
  unfolding find_question discard_question
  discard_question-IsAsking t u [] apart h = cc h.1
  discard_question-IsAsking t u (q ∷ qs) apart h = elim (Bool-cases (q.task == u)) [
    | inl same ↦ elim (Bool-cases (q.task == t)) [
      | inl found ↦ absurd (apart (cc ((==_iff q.task u).0 same, (==_iff q.task t).0 found)))
      | inr other ↦ rw same (discard_question-IsAsking t u qs apart (h.0, rw other at h.1))
    ]
    | inr kept ↦ elim (Bool-cases (q.task == t)) [
      | inl found ↦ (q, rw (kept, found) refl)
      | inr other ↦
          let rest = discard_question-IsAsking t u qs apart (h.0, rw other at h.1) in
          (rest.0, rw (kept, other) rest.1)
    ]
  ]

  pub fill_question-IsAsking :
      (t u : ℕ) (value : Value) (qs : List (Question Value))
      → IsAsking t qs
      → IsAsking t (fill_question u value qs)
  unfolding find_question fill_question
  fill_question-IsAsking t u value [] h = cc h.1
  fill_question-IsAsking t u value (q ∷ qs) h = elim (Bool-cases (q.task == t)) [
    | inl found ↦ elim (Bool-cases (q.task == u)) [
      | inl same ↦ (record q { reply = some value }, rw (same, found) refl)
      | inr kept ↦ (q, rw (kept, found) refl)
    ]
    | inr other ↦
        let rest = fill_question-IsAsking t u value qs (h.0, rw other at h.1) in
        (
          rest.0,
          elim (Bool-cases (q.task == u)) [
            | inl same ↦ rw (same, other) rest.1
            | inr kept ↦ rw (kept, other) rest.1
          ],
        )
  ]

  pub mark_asked-IsAsking :
      (t u : ℕ) (qs : List (Question Value)) → IsAsking t qs → IsAsking t (mark_asked u qs)
  unfolding find_question mark_asked
  mark_asked-IsAsking t u [] h = cc h.1
  mark_asked-IsAsking t u (q ∷ qs) h = elim (Bool-cases (q.task == t)) [
    | inl found ↦ elim (Bool-cases (q.task == u)) [
      | inl same ↦ (record q { request_sent = true }, rw (same, found) refl)
      | inr kept ↦ (q, rw (kept, found) refl)
    ]
    | inr other ↦
        let rest = mark_asked-IsAsking t u qs (h.0, rw other at h.1) in
        (
          rest.0,
          elim (Bool-cases (q.task == u)) [
            | inl same ↦ rw (same, other) rest.1
            | inr kept ↦ rw (kept, other) rest.1
          ],
        )
  ]
