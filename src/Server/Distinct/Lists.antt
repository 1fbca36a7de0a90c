-- ===== src/Server/Distinct/Lists.antt =====
-- daemon/crates/kpk-spike/src/server.rs: lists of verifications, no two of which are the same task.
use kpasskey.Base.{
  ℕ, ◌≡◌, ◌≢◌, sym, ◌∙◌, some, List, [], ◌∷◌, ◌==◌, All, All-map, inl, inr, Bool-cases, ==_iff,
}
use mathlib.Core.Option.{some-injective}
use kpasskey.Server.{Reply, Verification, find, discard, fill, mark_sent}
use kpasskey.Server.Tables.{discard-All, fill-All, mark_sent-All}

module _ {Key : Type 0} where
  abbrev pub IsDistinct : List (Verification Key) → Type 0
  IsDistinct [] = Unit
  IsDistinct (v ∷ vs) = All (λ w. w.task ≢ v.task) vs × IsDistinct vs

  -- What a task's number finds is the only one with that number.
  pub find-only :
      (t : ℕ) (vs : List (Verification Key)) {v : Verification Key}
      → IsDistinct vs
      → find t vs ≡ some v
      → All (λ w. w.task ≡ t → w ≡ v) vs
  unfolding find
  find-only t [] h e = tt
  find-only t (u ∷ vs) {v} h e = elim (Bool-cases (u.task == t)) [
    | inl same ↦
        let here = some-injective u v (rw same at e) in
        (
          (λ eq. here),
          All-map (λ w apart eq. absurd (apart (eq ∙ sym ((==_iff u.task t).0 same)))) vs h.0,
        )
    | inr other ↦
        ((λ eq. absurd (cc ((==_iff u.task t).1 eq, other))), find-only t vs h.1 (rw other at e))
  ]

  pub discard-IsDistinct :
      (t : ℕ) (vs : List (Verification Key)) → IsDistinct vs → IsDistinct (discard t vs)
  unfolding discard
  discard-IsDistinct t [] h = tt
  discard-IsDistinct t (v ∷ vs) h = elim (Bool-cases (v.task == t)) [
    | inl same ↦ rw same (discard-IsDistinct t vs h.1)
    | inr other ↦
        rw other (discard-All (λ w. w.task ≢ v.task) t vs h.0, discard-IsDistinct t vs h.1)
  ]

  pub fill-IsDistinct :
      (t : ℕ) (r : Reply) (vs : List (Verification Key)) → IsDistinct vs → IsDistinct (fill t r vs)
  unfolding fill
  fill-IsDistinct t r [] h = tt
  fill-IsDistinct t r (v ∷ vs) h =
      let apart = fill-All (λ w. w.task ≢ v.task) t r vs (All-map (λ w k. (k, λ same. k)) vs h.0) in
      elim (Bool-cases (v.task == t)) [
        | inl same ↦ rw same (apart, fill-IsDistinct t r vs h.1)
        | inr other ↦ rw other (apart, fill-IsDistinct t r vs h.1)
      ]

  pub mark_sent-IsDistinct :
      (t : ℕ) (vs : List (Verification Key)) → IsDistinct vs → IsDistinct (mark_sent t vs)
  unfolding mark_sent
  mark_sent-IsDistinct t [] h = tt
  mark_sent-IsDistinct t (v ∷ vs) h =
      let apart = mark_sent-All (λ w. w.task ≢ v.task) t vs (All-map (λ w k. (k, k)) vs h.0) in
      elim (Bool-cases (v.task == t)) [
        | inl same ↦ rw same (apart, mark_sent-IsDistinct t vs h.1)
        | inr other ↦ rw other (apart, mark_sent-IsDistinct t vs h.1)
      ]
