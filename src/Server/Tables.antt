-- ===== src/Server/Tables.antt =====
-- daemon/crates/kpk-spike/src/server.rs: what holds of every entry of the daemon's tables survives
-- the operations on them.
use kpasskey.Base.{
  ℕ, ◌≡◌, subst, true, some, List, [], ◌∷◌, ◌==◌, All, inl, inr, Bool-cases, ==_iff,
}
use mathlib.Core.Option.{some-injective}
use kpasskey.Server.{Pending, lookup, remove, Reply, Verification, find, discard, fill, mark_sent}

module _ {κ} (P : ℕ × ℕ → Type κ) where
  pub lookup-All : (id : ℕ) (p : Pending) {t : ℕ} → All P p → lookup id p ≡ some t → P (id, t)
  unfolding lookup
  lookup-All id [] h e = cc
  lookup-All id ((k, u) ∷ p) {t} h e = elim (Bool-cases (k == id)) [
    | inl same ↦ subst P (λ i. ((==_iff k id).0 same i, some-injective u t (rw same at e) i)) h.0
    | inr other ↦ lookup-All id p h.1 (rw other at e)
  ]

  pub remove-All : (id : ℕ) (p : Pending) → All P p → All P (remove id p)
  unfolding remove
  remove-All id [] h = tt
  remove-All id ((k, u) ∷ p) h = elim (Bool-cases (k == id)) [
    | inl same ↦ rw same (remove-All id p h.1)
    | inr other ↦ rw other (h.0, remove-All id p h.1)
  ]

module _ {κ} {Key : Type 0} (P : Verification Key → Type κ) where
  pub discard-All : (t : ℕ) (vs : List (Verification Key)) → All P vs → All P (discard t vs)
  unfolding discard
  discard-All t [] h = tt
  discard-All t (v ∷ vs) h = elim (Bool-cases (v.task == t)) [
    | inl same ↦ rw same (discard-All t vs h.1)
    | inr other ↦ rw other (h.0, discard-All t vs h.1)
  ]

  pub fill-All :
      (t : ℕ) (r : Reply) (vs : List (Verification Key))
      → All (λ v. P v × (v.task ≡ t → P (record v { reply = some r }))) vs
      → All P (fill t r vs)
  unfolding fill
  fill-All t r [] h = tt
  fill-All t r (v ∷ vs) h = elim (Bool-cases (v.task == t)) [
    | inl same ↦ rw same (h.0.1 ((==_iff v.task t).0 same), fill-All t r vs h.1)
    | inr other ↦ rw other (h.0.0, fill-All t r vs h.1)
  ]

  pub mark_sent-All :
      (t : ℕ) (vs : List (Verification Key))
      → All (λ v. P v × P (record v { request_sent = true })) vs
      → All P (mark_sent t vs)
  unfolding mark_sent
  mark_sent-All t [] h = tt
  mark_sent-All t (v ∷ vs) h = elim (Bool-cases (v.task == t)) [
    | inl same ↦ rw same (h.0.1, mark_sent-All t vs h.1)
    | inr other ↦ rw other (h.0.0, mark_sent-All t vs h.1)
  ]

  pub find-All :
      (t : ℕ) (vs : List (Verification Key)) {v : Verification Key}
      → All P vs
      → find t vs ≡ some v
      → P v
  unfolding find
  find-All t [] h e = cc
  find-All t (w ∷ vs) {v} h e = elim (Bool-cases (w.task == t)) [
    | inl same ↦ subst P (some-injective w v (rw same at e)) h.0
    | inr other ↦ find-All t vs h.1 (rw other at e)
  ]
