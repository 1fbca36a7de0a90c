-- ===== src/Server/Soundness/Tasks.antt =====
-- daemon/crates/kpk-spike/src/server.rs: the steps of `run_verification` keep the daemon sound.
use kpasskey.Base.{
  ℕ, ◌≡◌, refl, ap, Bool, true, false, Option, none, some, List, [], ◌∷◌, String, if◌then◌else◌,
  All-map, inl, inr, Bool-cases, Option-cases,
}
use kpasskey.Base.Errors.{Result, ok, err, bail}
use kpasskey.Base.Bytes.{Bytes}
use kpasskey.Base.Text.{concat}
use kpasskey.External.{Json, Crypto, Base64}
use kpasskey.Server.{
  remove, has_sender, Reply, signed, refused, Verification, find, State, conclude, line_sent, judge,
  poll, wake,
}
use kpasskey.Server.Tables.{mark_sent-All, find-All}
use kpasskey.Server.Events.{Event, IsCalled, IsSigned, IsRunning, IsVerdict, IsSound}
use kpasskey.Server.Soundness.Begun.{conclude-IsSound, forget-IsSound}

module _ (j : Json) (c : Crypto) (b : Base64) (timeout : String) where
  open j use {Value}
  open c use {VerifyingKey}

  pub sent-IsSound :
      (past : List (Event Value)) (task : ℕ) (result : Result (Unit {0})) (d : State j c b)
      → IsSound j c b timeout past d
      → IsSound j c b timeout past (line_sent j c b task result d)
  unfolding line_sent
  sent-IsSound past task (ok u) d (entries, running, verdicts) = (
    All-map
        (λ e h. (
          h.0,
          mark_sent-All (λ v. v.task ≡ e.1 → v.request.id ≡ e.0) task d.verifications
              (All-map (λ v k. (k, k)) d.verifications h.1),
        ))
        d.pending entries,
    mark_sent-All (IsRunning j c b timeout past d.next_task) task d.verifications
        (All-map (λ v k. (k, k)) d.verifications running),
    verdicts,
  )
  sent-IsSound past task (err e) d h = elim (Option-cases (find task d.verifications)) [
    | inl gone ↦ rw (gone, line_sent) h
    | inr (v, found) ↦
        rw (found, line_sent)
          (elim (Bool-cases v.request_sent) [
            | inl late ↦ rw late h
            | inr early ↦ rw early (
                conclude-IsSound j c b timeout past task (bail "no phone connected")
                  (record d { pending = remove v.request.id d.pending }) (λ eq. cc)
                  (forget-IsSound j c b timeout past v.request.id d h))
          ])
  ]

  judge-IsVerdict :
      (past : List (Event Value)) (v : Verification VerifyingKey) (r : Reply)
      → IsCalled j c b timeout past v.task v.device v.key v.request
      → ((signature : Bytes) → r ≡ signed signature → IsSigned j c b past v.request.id signature)
      → IsVerdict j c b timeout past (v.task, judge j c b v r)
  unfolding judge
  judge-IsVerdict past v (signed s) called answered eq = (v, s, refl, called, answered s refl, eq)
  judge-IsVerdict past v (refused reason) called answered eq = cc

  poll-IsSound :
      (past : List (Event Value)) (v : Verification VerifyingKey) (reply : Option Reply)
      (timer : Bool) (d : State j c b)
      → IsCalled j c b timeout past v.task v.device v.key v.request
      → ((signature : Bytes)
          → reply ≡ some (signed signature)
          → IsSigned j c b past v.request.id signature)
      → IsSound j c b timeout past d
      → IsSound j c b timeout past (poll j c b v reply timer d)
  unfolding poll
  poll-IsSound past v (some r) timer d called answered h =
      conclude-IsSound j c b timeout past v.task (judge j c b v r) d
        (judge-IsVerdict past v r called (λ s eq. answered s (ap some eq))) h
  poll-IsSound past v none timer d called answered h =
      elim (Bool-cases (has_sender v.task d.pending)) [
        | inl waiting ↦ rw waiting (waited timer)
        | inr abandoned ↦ rw abandoned (given_up "verification was abandoned")
      ]
    where
      given_up :
          (message : String)
          → IsSound j c b timeout past (
              conclude j c b v.task
                (bail message)
                (record d { pending = remove v.request.id d.pending }))
      given_up message =
          conclude-IsSound j c b timeout past v.task (bail message)
            (record d { pending = remove v.request.id d.pending }) (λ eq. cc)
            (forget-IsSound j c b timeout past v.request.id d h)

      waited :
          (late : Bool)
          → IsSound j c b timeout past (
              if late
              then conclude j c b v.task
                  (bail (concat ("phone did not respond within " ∷ d.verify_timeout ∷ [])))
                  (record d { pending = remove v.request.id d.pending })
              else d)
      waited true = given_up (concat ("phone did not respond within " ∷ d.verify_timeout ∷ []))
      waited false = h

  pub wake-IsSound :
      (past : List (Event Value)) (task : ℕ) (timer : Bool) (d : State j c b)
      → IsSound j c b timeout past d
      → IsSound j c b timeout past (wake j c b task timer d)
  unfolding wake poll judge
  wake-IsSound past task timer d h = elim (Option-cases (find task d.verifications)) [
    | inl gone ↦ rw (gone, wake) h
    | inr (v, found) ↦
        let running =
          find-All (IsRunning j c b timeout past d.next_task) task d.verifications h.1 found in
        rw (found, wake)
          (elim (Bool-cases v.request_sent) [
            | inl late ↦ rw late (poll-IsSound past v v.reply timer d running.1.0 running.1.1 h)
            | inr early ↦ rw early h
          ])
  ]
