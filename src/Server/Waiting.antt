-- ===== src/Server/Waiting.antt =====
-- daemon/crates/kpk-spike/src/server.rs: no wait outlasts its timer, and no line answers twice.
use kpasskey.Base.{
  ℕ, ◌≡◌, refl, ap, sym, ◌∙◌, subst, true, Option, none, some, List, [], ◌∷◌, String, ◌==◌, inl,
  inr, Bool-cases, Option-cases, ==_iff,
}
use mathlib.Core.Option.{some-injective}
use kpasskey.Base.Errors.{Result, ok, err, bail}
use kpasskey.Base.Text.{concat}
use kpasskey.External.{Json, Crypto, Base64}
use kpasskey.Protocol.{VerifyResponse, parse_response}
use kpasskey.Server.{
  Pending, lookup, remove, has_sender, Reply, Verification, find, discard, State, conclude, judge,
  poll, wake, json_waiter, deliver_response, deliver,
}

-- A removed id is not found.
lookup-remove : (id : ℕ) (p : Pending) → lookup id (remove id p) ≡ none
unfolding lookup remove
lookup-remove id [] = refl
lookup-remove id ((k, t) ∷ p) = elim (Bool-cases (k == id)) [
  | inl same ↦ rw same (lookup-remove id p)
  | inr other ↦ rw (other, other) (lookup-remove id p)
]

module _ {Key : Type 0} where
  find-discard : (task : ℕ) (vs : List (Verification Key)) → find task (discard task vs) ≡ none
  unfolding find discard
  find-discard task [] = refl
  find-discard task (v ∷ vs) = elim (Bool-cases (v.task == task)) [
    | inl same ↦ rw same (find-discard task vs)
    | inr other ↦ rw (other, other) (find-discard task vs)
  ]

  find-task :
      (task : ℕ) (vs : List (Verification Key)) {v : Verification Key}
      → find task vs ≡ some v
      → v.task ≡ task
  unfolding find
  find-task task [] e = cc
  find-task task (w ∷ vs) {v} e = elim (Bool-cases (w.task == task)) [
    | inl same ↦
        ap (λ u. u.task) (sym (some-injective w v (rw same at e))) ∙ (==_iff w.task task).0 same
    | inr other ↦ find-task task vs (rw other at e)
  ]

module _ (j : Json) (c : Crypto) (b : Base64) where
  open j use {Value}
  open c use {VerifyingKey}

  -- A task is over: no verification has it, and its verdict is the one that was added.
  abbrev pub IsOver : ℕ → State j c b → State j c b → Type 0
  IsOver task before now =
      (find task now.verifications ≡ none)
      × ((verdict : Result (Unit {0})) × (now.verdicts ≡ (task, verdict) ∷ before.verdicts))

  nobody_waiting :
      (r : VerifyResponse) (d : State j c b)
      → lookup r.id d.pending ≡ none
      → deliver_response j c b (ok r) d ≡ d
  unfolding deliver_response
  nobody_waiting r d nobody = rw (nobody, deliver_response) refl

  answered :
      (r : VerifyResponse) (d : State j c b)
      → lookup r.id (deliver_response j c b (ok r) d).pending ≡ none
  unfolding deliver_response
  answered r d = elim (Option-cases (lookup r.id d.pending)) [
    | inl nobody ↦ rw (nobody, deliver_response) nobody
    | inr (task, waiting) ↦ rw (waiting, deliver_response) (lookup-remove r.id d.pending)
  ]

  deliver-response :
      (line : String) (d : State j c b)
      → json_waiter j c b line d ≡ none
      → deliver j c b line d ≡ deliver_response j c b (parse_response j b line) d
  unfolding deliver
  deliver-response line d h = rw (h, deliver) refl

  json_waiter-response :
      (line : String) (parsed : Result VerifyResponse) (d : State j c b)
      → json_waiter j c b line (deliver_response j c b parsed d) ≡ json_waiter j c b line d
  unfolding deliver_response json_waiter
  json_waiter-response line (err e) d = refl
  json_waiter-response line (ok r) d = elim (Option-cases (lookup r.id d.pending)) [
    | inl nobody ↦ rw (nobody, deliver_response) refl
    | inr (task, waiting) ↦ rw (waiting, deliver_response) refl
  ]

  -- The first answer counts: when a line with a request's id has been delivered, another line with
  -- the same id changes nothing, provided that no `ask_phone` waits for either of them.
  pub deliver_first :
      (line again : String) (r s : VerifyResponse) (d : State j c b)
      → parse_response j b line ≡ ok r
      → parse_response j b again ≡ ok s
      → s.id ≡ r.id
      → json_waiter j c b line d ≡ none
      → json_waiter j c b again d ≡ none
      → deliver j c b again (deliver j c b line d) ≡ deliver j c b line d
  deliver_first line again r s d first second same none_line none_again =
      let once : deliver j c b line d ≡ deliver_response j c b (ok r) d =
        deliver-response line d none_line ∙ ap (λ parsed. deliver_response j c b parsed d) first in
      ap (deliver j c b again) once
      ∙ deliver-response again (deliver_response j c b (ok r) d)
          (json_waiter-response again (ok r) d ∙ none_again)
      ∙ ap (λ parsed. deliver_response j c b parsed (deliver_response j c b (ok r) d)) second
      ∙ nobody_waiting s (deliver_response j c b (ok r) d)
          (ap (λ id. lookup id (deliver_response j c b (ok r) d).pending) same ∙ answered r d)
      ∙ sym once

  -- When the timer of a verification fires after its request was sent, the verification is over
  -- with a verdict, whatever its receiver holds.
  pub wake-timer :
      (task : ℕ) (v : Verification VerifyingKey) (d : State j c b)
      → find task d.verifications ≡ some v
      → v.request_sent ≡ true
      → IsOver task d (wake j c b task true d)
  unfolding wake poll judge
  wake-timer task v d found sent_ = rw (found, wake, sent_) (poll-timer v.reply)
    where
      over :
          (verdict : Result (Unit {0})) (pending : Pending)
          → IsOver task d (conclude j c b v.task verdict (record d { pending = pending }))
      over verdict pending =
          subst (λ t. IsOver t d (conclude j c b v.task verdict (record d { pending = pending })))
            (find-task task d.verifications found)
            (find-discard v.task d.verifications, (verdict, refl))

      poll-timer : (reply : Option Reply) → IsOver task d (poll j c b v reply true d)
      poll-timer (some r) = over (judge j c b v r) d.pending
      poll-timer none = elim (Bool-cases (has_sender v.task d.pending)) [
        | inl waiting ↦
            rw (waiting, poll)
              (over (bail (concat ("phone did not respond within " ∷ d.verify_timeout ∷ [])))
                (remove v.request.id d.pending))
        | inr abandoned ↦
            rw (abandoned, poll)
              (over (bail "verification was abandoned") (remove v.request.id d.pending))
      ]
