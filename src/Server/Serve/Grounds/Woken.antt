-- ===== src/Server/Serve/Grounds/Woken.antt =====
-- daemon/crates/kpk-spike/src/server.rs: what a woken verification's approval stands on.
use kpasskey.Base.{
  ℕ, ◌≡◌, refl, ap, Bool, Option, none, some, In, List, String, inl, inr, Bool-cases, Option-cases,
}
use kpasskey.Base.Bytes.{Bytes}
use kpasskey.Base.Errors.{bail}
use kpasskey.External.{Json, Crypto, Base64}
use kpasskey.Protocol.{to_line}
use kpasskey.Server.{
  Reply, signed, refused, Verification, find, has_sender, State, judge, poll, wake,
}
use kpasskey.Server.Tables.{find-All}
use kpasskey.Server.Events.{Event, IsSigned, IsRunning, IsSound}
use kpasskey.Server.Serve.Grounds.{Known, IsPut, IsOutcome, HasGrounds, conclude-HasGrounds}

module _ (j : Json) (c : Crypto) (b : Base64) where
  open j use {Value}
  open c use {VerifyingKey}

  judge-IsOutcome :
      (C : Known j c b) (past : List (Event Value)) (lines : List String)
      (v : Verification VerifyingKey) (r : Reply)
      → C v.task v.device v.key v.request
      → ((signature : Bytes) → r ≡ signed signature → IsSigned j c b past v.request.id signature)
      → In (to_line j b v.request) lines
      → IsOutcome j c b C past lines (v.task, judge j c b v r)
  unfolding judge
  judge-IsOutcome C past lines v (signed s) called answered written eq =
      (v, s, refl, called, answered s refl, eq, written)
  judge-IsOutcome C past lines v (refused reason) called answered written eq = cc

  poll-HasGrounds :
      (C : Known j c b) (past : List (Event Value)) (lines : List String)
      (v : Verification VerifyingKey) (reply : Option Reply) (timer : Bool) (d : State j c b)
      → C v.task v.device v.key v.request
      → ((signature : Bytes)
          → reply ≡ some (signed signature)
          → IsSigned j c b past v.request.id signature)
      → In (to_line j b v.request) lines
      → HasGrounds j c b C past lines d
      → HasGrounds j c b C past lines (poll j c b v reply timer d)
  unfolding poll
  poll-HasGrounds C past lines v (some r) timer d called answered written h =
      conclude-HasGrounds j c b C past lines v.task (judge j c b v r) d
        (judge-IsOutcome C past lines v r called (λ s eq. answered s (ap some eq)) written) h
  poll-HasGrounds C past lines v none timer d called answered written h =
      elim (Bool-cases (has_sender v.task d.pending)) [
        | inr abandoned ↦ rw abandoned (
            conclude-HasGrounds j c b C past lines v.task (bail "verification was abandoned") d
              (λ eq. cc) h)
        | inl waiting ↦ elim (Bool-cases timer) [
          | inl late ↦
              rw (waiting, late) (conclude-HasGrounds j c b C past lines v.task _ d (λ eq. cc) h)
          | inr early ↦ rw (waiting, early) h
        ]
      ]

  pub wake-HasGrounds :
      (timeout : String) (C : Known j c b) (past : List (Event Value)) (lines : List String)
      (task : ℕ) (timer : Bool) (d : State j c b)
      → IsSound j c b timeout past d
      → HasGrounds j c b C past lines d
      → HasGrounds j c b C past lines (wake j c b task timer d)
  unfolding wake poll judge
  wake-HasGrounds timeout C past lines task timer d sound h =
      elim (Option-cases (find task d.verifications)) [
        | inl gone ↦ rw (gone, wake) h
        | inr (v, found) ↦
            let running =
              find-All (IsRunning j c b timeout past d.next_task) task d.verifications sound.1
                found in
            let put = find-All (IsPut j c b C lines) task d.verifications h.0 found in
            rw (found, wake)
              (elim (Bool-cases v.request_sent) [
                | inl late ↦ rw late (
                    poll-HasGrounds C past lines v v.reply timer d put.0 running.1.1 (put.1 late) h)
                | inr early ↦ rw early h
              ])
      ]
