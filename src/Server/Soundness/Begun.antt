-- ===== src/Server/Soundness/Begun.antt =====
-- daemon/crates/kpk-spike/src/server.rs: an event more, and the beginning of a `run_verification`, keep the
-- daemon sound.
use kpasskey.Base.{
  ℕ, ◌+◌, ◌%◌, ◌^◌, ◌≡◌, refl, ap, sym, ◌∙◌, false, none, List, [], ◌∷◌, String, arith, All-map,
  inl, inr,
}
use kpasskey.Base.Errors.{Result, ok, err, Result-cases}
use kpasskey.Base.Bytes.{Bytes}
use kpasskey.External.{Json, Crypto, Base64}
use kpasskey.Store.{Device, Entry}
use kpasskey.Protocol.{VerifyRequest, new_request}
use kpasskey.Server.{
  remove, insert, Verification, State, active_key, conclude, register, start_verification,
}
use kpasskey.Server.Tables.{remove-All, discard-All}
use kpasskey.Server.Events.{
  Call, Event, requested, after_events, IsCalled, IsSigned, IsEntry, IsRunning, IsVerdict, IsSound,
}

module _ (j : Json) (c : Crypto) (b : Base64) (timeout : String) where
  open j use {Value}
  open c use {VerifyingKey}

  -- One more event takes nothing from what holds already.
  pub later-IsSound :
      (e : Event Value) (past : List (Event Value)) (d : State j c b)
      → IsSound j c b timeout past d
      → IsSound j c b timeout (e ∷ past) d
  later-IsSound e past d (entries, running, verdicts) = (
    entries,
    All-map (λ v h. (h.0, (later_called h.1.0, λ signature eq. later_signed (h.1.1 signature eq))))
        d.verifications running,
    All-map
        (λ r h eq.
          let (v, signature, same, called, answered, valid) = h eq in
          (v, signature, same, later_called called, later_signed answered, valid))
        d.verdicts verdicts,
  )
    where
      later_called :
          {task : ℕ} {device : Device} {key : VerifyingKey} {request : VerifyRequest}
          → IsCalled j c b timeout past task device key request
          → IsCalled j c b timeout (e ∷ past) task device key request
      later_called
            (call, challenge, host, path, directory, later, before, split, number, active, made) =
          (
            call,
            challenge,
            host,
            path,
            directory,
            e ∷ later,
            before,
            ap (◌∷◌ e) split,
            number,
            active,
            made,
          )

      later_signed :
          {id : ℕ} {signature : Bytes}
          → IsSigned j c b past id signature
          → IsSigned j c b (e ∷ past) id signature
      later_signed (line, h, r) = (line, inr h, r)

  -- A task ends with a verdict that is not an approval.
  pub conclude-IsSound :
      (past : List (Event Value)) (task : ℕ) (verdict : Result (Unit {0})) (d : State j c b)
      → IsVerdict j c b timeout past (task, verdict)
      → IsSound j c b timeout past d
      → IsSound j c b timeout past (conclude j c b task verdict d)
  conclude-IsSound past task verdict d justified (entries, running, verdicts) = (
    All-map
        (λ e h.
          (h.0, discard-All (λ v. v.task ≡ e.1 → v.request.id ≡ e.0) task d.verifications h.1))
        d.pending entries,
    discard-All (IsRunning j c b timeout past d.next_task) task d.verifications running,
    (justified, verdicts),
  )

  -- An entry is removed.
  pub forget-IsSound :
      (past : List (Event Value)) (id : ℕ) (d : State j c b)
      → IsSound j c b timeout past d
      → IsSound j c b timeout past (record d { pending = remove id d.pending })
  forget-IsSound past id d (entries, running, verdicts) = (
    remove-All (IsEntry j c b d.next_task d.verifications) id d.pending entries,
    running,
    verdicts,
  )

  -- A task is counted that the tables do not hold.
  pub count-IsSound :
      (past : List (Event Value)) (id : ℕ) (d : State j c b)
      → IsSound j c b timeout past d
      → IsSound j c b timeout past (record d { next_id = id; next_task = d.next_task + 1 })
  count-IsSound past id d (entries, running, verdicts) = (
    All-map (λ e h. (omega (arith, h.0), h.1)) d.pending entries,
    All-map (λ v h. (omega (arith, h.0), h.1)) d.verifications running,
    verdicts,
  )

  pub register-IsSound :
      (past : List (Event Value)) (device : Device) (key : VerifyingKey)
      (request : Result VerifyRequest) (d : State j c b)
      → ((r : VerifyRequest)
          → request ≡ ok r
          → IsCalled j c b timeout past d.next_task device key r)
      → IsSound j c b timeout past d
      → IsSound j c b timeout past (register j c b device key request d)
  unfolding register insert
  register-IsSound past device key (err e) d called h =
      conclude-IsSound past d.next_task (err e) (record d { next_task = d.next_task + 1 })
        (λ eq. cc) (count-IsSound past d.next_id d h)
  register-IsSound past device key (ok request) d called (entries, running, verdicts) = (
    (
      (
        omega arith,
        ((λ eq. refl), All-map (λ v h eq. absurd (omega (arith, h.0, eq))) d.verifications running),
      ),
      remove-All (IsEntry j c b (d.next_task + 1) (new ∷ d.verifications)) request.id d.pending (
          All-map (λ e h. (omega (arith, h.0), ((λ eq. absurd (omega (arith, h.0, eq))), h.1)))
            d.pending entries),
    ),
    (
      (omega arith, (called request refl, λ signature eq. cc)),
      All-map (λ v h. (omega (arith, h.0), h.1)) d.verifications running,
    ),
    verdicts,
  )
    where
      new : Verification VerifyingKey
      new = record {
        task = d.next_task;
        device = device;
        key = key;
        request = request;
        request_sent = false;
        reply = none;
      }

  pub start-IsSound :
      (before : List (Event Value)) (call : Call) (challenge : Result Bytes) (host : Result String)
      (path : String) (directory : Result (List Entry)) (d : State j c b)
      → d ≡ after_events j c b timeout before
      → IsSound j c b timeout (requested call challenge host path directory ∷ before) d
      → IsSound j c b timeout (requested call challenge host path directory ∷ before) (
          start_verification j c b call.user call.action call.detail challenge host path directory
            d)
  unfolding start_verification
  start-IsSound before call challenge host path directory d same h =
      let past = requested call challenge host path directory ∷ before in
      elim (Result-cases (active_key j c b path directory)) [
        | inr (e, refused_) ↦
            rw (refused_, start_verification)
              (conclude-IsSound past d.next_task (err e) (record d { next_task = d.next_task + 1 })
                (λ eq. cc) (count-IsSound past d.next_id d h))
        | inl ((device, key), found) ↦
            rw (found, start_verification)
              (register-IsSound past device key
                (new_request d.next_id call.user call.action call.detail challenge host)
                (record d { next_id = (d.next_id + 1) % 2 ^ 64 })
                (λ r eq. (
                  call,
                  challenge,
                  host,
                  path,
                  directory,
                  [],
                  before,
                  refl,
                  ap (λ (s : State j c b). s.next_task) (sym same),
                  found,
                  ap
                        (λ (s : State j c b).
                          new_request s.next_id call.user call.action call.detail challenge host)
                        (sym same)
                      ∙ eq,
                ))
                h)
      ]
