-- ===== src/Server/Events.antt =====
-- daemon/crates/kpk-spike/src/server.rs: the events that reach the daemon, and what an approval
-- of the daemon has to stand on.
use kpasskey.Base.{ℕ, ◌<◌, ◌≡◌, Bool, none, some, List, [], ◌∷◌, ◌++◌, String, All, In}
use kpasskey.Base.Errors.{Result, ok}
use kpasskey.Base.Bytes.{Bytes}
use kpasskey.External.{Json, Crypto, Base64}
use kpasskey.Link.{verify_assertion}
use kpasskey.Store.{Device, Entry}
use kpasskey.Protocol.{VerifyRequest, new_request, to_line, parse_response}
use kpasskey.Server.{
  signed, Verification, State, init, active_key, start_verification, line_sent, wake, deliver,
  start_question, question_sent, wake_question,
}

-- The fields of a verification that a caller of `run_verification` gives.
pub record Call : Type 0 where
  pub user : String
  pub action : String
  pub detail : String

-- What reaches the daemon: a call of `run_verification` with what the system gives it, the end of
-- its `send_line`, and its wake-up, by the timer or not; the same of `ask_phone`; a line.
pub data Event (Value : Type 0) : Type 0 where
  requested :
      (call : Call) (challenge : Result Bytes) (host : Result String) (path : String)
      (directory : Result (List Entry))
      → Event Value
  sent : (task : ℕ) (result : Result (Unit {0})) → Event Value
  woken : (task : ℕ) (timer : Bool) → Event Value
  asked : (request : Value) → Event Value
  asking_sent : (task : ℕ) (result : Result (Unit {0})) → Event Value
  asking_woken : (task : ℕ) (timer : Bool) → Event Value
  heard : (line : String) → Event Value

module _ (j : Json) (c : Crypto) (b : Base64) where
  open j use {Value}
  open c use {VerifyingKey}

  unfoldable pub step : Event Value → State j c b → State j c b
  step (requested call challenge host path directory) d =
      start_verification j c b call.user call.action call.detail challenge host path directory d
  step (sent task result) d = line_sent j c b task result d
  step (woken task timer) d = wake j c b task timer d
  step (asked request) d = start_question j c b request d
  step (asking_sent task result) d = question_sent j c b task result d
  step (asking_woken task timer) d = wake_question j c b task timer d
  step (heard line) d = deliver j c b line d

  -- The state after a history, whose newest event stands first.
  unfoldable pub after_events : String → List (Event Value) → State j c b
  after_events timeout [] = init j c b timeout
  after_events timeout (e ∷ past) = step e (after_events timeout past)

  -- The phone sent a line with this id and this signature, which denies nothing.
  abbrev pub IsSigned : List (Event Value) → ℕ → Bytes → Type 0
  IsSigned past id signature =
      (line : String) × In (heard line) past
      × (parse_response j b line ≡ ok (record { id = id; signature = signature; denied = none }))

  abbrev pub IsEntry : ℕ → List (Verification VerifyingKey) → ℕ × ℕ → Type 0
  IsEntry next vs e = (e.1 < next) × All (λ v. v.task ≡ e.1 → v.request.id ≡ e.0) vs

module _ (j : Json) (c : Crypto) (b : Base64) (timeout : String) where
  open j use {Value}
  open c use {VerifyingKey}

  -- The call that began the task: the device was the active one of the directory then, the key is that
  -- device's, and the request carries what the caller gave and the id that was next.
  abbrev pub IsCalled : List (Event Value) → ℕ → Device → VerifyingKey → VerifyRequest → Type 0
  IsCalled past task device key request =
      (call : Call) × (challenge : Result Bytes) × (host : Result String) × (path : String)
      × (directory : Result (List Entry)) × (later before : List (Event Value)) × (past
          ≡ later ++ requested call challenge host path directory ∷ before)
      × ((after_events j c b timeout before).next_task ≡ task)
      × (active_key j c b path directory ≡ ok (device, key))
      × (new_request (after_events j c b timeout before).next_id call.user call.action call.detail
            challenge host
          ≡ ok request)

  abbrev pub IsBacked : List (Event Value) → Verification VerifyingKey → Type 0
  IsBacked past v =
      IsCalled past v.task v.device v.key v.request
      × ((signature : Bytes)
          → v.reply ≡ some (signed signature)
          → IsSigned j c b past v.request.id signature)

  -- What an approval of the task stands on.
  abbrev pub IsJustified : List (Event Value) → ℕ → Type 0
  IsJustified past task =
      (v : Verification VerifyingKey) × (signature : Bytes) × (v.task ≡ task)
      × IsCalled past v.task v.device v.key v.request
      × IsSigned j c b past v.request.id signature
      × (verify_assertion c v.key (to_line j b v.request) signature ≡ ok tt)

  abbrev pub IsRunning : List (Event Value) → ℕ → Verification VerifyingKey → Type 0
  IsRunning past next v = (v.task < next) × IsBacked past v

  abbrev pub IsVerdict : List (Event Value) → ℕ × Result (Unit {0}) → Type 0
  IsVerdict past r = r.1 ≡ ok tt → IsJustified past r.0

  abbrev pub IsSound : List (Event Value) → State j c b → Type 0
  IsSound past d =
      All (IsEntry j c b d.next_task d.verifications) d.pending
      × All (IsRunning past d.next_task) d.verifications
      × All (IsVerdict past) d.verdicts
