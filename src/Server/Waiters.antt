-- ===== src/Server/Waiters.antt =====
-- daemon/crates/kpk-spike/src/server.rs: the daemon, its tables of waiting tasks, and those tasks.
use kpasskey.Base.{
  ℕ, ◌==◌, Bool, true, false, Option, none, some, List, [], ◌∷◌, String, if◌then◌else◌,
}
use kpasskey.Base.Errors.{Result}
use kpasskey.Base.Bytes.{Bytes}
use kpasskey.Store.{Device}
use kpasskey.Protocol.{VerifyRequest}

-- A HashMap from request ids to senders. A sender is the number of the task that holds its receiver.
abbrev pub Pending : Type 0
Pending = List (ℕ × ℕ)

unfoldable pub lookup : ℕ → Pending → Option ℕ
lookup id [] = none
lookup id ((k, t) ∷ p) = if k == id then some t else lookup id p

unfoldable pub remove : ℕ → Pending → Pending
remove id [] = []
remove id ((k, t) ∷ p) = let rest = remove id p in if k == id then rest else (k, t) ∷ rest

unfoldable pub insert : ℕ → ℕ → Pending → Pending
insert id t p = (id, t) ∷ remove id p

-- Whether a sender for the task's receiver is left.
unfoldable pub has_sender : ℕ → Pending → Bool
has_sender task [] = false
has_sender task ((k, t) ∷ p) = if t == task then true else has_sender task p

-- What goes through the channel of `Pending`.
pub data Reply : Type 0 where
  signed : Bytes → Reply
  refused : String → Reply

-- A `run_verification` that has registered its sender: `request_sent` is false while it sends its
-- request, and `reply` is what its receiver holds.
pub record Verification (Key : Type 0) : Type 0 where
  pub task : ℕ
  pub device : Device
  pub key : Key
  pub request : VerifyRequest
  pub request_sent : Bool
  pub reply : Option Reply

-- An `ask_phone`, in the same way.
pub record Question (Value : Type 0) : Type 0 where
  pub task : ℕ
  pub id : ℕ
  pub request : Value
  pub request_sent : Bool
  pub reply : Option Value

-- The daemon and its tasks. `verdicts` and `answers` are history: what
-- `run_verification` and `ask_phone` returned for each task.
pub record Daemon (Key Value : Type 0) : Type 0 where
  -- as `{:?}` prints it
  pub verify_timeout : String
  pub next_id : ℕ
  pub next_task : ℕ
  pub pending : Pending
  pub pending_json : Pending
  pub verifications : List (Verification Key)
  pub questions : List (Question Value)
  pub verdicts : List (ℕ × Result (Unit {0}))
  pub answers : List (ℕ × Result Value)

module _ {Key : Type 0} where
  unfoldable pub find : ℕ → List (Verification Key) → Option (Verification Key)
  find task [] = none
  find task (v ∷ vs) = if v.task == task then some v else find task vs

  unfoldable pub discard : ℕ → List (Verification Key) → List (Verification Key)
  discard task [] = []
  discard task (v ∷ vs) = let rest = discard task vs in if v.task == task then rest else v ∷ rest

  -- `waiter.send(outcome)`
  unfoldable pub fill : ℕ → Reply → List (Verification Key) → List (Verification Key)
  fill task r [] = []
  fill task r (v ∷ vs) =
      (if v.task == task then record v { reply = some r } else v) ∷ fill task r vs

  unfoldable pub mark_sent : ℕ → List (Verification Key) → List (Verification Key)
  mark_sent task [] = []
  mark_sent task (v ∷ vs) =
      (if v.task == task then record v { request_sent = true } else v) ∷ mark_sent task vs

module _ {Value : Type 0} where
  unfoldable pub fill_question : ℕ → Value → List (Question Value) → List (Question Value)
  fill_question task r [] = []
  fill_question task r (q ∷ qs) =
      (if q.task == task then record q { reply = some r } else q) ∷ fill_question task r qs

  unfoldable pub find_question : ℕ → List (Question Value) → Option (Question Value)
  find_question task [] = none
  find_question task (q ∷ qs) = if q.task == task then some q else find_question task qs

  unfoldable pub discard_question : ℕ → List (Question Value) → List (Question Value)
  discard_question task [] = []
  discard_question task (q ∷ qs) =
      let rest = discard_question task qs in if q.task == task then rest else q ∷ rest

  unfoldable pub mark_asked : ℕ → List (Question Value) → List (Question Value)
  mark_asked task [] = []
  mark_asked task (q ∷ qs) =
      (if q.task == task then record q { request_sent = true } else q) ∷ mark_asked task qs
