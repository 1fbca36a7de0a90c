-- ===== src/Server.antt =====
-- daemon/crates/kpk-spike/src/server.rs: verifications that wait for the phone, and the routing of
-- its replies. The daemon runs on one thread, and a task gives way only where it awaits: at the
-- sending of its request, and at the reply. Each function below is what runs between two such places.
use kpasskey.Base.{
  first, ℕ, zero, suc, ◌+◌, ◌%◌, ◌^◌, Bool, true, false, Option, none, some, List, [], ◌∷◌, ◌++◌,
  String, ◌==◌, if◌then◌else◌,
}
use kpasskey.Base.Errors.{Error, Result, ok, err, bail, or_context, to_option, ◌>>=◌}
use kpasskey.Base.Bytes.{Bytes}
use kpasskey.Base.Text.{concat}
use kpasskey.External.{Json, Crypto, Base64}
use kpasskey.Link.{load_verifying_key, verify_assertion}
use kpasskey.Store.{Device, Entry, list, get_str, get_u64}
use kpasskey.Protocol.{VerifyRequest, VerifyResponse, new_request, to_line, parse_response}
mod Waiters
pub mod Tables
pub mod Events
pub mod Soundness
pub mod Answers
pub mod Untouched
pub mod Distinct
pub mod Counting
pub mod Waiting
pub mod Phone
pub mod Pam
pub mod Import
pub mod Serve
pub mod SelfTest
unfoldable pub use Waiters.*

-- `response.denied.map_or_else(|| Ok(response.signature), Err)`
unfoldable pub reply_of : Option String → Bytes → Reply
reply_of none signature = signed signature
reply_of (some reason) signature = refused reason

module _ (j : Json) (c : Crypto) (b : Base64) where
  open j use {Value, from_str, with_field, number}
  open c use {VerifyingKey}

  abbrev pub State : Type 0
  State = Daemon VerifyingKey Value

  abbrev pub init : String → State
  init verify_timeout = record {
    verify_timeout = verify_timeout;
    next_id = 1;
    next_task = 0;
    pending = [];
    pending_json = [];
    verifications = [];
    questions = [];
    verdicts = [];
    answers = [];
  }

  unfoldable pub active_device : String → Result (List Entry) → Result Device
  active_device path directory = do
    devices ← list j path directory
    or_context "no paired device; pair one from System Settings" (first devices)

  -- The device and the key that `run_verification` begins with.
  unfoldable pub active_key : String → Result (List Entry) → Result (Device × VerifyingKey)
  active_key path directory = do
    device ← active_device path directory
    key ← load_verifying_key c device.public_key_pem
    ok (device, key)

  -- The verdict of a task that ends before it waits, or after.
  abbrev pub conclude : ℕ → Result (Unit {0}) → State → State
  conclude task verdict d = record d {
    verifications = discard task d.verifications;
    verdicts = (task, verdict) ∷ d.verdicts;
  }

  -- A new task: up to the registration of its sender.
  unfoldable pub register : Device → VerifyingKey → Result VerifyRequest → State → State
  register device key (err e) d =
      conclude d.next_task (err e) (record d { next_task = d.next_task + 1 })
  register device key (ok request) d = record d {
    next_task = d.next_task + 1;
    pending = insert request.id d.next_task d.pending;
    verifications =
        record {
          task = d.next_task;
          device = device;
          key = key;
          request = request;
          request_sent = false;
          reply = none;
        }
        ∷ d.verifications;
  }

  unfoldable pub start_verification :
      String
      → String
      → String
      → Result Bytes
      → Result String
      → String
      → Result (List Entry)
      → State
      → State
  start_verification user action detail challenge host path directory d =
      elim (active_key path directory) [
        | err e ↦ conclude d.next_task (err e) (record d { next_task = d.next_task + 1 })
        | ok (device, key) ↦
            register device key (new_request d.next_id user action detail challenge host)
              (record d { next_id = (d.next_id + 1) % 2 ^ 64 })
      ]

  -- `send_line` has returned.
  unfoldable pub line_sent : ℕ → Result (Unit {0}) → State → State
  line_sent task (ok u) d = record d { verifications = mark_sent task d.verifications }
  line_sent task (err e) d = elim (find task d.verifications) [
    | none ↦ d
    | some v ↦
        if v.request_sent
        then d
        else conclude task (bail "no phone connected")
            (record d { pending = remove v.request.id d.pending })
  ]

  -- The reply that the receiver holds is judged.
  unfoldable pub judge : Verification VerifyingKey → Reply → Result (Unit {0})
  judge v (signed signature) = verify_assertion c v.key (to_line j b v.request) signature
  judge v (refused reason) = bail (concat ("denied on the phone: " ∷ reason ∷ []))

  -- The receiver is polled: by its waker, and by the timer.
  unfoldable pub poll : Verification VerifyingKey → Option Reply → Bool → State → State
  poll v (some r) timer d = conclude v.task (judge v r) d
  poll v none timer d =
      if has_sender v.task d.pending
      then (if timer
          then conclude v.task
              (bail (concat ("phone did not respond within " ∷ d.verify_timeout ∷ [])))
              (record d { pending = remove v.request.id d.pending })
          else d)
      else conclude v.task (bail "verification was abandoned")
          (record d { pending = remove v.request.id d.pending })

  unfoldable pub wake : ℕ → Bool → State → State
  wake task timer d = elim (find task d.verifications) [
    | none ↦ d
    | some v ↦ if v.request_sent then poll v v.reply timer d else d
  ]

  -- The waiter in `pending_json` for the id of a JSON line.
  unfoldable pub json_waiter : String → State → Option (ℕ × ℕ × Value)
  json_waiter line d = elim (to_option (from_str line)) [
    | none ↦ none
    | some value ↦ elim (get_u64 j value "id") [
      | none ↦ none
      | some id ↦ elim (lookup id d.pending_json) [
        | none ↦ none
        | some task ↦ some (id, task, value)
      ]
    ]
  ]

  unfoldable pub deliver_response : Result VerifyResponse → State → State
  deliver_response (err e) d = d
  deliver_response (ok response) d = elim (lookup response.id d.pending) [
    | none ↦ d
    | some task ↦ record d {
      pending = remove response.id d.pending;
      verifications = fill task (reply_of response.denied response.signature) d.verifications;
    }
  ]

  unfoldable pub deliver : String → State → State
  deliver line d = elim (json_waiter line d) [
    | some (id, task, value) ↦ record d {
      pending_json = remove id d.pending_json;
      questions = fill_question task value d.questions;
    }
    | none ↦ deliver_response (parse_response j b line) d
  ]

  -- `ask_phone`, in the same steps.
  unfoldable pub start_question : Value → State → State
  start_question request d = record d {
    next_id = (d.next_id + 1) % 2 ^ 64;
    next_task = d.next_task + 1;
    pending_json = insert d.next_id d.next_task d.pending_json;
    questions =
        record {
          task = d.next_task;
          id = d.next_id;
          request = with_field request "id" (number d.next_id);
          request_sent = false;
          reply = none;
        }
        ∷ d.questions;
  }

  abbrev pub finish : Question Value → Result Value → Pending → State → State
  finish q answer pending d = record d {
    pending_json = pending;
    questions = discard_question q.task d.questions;
    answers = (q.task, answer) ∷ d.answers;
  }

  unfoldable pub question_sent : ℕ → Result (Unit {0}) → State → State
  question_sent task (ok u) d = record d { questions = mark_asked task d.questions }
  question_sent task (err e) d = elim (find_question task d.questions) [
    | none ↦ d
    | some q ↦
        if q.request_sent
        then d
        else finish q (bail "no phone connected") (remove q.id d.pending_json) d
  ]

  -- `reply.get("denied")` is looked at last.
  unfoldable pub accept : Value → Result Value
  accept value = elim (get_str j value "denied") [
    | none ↦ ok value
    | some reason ↦ bail (concat ("denied on the phone: " ∷ reason ∷ []))
  ]

  unfoldable pub poll_question : Question Value → Option Value → Bool → State → State
  poll_question q (some value) timer d = finish q (accept value) d.pending_json d
  poll_question q none timer d =
      if has_sender q.task d.pending_json
      then (if timer
          then finish q (bail (concat ("phone did not respond within " ∷ d.verify_timeout ∷ [])))
              (remove q.id d.pending_json) d
          else d)
      else finish q (bail "the request was abandoned") (remove q.id d.pending_json) d

  unfoldable pub wake_question : ℕ → Bool → State → State
  wake_question task timer d = elim (find_question task d.questions) [
    | none ↦ d
    | some q ↦ if q.request_sent then poll_question q q.reply timer d else d
  ]
