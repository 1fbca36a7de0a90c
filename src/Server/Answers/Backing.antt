-- ===== src/Server/Answers/Backing.antt =====
-- daemon/crates/kpk-spike/src/server.rs: what an answer of `ask_phone` has to stand on.
use kpasskey.Base.{ℕ, ◌<◌, ◌≡◌, true, none, some, List, ◌∷◌, ◌++◌, String, All, In}
use kpasskey.Base.Errors.{Result, ok}
use kpasskey.External.{Json, Crypto, Base64}
use kpasskey.Store.{get_str, get_u64}
use kpasskey.Server.{Question, State}
use kpasskey.Server.Events.{Event, asked, asking_sent, heard, after_events}
use kpasskey.Server.Answers.Tables.{IsAsking}

module _ (j : Json) (c : Crypto) (b : Base64) where
  open j use {Value, from_str}

  -- The phone sent a line that is this value, and carries this id.
  abbrev pub IsHeard : List (Event Value) → ℕ → Value → Type 0
  IsHeard past id value =
      (line : String) × In (heard line) past
      × (from_str line ≡ ok value)
      × (get_u64 j value "id" ≡ some id)

  -- An entry of `pending_json` belongs to an `ask_phone` in progress with the entry's id, whose
  -- receiver holds nothing.
  abbrev pub IsWaiter : ℕ → List (Question Value) → ℕ × ℕ → Type 0
  IsWaiter next qs e =
      (e.1 < next) × IsAsking e.1 qs × All (λ q. q.task ≡ e.1 → (q.id ≡ e.0) × (q.reply ≡ none)) qs

module _ (j : Json) (c : Crypto) (b : Base64) (timeout : String) where
  open j use {Value, with_field, number}

  -- The call that asked the question: the question has the number and the id that were next then, and its
  -- request is that of the call, to which the id was added.
  abbrev pub IsAsked : List (Event Value) → Question Value → Type 0
  IsAsked past q =
      (request : Value) × (later before : List (Event Value)) × (past
        ≡ later ++ asked request ∷ before)
      × ((after_events j c b timeout before).next_task ≡ q.task)
      × ((after_events j c b timeout before).next_id ≡ q.id)
      × (q.request ≡ with_field request "id" (number q.id))

  -- What an answer to the task stands on.
  abbrev pub IsAnswered : List (Event Value) → ℕ → Value → Type 0
  IsAnswered past task value =
      (q : Question Value) × (q.task ≡ task)
      × IsAsked past q
      × In (asking_sent q.task (ok tt)) past
      × IsHeard j c b past q.id value
      × (get_str j value "denied" ≡ none)

  abbrev pub IsQuestion : List (Event Value) → ℕ → Question Value → Type 0
  IsQuestion past next q =
      (q.task < next)
      × IsAsked past q
      × (q.request_sent ≡ true → In (asking_sent q.task (ok tt)) past)
      × ((value : Value) → q.reply ≡ some value → IsHeard j c b past q.id value)

  abbrev pub IsAnswer : List (Event Value) → ℕ × Result Value → Type 0
  IsAnswer past r = (value : Value) → r.1 ≡ ok value → IsAnswered past r.0 value

  abbrev pub IsTracked : List (Event Value) → State j c b → Type 0
  IsTracked past d =
      All (IsWaiter j c b d.next_task d.questions) d.pending_json
      × All (IsQuestion past d.next_task) d.questions
      × All (IsAnswer past) d.answers
