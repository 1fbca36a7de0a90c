-- ===== src/Server/Answers.antt =====
-- daemon/crates/kpk-spike/src/server.rs: what stands behind an answer of `ask_phone`, whatever the
-- order in which requests, wake-ups and lines of the phone reach the daemon.
use kpasskey.Base.{ℕ, ◌≡◌, refl, none, some, List, [], ◌∷◌, String, All, All-In, In, inl, inr}
use kpasskey.Base.Errors.{Result, ok, err}
use kpasskey.External.{Json, Crypto, Base64}
use kpasskey.Server.{Question, find_question, State, init}
use kpasskey.Server.Events.{
  Event, requested, sent, woken, asked, asking_sent, asking_woken, heard, step, after_events,
}
use kpasskey.Server.Answers.Tables.{find_question-All, find_question-task}
use kpasskey.Server.Answers.Backing.{IsAnswer, IsAnswered, IsWaiter, IsTracked}
use kpasskey.Server.Answers.Begun.{later-IsTracked, start-IsTracked}
use kpasskey.Server.Answers.Steps.{asking_sent-IsTracked, wake-IsTracked}
use kpasskey.Server.Answers.Lines.{
  deliver-IsTracked, request-IsTracked, sent-IsTracked, woken-IsTracked,
}
pub mod Tables
pub mod Backing
pub mod Once
mod Begun
mod Steps
mod Lines

module _ (j : Json) (c : Crypto) (b : Base64) where
  open j use {Value}

  -- The task waits: it is in progress with that id, and nothing has answered it yet.
  abbrev pub IsWaiting : ℕ → ℕ → State j c b → Type 0
  IsWaiting id task d =
      (q : Question Value) × (find_question task d.questions ≡ some q)
      × (q.task ≡ task)
      × (q.id ≡ id)
      × (q.reply ≡ none)

module _ (j : Json) (c : Crypto) (b : Base64) (timeout : String) where
  open j use {Value}

  step-IsTracked :
      (e : Event Value) (before : List (Event Value)) (d : State j c b)
      → d ≡ after_events j c b timeout before
      → IsTracked j c b timeout (e ∷ before) d
      → IsTracked j c b timeout (e ∷ before) (step j c b e d)
  unfolding step
  step-IsTracked (requested call challenge host path directory) before d same h =
      request-IsTracked j c b timeout _ call challenge host path directory d h
  step-IsTracked (sent task result) before d same h = sent-IsTracked j c b timeout _ task result d h
  step-IsTracked (woken task timer) before d same h = woken-IsTracked j c b timeout _ task timer d h
  step-IsTracked (asked request) before d same h =
      start-IsTracked j c b timeout before request d same h
  step-IsTracked (asking_sent task result) before d same h =
      asking_sent-IsTracked j c b timeout _ task result d (inl refl) h
  step-IsTracked (asking_woken task timer) before d same h =
      wake-IsTracked j c b timeout _ task timer d h
  step-IsTracked (heard line) before d same h =
      deliver-IsTracked j c b timeout _ line d (inl refl) h

  pub after_events-IsTracked :
      (past : List (Event Value)) → IsTracked j c b timeout past (after_events j c b timeout past)
  unfolding after_events
  after_events-IsTracked [] = (tt, tt, tt)
  after_events-IsTracked (e ∷ past) =
      let before = after_events j c b timeout past in
      step-IsTracked e past before refl
        (later-IsTracked j c b timeout e past before (after_events-IsTracked past))

  -- Whatever the order of the events since the daemon's start: if an `ask_phone` returned a value,
  -- then of the call that began just this one, numbered as it is: its request went out with the id added
  -- that was next then, and the phone sent a line that is that value, which carries that same id and no
  -- text under `denied`.
  pub answer-IsAnswered :
      (past : List (Event Value)) (task : ℕ) (value : Value)
      → In (task, ok value) (after_events j c b timeout past).answers
      → IsAnswered j c b timeout past task value
  answer-IsAnswered past task value returned =
      All-In (IsAnswer j c b timeout past) (task, ok value)
        (after_events j c b timeout past).answers (after_events-IsTracked past).2 returned value
        refl

  -- No sender is left behind: whatever the order of the events since the daemon's start, an entry of
  -- `pending_json` belongs to an `ask_phone` that is still in progress, that asked with the entry's
  -- id, and whose receiver holds nothing yet.
  pub pending_json-IsWaiting :
      (past : List (Event Value)) (id task : ℕ)
      → In (id, task) (after_events j c b timeout past).pending_json
      → IsWaiting j c b id task (after_events j c b timeout past)
  pending_json-IsWaiting past id task entry =
      let d = after_events j c b timeout past in
      let (small, (q, found), all) =
        All-In (IsWaiter j c b d.next_task d.questions) (id, task) d.pending_json
          (after_events-IsTracked past).0 entry in
      let same = find_question-task task d.questions found in
      let (same_id, empty) =
        find_question-All (λ r. r.task ≡ task → (r.id ≡ id) × (r.reply ≡ none)) task d.questions all
          found same in
      (q, found, same, same_id, empty)
