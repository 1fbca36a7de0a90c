-- ===== src/Server/Answers/Once.antt =====
-- daemon/crates/kpk-spike/src/server.rs: a number belongs to one call of `ask_phone`.
use kpasskey.Base.{ℕ, ◌≤◌, ◌<◌, ◌≡◌, List, [], ◌∷◌, ◌++◌, String, arith}
use kpasskey.External.{Json, Crypto, Base64}
use kpasskey.Server.{start_question}
use kpasskey.Server.Counting.{step-next_task}
use kpasskey.Server.Events.{Event, asked, step, after_events}

module _ (j : Json) (c : Crypto) (b : Base64) (timeout : String) where
  open j use {Value}

  -- The number of the next task.
  abbrev next_after : List (Event Value) → ℕ
  next_after past = (after_events j c b timeout past).next_task

  later-next_task : (later past : List (Event Value)) → next_after past ≤ next_after (later ++ past)
  unfolding after_events
  later-next_task [] past = omega arith
  later-next_task (e ∷ later) past = omega (
    arith,
    later-next_task later past,
    step-next_task j c b e (after_events j c b timeout (later ++ past)),
  )

  -- A call numbers a task, so that a later call has a greater number.
  asked_later :
      (later before : List (Event Value)) (request : Value) (past : List (Event Value))
      → past ≡ later ++ asked request ∷ before
      → next_after before < next_after past
  unfolding after_events step start_question
  asked_later later before request past split =
      rw split (omega (arith, later-next_task later (asked request ∷ before)))

  -- Two calls of `ask_phone` in one history that have one number are the same.
  pub asked_once :
      (later other before past : List (Event Value)) (r q : Value)
      → later ++ asked r ∷ before ≡ other ++ asked q ∷ past
      → next_after before ≡ next_after past
      → (r ≡ q) × (before ≡ past)
  asked_once [] [] before past r q split same = (cc, cc)
  asked_once [] (x ∷ other) before past r q split same =
      let tail : before ≡ other ++ asked q ∷ past = cc in
      absurd (omega (arith, same, asked_later other past q before tail))
  asked_once (x ∷ later) [] before past r q split same =
      let tail : past ≡ later ++ asked r ∷ before = cc in
      absurd (omega (arith, same, asked_later later before r past tail))
  asked_once (x ∷ later) (y ∷ other) before past r q split same =
      let tail : later ++ asked r ∷ before ≡ other ++ asked q ∷ past = cc in
      asked_once later other before past r q tail same
