-- ===== src/Server/Answers/Begun.antt =====
-- daemon/crates/kpk-spike/src/server.rs: an event more, and the beginning of an `ask_phone`, keep track of
-- what was asked.
use kpasskey.Base.{
  ℕ, ◌+◌, ◌≡◌, refl, ap, sym, false, none, List, [], ◌∷◌, String, arith, All-map, inr,
}
use kpasskey.External.{Json, Crypto, Base64}
use kpasskey.Server.{insert, Question, State, start_question}
use kpasskey.Server.Tables.{remove-All}
use kpasskey.Server.Events.{Event, asked, after_events}
use kpasskey.Server.Answers.Tables.{cons-IsAsking, head-IsAsking}
use kpasskey.Server.Answers.Backing.{IsAsked, IsHeard, IsWaiter, IsTracked}

module _ (j : Json) (c : Crypto) (b : Base64) (timeout : String) where
  open j use {Value}

  -- One more event takes nothing from what holds already.
  pub later-IsTracked :
      (e : Event Value) (past : List (Event Value)) (d : State j c b)
      → IsTracked j c b timeout past d
      → IsTracked j c b timeout (e ∷ past) d
  later-IsTracked e past d (waiters, running, answers) = (
    waiters,
    All-map
        (λ q h. (
          h.0,
          later_asked q h.1,
          (λ sent_. inr (h.2 sent_)),
          λ value eq. later_heard (h.3 value eq),
        ))
        d.questions running,
    All-map
        (λ r h value eq.
          let (q, same, asked_, out, heard_, granted) = h value eq in
          (q, same, later_asked q asked_, inr out, later_heard heard_, granted))
        d.answers answers,
  )
    where
      later_asked :
          (q : Question Value) → IsAsked j c b timeout past q → IsAsked j c b timeout (e ∷ past) q
      later_asked q (request, later, before, split, number, id, same) =
          (request, e ∷ later, before, ap (◌∷◌ e) split, number, id, same)

      later_heard :
          {id : ℕ} {value : Value} → IsHeard j c b past id value → IsHeard j c b (e ∷ past) id value
      later_heard (line, h, parsed, same) = (line, inr h, parsed, same)

  -- A task is counted.
  pub count-IsTracked :
      (past : List (Event Value)) (id : ℕ) (d : State j c b)
      → IsTracked j c b timeout past d
      → IsTracked j c b timeout past (record d { next_id = id; next_task = d.next_task + 1 })
  count-IsTracked past id d (waiters, running, answers) = (
    All-map (λ e h. (omega (arith, h.0), h.1, h.2)) d.pending_json waiters,
    All-map (λ q h. (omega (arith, h.0), h.1, h.2, h.3)) d.questions running,
    answers,
  )

  pub start-IsTracked :
      (before : List (Event Value)) (request : Value) (d : State j c b)
      → d ≡ after_events j c b timeout before
      → IsTracked j c b timeout (asked request ∷ before) d
      → IsTracked j c b timeout (asked request ∷ before) (start_question j c b request d)
  unfolding start_question insert
  start-IsTracked before request d same (waiters, running, answers) = (
    (
      (
        omega arith,
        head-IsAsking new d.questions,
        (
          (λ eq. (refl, refl)),
          All-map (λ q h eq. absurd (omega (arith, h.0, eq))) d.questions running,
        ),
      ),
      remove-All (IsWaiter j c b (d.next_task + 1) (new ∷ d.questions)) d.next_id d.pending_json (
          All-map
            (λ e h. (
              omega (arith, h.0),
              cons-IsAsking e.1 new d.questions h.1,
              ((λ eq. absurd (omega (arith, h.0, eq))), h.2),
            ))
            d.pending_json waiters),
    ),
    (
      (
        omega arith,
        (
          request,
          [],
          before,
          refl,
          ap (λ (s : State j c b). s.next_task) (sym same),
          ap (λ (s : State j c b). s.next_id) (sym same),
          refl,
        ),
        (λ eq. cc),
        λ value eq. cc,
      ),
      All-map (λ q h. (omega (arith, h.0), h.1, h.2, h.3)) d.questions running,
    ),
    answers,
  )
    where
      new : Question Value
      new = record {
        task = d.next_task;
        id = d.next_id;
        request = j.with_field request "id" (j.number d.next_id);
        request_sent = false;
        reply = none;
      }
