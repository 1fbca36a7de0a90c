-- ===== src/Server/Serve/Questions.antt =====
-- daemon/crates/kpk-spike/src/server.rs: the line of a question that was sent is among those that were
-- written to the phone.
use kpasskey.Base.{
  ℕ, ◌≡◌, ◌∙◌, ap, sym, subst, false, Option, some, List, [], ◌∷◌, ◌++◌, String, In, inl, inr,
  append_assoc,
}
use kpasskey.Base.Errors.{Result, ok}
use kpasskey.External.{Json, Crypto, Base64}
use kpasskey.Store.{Entry}
use kpasskey.Server.{Question, find_question}
use kpasskey.Server.Answers.{after_events-IsTracked}
use kpasskey.Server.Answers.Backing.{IsAsked, IsQuestion, IsTracked}
use kpasskey.Server.Answers.Once.{asked_once}
use kpasskey.Server.Answers.Tables.{find_question-All, find_question-task}
use kpasskey.Server.Events.{Event, asked, asking_sent, after_events}
use kpasskey.Server.Phone.{Desk, send_line}
use kpasskey.Server.Serve.{
  Happening, question_written, going, Served, opened, verify_timeout, write_question, happen,
  proceed, serving,
}
use kpasskey.Server.Serve.History.{history}
use kpasskey.Server.Serve.Kept.{serving-Keeps}
use kpasskey.Server.Serve.Positions.{history-Position, sent_from}
use kpasskey.Server.Serve.Refinement.{serving-history}
use kpasskey.Server.Serve.Sending.{send_line-In}

pub In-split :
    {A : Type 0} (a : A) (xs : List A)
    → In a xs
    → (later : List A) × (before : List A) × (xs ≡ later ++ a ∷ before)
In-split a [] i = absurd i
In-split a (x ∷ xs) (inl same) = ([], xs, ap (λ y. y ∷ xs) (sym same))
In-split a (x ∷ xs) (inr i) =
    let (later, before, split) = In-split a xs i in (x ∷ later, before, ap (◌∷◌ x) split)

module _ (j : Json) (c : Crypto) (b : Base64) (path : String) where
  open j use {Value, to_string, number, with_field}
  open c use {VerifyingKey}

  abbrev Running : Type 0
  Running = Served j c b path

  write_question-In :
      (task : ℕ) (write : Result (Unit {0})) (found : Option (Question Value))
      (d : Desk VerifyingKey Value) (q : Question Value)
      → found ≡ some q
      → q.request_sent ≡ false
      → (send_line (to_string q.request) write d).0 ≡ ok tt
      → In (to_string q.request) (write_question j c b path task write found d).sent
  unfolding write_question
  write_question-In task write found d q there early wrote =
      rw (there, write_question, early) (send_line-In (to_string q.request) write d wrote)

  -- The state after a question was written.
  abbrev written : ℕ → Result (Unit {0}) → Running → Running
  written task write s = record s {
    desk = write_question j c b path task write (find_question task s.desk.daemon.questions) s.desk;
  }

  serving-written :
      (start : Running) (earlier : List Happening) (s : Running) (task : ℕ)
      (write : Result (Unit {0}))
      → serving j c b path start earlier ≡ going s
      → serving j c b path start (question_written task write ∷ earlier)
        ≡ going (written task write s)
  unfolding serving proceed happen
  serving-written start earlier s task write now_ =
      ap (proceed j c b path (question_written task write)) now_

  -- Two questions that were asked in one history and have one number have one request.
  same_request :
      (timeout : String) (newer older : List (Event Value)) (p q : Question Value)
      → IsAsked j c b timeout (newer ++ older) p
      → IsAsked j c b timeout older q
      → q.task ≡ p.task
      → q.request ≡ p.request
  same_request timeout newer older p q (r, later, before, split, n, i, made)
        (r', later', before', split', n', i', made') same =
      let (rr, bb) =
        asked_once j c b timeout later (newer ++ later') before before' r r'
          (sym split
            ∙ ap (◌++◌ newer) split'
            ∙ sym (append_assoc newer later' (asked r' ∷ before')))
          (n ∙ sym same ∙ sym n') in
      let id : q.id ≡ p.id =
        sym i' ∙ ap (λ z. (after_events j c b timeout z).next_id) (sym bb) ∙ i in
      made' ∙ (λ k. with_field (sym rr k) "id" (number (id k))) ∙ sym made

  -- What `serve` opened with goes on: a question of the history that was sent was written to the phone.
  pub sent-In :
      (timeout_secs : ℕ) (files : List Entry) (past : List Happening) (t : Running)
      (q : Question Value)
      → serving j c b path (opened j c b path timeout_secs files) past ≡ going t
      → IsAsked j c b
          (verify_timeout j c b path timeout_secs)
          (history j c b path (opened j c b path timeout_secs files) past)
          q
      → In
          (asking_sent q.task (ok tt))
          (history j c b path (opened j c b path timeout_secs files) past)
      → In (to_string q.request) t.desk.sent
  sent-In timeout_secs files past t q now asked_ out =
      let start = opened j c b path timeout_secs files in
      let timeout = verify_timeout j c b path timeout_secs in
      let event : Event Value = asking_sent q.task (ok tt) in
      let (newer, older, split) = In-split event (history j c b path start past) out in
      let (h, later, earlier, s, cut, then_, single, events) =
        history-Position j c b path start past newer older event split in
      let (write, p, same, found, early, wrote) = sent_from j c b path start h s q.task single in
      let hist = history j c b path start earlier in
      let tracked : IsTracked j c b timeout hist s.desk.daemon =
        subst (IsTracked j c b timeout hist)
          (sym (serving-history j c b path timeout_secs files earlier s then_))
          (after_events-IsTracked j c b timeout hist) in
      let question : IsQuestion j c b timeout hist s.desk.daemon.next_task p =
        find_question-All (IsQuestion j c b timeout hist s.desk.daemon.next_task) q.task
          s.desk.daemon.questions tracked.1 found in
      let whole : history j c b path start past ≡ (newer ++ event ∷ []) ++ hist =
        split
        ∙ ap (λ z. newer ++ event ∷ z) (sym events)
        ∙ sym (append_assoc newer (event ∷ []) hist) in
      let request : p.request ≡ q.request =
        same_request timeout (newer ++ event ∷ []) hist q p
          (subst (λ z. IsAsked j c b timeout z q) whole asked_) question.1
          (find_question-task q.task s.desk.daemon.questions found) in
      let after = written q.task write s in
      let line : In (to_string p.request) after.desk.sent =
        write_question-In q.task write (find_question q.task s.desk.daemon.questions) s.desk p found
          early wrote in
      subst (λ z. In (to_string z) t.desk.sent) request
        (serving-Keeps j c b path start later (question_written q.task write ∷ earlier) after t
          (serving-written start earlier s q.task write then_)
          (ap (λ k. serving j c b path start (later ++ k ∷ earlier)) (sym same)
            ∙ ap (serving j c b path start) (sym cut)
            ∙ now)
          (to_string p.request) line)
