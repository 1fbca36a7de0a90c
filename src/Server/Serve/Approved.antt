-- ===== src/Server/Serve/Approved.antt =====
-- daemon/crates/kpk-spike/src/server.rs: what an approval of the whole server goes back to: a request on
-- its socket, the device that was stored first then, and a line that the phone sent.
use kpasskey.Base.{
  ℕ, ◌≡◌, refl, ap, ◌∙◌, subst, none, some, List, ◌∷◌, ◌++◌, String, All-In, In, sym,
}
use kpasskey.Base.Bytes.{Bytes}
use kpasskey.Base.Errors.{Result, ok, ◌>>◌}
use kpasskey.Base.Text.{trim}
use kpasskey.External.{Json, Crypto, Base64}
use kpasskey.Link.{verify_assertion}
use kpasskey.Protocol.{new_request, to_line, parse_response, VerifyRequest}
use kpasskey.Store.{Entry, get_str, get_u64, Device}
use kpasskey.Server.{State, active_key}
use kpasskey.Server.Events.{heard, asked, after_events}
use kpasskey.Server.Answers.{answer-IsAnswered}
use kpasskey.Server.Phone.{Moment}
use kpasskey.Server.Pam.{read_request}
use kpasskey.Server.Serve.{
  Draws, Happening, pam_read, phone_read, going, Served, opened, verify_timeout, serve, serving,
  Startup,
}
use kpasskey.Server.Serve.History.{history}
use kpasskey.Server.Serve.Positions.{history-Position, asked_from}
use kpasskey.Server.Serve.Questions.{sent-In}
use kpasskey.Server.Serve.Origin.{Origin, Asks, history-Origin}
use kpasskey.Server.Serve.Ending.{serve-going}
use kpasskey.Server.Serve.Grounds.{IsOutcome}
use kpasskey.Server.Serve.Written.{serving-HasGrounds}
use kpasskey.Server.Serve.Refinement.{serving-history}
use kpasskey.Server.Serve.Asked.{Asking, TookPlace, IsAskedFor}
use kpasskey.Server.Serve.Moments.{next_of, IsBegunFor-unique}

module _ (j : Json) (c : Crypto) (b : Base64) (path : String) where
  open j use {Value, from_str, to_string, number, with_field}
  open c use {VerifyingKey}

  -- The phone sent a line with this id and this signature, which denies nothing.
  abbrev pub IsRead : List Happening → ℕ → Bytes → Type 0
  IsRead past id signature =
      (raw : String) × (moment : Moment) × In (phone_read raw moment) past
      × (parse_response j b (trim raw)
          ≡ ok (record { id = id; signature = signature; denied = none }))

  -- What an approval of the task that a request on the socket began stands on: its request says what was
  -- asked, its device and key are those that were stored first then, and the signature that the phone
  -- sent for it is valid over the line that was written to the phone.
  abbrev pub IsApproved : List Happening → List String → Asking j c b path → Type 0
  IsApproved past lines a =
      (device : Device) × (key : VerifyingKey) × (request : VerifyRequest) × (signature : Bytes)
      × (active_key j c b path (a.draws.read_dir >> ok a.state.desk.files) ≡ ok (device, key))
      × (new_request a.state.desk.daemon.next_id a.call.user a.call.action a.call.detail
            a.draws.challenge a.draws.host
          ≡ ok request)
      × In (to_line j b request) lines
      × IsRead past request.id signature
      × (verify_assertion c key (to_line j b request) signature ≡ ok tt)

  heard-IsRead :
      (start : Served j c b path) (past : List Happening) (line : String) {id : ℕ}
      {signature : Bytes}
      → parse_response j b line ≡ ok (record { id = id; signature = signature; denied = none })
      → Origin j c b path start past (heard line)
      → IsRead past id signature
  heard-IsRead start past line parsed (raw, moment, i, trimmed) =
      (raw, moment, i, rw trimmed parsed)

  -- While `serve` goes on, whatever has happened since it began to listen: if the verification that a
  -- request on the socket began ended with an approval, then the line of a request that says just what
  -- this one asked for was written to the phone, and the phone sent a line with that request's id, no
  -- denial, and a signature over the very line that was written, which the key of the
  -- device verifies that was stored first when the request was read.
  pub serve-IsApproved :
      (socket_path : String) (port timeout_secs : ℕ) (startup : Startup) (files : List Entry)
      (past : List Happening) (t : Served j c b path) (a : Asking j c b path)
      → serve j c b path socket_path port timeout_secs startup files past ≡ going t
      → TookPlace j c b path (opened j c b path timeout_secs files) past a
      → In (next_of j c b path a.state, ok tt) t.desk.daemon.verdicts
      → IsApproved past t.desk.sent a
  serve-IsApproved socket_path port timeout_secs startup files past t a now asked_ approved =
      let start = opened j c b path timeout_secs files in
      let events = history j c b path start past in
      let grounds =
        serving-HasGrounds j c b path timeout_secs files past t
          (serve-going j c b path socket_path port timeout_secs startup files past now) in
      let task = next_of j c b path a.state in
      let (v, signature, same, (z, there, begun), (line, line_event, parsed), valid, written) =
        All-In (IsOutcome j c b (IsAskedFor j c b path start past) events t.desk.sent) (task, ok tt)
          t.desk.daemon.verdicts grounds.1 approved refl in
      let (_, active, made) =
        IsBegunFor-unique j c b path start past a z v.task asked_ there (sym same) begun in
      let read_ = heard-IsRead start past line parsed (
        All-In (Origin j c b path start past) (heard line) events
          (history-Origin j c b path start past) line_event) in
      (v.device, v.key, v.request, signature, active, made, written, read_, valid)

  -- What the value that a question's task returned stands on: the helper asked on the socket for a
  -- credential or a signature, which began just this task; the question with the id that was next then was
  -- written to the phone, and the phone sent a line that is the value, which carries that id, and no
  -- text under `denied`.
  abbrev pub IsGranted : Served j c b path → List Happening → List String → ℕ → Value → Type 0
  IsGranted start past lines task value =
      (peer_uid : Result ℕ) × (line : Result String) × (draws : Draws) × (request : Value) × (later
        before : List Happening)
      × (s : Served j c b path) × (raw : String) × (moment : Moment) × (past
          ≡ later ++ pam_read peer_uid line draws ∷ before)
      × (serving j c b path start before ≡ going s)
      × (next_of j c b path s ≡ task)
      × Asks j c b path (read_request j c b peer_uid line) request
      × In (to_string (with_field request "id" (number s.desk.daemon.next_id))) lines
      × In (phone_read raw moment) past
      × (from_str (trim raw) ≡ ok value)
      × (get_u64 j value "id" ≡ some s.desk.daemon.next_id)
      × (get_str j value "denied" ≡ none)

  -- While `serve` goes on, whatever has happened since it began to listen: if an `ask_phone` returned a
  -- value, then the request of the helper on the socket that began just this task, numbered as it is,
  -- asked for a credential or an assertion; a question that is just about that, with the id that was
  -- next when the request was read, was written to the phone; and the phone sent a line that is this
  -- value, with that id and no text under `denied`.
  pub serve-IsGranted :
      (socket_path : String) (port timeout_secs : ℕ) (startup : Startup) (files : List Entry)
      (past : List Happening) (t : Served j c b path) (task : ℕ) (value : Value)
      → serve j c b path socket_path port timeout_secs startup files past ≡ going t
      → In (task, ok value) t.desk.daemon.answers
      → IsGranted (opened j c b path timeout_secs files) past t.desk.sent task value
  serve-IsGranted socket_path port timeout_secs startup files past t task value now returned =
      let start = opened j c b path timeout_secs files in
      let timeout = verify_timeout j c b path timeout_secs in
      let events = history j c b path start past in
      let going_ = serve-going j c b path socket_path port timeout_secs startup files past now in
      let (q, same, asked_, out, (text, text_event, parsed, id), granted) =
        answer-IsAnswered j c b timeout events task value (
          subst (λ d. In (task, ok value) d.answers)
            (serving-history j c b path timeout_secs files past t going_) returned) in
      let (request, newer, older, split, number_, id_, made) = asked_ in
      let (h, later, before, s, cut, then_, single, history_) =
        history-Position j c b path start past newer older (asked request) split in
      let (peer_uid, line, draws, read_, asks) = asked_from j c b path start h s request single in
      let (raw, moment, k, trimmed) =
        All-In (Origin j c b path start past) (heard text) events
          (history-Origin j c b path start past) text_event in
      let state : s.desk.daemon ≡ after_events j c b timeout older =
        serving-history j c b path timeout_secs files before s then_
        ∙ ap (after_events j c b timeout) history_ in
      let next : s.desk.daemon.next_id ≡ q.id = ap (λ (d : State j c b). d.next_id) state ∙ id_ in
      (
        peer_uid,
        line,
        draws,
        request,
        later,
        before,
        s,
        raw,
        moment,
        subst (λ z. past ≡ later ++ z ∷ before) read_ cut,
        then_,
        ap (λ (d : State j c b). d.next_task) state ∙ number_ ∙ same,
        asks,
        subst (λ z. In (to_string z) t.desk.sent)
            (made ∙ ap (λ n. with_field request "id" (number n)) (sym next))
            (sent-In j c b path timeout_secs files past t q going_ asked_ out),
        k,
        ap from_str trimmed ∙ parsed,
        id ∙ ap some (sym next),
        granted,
      )
