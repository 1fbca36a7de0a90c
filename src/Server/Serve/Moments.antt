-- ===== src/Server/Serve/Moments.antt =====
-- daemon/crates/kpk-spike/src/server.rs: no two requests on the socket begin the same task.
use kpasskey.Base.{ℕ, ◌+◌, ◌≤◌, ◌<◌, ◌≡◌, refl, ap, sym, ◌∙◌, List, [], ◌∷◌, ◌++◌, String, arith}
use kpasskey.Base.Errors.{Result, ok, ◌>>◌}
use kpasskey.External.{Json, Crypto, Base64}
use kpasskey.Store.{Device}
use kpasskey.Protocol.{VerifyRequest, new_request}
use kpasskey.Server.{State, active_key}
use kpasskey.Server.Counting.{start_verification-next_task, step-next_task}
use kpasskey.Server.Events.{Event, Call}
use kpasskey.Server.Pam.{Operation, verify, read_request, begin}
use kpasskey.Server.Serve.{
  Draws, Happening, pam_read, Serving, going, ended, Served, happen, proceed, serving,
  accept_request,
}
use kpasskey.Server.Serve.Asked.{Asking, TookPlace, IsBegunFor}
use kpasskey.Server.Serve.History.{events_of}
use kpasskey.Server.Serve.Refinement.{replay, happen-daemon}

module _ (j : Json) (c : Crypto) (b : Base64) (path : String) where
  open j use {Value}

  abbrev Running : Type 0
  Running = Served j c b path

  -- The number of the next task.
  abbrev pub next_of : Running → ℕ
  next_of s = s.desk.daemon.next_task

  replay-next_task :
      (es : List (Event Value)) (d : State j c b) → d.next_task ≤ (replay j c b path es d).next_task
  replay-next_task [] d = omega arith
  replay-next_task (e ∷ es) d =
      omega (arith, replay-next_task es d, step-next_task j c b e (replay j c b path es d))

  happen-next_task :
      (h : Happening) (s t : Running) → happen j c b path h s ≡ going t → next_of s ≤ next_of t
  happen-next_task h s t eq =
      let same : next_of t
          ≡ (replay j c b path (events_of j c b path h s) s.desk.daemon).next_task =
        ap (λ (d : State j c b). d.next_task) (happen-daemon j c b path h s t eq) in
      omega (arith, same, replay-next_task (events_of j c b path h s) s.desk.daemon)

  pub proceed-going :
      (h : Happening) (before : Serving Running) {t : Running}
      → proceed j c b path h before ≡ going t
      → (s : Running) × (before ≡ going s) × (happen j c b path h s ≡ going t)
  unfolding proceed
  proceed-going h (ended e) eq = cc
  proceed-going h (going s) eq = (s, refl, eq)

  -- Where `serve` went on, it went on before, with no greater number.
  between :
      (start : Running) (later before : List Happening) (t : Running)
      → serving j c b path start (later ++ before) ≡ going t
      → (s : Running) × (serving j c b path start before ≡ going s) × (next_of s ≤ next_of t)
  unfolding serving
  between start [] before t eq = (t, eq, omega arith)
  between start (h ∷ later) before t eq =
      let (u, so_far, last) = proceed-going h (serving j c b path start (later ++ before)) eq in
      let (s, then_, small) = between start later before u so_far in
      (s, then_, omega (arith, small, happen-next_task h u t last))

  pub going_same : (s t : Running) → going s ≡ going t → s ≡ t
  going_same s t eq = cc

  accepted-next_task :
      (request : Result Operation) (call : Call) (draws : Draws) (s : Running)
      → request ≡ ok (verify call.user call.action call.detail)
      → next_of (accept_request j c b path request draws s) ≡ next_of s + 1
  unfolding accept_request begin
  accepted-next_task request call draws s read = rw read (
      start_verification-next_task j c b call.user call.action call.detail draws.challenge
        draws.host path (draws.read_dir >> ok s.desk.files) s.desk.daemon)

  -- The reading of a request for a verification numbers a task.
  read-next_task :
      (start : Running) (a : Asking j c b path) (t : Running)
      → serving j c b path start a.before ≡ going a.state
      → read_request j c b a.peer_uid a.line ≡ ok (verify a.call.user a.call.action a.call.detail)
      → serving j c b path start (pam_read a.peer_uid a.line a.draws ∷ a.before) ≡ going t
      → next_of t ≡ next_of a.state + 1
  unfolding serving happen accept_request begin
  read-next_task start a t now read eq =
      let (s, so_far, last) =
        proceed-going (pam_read a.peer_uid a.line a.draws) (serving j c b path start a.before) eq in
      let same : s ≡ a.state = going_same s a.state (sym so_far ∙ now) in
      let accepted : Running =
        accept_request j c b path (read_request j c b a.peer_uid a.line) a.draws s in
      ap next_of (sym (going_same accepted t last))
      ∙ accepted-next_task (read_request j c b a.peer_uid a.line) a.call a.draws s read
      ∙ ap (λ (u : Running). next_of u + 1) same

  -- A request that was read later begins a task with a greater number.
  read_later :
      (start : Running) (a z : Asking j c b path) (later : List Happening)
      → serving j c b path start a.before ≡ going a.state
      → serving j c b path start z.before ≡ going z.state
      → read_request j c b z.peer_uid z.line ≡ ok (verify z.call.user z.call.action z.call.detail)
      → a.before ≡ later ++ (pam_read z.peer_uid z.line z.draws ∷ z.before)
      → next_of z.state < next_of a.state
  read_later start a z later now then_ read split =
      let (u, after, small) =
        between start later (pam_read z.peer_uid z.line z.draws ∷ z.before) a.state
          (ap (serving j c b path start) (sym split) ∙ now) in
      omega (arith, small, read-next_task start z u then_ read after)

  -- Two readings in one list of what happened that begin tasks with one number are the same.
  same_reading :
      (start : Running) (a z : Asking j c b path) (later other : List Happening)
      → serving j c b path start a.before ≡ going a.state
      → serving j c b path start z.before ≡ going z.state
      → read_request j c b a.peer_uid a.line ≡ ok (verify a.call.user a.call.action a.call.detail)
      → read_request j c b z.peer_uid z.line ≡ ok (verify z.call.user z.call.action z.call.detail)
      → next_of a.state ≡ next_of z.state
      → later ++ (pam_read a.peer_uid a.line a.draws ∷ a.before)
        ≡ other ++ (pam_read z.peer_uid z.line z.draws ∷ z.before)
      → (pam_read a.peer_uid a.line a.draws ≡ pam_read z.peer_uid z.line z.draws)
        × (a.before ≡ z.before)
  same_reading start a z [] [] now then_ ra rz same split = (cc, cc)
  same_reading start a z [] (x ∷ other) now then_ ra rz same split =
      let tail : a.before ≡ other ++ (pam_read z.peer_uid z.line z.draws ∷ z.before) = cc in
      absurd (omega (arith, same, read_later start a z other now then_ rz tail))
  same_reading start a z (x ∷ later) [] now then_ ra rz same split =
      let tail : z.before ≡ later ++ (pam_read a.peer_uid a.line a.draws ∷ a.before) = cc in
      absurd (omega (arith, same, read_later start z a later then_ now ra tail))
  same_reading start a z (x ∷ later) (y ∷ other) now then_ ra rz same split =
      same_reading start a z later other now then_ ra rz same cc

  -- What is known of a task holds of the reading that numbered it.
  pub IsBegunFor-unique :
      (start : Running) (past : List Happening) (a z : Asking j c b path) (task : ℕ)
      {device : Device} {key : Crypto.VerifyingKey c} {request : VerifyRequest}
      → TookPlace j c b path start past a
      → TookPlace j c b path start past z
      → next_of a.state ≡ task
      → IsBegunFor j c b path z task device key request
      → IsBegunFor j c b path a task device key request
  IsBegunFor-unique start past a z task (split, now, ra) (cut, then_, rz) number
        (begun, active, made) =
      let (reading, before) =
        same_reading start a z a.later z.later now then_ ra rz (number ∙ sym begun)
          (sym split ∙ cut) in
      let peer_uid : a.peer_uid ≡ z.peer_uid = cc in
      let line : a.line ≡ z.line = cc in
      let draws : z.draws ≡ a.draws = cc in
      let state : z.state ≡ a.state =
        going_same z.state a.state (sym then_ ∙ ap (serving j c b path start) (sym before) ∙ now) in
      let asked : ok (verify z.call.user z.call.action z.call.detail)
          ≡ ok (verify a.call.user a.call.action a.call.detail) =
        sym rz ∙ (λ i. read_request j c b (sym peer_uid i) (sym line i)) ∙ ra in
      let user : z.call.user ≡ a.call.user = cc in
      let action : z.call.action ≡ a.call.action = cc in
      let detail : z.call.detail ≡ a.call.detail = cc in
      (
        number,
        sym (λ i. active_key j c b path ((draws i).read_dir >> ok (state i).desk.files)) ∙ active,
        sym (λ i.
              new_request (state i).desk.daemon.next_id (user i) (action i) (detail i)
                (draws i).challenge (draws i).host)
            ∙ made,
      )
