-- ===== src/Server/Serve/History.antt =====
-- daemon/crates/kpk-spike/src/server.rs: what happens to `serve`, as the events that reach its daemon.
use kpasskey.Base.{ℕ, Option, none, some, List, [], ◌∷◌, ◌++◌, String, if◌then◌else◌}
use kpasskey.Base.Errors.{Result, ok, err, ◌>>◌}
use kpasskey.Base.Text.{trim, is_empty}
use kpasskey.External.{Json, Crypto, Base64}
use kpasskey.Protocol.{to_line}
use kpasskey.Store.{Device, Entry}
use kpasskey.Server.{Verification, Question, find, find_question, active_device}
use kpasskey.Server.Events.{Event, requested, sent, woken, asked, asking_sent, asking_woken, heard}
use kpasskey.Server.Phone.{Desk, send_line, is_kind, kind_of}
use kpasskey.Server.Pam.{
  Operation, verify, make_credential, assert, read_request, creation_request, assertion_request,
}
use kpasskey.Server.Serve.{
  Draws, Happening, phone_accepted, pam_accepted, pam_read, request_written, verification_woken,
  question_written, question_woken, phone_read, window_begun, window_cancelled, window_asked,
  device_removed, directory_changed, Serving, going, ended, Served, serving,
}

module _ (j : Json) (c : Crypto) (b : Base64) (path : String) where
  open j use {Value, to_string}
  open c use {VerifyingKey}

  abbrev Running : Type 0
  Running = Served j c b path

  abbrev Phone : Type 0
  Phone = Desk VerifyingKey Value

  abbrev pub creation_events : String → String → Result Device → List (Event Value)
  creation_events rp_id user_name (err e) = []
  creation_events rp_id user_name (ok device) = asked (creation_request j c b rp_id user_name) ∷ []

  -- A request on the socket, as an event.
  abbrev pub request_events : Result Operation → Draws → List Entry → List (Event Value)
  request_events (err e) draws files = []
  request_events (ok (verify user action detail)) draws files =
      requested (record { user = user; action = action; detail = detail }) draws.challenge
        draws.host path (draws.read_dir >> ok files)
      ∷ []
  request_events (ok (make_credential rp_id user_name)) draws files =
      creation_events rp_id user_name (active_device j c b path (draws.read_dir >> ok files))
  request_events (ok (assert rp_id credential_id payload)) draws files =
      asked (assertion_request j c b rp_id credential_id payload) ∷ []

  abbrev pub written_events :
      ℕ → Result (Unit {0}) → Option (Verification VerifyingKey) → Phone → List (Event Value)
  written_events task write none d = []
  written_events task write (some v) d =
      if v.request_sent then [] else sent task (send_line (to_line j b v.request) write d).0 ∷ []

  abbrev pub asked_events :
      ℕ → Result (Unit {0}) → Option (Question Value) → Phone → List (Event Value)
  asked_events task write none d = []
  asked_events task write (some q) d =
      if q.request_sent
      then []
      else asking_sent task (send_line (to_string q.request) write d).0 ∷ []

  abbrev pub line_events : String → List (Event Value)
  line_events line =
      if is_empty line
      then []
      else if is_kind (kind_of j c b path line) "pair.request"
      then []
      else heard line ∷ []

  -- What reaches the daemon.
  unfoldable pub events_of : Happening → Running → List (Event Value)
  events_of (phone_accepted accepted) s = []
  events_of (pam_accepted accepted) s = []
  events_of (pam_read peer_uid line draws) s =
      request_events (read_request j c b peer_uid line) draws s.desk.files
  events_of (request_written task write) s =
      written_events task write (find task s.desk.daemon.verifications) s.desk
  events_of (verification_woken task timer) s = woken task timer ∷ []
  events_of (question_written task write) s =
      asked_events task write (find_question task s.desk.daemon.questions) s.desk
  events_of (question_woken task timer) s = asking_woken task timer ∷ []
  events_of (phone_read raw moment) s = line_events (trim raw)
  events_of (window_begun label token host address now) s = []
  events_of window_cancelled s = []
  events_of (window_asked now) s = []
  events_of (directory_changed files) s = []
  events_of (device_removed id deleted emitted) s = []

  unfoldable pub events_at : Happening → Serving Running → List (Event Value)
  events_at h (ended e) = []
  events_at h (going s) = events_of h s

  -- The events since the start; the newest stands first.
  unfoldable pub history : Running → List Happening → List (Event Value)
  history s [] = []
  history s (h ∷ past) = events_at h (serving j c b path s past) ++ history s past
