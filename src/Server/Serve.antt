-- ===== src/Server/Serve.antt =====
-- daemon/crates/kpk-spike/src/server.rs: `serve`, from its start to the loop that accepts connections,
-- with everything that runs beside that loop: the phone's connections, those of the PAM module and of
-- the helper, their tasks, and the calls on the bus.
use kpasskey.Base.{ℕ, Bool, false, Option, none, some, List, [], ◌∷◌, String, if◌then◌else◌, ◌==◌}
use kpasskey.Base.Errors.{Error, Result, ok, err, context, ◌>>=◌, ◌>>◌}
use kpasskey.Base.Bytes.{Bytes}
use kpasskey.Base.Text.{concat, decimal}
use kpasskey.External.{Json, Crypto, Base64}
use kpasskey.Dbus.{
  Bus, Publishing, publish, remove_device, begin_pairing, cancel_pairing, pairing_seconds_left,
}
use kpasskey.Pairing
use kpasskey.Protocol.{to_line}
use kpasskey.Store.{Entry, open_store}
use kpasskey.Server.{
  State, init, Verification, Question, find, find_question, line_sent, wake, question_sent,
  wake_question,
}
use kpasskey.Server.Phone.{Moment, Desk, send_line, on_line, adopt_phone}
use kpasskey.Server.Pam.{Operation, Surroundings, Connection, read_request, begin}
pub mod History
pub mod Refinement
pub mod Origin
pub mod Positions
pub mod Kept
pub mod Questions
pub mod Sending
pub mod Grounds
pub mod Asked
pub mod Handlers
pub mod Written
pub mod Moments
pub mod Approved
pub mod Probed
pub mod Ending

-- What the system answers until the daemon listens: `parent` is the parent of the socket's path. That
-- an old socket cannot be removed is ignored.
pub record Startup : Type 0 where
  pub created : Result (Unit {0})
  pub bus : Publishing
  pub parent : Option String
  pub parent_created : Result (Unit {0})
  pub pam_bound : Result (Unit {0})
  pub phone_bound : Result (Unit {0})

abbrev pub create_parent : Option String → Result (Unit {0}) → Result (Unit {0})
create_parent none created = ok tt
create_parent (some parent) created = context (concat ("creating " ∷ parent ∷ [])) created

unfoldable pub start_up : String → String → ℕ → Startup → Result (Unit {0})
start_up devices_dir socket_path port s = do
  store ← open_store devices_dir s.created
  publish s.bus
  create_parent s.parent s.parent_created
  context (concat ("binding " ∷ socket_path ∷ [])) s.pam_bound
  context (concat ("binding 0.0.0.0:" ∷ decimal port ∷ [])) s.phone_bound

-- What the system gives while a request is begun.
pub record Draws : Type 0 where
  pub challenge : Result Bytes
  pub host : Result String
  pub read_dir : Result (Unit {0})

-- What happens once the daemon listens. Of a connection on the socket, the reading of its request
-- is one of these, whenever it was accepted; a line that the phone sent may come on any of its connections;
-- a task's request is written, or its wait is over.
pub data Happening : Type 0 where
  phone_accepted : (accepted : Result (Unit {0})) → Happening
  pam_accepted : (accepted : Result (Unit {0})) → Happening
  pam_read : (peer_uid : Result ℕ) (line : Result String) (draws : Draws) → Happening
  request_written : (task : ℕ) (write : Result (Unit {0})) → Happening
  verification_woken : (task : ℕ) (timer : Bool) → Happening
  question_written : (task : ℕ) (write : Result (Unit {0})) → Happening
  question_woken : (task : ℕ) (timer : Bool) → Happening
  phone_read : (raw : String) (moment : Moment) → Happening
  window_begun :
      (label : String) (token : Result Bytes) (host : Result String) (address : Option String)
      (now : ℕ)
      → Happening
  window_cancelled : Happening
  window_asked : (now : ℕ) → Happening
  -- Another program, such as `import`, changed the directory of the devices, or it is read in another order.
  directory_changed : (files : List Entry) → Happening
  device_removed : (id : String) (deleted emitted : Result (Unit {0})) → Happening

-- The daemon with what it shares, the connections on its socket whose request was read, and the
-- number of signals on the bus.
pub record Site (Key Value : Type 0) : Type 0 where
  pub desk : Desk Key Value
  pub connections : List (Connection Value)
  pub changed : ℕ

-- `serve` goes on, or has returned an error.
pub data Serving (A : Type 0) : Type 0 where
  going : A → Serving A
  ended : Error → Serving A

module _ {Key Value : Type 0} where
  abbrev pub bus_of : Site Key Value → Bus
  bus_of s = record { pairings = s.desk.pairings; files = s.desk.files; changed = s.changed }

  -- The manager shares the window and the files with the daemon.
  abbrev pub with_bus : Bus → Site Key Value → Site Key Value
  with_bus bus s = record s {
    desk = record s.desk { pairings = bus.pairings; files = bus.files };
    changed = bus.changed;
  }

module _ (j : Json) (c : Crypto) (b : Base64) (path : String) where
  open j use {Value, to_string}
  open c use {VerifyingKey}

  abbrev pub Served : Type 0
  Served = Site VerifyingKey Value

  -- `Duration::from_secs(timeout_secs)` as `{:?}` prints it
  abbrev pub verify_timeout : ℕ → String
  verify_timeout timeout_secs =
      if timeout_secs == 0 then "0ns" else concat (decimal timeout_secs ∷ "s" ∷ [])

  abbrev pub opened : ℕ → List Entry → Served
  opened timeout_secs files = record {
    desk = record {
      daemon = init j c b (verify_timeout timeout_secs);
      pairings = Pairing.new;
      files = files;
      connected = false;
      sent = [];
    };
    connections = [];
    changed = 0;
  }

  abbrev pub with_daemon : State j c b → Served → Served
  with_daemon daemon s = record s { desk = record s.desk { daemon = daemon } }

  -- `read_dir` brings the files as they are.
  abbrev pub surroundings : Draws → List Entry → Surroundings
  surroundings draws files = record {
    challenge = draws.challenge;
    host = draws.host;
    path = path;
    directory = draws.read_dir >> ok files;
  }

  -- `handle_pam` from its request to the beginning of its task; an error ends just the connection.
  unfoldable pub accept_request : Result Operation → Draws → Served → Served
  accept_request (err e) draws s = s
  accept_request (ok operation) draws s =
      let (connection, daemon) =
        begin j c b operation (surroundings draws s.desk.files) s.desk.daemon in
      record (with_daemon daemon s) { connections = connection ∷ s.connections }

  -- What `send_line` brought goes to the task that called it.
  abbrev pub verification_told :
      ℕ → Result (Unit {0}) × Desk VerifyingKey Value → Desk VerifyingKey Value
  verification_told task (result, d) = record d { daemon = line_sent j c b task result d.daemon }

  unfoldable pub write_request :
      ℕ
      → Result (Unit {0})
      → Option (Verification VerifyingKey)
      → Desk VerifyingKey Value
      → Desk VerifyingKey Value
  write_request task write none d = d
  write_request task write (some v) d =
      if v.request_sent
      then d
      else verification_told task (send_line (to_line j b v.request) write d)

  abbrev pub question_told :
      ℕ → Result (Unit {0}) × Desk VerifyingKey Value → Desk VerifyingKey Value
  question_told task (result, d) = record d { daemon = question_sent j c b task result d.daemon }

  unfoldable pub write_question :
      ℕ
      → Result (Unit {0})
      → Option (Question Value)
      → Desk VerifyingKey Value
      → Desk VerifyingKey Value
  write_question task write none d = d
  write_question task write (some q) d =
      if q.request_sent then d else question_told task (send_line (to_string q.request) write d)

  abbrev pub adopted : Result (Unit {0}) → Served → Serving Served
  adopted (err e) s = ended e
  adopted (ok u) s = going (record s { desk = adopt_phone j c b path [] s.desk })

  abbrev pub spawned : Result (Unit {0}) → Served → Serving Served
  spawned (err e) s = ended e
  spawned (ok u) s = going s

  unfoldable pub happen : Happening → Served → Serving Served
  happen (phone_accepted accepted) s = adopted (context "accepting a phone connection" accepted) s
  happen (pam_accepted accepted) s = spawned (context "accepting a PAM connection" accepted) s
  happen (pam_read peer_uid line draws) s =
      going (accept_request (read_request j c b peer_uid line) draws s)
  happen (request_written task write) s =
      going (record s {
        desk = write_request task write (find task s.desk.daemon.verifications) s.desk;
      })
  happen (verification_woken task timer) s =
      going (with_daemon (wake j c b task timer s.desk.daemon) s)
  happen (question_written task write) s = going (record s {
    desk = write_question task write (find_question task s.desk.daemon.questions) s.desk;
  })
  happen (question_woken task timer) s =
      going (with_daemon (wake_question j c b task timer s.desk.daemon) s)
  happen (phone_read raw moment) s =
      going (record s { desk = on_line j c b path raw moment s.desk })
  happen (window_begun label token host address now) s =
      going
        (with_bus (begin_pairing (Base64.url_encode b) label token host address now (bus_of s)).1 s)
  happen window_cancelled s = going (with_bus (cancel_pairing (bus_of s)) s)
  happen (window_asked now) s = going (with_bus (pairing_seconds_left now (bus_of s)).1 s)
  happen (directory_changed files) s = going (record s { desk = record s.desk { files = files } })
  happen (device_removed id deleted emitted) s =
      going (with_bus (remove_device j c path id deleted emitted (bus_of s)).1 s)

  unfoldable pub proceed : Happening → Serving Served → Serving Served
  proceed h (ended e) = ended e
  proceed h (going s) = happen h s

  -- The loop over what happened; the newest stands first.
  unfoldable pub serving : Served → List Happening → Serving Served
  serving s [] = going s
  serving s (h ∷ past) = proceed h (serving s past)

  unfoldable pub listening : Result (Unit {0}) → Served → List Happening → Serving Served
  listening (err e) s past = ended e
  listening (ok u) s past = serving s past

  -- `files` are those of the directory when it was opened.
  unfoldable pub serve : String → ℕ → ℕ → Startup → List Entry → List Happening → Serving Served
  serve socket_path port timeout_secs startup files past =
      listening (start_up path socket_path port startup) (opened timeout_secs files) past
