-- ===== src/Lib.antt =====
-- kpasskey: the daemon of daemon/crates/kpk-spike, which lets a phone approve logins and act as a
-- security key.
--
-- A program that asks for a login (PAM) reaches the daemon over a socket, and the daemon sends a signed
-- request to the paired phone (server.rs, protocol.rs, link.rs, store.rs); a phone is paired in a
-- window that the settings module opens (pairing.rs). A browser reaches a helper over a virtual HID
-- device (uhid.rs), which puts CTAPHID packets together and asks the daemon for credentials.
--
-- Files:
-- - Uhid: daemon/crates/kpk-spike/src/uhid.rs. Buffer is `put` and `take`, Events the uhid events,
--   Frame `frame`, Report `dispatch` and `handle_report`, Run `write_packets`, `await_phone` and
--   `run`. Packets are lists of bytes; the two variables that `handle_report` borrows are the record
--   Host; what is written to the device is the state of the actions of Run.
-- - Pairing: pairing.rs. A time is a number of nanoseconds, given to each operation. Trace is any
--   sequence of calls.
-- - Link, Store, Protocol: link.rs, store.rs and protocol.rs. A directory is the list
--   of its entries; Store.Saving is `save` and `remove`, each of whose file operations may fail, and
--   Store.Saving.Map the same for a map from file names to contents.
-- - Server: server.rs, Server.Waiters its records and tables. A `run_verification` and an
--   `ask_phone` are split where they await, and Events is any interleaving of them with the lines of
--   the phone. Tables, Soundness, Answers and Waiting
--   hold the proofs, with Untouched, Distinct and Counting. Server.Phone is the phone's connection (`adopt_phone`, `on_phone_message`,
--   `complete_pairing`, `send_line`), Server.Pam the socket that the PAM module and the helper
--   share (`handle_pam`) with `probe`, Server.Import is `import`, Server.SelfTest is `self_test`.
--   Server.Serve is `serve`: its start, and its loop with all that runs beside it, as a list of what
--   happens to one shared state. History, Origin, Positions and Refinement lead from that list to Events and back;
--   Asked, Moments, Grounds and Written follow a request from the socket to the phone, Kept and Questions
--   a question of the helper, and Probed is a probe at the other end.
-- - Webauthn: webauthn.rs, with Webauthn.Layout for how a site cuts authenticator data.
-- - Uhid.Credentials: `make_credential` and `get_assertion` of uhid.rs, and fidolink.rs is Fidolink. The
--   socket between them and the daemon is a function from the line that is sent to what the
--   connection brings; System puts the two ends together.
-- - Dbus: dbus.rs, over the pairing window, the files and a count of the signals that were emitted.
-- - Main: main.rs, from the arguments to the command, and in Main.Dispatch to what it runs.
-- - Proximity: daemon/crates/kpk-proximity, with Proximity.Life for a beacon next to BlueZ and
--   Proximity.Command for its command.
-- - External: serde_json, p256 with sha2, base64 and ciborium, as records of the operations that are
--   called; each is a parameter. JsonLaws and CborLaws are what their documentation says.
-- - Base: texts, bytes, errors (anyhow's chain of contexts) and lists over the native numbers.
-- - Tests: the properties at concrete inputs.
--
-- Integers are native numbers; the arithmetic of u8, u16, u32 and u64 is written with its wrap-around,
-- and usize has 64 bits. The byte order of the machine is a parameter. The loop of `frame` runs on
-- fuel, the length of the payload, and each round takes at least one byte, so that it always is
-- enough; the other loops go over lists of what the outside brings.
--
-- A write to the phone's socket and its flush are one result, and a list of what happens to `serve` may
-- hold more than could happen, such as a line of the phone before a connection of it; what holds of every
-- list holds of the real ones. What another program does to the directory of the devices, and another order
-- in which it is read, is a happening of its own.
--
-- Not modelled: what is printed to the log; the writing of a reply on the PAM socket inside `serve`, which
-- changes no state (its errors are `write_reply`); the Android app, the settings module and the PAM
-- module, which are other programs.
pub mod Base
pub mod Webauthn
pub mod External
pub mod Link
pub mod Store
pub mod Protocol
pub mod Server
pub mod Uhid
pub mod Pairing
pub mod Fidolink
pub mod Dbus
pub mod Main
pub mod Proximity
pub mod System
pub mod Tests
