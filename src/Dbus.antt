-- ===== src/Dbus.antt =====
-- daemon/crates/kpk-spike/src/dbus.rs: what System Settings calls. An error of the bus is the text
-- of `Failed`; emitting the signal is the count `changed`.
use kpasskey.Base.{
  ℕ, zero, suc, ◌+◌, Bool, true, false, Option, none, some, List, [], ◌∷◌, String, map,
  if◌then◌else◌, length,
}
use kpasskey.Base.Errors.{
  Error, Result, ok, err, show_error, unwrap_or, to_option, context, ◌>>=◌, ◌>>◌,
}
use kpasskey.Base.Bytes.{Bytes}
use kpasskey.Base.Text.{concat, decimal}
use kpasskey.External.{Json, Crypto}
use kpasskey.Link.{key_fingerprint}
use kpasskey.Pairing
use kpasskey.Pairing.{PairingSession, Pairings}
use kpasskey.Store.{Device, Entry, list}
use kpasskey.Store.Saving
pub mod Rows

-- One row in the list of devices.
pub record DeviceEntry : Type 0 where
  pub id : String
  pub name : String
  pub model : String
  pub owner : String
  pub security_level : String
  pub verified_boot : String
  pub paired_at : ℕ
  pub fingerprint : String

-- `map_err(|error| Failed(format!("{error:#}")))`
abbrev pub failed {ℓ} : {A : Type ℓ} → Result A → Result A
failed (ok a) = ok a
failed (err e) = err (show_error e ∷ [])

abbrev pub count : Result (List Device) → ℕ
count (ok devices) = length devices
count (err e) = 0

-- What the manager shares with the daemon, with the number of signals that were emitted.
pub record Bus : Type 0 where
  pub pairings : Pairings
  pub files : List Entry
  pub changed : ℕ

module _ (j : Json) (c : Crypto) (path : String) where
  -- `package_version` is CARGO_PKG_VERSION.
  unfoldable pub version : String → Result (List Entry) → String
  version package_version directory =
      concat (package_version ∷ " (" ∷ decimal (count (list j path directory)) ∷ " paired)" ∷ [])

  unfoldable pub row : Device → DeviceEntry
  row device = record {
    id = device.id;
    name = device.name;
    model = device.model;
    owner = device.owner;
    security_level = device.security_level;
    verified_boot = device.verified_boot;
    paired_at = device.paired_at;
    fingerprint = unwrap_or "unreadable key" (to_option (key_fingerprint c device.public_key_pem));
  }

  unfoldable pub list_devices : Result (List Entry) → Result (List DeviceEntry)
  list_devices directory = do devices ← failed (list j path directory); ok (map row devices)

  -- `devices_changed(…).await.ok()`: the signal is tried, and a failure to emit it is dropped.
  abbrev pub signal : Result Bool → Result (Unit {0}) → Bus → Bus
  signal (ok true) (ok u) bus = record bus { changed = bus.changed + 1 }
  signal (ok true) (err e) bus = bus
  signal (ok false) emitted bus = bus
  signal (err e) emitted bus = bus

  -- `deleted` is what removing the file brings, `emitted` what emitting the signal brings.
  unfoldable pub remove_device :
      String → Result (Unit {0}) → Result (Unit {0}) → Bus → Result Bool × Bus
  remove_device id deleted emitted bus =
      let (removed, files) = Saving.remove path id deleted bus.files in
      (failed removed, signal removed emitted (record bus { files = files }))

abbrev pub shown : Result PairingSession → Result (String × String)
shown (ok session) = ok (session.uri, session.short_code)
shown (err e) = err e

unfoldable pub begin_pairing :
    (Bytes → String)
    → String
    → Result Bytes
    → Result String
    → Option String
    → ℕ
    → Bus
    → Result (String × String) × Bus
begin_pairing encode label token host address now bus =
    let (session, pairings) = Pairing.begin encode label token host address now bus.pairings in
    (shown (failed session), record bus { pairings = pairings })

unfoldable pub cancel_pairing : Bus → Bus
cancel_pairing bus = record bus { pairings = Pairing.cancel bus.pairings }

unfoldable pub pairing_seconds_left : ℕ → Bus → ℕ × Bus
pairing_seconds_left now bus =
    let (left, pairings) = Pairing.seconds_left now bus.pairings in
    (left, record bus { pairings = pairings })

-- What the bus answers while the manager is published.
pub record Publishing : Type 0 where
  pub session : Result (Unit {0})
  pub name : Result (Unit {0})
  pub serve_at : Result (Unit {0})
  pub build : Result (Unit {0})

-- `serve`: the connection is kept, and nothing is asked of it later.
unfoldable pub publish : Publishing → Result (Unit {0})
publish p = do
  context "connecting to the session bus" p.session
  context "requesting the bus name" p.name
  context "exporting the manager object" p.serve_at
  context "starting the bus connection" p.build
