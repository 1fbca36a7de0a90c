-- ===== src/Proximity.antt =====
-- daemon/crates/kpk-proximity/src: the beacon, and the options of its command for tests by hand. BlueZ is
-- not the repository's: what it answers to a call is given.
use kpasskey.Base.{
  ℕ, ◌^◌, Bool, true, false, Option, none, some, List, [], ◌∷◌, String, if◌then◌else◌,
}
use kpasskey.Base.Int.{ℤ, negsuc}
use kpasskey.Base.Errors.{Result, ok, err, bail, context, or_context, to_option, ◌>>=◌}
use kpasskey.Base.Bytes.{Bytes}
use kpasskey.Base.Text.{concat}
use kpasskey.Main.{parse_number}
use text.Mathlib.Text.{◌==◌ as str_eq}
pub mod Life
pub mod Command

abbrev pub proximity_service_uuid : String
proximity_service_uuid = "6f1d2b1a-9c4e-4f57-a1d3-7b8e2c05f9a4"

-- -34
abbrev pub min_tx_power_dbm : ℤ
min_tx_power_dbm = negsuc 33

abbrev pub advertisement_path : String
advertisement_path = "/org/kpasskey/advertisement/0"

abbrev pub nonce_len : ℕ
nonce_len = 16

-- What `Debug` prints of a nonce: nothing of it.
abbrev pub fmt : Bytes → String
fmt nonce = "ProximityNonce(<redacted>)"

-- A nonce is its bytes, and drawing one is what the generator of the system brings.
abbrev pub generate : Result Bytes → Result Bytes
generate drawn = context "drawing a proximity nonce from the OS CSPRNG" drawn

-- The property `released` is shared between the advertisement and the beacon.
pub record Advertisement : Type 0 where
  pub nonce : Bytes
  pub kind : String
  pub uuids : List String
  pub tx_power : ℤ
  pub released : Bool

abbrev pub release : Advertisement → Advertisement
release a = record a { released = true }

-- The other properties on the bus.
abbrev pub advertisement_type : Advertisement → String
advertisement_type a = a.kind

abbrev pub service_uuids : Advertisement → List String
service_uuids a = a.uuids

abbrev pub tx_power : Advertisement → ℤ
tx_power a = a.tx_power

-- `payload` is what `OwnedValue::try_from` makes of the nonce.
unfoldable pub service_data : (Bytes → Result Bytes) → Advertisement → List (String × Bytes)
service_data payload a = elim (to_option (payload a.nonce)) [
  | some owned ↦ (proximity_service_uuid, owned) ∷ []
  | none ↦ []
]

-- What the bus and BlueZ answer to one `start`.
pub record Start : Type 0 where
  pub path : Result String
  pub adapter_path : Result String
  pub builder : Result (Unit {0})
  pub serve_at : Result (Unit {0})
  pub build : Result (Unit {0})
  pub manager : Result (Unit {0})
  pub register_call : Result (Unit {0})

abbrev pub advertisement : Bytes → Advertisement
advertisement nonce = record {
  nonce = nonce;
  kind = "peripheral";
  uuids = proximity_service_uuid ∷ [];
  tx_power = min_tx_power_dbm;
  released = false;
}

-- `manager`, by what making the proxy brings.
abbrev pub manager : Result (Unit {0}) → Result (Unit {0})
manager reached = context "reaching org.bluez.LEAdvertisingManager1" reached

abbrev pub register : Result (Unit {0}) → Result (Unit {0}) → Result (Unit {0})
register reached call = do
  m ← manager reached
  context "RegisterAdvertisement rejected by BlueZ" call

unfoldable pub start : String → Bytes → Start → Result Advertisement
start adapter nonce s = do
  path ← context "building the advertisement object path" s.path
  adapter_path ←
      context (concat (adapter ∷ " is not a valid adapter object path" ∷ [])) s.adapter_path
  builder ← context "connecting to the system bus" s.builder
  served ← context "serving the advertisement object" s.serve_at
  connection ← context "starting the system bus connection" s.build
  registered ← register s.manager s.register_call
  ok (advertisement nonce)

-- The end of `stop`: what reaching the manager and the call bring.
abbrev pub unregister : Result (Unit {0}) → Result (Unit {0}) → Result (Unit {0})
unregister reached call = do
  m ← manager reached
  context "UnregisterAdvertisement rejected by BlueZ" call

-- Where a beacon is: it runs, it is in `stop` after the look at `released`, or `stop` has returned.
pub data Phase : Type 0 where
  running : Phase
  stopping : Phase
  stopped : (result : Result (Unit {0})) → Phase

unfoldable pub look : Advertisement → Phase
look a = if a.released then stopped (ok tt) else stopping

unfoldable pub stop : Result (Unit {0}) → Result (Unit {0}) → Advertisement → Result (Unit {0})
stop reached call a = elim (look a) [
  | stopped result ↦ result
  | stopping ↦ unregister reached call
  | running ↦ unregister reached call
]

-- The options of the command.
pub record Options : Type 0 where
  pub adapter : String
  pub seconds : ℕ

abbrev pub default_options : Options
default_options = record { adapter = "/org/bluez/hci0"; seconds = 5 }

abbrev pub seconds_of : String → Result ℕ → Result ℕ
seconds_of value (ok n) = ok n
seconds_of value (err e) = bail (concat (value ∷ " is not a number" ∷ []))

unfoldable pub take_option : String → Option String → Options → Result Options
take_option arg next o =
    if str_eq arg "--adapter"
    then (or_context "--adapter needs a D-Bus object path" next >>= λ v.
        ok (record o { adapter = v }))
    else if str_eq arg "--seconds"
    then (or_context "--seconds needs a number" next >>= λ v.
        seconds_of v (parse_number (2 ^ 64) v) >>= λ n. ok (record o { seconds = n }))
    else bail (concat ("unknown argument " ∷ arg ∷ []))

unfoldable pub parse_options : List String → Options → Result Options
parse_options [] o = ok o
parse_options (arg ∷ []) o = take_option arg none o
parse_options (arg ∷ value ∷ args) o = do
  taken ← take_option arg (some value) o
  parse_options args taken
