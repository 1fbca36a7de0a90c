-- ===== src/Pairing.antt =====
-- daemon/crates/kpk-spike/src/pairing.rs: the pairing window. An `Instant` is the number of
-- nanoseconds since some origin; each operation is given the time at which it runs.
use kpasskey.Base.{
  ℕ, zero, suc, ◌+◌, ◌-◌, ◌*◌, ◌/◌, ◌%◌, ◌^◌, Bool, true, false, Option, none, some, List, [], ◌∷◌,
  String, leb, if◌then◌else◌,
}
use kpasskey.Base
use kpasskey.Base.Errors.{Result, ok, err, context, to_option}
use kpasskey.Base.Bytes.{Bytes, bytes_eq}
use kpasskey.Base.Text.{concat, trim, decimal, six_digits}
pub mod Window
pub mod Trace

abbrev pub second : ℕ
second = 1000000000

abbrev pub pairing_window : ℕ
pairing_window = 120 * second

abbrev pub fallback_address : String
fallback_address = "127.0.0.1"

-- DEFAULT_PHONE_PORT of main.rs
abbrev pub default_phone_port : ℕ
default_phone_port = 34719

pub record PairingSession : Type 0 where
  pub token : Bytes
  pub uri : String
  pub short_code : String
  pub label : String
  pub opened : ℕ

-- `Instant::elapsed` is zero before the instant.
abbrev pub elapsed : PairingSession → ℕ → ℕ
elapsed session now = now - session.opened

unfoldable pub expired : PairingSession → ℕ → Bool
expired session now = leb pairing_window (elapsed session now)

pub record Pairings : Type 0 where
  pub current : Option PairingSession

abbrev pub new : Pairings
new = record { current = none }

-- One round of the loop of `short_code`, on a u32.
abbrev pub code_step : ℕ → ℕ → ℕ
code_step value byte = (value * 31 % 2 ^ 32 + byte) % 2 ^ 32

unfoldable pub fold_code : ℕ → Bytes → ℕ
fold_code value [] = value
fold_code value (byte ∷ bytes) = fold_code (code_step value byte) bytes

unfoldable pub short_code : Bytes → String
unfolding fold_code
short_code token = six_digits (fold_code 0 (Base.take 4 token) % 1000000)

-- What reading /proc/sys/kernel/hostname brings.
unfoldable pub hostname : Result String → String
hostname (ok name) = trim name
hostname (err e) = "unknown-host"

-- `IpAddr`: the four bytes of an IPv4 address, or another kind.
pub data IpAddr : Type 0 where
  v4 : (a b c d : ℕ) → IpAddr
  v6 : IpAddr

abbrev pub v4_text : Option IpAddr → Option String
v4_text none = none
v4_text (some (v4 a b c d)) =
    some (concat (decimal a ∷ "." ∷ decimal b ∷ "." ∷ decimal c ∷ "." ∷ decimal d ∷ []))
v4_text (some v6) = none

-- `local_address`: what binding a socket, connecting it and asking for its address bring.
unfoldable pub local_address : Result (Unit {0}) → Result (Unit {0}) → Result IpAddr → Option String
local_address (err e) connected ip = none
local_address (ok u) (err e) ip = none
local_address (ok u) (ok v) ip = v4_text (to_option ip)

-- `local_address()` is none without a route or on IPv6.
abbrev pub address_or_fallback : Option String → String
address_or_fallback (some address) = address
address_or_fallback none = fallback_address

unfoldable pub pairing_uri : String → String → String → String
pairing_uri host encoded address = concat (
    "kpk://pair?v=1&h="
    ∷ host
    ∷ "&t="
    ∷ encoded
    ∷ "&a="
    ∷ address
    ∷ ":"
    ∷ decimal default_phone_port
    ∷ [])

-- The base64 crate's URL_SAFE_NO_PAD encoder is a parameter, and the random bytes, the host's name
-- and its address are what the system gave.
module _ (base64url_encode : Bytes → String) where
  unfoldable pub open_session : String → Bytes → Result String → Option String → ℕ → PairingSession
  open_session label token host address now = record {
    token = token;
    uri = pairing_uri (hostname host) (base64url_encode token) (address_or_fallback address);
    short_code = short_code token;
    label = label;
    opened = now;
  }

  unfoldable pub begin :
      String
      → Result Bytes
      → Result String
      → Option String
      → ℕ
      → Pairings
      → Result PairingSession × Pairings
  begin label (err e) host address now pairings =
      (context "drawing a pairing token from the OS CSPRNG" (err e), pairings)
  begin label (ok token) host address now pairings =
      let session = open_session label token host address now in
      (ok session, record { current = some session })

abbrev pub cancel : Pairings → Pairings
cancel pairings = record { current = none }

unfoldable pub expire_if_due : ℕ → Pairings → Pairings
expire_if_due now pairings = elim pairings.current [
  | none ↦ pairings
  | some session ↦ if expired session now then record { current = none } else pairings
]

-- Whole seconds of what is left; they always fit a u32.
abbrev pub whole_seconds : Option PairingSession → ℕ → ℕ
whole_seconds none now = 0
whole_seconds (some session) now = (pairing_window - elapsed session now) / second

unfoldable pub seconds_left : ℕ → Pairings → ℕ × Pairings
seconds_left now pairings =
    let after = expire_if_due now pairings in (whole_seconds after.current now, after)

abbrev pub matches : Option PairingSession → Bytes → Bool
matches none token = false
matches (some session) token = bytes_eq session.token token

unfoldable pub take_matching : Bytes → ℕ → Pairings → Option PairingSession × Pairings
take_matching token now pairings =
    let after = expire_if_due now pairings in
    if matches after.current token
    then (after.current, record { current = none })
    else (none, after)
