-- ===== src/Main/Printing.antt =====
-- daemon/crates/kpk-spike/src/main.rs: a command that is written out as arguments is parsed again.
use kpasskey.Base.{◌<◌, ◌^◌, ◌≡◌, refl, List, [], ◌∷◌, String, arith}
use kpasskey.Base.Errors.{ok}
use kpasskey.Base.Text.{decimal}
use kpasskey.Main.{
  Command, serve, import, probe, self_test, uhid, take_flag, parse_flags, command_of, parse_args,
}
use kpasskey.Main.Numbers.{parse_number-decimal}

-- The arguments for a command, each flag written out.
abbrev pub arguments : Command → List String
arguments (serve devices socket port timeout_secs) =
    "serve"
    ∷ "--devices"
    ∷ devices
    ∷ "--socket"
    ∷ socket
    ∷ "--port"
    ∷ decimal port
    ∷ "--timeout"
    ∷ decimal timeout_secs
    ∷ []
arguments (import devices pubkey name model) =
    "import" ∷ "--devices" ∷ devices ∷ "--pubkey" ∷ pubkey ∷ "--action" ∷ name ∷ "--detail" ∷ model
    ∷ []
arguments (probe socket action detail) =
    "probe" ∷ "--socket" ∷ socket ∷ "--action" ∷ action ∷ "--detail" ∷ detail ∷ []
arguments self_test = "self-test" ∷ []
arguments uhid = "uhid" ∷ []

-- The port is a u16 and the time a u64.
abbrev pub IsInRange : Command → Type 0
IsInRange (serve devices socket port timeout_secs) = (port < 2 ^ 16) × (timeout_secs < 2 ^ 64)
IsInRange (import devices pubkey name model) = Unit
IsInRange (probe socket action detail) = Unit
IsInRange self_test = Unit
IsInRange uhid = Unit

-- Every command whose port is a u16 and whose waiting time is a u64 is parsed from its arguments,
-- each flag written out and numbers in decimal, whatever the default directory.
pub parse_args-arguments :
    (device_dir : String) (command : Command)
    → IsInRange command
    → parse_args device_dir (arguments command) ≡ ok command
unfolding parse_args parse_flags take_flag command_of
parse_args-arguments device_dir (serve devices socket port timeout_secs) (fits, short) =
    rw
      (
        parse_number-decimal (2 ^ 16) port fits (omega arith),
        parse_number-decimal (2 ^ 64) timeout_secs short (omega arith),
      )
      refl
parse_args-arguments device_dir (import devices pubkey name model) h = refl
parse_args-arguments device_dir (probe socket action detail) h = refl
parse_args-arguments device_dir self_test h = refl
parse_args-arguments device_dir uhid h = refl
