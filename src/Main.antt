-- ===== src/Main.antt =====
-- daemon/crates/kpk-spike/src/main.rs: the command line.
use Prim.Native.Char.{code}
use Prim.Native.String.{◌++◌ as str_append}
use kpasskey.Base.{
  ℕ, zero, suc, ◌+◌, ◌*◌, ◌-◌, ◌^◌, Bool, true, false, ◌&&◌, Option, none, some, List, [], ◌∷◌,
  String, not, leb, ltb, ◌==◌, if◌then◌else◌,
}
use kpasskey.Base.Errors.{Result, ok, err, bail, context, or_context, unwrap_or, ◌>>=◌}
use kpasskey.Base.Text.{concat, is_empty, decimal}
use kpasskey.Pairing.{default_phone_port}
use text.Mathlib.Text.{◌==◌ as str_eq}
pub mod Numbers
pub mod Printing
pub mod Dispatch

abbrev pub default_pam_socket : String
default_pam_socket = "/run/kpasskey/pam.sock"

-- A path is its text.
pub data Command : Type 0 where
  serve : (devices : String) (socket : String) (port : ℕ) (timeout_secs : ℕ) → Command
  import : (devices : String) (pubkey : String) (name : String) (model : String) → Command
  probe : (socket : String) (action : String) (detail : String) → Command
  self_test : Command
  uhid : Command

-- `Path::join` with a path that does not begin with a slash.
abbrev ends_in_slash : String → Bool
ends_in_slash String.[] = false
ends_in_slash (String.◌∷◌ c s) = if is_empty s then code c == b'/' else ends_in_slash s

abbrev pub join : String → String → String
join base name =
    if is_empty base
    then name
    else if ends_in_slash base
    then concat (base ∷ name ∷ [])
    else concat (base ∷ "/" ∷ name ∷ [])

-- The variables XDG_DATA_HOME and HOME.
abbrev pub data_home : Option String → Option String → String
data_home (some home) user_home = home
data_home none user_home = join (unwrap_or "" user_home) ".local/share"

abbrev pub default_device_dir : Option String → Option String → String
default_device_dir xdg_data_home home = join (data_home xdg_data_home home) "kpasskey/devices"

abbrev pub usage : String
usage = concat (
    "usage:\n  "
    ∷ "kpk-spike serve [--devices <dir>] [--socket <path>] [--port <n>] [--timeout <s>]\n  "
    ∷ "kpk-spike probe [--socket <path>] [--action <a>] [--detail <d>]\n  "
    ∷ "kpk-spike self-test\n  "
    ∷ "kpk-spike uhid            (needs root: /dev/uhid)\n  "
    ∷ "kpk-spike import --pubkey <pem> --action <name> --detail <model>\n\n"
    ∷ "defaults: --socket "
    ∷ default_pam_socket
    ∷ " --port "
    ∷ decimal default_phone_port
    ∷ [])

-- `parse` to an unsigned number below the limit: a digit that is none comes before a number that
-- is too large.
abbrev pub add_digit : ℕ → ℕ → ℕ → Result ℕ
add_digit limit value c =
    if leb b'0' c && leb c b'9'
    then (if ltb (value * 10 + (c - b'0')) limit
        then ok (value * 10 + (c - b'0'))
        else bail "number too large to fit in target type")
    else bail "invalid digit found in string"

unfoldable pub add_digits : ℕ → ℕ → String → Result ℕ
add_digits limit value String.[] = ok value
add_digits limit value (String.◌∷◌ c s) = do
  longer ← add_digit limit value (code c)
  add_digits limit longer s

-- A plus in front of a digit is skipped.
unfoldable pub parse_number : ℕ → String → Result ℕ
parse_number limit String.[] = bail "cannot parse integer from empty string"
parse_number limit (String.◌∷◌ c s) =
    if code c == b'+' && not (is_empty s)
    then add_digits limit 0 s
    else add_digits limit 0 (String.◌∷◌ c s)

pub record Options : Type 0 where
  pub pubkey : Option String
  pub socket : String
  pub port : ℕ
  pub timeout_secs : ℕ
  pub action : String
  pub detail : String
  pub directory : Option String

abbrev pub defaults : Options
defaults = record {
  pubkey = none;
  socket = default_pam_socket;
  port = default_phone_port;
  timeout_secs = 45;
  action = "polkit";
  detail = "manual probe";
  directory = none;
}

-- One turn of the loop over the flags: `value` is what `args.next()` brings after the flag.
unfoldable pub take_flag : String → Option String → Options → Result Options
take_flag flag next o =
    let value = or_context "flag needs a value" next in
    if str_eq flag "--pubkey"
    then (value >>= λ v. ok (record o { pubkey = some v }))
    else if str_eq flag "--socket"
    then (value >>= λ v. ok (record o { socket = v }))
    else if str_eq flag "--port"
    then (value >>= λ v. context "--port must be a number" (parse_number (2 ^ 16) v) >>= λ n.
        ok (record o { port = n }))
    else if str_eq flag "--timeout"
    then (value >>= λ v. context "--timeout must be seconds" (parse_number (2 ^ 64) v) >>= λ n.
        ok (record o { timeout_secs = n }))
    else if str_eq flag "--action"
    then (value >>= λ v. ok (record o { action = v }))
    else if str_eq flag "--detail"
    then (value >>= λ v. ok (record o { detail = v }))
    else if str_eq flag "--devices"
    then (value >>= λ v. ok (record o { directory = some v }))
    else bail (concat ("unknown argument " ∷ flag ∷ "\n\n" ∷ usage ∷ []))

unfoldable pub parse_flags : List String → Options → Result Options
parse_flags [] o = ok o
parse_flags (flag ∷ []) o = take_flag flag none o
parse_flags (flag ∷ value ∷ args) o = do
  taken ← take_flag flag (some value) o
  parse_flags args taken

unfoldable pub command_of : String → String → Options → Result Command
command_of device_dir verb o =
    if str_eq verb "serve"
    then ok (serve (unwrap_or device_dir o.directory) o.socket o.port o.timeout_secs)
    else if str_eq verb "import"
    then (or_context "import needs --pubkey" o.pubkey >>= λ pubkey.
        ok (import (unwrap_or device_dir o.directory) pubkey o.action o.detail))
    else if str_eq verb "probe"
    then ok (probe o.socket o.action o.detail)
    else if str_eq verb "self-test"
    then ok self_test
    else if str_eq verb "uhid"
    then ok uhid
    else bail usage

abbrev pub verb_of : List String → String
verb_of [] = ""
verb_of (verb ∷ args) = verb

abbrev pub flags_of : List String → List String
flags_of [] = []
flags_of (verb ∷ args) = args

-- The arguments are those after the program's name.
unfoldable pub parse_args : String → List String → Result Command
parse_args device_dir args = do
  options ← parse_flags (flags_of args) defaults
  command_of device_dir (verb_of args) options
