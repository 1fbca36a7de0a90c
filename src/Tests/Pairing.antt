-- ===== src/Tests/Pairing.antt =====
-- The properties of the pairing window at concrete times.

use kpasskey.Base.{◌+◌, ◌*◌, ◌≤◌, ◌<◌, ◌≡◌, ◌↔◌, refl, List, [], ◌∷◌, none, some, String, arith}
use kpasskey.Base.Errors.{ok}
use kpasskey.Base.Bytes.{Bytes}
use kpasskey.Pairing.{
  PairingSession, Pairings, new, elapsed, pairing_window, second, take_matching, seconds_left,
  short_code,
}
use kpasskey.Pairing.Window.{take_matching_iff, seconds_left_bounds}
use kpasskey.Pairing.Trace.{
  Call, begin_pairing, pairing_seconds_left, pair_request, step, after_calls, begun, paired, one,
  paired-le-begun, window_ends,
}

abbrev token : Bytes
token = 1 ∷ 2 ∷ 3 ∷ 4 ∷ []

abbrev encode : Bytes → String
encode bytes = "AQIDBA"

abbrev session : PairingSession
session = record { token = token; uri = "kpk"; short_code = "000000"; label = "phone"; opened = 5 }

abbrev opened_window : Pairings
opened_window = record { current = some session }

take_matching_iff_example : ((take_matching token 9 opened_window).0 ≡ some session) ↔ (
    (opened_window.current ≡ some session)
    × (elapsed session 9 < pairing_window)
    × (session.token ≡ token))
take_matching_iff_example = take_matching_iff token 9 opened_window session

seconds_left_bounds_example :
    (elapsed session 9 + (seconds_left 9 opened_window).0 * second ≤ pairing_window)
    × (pairing_window < elapsed session 9 + ((seconds_left 9 opened_window).0 + 1) * second)
    × ((seconds_left 9 opened_window).0 ≤ 120)
seconds_left_bounds_example = seconds_left_bounds 9 opened_window session refl (omega arith)

-- One window, and two phones that ask for it.
abbrev calls : List Call
calls =
    begin_pairing "phone" (ok token) (ok "desk") none 5
    ∷ pair_request token 9
    ∷ pair_request token 9
    ∷ []

paired-le-begun_example : paired encode calls new ≤ begun encode calls + one encode new.current
paired-le-begun_example = paired-le-begun encode calls new

window_ends_example :
    (step encode
      (pair_request token 200000000000)
      (after_calls encode (pairing_seconds_left 9 ∷ []) opened_window)).0
    ≡ none
window_ends_example =
    window_ends encode session (pairing_seconds_left 9 ∷ []) opened_window token 200000000000 refl
      refl (omega arith)
