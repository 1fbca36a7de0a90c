-- ===== src/Pairing/Window.antt =====
-- What a pairing window promises.
use kpasskey.Base.{
  ℕ, ◌+◌, ◌*◌, ◌≤◌, ◌<◌, ◌≡◌, ◌≢◌, ◌↔◌, refl, true, Option, none, some, String, arith, sym,
}
use kpasskey.Base.Errors.{Result, ok}
use kpasskey.Base.Bytes.{Bytes, bytes_eq, bytes_eq→eq, eq→bytes_eq, bytes_eq_refl}
use kpasskey.Pairing.{
  PairingSession, Pairings, pairing_window, second, elapsed, expired, expire_if_due, take_matching,
  seconds_left, open_session, begin,
}

-- A window is handed out exactly when one is open, its 120 seconds are not over, and the token is
-- its token; it is the window itself.
pub take_matching_iff :
    (token : Bytes) (now : ℕ) (p : Pairings) (s : PairingSession)
    → ((take_matching token now p).0 ≡ some s)
      ↔ ((p.current ≡ some s) × (elapsed s now < pairing_window) × (s.token ≡ token))
unfolding take_matching expire_if_due expired
take_matching_iff token now p s =
    (λ h. ground (arith, bytes_eq→eq s.token token), λ h. ground (arith, eq→bytes_eq s.token token))

-- A window that has been handed out is gone.
pub take_matching_closes :
    (token : Bytes) (now : ℕ) (p : Pairings) (s : PairingSession)
    → (take_matching token now p).0 ≡ some s
    → (take_matching token now p).1.current ≡ none
unfolding take_matching expire_if_due
take_matching_closes token now p s h = ground arith

-- For an open window the reply is the whole seconds of what is left, rounded down; it is at most 120.
pub seconds_left_bounds :
    (now : ℕ) (p : Pairings) (s : PairingSession)
    → p.current ≡ some s
    → elapsed s now < pairing_window
    → (elapsed s now + (seconds_left now p).0 * second ≤ pairing_window)
      × (pairing_window < elapsed s now + ((seconds_left now p).0 + 1) * second)
      × ((seconds_left now p).0 ≤ 120)
unfolding seconds_left expire_if_due expired
seconds_left_bounds now p s h lt = (ground arith, ground arith, ground arith)

-- A `begin` that drew its token replaces the window: no other token matches from then on.
pub begin_replaces :
    (encode : Bytes → String) (label : String) (token old : Bytes) (host : Result String)
    (address : Option String) (t now : ℕ) (p : Pairings)
    → old ≢ token
    → (take_matching old now (begin encode label (ok token) host address t p).1).0 ≡ none
unfolding take_matching expire_if_due begin open_session
begin_replaces encode label token old host address t now p h =
    ground (arith, λ (e : bytes_eq token old ≡ true). h (sym (bytes_eq→eq token old e)))

-- A `begin` that drew its token opens a window with the label that it was given, which is handed
-- out to that token until 120 seconds have passed.
pub begin_take :
    (encode : Bytes → String) (label : String) (token : Bytes) (host : Result String)
    (address : Option String) (t now : ℕ) (p : Pairings)
    → now < t + pairing_window
    → (begin encode label (ok token) host address t p).0
        ≡ ok (open_session encode label token host address t)
      × ((take_matching token now (begin encode label (ok token) host address t p).1).0
          ≡ some (open_session encode label token host address t))
unfolding take_matching expire_if_due expired begin open_session
begin_take encode label token host address t now p h = (refl, ground (arith, bytes_eq_refl token))
