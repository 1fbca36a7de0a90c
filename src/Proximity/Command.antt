-- ===== src/Proximity/Command.antt =====
-- daemon/crates/kpk-proximity/src/bin/selftest.rs: `main`, by its exit code, and its errors on the way.
use kpasskey.Base.{ℕ, ◌≡◌, Option, Bool, true, false, List, String, inl, inr}
use kpasskey.Base.Errors.{Result, ok, err, Result-cases, to_option}
use kpasskey.Base.Bytes.{Bytes}
use kpasskey.Proximity.{
  Advertisement, Start, Options, default_options, parse_options, generate, start, stop, release,
}

pub data ExitCode : Type 0 where
  success : ExitCode
  failure : ExitCode

-- What the metadata of /proc/self bring; it is only printed.
abbrev pub users_uid : Result ℕ → Option ℕ
users_uid metadata = to_option metadata

-- What the system, the bus and BlueZ do in one run: BlueZ may release the advertisement while the
-- command sleeps, and otherwise answers to `stop`.
pub record Surroundings : Type 0 where
  pub drawn : Result Bytes
  pub starting : Start
  pub dropped : Bool
  pub manager : Result (Unit {0})
  pub call : Result (Unit {0})

abbrev pub slept : Bool → Advertisement → Advertisement
slept true a = release a
slept false a = a

abbrev pub exit_of : Result (Unit {0}) → ExitCode
exit_of (ok u) = success
exit_of (err e) = failure

abbrev pub with_beacon : Surroundings → Result Advertisement → ExitCode
with_beacon s (err e) = failure
with_beacon s (ok a) = exit_of (stop s.manager s.call (slept s.dropped a))

abbrev pub with_nonce : Surroundings → Options → Result Bytes → ExitCode
with_nonce s o (err e) = failure
with_nonce s o (ok nonce) = with_beacon s (start o.adapter nonce s.starting)

abbrev pub with_options : Surroundings → Result Options → ExitCode
with_options s (err e) = failure
with_options s (ok o) = with_nonce s o (generate s.drawn)

unfoldable pub main : Surroundings → List String → ExitCode
main s args = with_options s (parse_options args default_options)

-- A command that succeeds had options and a nonce, its advertisement was registered, and afterwards
-- it was dropped by BlueZ or withdrawn.
pub main-success :
    (s : Surroundings) (args : List String)
    → main s args ≡ success
    → (o : Options) × (nonce : Bytes) × (a : Advertisement) × (parse_options args default_options
        ≡ ok o)
      × (s.drawn ≡ ok nonce)
      × (start o.adapter nonce s.starting ≡ ok a)
      × (stop s.manager s.call (slept s.dropped a) ≡ ok tt)
unfolding main
main-success s args done = elim (Result-cases (parse_options args default_options)) [
  | inr (e, wrong) ↦ absurd (cc (rw (wrong, main) at done))
  | inl (o, parsed) ↦ elim (Result-cases s.drawn) [
    | inr (e, wrong) ↦ absurd (cc (rw (parsed, wrong, main) at done))
    | inl (nonce, drawn) ↦ elim (Result-cases (start o.adapter nonce s.starting)) [
      | inr (e, wrong) ↦ absurd (cc (rw (parsed, drawn, wrong, main) at done))
      | inl (a, began) ↦ elim (Result-cases (stop s.manager s.call (slept s.dropped a))) [
        | inr (e, wrong) ↦ absurd (cc (rw (parsed, drawn, began, wrong, main) at done))
        | inl (u, over) ↦ (o, nonce, a, parsed, drawn, began, over)
      ]
    ]
  ]
]
