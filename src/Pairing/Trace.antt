-- ===== src/Pairing/Trace.antt =====
-- Pairing over any sequence of requests, each at its time.
use kpasskey.Base.{
  ℕ, ◌+◌, ◌≤◌, ◌≡◌, refl, Option, none, some, List, [], ◌∷◌, String, arith, ◌⊎◌, inl, inr,
}
use kpasskey.Base.Errors.{Result, ok, err}
use kpasskey.Base.Bytes.{Bytes}
use kpasskey.Pairing.{
  PairingSession, Pairings, pairing_window, expired, expire_if_due, take_matching, seconds_left,
  begin, cancel,
}

-- The calls of the pairing window: by D-Bus, and by a `pair.request` of a phone.
pub data Call : Type 0 where
  begin_pairing : String → Result Bytes → Result String → Option String → ℕ → Call
  cancel_pairing : Call
  pairing_seconds_left : ℕ → Call
  pair_request : Bytes → ℕ → Call

module _ (encode : Bytes → String) where
  -- The window that the call hands out, if any, and the state after it.
  unfoldable pub step : Call → Pairings → Option PairingSession × Pairings
  step (begin_pairing label draw host address now) p =
      (none, (begin encode label draw host address now p).1)
  step cancel_pairing p = (none, cancel p)
  step (pairing_seconds_left now) p = (none, (seconds_left now p).1)
  step (pair_request token now) p = take_matching token now p

  unfoldable pub after_calls : List Call → Pairings → Pairings
  after_calls [] p = p
  after_calls (c ∷ cs) p = after_calls cs (step c p).1

  abbrev pub one : Option PairingSession → ℕ
  one none = 0
  one (some s) = 1

  -- How many windows the calls open: a draw that fails opens none.
  abbrev pub begun : List Call → ℕ
  begun [] = 0
  begun (begin_pairing label (ok token) host address now ∷ cs) = 1 + begun cs
  begun (begin_pairing label (err e) host address now ∷ cs) = begun cs
  begun (cancel_pairing ∷ cs) = begun cs
  begun (pairing_seconds_left now ∷ cs) = begun cs
  begun (pair_request token now ∷ cs) = begun cs

  -- How many windows the calls hand out.
  unfoldable pub paired : List Call → Pairings → ℕ
  paired [] p = 0
  paired (c ∷ cs) p = one (step c p).0 + paired cs (step c p).1

  expire_count : (now : ℕ) (p : Pairings) → one (expire_if_due now p).current ≤ one p.current
  unfolding expire_if_due
  expire_count now p = ground arith

  take_count :
      (token : Bytes) (now : ℕ) (p : Pairings)
      → one (take_matching token now p).0 + one (take_matching token now p).1.current
        ≤ one p.current
  unfolding take_matching expire_if_due
  take_count token now p = ground arith

  -- Whatever the calls, no more windows are handed out than were opened, which a call does only when
  -- its token could be drawn, the one that is open at the start counted.
  pub paired-le-begun : (cs : List Call) (p : Pairings) → paired cs p ≤ begun cs + one p.current
  unfolding paired step begin seconds_left
  paired-le-begun [] p = omega arith
  paired-le-begun (begin_pairing label (ok token) host address now ∷ cs) p =
      omega (arith, paired-le-begun cs (begin encode label (ok token) host address now p).1)
  paired-le-begun (begin_pairing label (err e) host address now ∷ cs) p =
      omega (arith, paired-le-begun cs p)
  paired-le-begun (cancel_pairing ∷ cs) p = omega (arith, paired-le-begun cs (cancel p))
  paired-le-begun (pairing_seconds_left now ∷ cs) p =
      omega (arith, paired-le-begun cs (expire_if_due now p), expire_count now p)
  paired-le-begun (pair_request token now ∷ cs) p =
      omega (arith, paired-le-begun cs (take_matching token now p).1, take_count token now p)

  -- Until the next `begin` the only window is the one that was open.
  abbrev AtMost : PairingSession → Pairings → Type 0
  AtMost s p = (p.current ≡ none) ⊎ (p.current ≡ some s)

  step-AtMost :
      (s : PairingSession) (c : Call) (p : Pairings)
      → begun (c ∷ []) ≡ 0
      → AtMost s p
      → AtMost s (step c p).1
  unfolding step begin seconds_left take_matching expire_if_due
  step-AtMost s (begin_pairing label (ok token) host address now) p h m = absurd (omega arith)
  step-AtMost s (begin_pairing label (err e) host address now) p h m = m
  step-AtMost s cancel_pairing p h m = inl refl
  step-AtMost s (pairing_seconds_left now) p h (inl e) = ground arith
  step-AtMost s (pairing_seconds_left now) p h (inr e) = ground arith
  step-AtMost s (pair_request token now) p h (inl e) = ground arith
  step-AtMost s (pair_request token now) p h (inr e) = ground arith

  after_calls-AtMost :
      (s : PairingSession) (cs : List Call) (p : Pairings)
      → begun cs ≡ 0
      → AtMost s p
      → AtMost s (after_calls cs p)
  unfolding after_calls
  after_calls-AtMost s [] p h m = m
  after_calls-AtMost s (begin_pairing label (ok token) host address now ∷ cs) p h m =
      absurd (omega arith)
  after_calls-AtMost s (begin_pairing label (err e) host address now ∷ cs) p h m =
      after_calls-AtMost s cs _ h
        (step-AtMost s (begin_pairing label (err e) host address now) p refl m)
  after_calls-AtMost s (cancel_pairing ∷ cs) p h m =
      after_calls-AtMost s cs _ h (step-AtMost s cancel_pairing p refl m)
  after_calls-AtMost s (pairing_seconds_left now ∷ cs) p h m =
      after_calls-AtMost s cs _ h (step-AtMost s (pairing_seconds_left now) p refl m)
  after_calls-AtMost s (pair_request token now ∷ cs) p h m =
      after_calls-AtMost s cs _ h (step-AtMost s (pair_request token now) p refl m)

  late :
      (s : PairingSession) (token : Bytes) (now : ℕ) (p : Pairings)
      → AtMost s p
      → s.opened + pairing_window ≤ now
      → (take_matching token now p).0 ≡ none
  unfolding take_matching expire_if_due expired
  late s token now p (inl e) h = ground arith
  late s token now p (inr e) h = ground arith

  -- If a window is open: once 120 seconds have passed since it was opened no `pair.request` is
  -- accepted, whatever its token and whatever was asked in the meantime, unless a new window was
  -- opened, which a call whose token could not be drawn does not do.
  pub window_ends :
      (s : PairingSession) (cs : List Call) (p : Pairings) (token : Bytes) (now : ℕ)
      → p.current ≡ some s
      → begun cs ≡ 0
      → s.opened + pairing_window ≤ now
      → (step (pair_request token now) (after_calls cs p)).0 ≡ none
  unfolding step
  window_ends s cs p token now e h late_enough =
      late s token now (after_calls cs p) (after_calls-AtMost s cs p h (inr e)) late_enough
