-- ===== src/Proximity/Life.antt =====
-- daemon/crates/kpk-proximity/src/lib.rs: the life of a beacon next to BlueZ, which may drop the
-- advertisement at any time and then calls `release`.
use kpasskey.Base.{◌≡◌, ◌≢◌, ◌⊎◌, refl, Bool, true, false, Bool-cases, inl, inr}
use kpasskey.Base.Errors.{Result, ok, err}
use kpasskey.Proximity.{Advertisement, release, unregister, Phase, running, stopping, stopped, look}

-- The beacon, whether BlueZ holds its advertisement, and whether BlueZ still has to call `release`.
pub record World : Type 0 where
  pub beacon : Advertisement
  pub phase : Phase
  pub held : Bool
  pub releasing : Bool

abbrev pub registered : Advertisement → World
registered a = record { beacon = a; phase = running; held = true; releasing = false }

-- One step. BlueZ takes an advertisement back that it holds when it is asked, refuses the call for one
-- that it does not hold, and may refuse it for reasons of its own, in which case it keeps it; or its
-- manager cannot be reached.
pub data Step : World → World → Type 0 where
  dropped : (w : World) → w.held ≡ true → Step w (record w { held = false; releasing = true })
  released :
      (w : World)
      → w.releasing ≡ true
      → Step w (record w { beacon = release w.beacon; releasing = false })
  looked : (w : World) → w.phase ≡ running → Step w (record w { phase = look w.beacon })
  unregistered :
      (w : World)
      → w.phase ≡ stopping
      → w.held ≡ true
      → Step w (record w { phase = stopped (unregister (ok tt) (ok tt)); held = false })
  refused :
      (w : World) (manager call : Result (Unit {0}))
      → w.phase ≡ stopping
      → (manager ≢ ok tt) ⊎ (call ≢ ok tt)
      → Step w (record w { phase = stopped (unregister manager call) })

pub data Reachable (a : Advertisement) : World → Type 0 where
  began : Reachable a (registered a)
  went : (w v : World) → Reachable a w → Step w v → Reachable a v

-- A beacon that BlueZ released, or has still to tell so, is not held; nor is one that was stopped.
abbrev IsAccounted : World → Type 0
IsAccounted w =
    (w.beacon.released ≡ true → w.held ≡ false)
    × (w.releasing ≡ true → w.held ≡ false)
    × (w.phase ≡ stopped (ok tt) → w.held ≡ false)

look-stopped : (a : Advertisement) → look a ≡ stopped (ok tt) → a.released ≡ true
unfolding look
look-stopped a h = elim (Bool-cases a.released) [ inl yes_ ↦ yes_ | inr no_ ↦ cc (rw no_ at h) ]

-- `unregister` fails when BlueZ cannot be reached or refuses the call.
unregister-refused :
    (reached call : Result (Unit {0}))
    → (reached ≢ ok tt) ⊎ (call ≢ ok tt)
    → unregister reached call ≢ ok tt
unregister-refused (err e) call wrong eq = cc
unregister-refused (ok u) (err e) wrong eq = cc
unregister-refused (ok u) (ok w) (inl wrong) eq = wrong refl
unregister-refused (ok u) (ok w) (inr wrong) eq = wrong refl

Step-IsAccounted : (w v : World) → Step w v → IsAccounted w → IsAccounted v
Step-IsAccounted _ _ (dropped w held) (h1, h2, h3) = ((λ e. refl), (λ e. refl), (λ e. refl))
Step-IsAccounted _ _ (released w releasing) (h1, h2, h3) = ((λ e. h2 releasing), (λ e. cc), h3)
Step-IsAccounted _ _ (looked w running_) (h1, h2, h3) =
    (h1, h2, (λ e. h1 (look-stopped w.beacon e)))
Step-IsAccounted _ _ (unregistered w stopping_ held) (h1, h2, h3) =
    ((λ e. refl), (λ e. refl), (λ e. refl))
Step-IsAccounted _ _ (refused w manager call stopping_ wrong) (h1, h2, h3) =
    (h1, h2, (λ e. absurd (unregister-refused manager call wrong (of_stopped e))))
  where
    of_stopped :
        stopped (unregister manager call) ≡ stopped (ok tt) → unregister manager call ≡ ok tt
    of_stopped e = cc

Reachable-IsAccounted :
    (a : Advertisement) (w : World) → a.released ≡ false → Reachable a w → IsAccounted w
Reachable-IsAccounted a _ fresh began = ((λ e. cc), (λ e. cc), (λ e. cc))
Reachable-IsAccounted a _ fresh (went u w before step) =
    Step-IsAccounted u w step (Reachable-IsAccounted a u fresh before)

-- Whatever BlueZ does between the steps of a beacon that was registered and not released: when
-- `stop` has returned without an error, BlueZ does not hold the advertisement.
pub stop-silent :
    (a : Advertisement) (w : World)
    → a.released ≡ false
    → Reachable a w
    → w.phase ≡ stopped (ok tt)
    → w.held ≡ false
stop-silent a w fresh reached over = (Reachable-IsAccounted a w fresh reached).2 over
