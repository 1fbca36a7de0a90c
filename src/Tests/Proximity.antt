-- ===== src/Tests/Proximity.antt =====
-- The life of a beacon in one run.
use kpasskey.Base.{◌≡◌, refl, true, false, []}
use kpasskey.Base.Errors.{ok}
use kpasskey.Proximity.{Advertisement, advertisement, stopping, stopped, look}
use kpasskey.Proximity.Life.{
  World, registered, Reachable, began, went, looked, unregistered, stop-silent,
}

abbrev beacon : Advertisement
beacon = advertisement []

abbrev asked : World
asked = record { beacon = beacon; phase = stopping; held = true; releasing = false }

abbrev over : World
over = record { beacon = beacon; phase = stopped (ok tt); held = false; releasing = false }

reached : Reachable beacon over
unfolding look
reached =
    went asked over (went (registered beacon) asked began (looked (registered beacon) refl))
      (unregistered asked refl refl)

stop-silent_example : over.held ≡ false
stop-silent_example = stop-silent beacon over refl reached refl
