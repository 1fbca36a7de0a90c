-- ===== src/Dbus/Rows.antt =====
-- daemon/crates/kpk-spike/src/dbus.rs: the list that System Settings shows, and removing from it.
use kpasskey.Base.{
  ℕ, ◌≢◌, ◌+◌, ◌≡◌, refl, ap, sym, subst, ◌∙◌, Bool, true, false, none, List, [], ◌∷◌, String, inl,
  inr, In, length, map, length-map, arith,
}
use kpasskey.Base.Errors.{Result, ok, err}
use kpasskey.Base.Text.{concat, decimal}
use kpasskey.External.{Json, Crypto}
use kpasskey.Store.{Device, Entry, list, path_for, read_entries, sort_by_paired_at}
use kpasskey.Store.Listing.{IsStored, IsStored-IsHeld, list-IsSorted}
use kpasskey.Store.Saving
use kpasskey.Store.Saving.Map.{view, update, remove-map, remove_map, str_eq_refl}
use kpasskey.Dbus.{DeviceEntry, Bus, version, row, list_devices, failed, signal, remove_device}

module _ (j : Json) (c : Crypto) (path : String) where
  In-map : (d : Device) (ds : List Device) → In d ds → In (row j c path d) (map (row j c path) ds)
  In-map d [] h = absurd h
  In-map d (x ∷ ds) (inl e) = inl (ap (row j c path) e)
  In-map d (x ∷ ds) (inr h) = inr (In-map d ds h)

  -- Of a directory that can be read, the list that System Settings shows has the row of every device
  -- that a file holds, and the version line counts its rows.
  pub list_devices-version :
      (package_version : String) (entries : List Entry)
      → (rows : List DeviceEntry) × (list_devices j c path (ok entries) ≡ ok rows)
        × (version j c path package_version (ok entries)
            ≡ concat (package_version ∷ " (" ∷ decimal (length rows) ∷ " paired)" ∷ []))
        × ((d : Device) → IsStored j entries d → In (row j c path d) rows)
  unfolding list_devices version list
  list_devices-version package_version entries = (
    map (row j c path) ds,
    refl,
    ap (λ n. concat (package_version ∷ " (" ∷ decimal n ∷ " paired)" ∷ []))
        (sym (length-map (row j c path) ds)),
    λ d stored. In-map d ds (listed d stored),
  )
    where
      ds : List Device
      ds = sort_by_paired_at (read_entries j entries)

      ok_inj : {a b : List Device} → ok a ≡ ok b → a ≡ b
      ok_inj e = cc

      listed : (d : Device) → IsStored j entries d → In d ds
      listed d stored =
          let (found, same, sorted, among) = list-IsSorted j path entries d in
          subst (In d) (sym (ok_inj same)) (among.0 (IsStored-IsHeld j entries d stored))

  remove_device-again :
      (id : String) (deleted emitted : Result (Unit {0})) (bus : Bus)
      → view bus.files (path_for id) ≡ none
      → (remove_device j c path id deleted emitted bus).0 ≡ ok false
  unfolding remove_device
  remove_device-again id deleted emitted bus h =
      rw ((remove-map path id deleted bus.files).1 h, remove_device) refl

  -- The number of signals that a try to emit one adds.
  abbrev pub emission : Result (Unit {0}) → ℕ
  emission (ok u) = 1
  emission (err e) = 0

  -- What a removal does, by its reply.
  abbrev pub IsRemoval : String → Result (Unit {0}) → Bus → Result Bool × Bus → Type 0
  IsRemoval id emitted bus (reply, after) =
      (after.pairings ≡ bus.pairings)
      × (reply ≡ ok true
          → (after.changed ≡ bus.changed + emission emitted)
            × (view after.files ≡ update (path_for id) none (view bus.files))
            × ((deleted again : Result (Unit {0}))
                → (remove_device j c path id deleted again after).0 ≡ ok false))
      × (reply ≢ ok true → (after.changed ≡ bus.changed) × (view after.files ≡ view bus.files))

  signal-IsRemoval :
      (id : String) (emitted : Result (Unit {0})) (bus : Bus) (removed : Result Bool)
      (files : List Entry)
      → view files ≡ remove_map (path_for id) removed (view bus.files)
      → IsRemoval id emitted bus
          (failed removed, signal j c path removed emitted (record bus { files = files }))
  signal-IsRemoval id (ok u) bus (ok true) files mapped = (
    refl,
    λ h. (
      refl,
      mapped,
      λ deleted again.
          remove_device-again id deleted again
            (record bus { files = files; changed = bus.changed + 1 })
            (ap (λ m. m (path_for id)) mapped ∙ rw (str_eq_refl (path_for id)) refl),
    ),
    λ h. absurd (h refl),
  )
  signal-IsRemoval id (err e) bus (ok true) files mapped = (
    refl,
    λ h. (
      omega arith,
      mapped,
      λ deleted again.
          remove_device-again id deleted again (record bus { files = files })
            (ap (λ m. m (path_for id)) mapped ∙ rw (str_eq_refl (path_for id)) refl),
    ),
    λ h. absurd (h refl),
  )
  signal-IsRemoval id emitted bus (ok false) files mapped =
      (refl, (λ h. absurd (cc)), (λ h. (refl, mapped)))
  signal-IsRemoval id emitted bus (err e) files mapped =
      (refl, (λ h. absurd (cc)), (λ h. (refl, mapped)))

  -- A removal, on every branch: the pairing window stays as it is. If it reports that the file was
  -- removed, then just the file of this id is gone, asking again reports that nothing was removed, and
  -- one signal more was emitted, or none if emitting it failed, which the reply does not tell.
  -- Otherwise no signal was emitted and no file changed.
  pub remove_device-signal :
      (id : String) (deleted emitted : Result (Unit {0})) (bus : Bus)
      → IsRemoval id emitted bus (remove_device j c path id deleted emitted bus)
  unfolding remove_device
  remove_device-signal id deleted emitted bus =
      signal-IsRemoval id emitted bus (Saving.remove path id deleted bus.files).0
        (Saving.remove path id deleted bus.files).1 (remove-map path id deleted bus.files).0
