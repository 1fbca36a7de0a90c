-- ===== src/Store/Listing.antt =====
-- daemon/crates/kpk-spike/src/store.rs: what `Store::list` brings, and server.rs: the active device.
use kpasskey.Base.{
  true, first, ◌≤◌, ◌≡◌, refl, ap, sym, subst, ◌∙◌, ◌↔◌, List, [], ◌∷◌, String, some, All, All-map,
  All-In, In, inl, inr, Bool-cases, Option-cases, leb, arith,
}
use kpasskey.Base.Errors.{Result, ok, err, Result-cases, ◌>>=◌}
use text.Mathlib.TextEquality.{eq_iff}
use kpasskey.External.{Json, Crypto, Base64}
use kpasskey.Store.{
  Device, Entry, is_json_file, extension, from_json, insert_by_time, sort_by_paired_at, read_entry,
  read_entries, list,
}
use kpasskey.Server.{active_device}

-- Devices in the order of their pairing.
abbrev pub IsSorted : List Device → Type 0
IsSorted [] = Unit
IsSorted (d ∷ ds) = All (λ x. d.paired_at ≤ x.paired_at) ds × IsSorted ds

insert_by_time-All {κ} :
    (P : Device → Type κ) (d : Device) (ds : List Device)
    → P d
    → All P ds
    → All P (insert_by_time d ds)
unfolding insert_by_time
insert_by_time-All P d [] p h = (p, tt)
insert_by_time-All P d (x ∷ xs) p h = elim (Bool-cases (leb d.paired_at x.paired_at)) [
  | inl before ↦ rw before (p, h)
  | inr later ↦ rw later (h.0, insert_by_time-All P d xs p h.1)
]

insert_by_time-IsSorted :
    (d : Device) (ds : List Device) → IsSorted ds → IsSorted (insert_by_time d ds)
unfolding insert_by_time
insert_by_time-IsSorted d [] h = (tt, tt)
insert_by_time-IsSorted d (x ∷ xs) h = elim (Bool-cases (leb d.paired_at x.paired_at)) [
  | inl before ↦ rw before ((ground arith, All-map (λ y le. ground arith) xs h.0), h)
  | inr later ↦ rw later (
    insert_by_time-All (λ y. x.paired_at ≤ y.paired_at) d xs (ground arith) h.0,
    insert_by_time-IsSorted d xs h.1,
  )
]

sort_by_paired_at-IsSorted : (ds : List Device) → IsSorted (sort_by_paired_at ds)
unfolding sort_by_paired_at
sort_by_paired_at-IsSorted [] = tt
sort_by_paired_at-IsSorted (d ∷ ds) =
    insert_by_time-IsSorted d (sort_by_paired_at ds) (sort_by_paired_at-IsSorted ds)

In-insert_by_time : (a d : Device) (ds : List Device) → In a (d ∷ ds) → In a (insert_by_time d ds)
unfolding insert_by_time
In-insert_by_time a d [] i = i
In-insert_by_time a d (x ∷ xs) i = elim (Bool-cases (leb d.paired_at x.paired_at)) [
  | inl before ↦ rw before i
  | inr later ↦ rw later (move (In-insert_by_time a d xs) i)
]
  where
    move :
        (In a (d ∷ xs) → In a (insert_by_time d xs))
        → In a (d ∷ x ∷ xs)
        → In a (x ∷ insert_by_time d xs)
    move rest (inl e) = inr (rest (inl e))
    move rest (inr (inl e)) = inl e
    move rest (inr (inr k)) = inr (rest (inr k))

In-sort_by_paired_at : (a : Device) (ds : List Device) → In a ds → In a (sort_by_paired_at ds)
unfolding sort_by_paired_at
In-sort_by_paired_at a [] i = absurd i
In-sort_by_paired_at a (d ∷ ds) (inl e) = In-insert_by_time a d (sort_by_paired_at ds) (inl e)
In-sort_by_paired_at a (d ∷ ds) (inr i) =
    In-insert_by_time a d (sort_by_paired_at ds) (inr (In-sort_by_paired_at a ds i))

sort_by_paired_at-All {κ} :
    (P : Device → Type κ) (ds : List Device) → All P ds → All P (sort_by_paired_at ds)
unfolding sort_by_paired_at
sort_by_paired_at-All P [] h = tt
sort_by_paired_at-All P (d ∷ ds) h =
    insert_by_time-All P d (sort_by_paired_at ds) h.0 (sort_by_paired_at-All P ds h.1)

module _ (j : Json) where
  -- The device is what some file of the directory holds.
  abbrev pub IsStored : List Entry → Device → Type 0
  IsStored entries d = (e : Entry) × In e entries × (read_entry j e ≡ some d)

  read_entries-All : (entries : List Entry) → All (IsStored entries) (read_entries j entries)
  unfolding read_entries
  read_entries-All [] = tt
  read_entries-All (e ∷ es) = elim (Option-cases (read_entry j e)) [
    | inl skipped ↦
        rw (skipped, read_entries)
          (All-map (λ d (e2, i, h). (e2, inr i, h)) (read_entries j es) (read_entries-All es))
    | inr (d, found) ↦
        rw (found, read_entries)
          (
            (e, inl refl, found),
            All-map (λ d (e2, i, h). (e2, inr i, h)) (read_entries j es) (read_entries-All es),
          )
  ]

  In-read_entries :
      (entries : List Entry) (d : Device) → IsStored entries d → In d (read_entries j entries)
  unfolding read_entries
  In-read_entries [] d (e, i, h) = absurd i
  In-read_entries (x ∷ es) d (e, inl same, h) =
      rw (ap (read_entry j) (sym same) ∙ h, read_entries) (inl refl)
  In-read_entries (x ∷ es) d (e, inr i, h) = elim (Option-cases (read_entry j x)) [
    | inl skipped ↦ rw (skipped, read_entries) (In-read_entries es d (e, i, h))
    | inr (y, found) ↦ rw (found, read_entries) (inr (In-read_entries es d (e, i, h)))
  ]

  -- A file of the directory with the extension json has a text that can be parsed, and the device is what
  -- is in it.
  abbrev pub IsHeld : List Entry → Device → Type 0
  IsHeld entries d =
      (name content : String) × (value : j.Value) × In (name, ok content) entries
      × (extension name ≡ some "json")
      × (Json.from_str j content ≡ ok value)
      × (from_json j value ≡ ok d)

  json_file_iff : (name : String) → (is_json_file name ≡ true) ↔ (extension name ≡ some "json")
  json_file_iff name = elim (Option-cases (extension name)) [
    | inl without ↦ (
      (λ h. cc (rw (without, is_json_file) at h)),
      (λ h. rw (h, is_json_file) ((eq_iff "json" "json").1 refl)),
    )
    | inr (kind, has) ↦ (
      (λ h. has ∙ ap some ((eq_iff kind "json").0 (rw (has, is_json_file) at h))),
      (λ h. rw (h, is_json_file) ((eq_iff "json" "json").1 refl)),
    )
  ]

  IsHeld-IsStored : (entries : List Entry) (d : Device) → IsHeld entries d → IsStored entries d
  unfolding read_entry
  IsHeld-IsStored entries d (name, content, value, i, kind, parsed, read_) =
      let file : is_json_file name ≡ true = (json_file_iff name).1 kind in
      let whole : (Json.from_str j content >>= λ v. from_json j v) ≡ ok d = rw parsed read_ in
      ((name, ok content), i, rw (file, read_entry, whole) refl)

  read_content :
      (content : Result String) (d : Device)
      → (content >>= λ t. Json.from_str j t >>= λ v. from_json j v) ≡ ok d
      → (text : String) × (value : j.Value) × (content ≡ ok text)
        × (Json.from_str j text ≡ ok value)
        × (from_json j value ≡ ok d)
  read_content (err e) d h = cc
  read_content (ok text) d h = elim (Result-cases (Json.from_str j text)) [
    | inr (e, wrong) ↦ absurd (cc (rw wrong at h))
    | inl (value, parsed) ↦ (text, value, refl, parsed, rw parsed at h)
  ]

  pub IsStored-IsHeld : (entries : List Entry) (d : Device) → IsStored entries d → IsHeld entries d
  unfolding read_entry
  IsStored-IsHeld entries d ((name, content), i, h) = elim (Bool-cases (is_json_file name)) [
    | inr other ↦ absurd (cc (rw other at h))
    | inl file ↦ elim (Result-cases (content >>= λ t. Json.from_str j t >>= λ v. from_json j v)) [
      | inr (e, bad) ↦ absurd (cc (rw (file, bad) at h))
      | inl (x, made) ↦
          let same : x ≡ d = cc (rw (file, made) at h) in
          let (text, value, there, parsed, read_) = read_content content d (made ∙ ap ok same) in
          (
            name,
            text,
            value,
            subst (λ r. In (name, r) entries) there i,
            (json_file_iff name).0 file,
            parsed,
            read_,
          )
    ]
  ]

  -- Of a directory that can be read, `list` brings the devices in the order of their pairing, and a
  -- device is among them exactly when a file of the directory with the extension json has a text that
  -- is JSON and is the record of the device: files of other kinds, unreadable and corrupt ones are
  -- skipped, and hide no other device.
  pub list-IsSorted :
      (path : String) (entries : List Entry) (d : Device)
      → (ds : List Device) × (list j path (ok entries) ≡ ok ds)
        × IsSorted ds
        × (IsHeld entries d ↔ In d ds)
  unfolding list
  list-IsSorted path entries d = (
    sort_by_paired_at (read_entries j entries),
    refl,
    sort_by_paired_at-IsSorted (read_entries j entries),
    (
      (λ h.
          In-sort_by_paired_at d (read_entries j entries)
            (In-read_entries entries d (IsHeld-IsStored entries d h))),
      λ h. IsStored-IsHeld entries d (
          All-In (IsStored entries) d (sort_by_paired_at (read_entries j entries))
            (sort_by_paired_at-All (IsStored entries) (read_entries j entries)
              (read_entries-All entries))
            h),
    ),
  )

  first-oldest :
      (ds : List Device) (d : Device)
      → IsSorted ds
      → In d ds
      → (a : Device) × (first ds ≡ some a) × In a ds × (a.paired_at ≤ d.paired_at)
  first-oldest [] d h i = absurd i
  first-oldest (x ∷ xs) d h (inl same) =
      (x, refl, inl refl, subst (λ y. x.paired_at ≤ y.paired_at) (sym same) (omega arith))
  first-oldest (x ∷ xs) d h (inr i) =
      (x, refl, inl refl, All-In (λ y. x.paired_at ≤ y.paired_at) d xs h.0 i)

module _ (j : Json) (c : Crypto) (b : Base64) where
  -- When some file of the directory holds a device, there is an active device: it is what a file
  -- holds, and it was paired no later than the given one.
  pub active_device-oldest :
      (path : String) (entries : List Entry) (d : Device)
      → IsStored j entries d
      → (a : Device) × (active_device j c b path (ok entries) ≡ ok a)
        × IsStored j entries a
        × (a.paired_at ≤ d.paired_at)
  unfolding active_device list
  active_device-oldest path entries d stored =
      let ds = sort_by_paired_at (read_entries j entries) in
      let (a, found, i, le) =
        first-oldest j ds d (sort_by_paired_at-IsSorted (read_entries j entries))
          (In-sort_by_paired_at d (read_entries j entries) (In-read_entries j entries d stored)) in
      (
        a,
        rw (found, list) refl,
        All-In (IsStored j entries) a ds
            (sort_by_paired_at-All (IsStored j entries) (read_entries j entries)
              (read_entries-All j entries))
            i,
        le,
      )
