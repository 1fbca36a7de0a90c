-- ===== src/Store/Saving/Map.antt =====
-- daemon/crates/kpk-spike/src/store.rs: `save` and `remove` seen from outside, as updates of a map
-- from file names to contents. The map forgets the order of the directory's entries.
use kpasskey.Base.{
  ◌≡◌, refl, ap, ◌∙◌, Bool, true, false, Option, none, some, List, [], ◌∷◌, String, Bool-cases,
  Option-cases, inl, inr, if◌then◌else◌,
}
use kpasskey.Base.Errors.{Result, ok, err}
use kpasskey.External.{Json}
use kpasskey.Store.{Device, Entry, to_json, path_for}
use kpasskey.Store.Saving.{
  Run, without, content_of, write_file, move_file, left_behind, temporary_for, save_renamed,
  save_written, save, remove,
}
use text.Mathlib.Text.{◌==◌ as str_eq}
use text.Mathlib.TextEquality.{eq_iff}

abbrev pub Files : Type 0
Files = String → Option (Result String)

-- The map with another content, or none, under a name.
abbrev pub update : String → Option (Result String) → Files → Files
update name content files n = if str_eq name n then content else files n

abbrev pub view : List Entry → Files
view entries name = content_of name entries

pub str_eq_refl : (s : String) → str_eq s s ≡ true
str_eq_refl s = (eq_iff s s).1 refl

content_of-without :
    (name n : String) (entries : List Entry)
    → view (without name entries) n ≡ update name none (view entries) n
unfolding without content_of
content_of-without name n [] = elim (Bool-cases (str_eq name n)) [
  | inl same ↦ rw same refl
  | inr other ↦ rw other refl
]
content_of-without name n ((k, content) ∷ entries) =
    let rest : view (without name entries) n ≡ update name none (view entries) n =
      content_of-without name n entries in
    elim (Bool-cases (str_eq k name)) [
      | inl gone ↦
          let same : str_eq k n ≡ str_eq name n = ap (λ s. str_eq s n) ((eq_iff k name).0 gone) in
          elim (Bool-cases (str_eq name n)) [
            | inl here ↦ rw (gone, here) (rw here at rest)
            | inr other ↦ rw (gone, other, same, other) (rw other at rest)
          ]
      | inr kept ↦ elim (Bool-cases (str_eq k n)) [
        | inl here ↦ rw (kept, here, differs kept here) refl
        | inr further ↦ rw (kept, further) rest
      ]
    ]
  where
    differs : str_eq k name ≡ false → str_eq k n ≡ true → str_eq name n ≡ false
    differs kept here = elim (Bool-cases (str_eq name n)) [
      | inr other ↦ other
      | inl same ↦
          let alike : str_eq k name ≡ true = ap (str_eq k) ((eq_iff name n).0 same) ∙ here in
          absurd (cc)
    ]

write_file-update :
    (name text n : String) (entries : List Entry)
    → view (write_file name text entries) n ≡ update name (some (ok text)) (view entries) n
unfolding content_of
write_file-update name text n entries = elim (Bool-cases (str_eq name n)) [
  | inl here ↦ rw here refl
  | inr other ↦
      let rest : view (without name entries) n ≡ update name none (view entries) n =
        content_of-without name n entries in
      rw other (rw other at rest)
]

-- What a rename does to the map, and the operations of a `save` and a `remove` in their order.
abbrev pub move : String → String → Option (Result String) → Files → Files
move from to none files = files
move from to (some content) files =
    update to (some content) (update to none (update from none files))

abbrev pub leave : String → Option String → Files → Files
leave name none files = files
leave name (some text) files = update name (some (ok text)) files

abbrev pub save_written_map : String → String → Result (Unit {0}) → Files → Files
save_written_map temporary path (err e) files = files
save_written_map temporary path (ok u) files = move temporary path (files temporary) files

abbrev pub save_map :
    String → String → String → Option String → Result (Unit {0}) → Result (Unit {0}) → Files → Files
save_map temporary path text left renamed (err e) files = leave temporary left files
save_map temporary path text left renamed (ok u) files =
    save_written_map temporary path renamed (update temporary (some (ok text)) files)

abbrev pub remove_map : String → Result Bool → Files → Files
remove_map path (ok true) files = update path none files
remove_map path (ok false) files = files
remove_map path (err e) files = files

move_file-move :
    (from to n : String) (content : Option (Result String)) (entries : List Entry)
    → view (move_file from to content entries) n ≡ move from to content (view entries) n
unfolding content_of
move_file-move from to n none entries = refl
move_file-move from to n (some content) entries = elim (Bool-cases (str_eq to n)) [
  | inl here ↦ rw here refl
  | inr other ↦
      let rest : view (without to (without from entries)) n
          ≡ update to none (view (without from entries)) n =
        content_of-without to n (without from entries) in
      rw other ((rw other at rest) ∙ content_of-without from n entries)
]

left_behind-leave :
    (name : String) (left : Option String) (entries : List Entry)
    → view (left_behind name left entries) ≡ leave name left (view entries)
left_behind-leave name none entries = refl
left_behind-leave name (some text) entries = λ i n. write_file-update name text n entries i

save_renamed-map :
    (path id : String) (run : Run) (renamed : Result (Unit {0})) (entries : List Entry)
    → view (save_renamed path id run renamed entries).1
      ≡ save_written_map (temporary_for id) (path_for id) renamed (view entries)
unfolding save_renamed
save_renamed-map path id run (err e) entries = refl
save_renamed-map path id run (ok u) entries = λ i n.
    move_file-move (temporary_for id) (path_for id) n (content_of (temporary_for id) entries)
      entries i

save_written-map :
    (path id text : String) (run : Run) (written : Result (Unit {0})) (entries : List Entry)
    → view (save_written path id text run written entries).1
      ≡ save_map (temporary_for id) (path_for id) text run.left run.renamed written (view entries)
unfolding save_written
save_written-map path id text run (err e) entries =
    left_behind-leave (temporary_for id) run.left entries
save_written-map path id text run (ok u) entries =
    save_renamed-map path id run run.renamed (write_file (temporary_for id) text entries)
    ∙ ap (save_written_map (temporary_for id) (path_for id) run.renamed)
        (λ i n. write_file-update (temporary_for id) text n entries i)

-- What `remove` does to the map, whose result it is, on each branch: without the file it reports
-- that nothing was removed; a failure changes nothing; otherwise just this name is gone.
pub remove-map :
    (path id : String) (deleted : Result (Unit {0})) (entries : List Entry)
    → (view (remove path id deleted entries).1
        ≡ remove_map (path_for id) (remove path id deleted entries).0 (view entries))
      × (view entries (path_for id) ≡ none → (remove path id deleted entries).0 ≡ ok false)
      × ((content : Result String)
          → view entries (path_for id) ≡ some content
          → deleted ≡ ok tt
          → (remove path id deleted entries).0 ≡ ok true)
unfolding remove
remove-map path id deleted entries = elim (Option-cases (content_of (path_for id) entries)) [
  | inl absent ↦ rw (absent, remove) (refl, (λ h. refl), (λ content h. cc))
  | inr (content, present) ↦ present_case deleted content present
]
  where
    present_case :
        (deleted : Result (Unit {0})) (content : Result String)
        → content_of (path_for id) entries ≡ some content
        → (view (remove path id deleted entries).1
            ≡ remove_map (path_for id) (remove path id deleted entries).0 (view entries))
          × (view entries (path_for id) ≡ none → (remove path id deleted entries).0 ≡ ok false)
          × ((content : Result String)
              → view entries (path_for id) ≡ some content
              → deleted ≡ ok tt
              → (remove path id deleted entries).0 ≡ ok true)
    present_case (err e) content present = rw (present, remove) (refl, (λ h. cc), (λ c h h2. cc))
    present_case (ok u) content present =
        rw (present, remove)
          ((λ i n. content_of-without (path_for id) n entries i), (λ h. cc), (λ c h h2. refl))

module _ (j : Json) where
  -- If the record can be printed: what `save` does to the directory, seen as a map from file names
  -- to contents, is what its steps do to the map. A failed write leaves what it leaves under
  -- the temporary name, a failed rename the whole text; otherwise the file is moved from
  -- the temporary name to the record's, in the place of what was there, whatever the sync brings.
  pub save-map :
      (path : String) (device : Device) (run : Run) (entries : List Entry) (text : String)
      → Json.to_string_pretty j (to_json j device) ≡ ok text
      → view (save j path device run entries).1
        ≡ save_map
            (temporary_for device.id)
            (path_for device.id)
            text
            run.left
            run.renamed
            run.wrote
            (view entries)
  unfolding save
  save-map path device run entries text printed =
      rw (printed, save) (save_written-map path device.id text run run.wrote entries)
