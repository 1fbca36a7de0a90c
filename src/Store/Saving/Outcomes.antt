-- ===== src/Store/Saving/Outcomes.antt =====
-- daemon/crates/kpk-spike/src/store.rs: what a `save` leaves in the directory, cut short or not.
use Prim.Native.Char.{code}
use Prim.Native.String.{◌++◌ as str_append}
use Prim.Native.String.append
use kpasskey.Base.{
  ◌≡◌, ◌↔◌, ◌⊎◌, refl, ap, sym, subst, ◌∙◌, List, [], ◌∷◌, String, Option, none, some, true, false,
  In, inl, inr, Bool-cases, if◌then◌else◌,
}
use kpasskey.Base.Errors.{Error, Result, ok, err, ◌>>=◌, Result-cases}
use kpasskey.Base.Text.{is_empty}
use kpasskey.External.{Json}
use kpasskey.Store.{
  Device, Entry, safe_chars, path_for, from_json, to_json, read_entry, is_json_file, after_last_dot,
  or_here, extension,
}
use kpasskey.Store.Listing.{IsStored}
use kpasskey.Store.Saving.{
  without, write_file, move_file, content_of, temporary_for, Run, left_behind, save_renamed,
  save_written, save,
}
use text.Mathlib.Text.{◌==◌ as str_eq}
use text.Mathlib.TextEquality.{eq_iff}

after_last_dot-tmp : (s : String) → after_last_dot (str_append s ".json.tmp") ≡ some "tmp"
unfolding after_last_dot or_here
after_last_dot-tmp String.[] = ap after_last_dot (append.nil ".json.tmp")
after_last_dot-tmp (String.◌∷◌ c s) =
    ap after_last_dot (append.cons c s ".json.tmp")
    ∙ ap (or_here (code c) (str_append s ".json.tmp")) (after_last_dot-tmp s)

other_file : (name : String) → extension name ≡ some "tmp" → is_json_file name ≡ false
other_file name h = rw (h, is_json_file) refl

named-tmp :
    (safe : String)
    → extension (if is_empty safe then ".json.json.tmp" else str_append safe ".json.tmp")
      ≡ some "tmp"
unfolding extension after_last_dot or_here
named-tmp String.[] = refl
named-tmp (String.◌∷◌ c s) = ap extension (append.cons c s ".json.tmp") ∙ after_last_dot-tmp s

is_json_file-temporary_for : (id : String) → is_json_file (temporary_for id) ≡ false
unfolding temporary_for
is_json_file-temporary_for id = other_file (temporary_for id) (named-tmp (safe_chars id))

keep :
    (e x : Entry) (rest entries : List Entry)
    → (In e rest → In e entries)
    → In e (x ∷ rest)
    → In e (x ∷ entries)
keep e x rest entries f (inl same) = inl same
keep e x rest entries f (inr i) = inr (f i)

In-without :
    (name : String) (e : Entry) (entries : List Entry) → In e (without name entries) → In e entries
unfolding without
In-without name e [] i = i
In-without name e ((n, content) ∷ entries) i = elim (Bool-cases (str_eq n name)) [
  | inl same ↦ inr (In-without name e entries (rw same at i))
  | inr different ↦
      keep e (n, content) (without name entries) entries (In-without name e entries)
        (rw different at i)
]

without-In :
    (name : String) (e : Entry) (entries : List Entry)
    → str_eq e.0 name ≡ false
    → In e entries
    → In e (without name entries)
unfolding without
without-In name e [] h i = i
without-In name e ((n, content) ∷ entries) h (inl same) =
    rw (subst (λ x. str_eq x.0 name ≡ false) same h) (inl same)
without-In name e ((n, content) ∷ entries) h (inr i) = elim (Bool-cases (str_eq n name)) [
  | inl equal ↦ rw equal (without-In name e entries h i)
  | inr different ↦ rw different (inr (without-In name e entries h i))
]

module _ (j : Json) where
  skipped : (e : Entry) (d : Device) → is_json_file e.0 ≡ false → read_entry j e ≡ some d → ⊥
  unfolding read_entry
  skipped (name, content) d other h = cc (rw other at h)

  -- A file of another kind is no record.
  write_file-IsStored :
      (name text : String) (entries : List Entry) (d : Device)
      → is_json_file name ≡ false
      → IsStored j (write_file name text entries) d ↔ IsStored j entries d
  write_file-IsStored name text entries d other = (forth, back)
    where
      forth : IsStored j (write_file name text entries) d → IsStored j entries d
      forth (e, inl same, h) =
          absurd (skipped e d (subst (λ x. is_json_file x.0 ≡ false) (sym same) other) h)
      forth (e, inr i, h) = (e, In-without name e entries i, h)

      back : IsStored j entries d → IsStored j (write_file name text entries) d
      back (e, i, h) = elim (Bool-cases (str_eq e.0 name)) [
        | inl equal ↦ absurd (
            skipped e d
              (subst (λ x. is_json_file x ≡ false) (sym ((eq_iff e.0 name).0 equal)) other) h)
        | inr different ↦ (e, inr (without-In name e entries different i), h)
      ]

  left_behind-IsStored :
      (id : String) (left : Option String) (entries : List Entry) (d : Device)
      → IsStored j (left_behind (temporary_for id) left entries) d ↔ IsStored j entries d
  left_behind-IsStored id none entries d = ((λ h. h), (λ h. h))
  left_behind-IsStored id (some text) entries d =
      write_file-IsStored (temporary_for id) text entries d (is_json_file-temporary_for id)

  save_written-IsStored :
      (path id text : String) (run : Run) (wrote : Result (Unit {0})) (entries : List Entry)
      (d : Device) (e : Error)
      → (wrote ≡ err e) ⊎ (run.renamed ≡ err e)
      → IsStored j (save_written path id text run wrote entries).1 d ↔ IsStored j entries d
  unfolding save_written save_renamed
  save_written-IsStored path id text run (err x) entries d e h =
      left_behind-IsStored id run.left entries d
  save_written-IsStored path id text run (ok u) entries d e (inl h) = cc
  save_written-IsStored path id text run (ok u) entries d e (inr h) =
      rw h (write_file-IsStored (temporary_for id) text entries d (is_json_file-temporary_for id))

  -- When the writing of the temporary file or its renaming fails, whatever text is left behind, a
  -- device is stored in the directory afterwards exactly when it was before.
  pub save-interrupted :
      (path : String) (device : Device) (run : Run) (entries : List Entry) (d : Device) (e : Error)
      → (run.wrote ≡ err e) ⊎ (run.renamed ≡ err e)
      → IsStored j (save j path device run entries).1 d ↔ IsStored j entries d
  unfolding save
  save-interrupted path device run entries d e h =
      elim (Result-cases (Json.to_string_pretty j (to_json j device))) [
        | inl (text, found) ↦
            rw (found, save) (save_written-IsStored path device.id text run run.wrote entries d e h)
        | inr (x, failed) ↦ rw (failed, save) ((λ h. h), (λ h. h))
      ]

  -- When neither the write nor the rename fails, the record's file name is one that `list` reads,
  -- and the text written reads back as the device: then the device is stored in the directory
  -- afterwards.
  pub save-IsStored :
      (path : String) (device : Device) (run : Run) (entries : List Entry) (text : String)
      → run.wrote ≡ ok tt
      → run.renamed ≡ ok tt
      → is_json_file (path_for device.id) ≡ true
      → Json.to_string_pretty j (to_json j device) ≡ ok text
      → (Json.from_str j text >>= λ v. from_json j v) ≡ ok device
      → IsStored j (save j path device run entries).1 device
  unfolding save save_written save_renamed content_of read_entry
  save-IsStored path device run entries text wrote renamed file printed parsed =
      rw (printed, save, wrote, save_written, renamed, save_renamed)
        (subst (λ c. IsStored j (move_file temporary final c written) device) (sym moved)
          ((final, ok text), inl refl, rw (file, read_entry, parsed) refl))
    where
      temporary : String
      temporary = temporary_for device.id

      final : String
      final = path_for device.id

      written : List Entry
      written = write_file temporary text entries

      moved : content_of temporary written ≡ some (ok text)
      moved = rw ((eq_iff temporary temporary).1 refl, content_of) refl
