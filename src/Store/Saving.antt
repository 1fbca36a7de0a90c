-- ===== src/Store/Saving.antt =====
-- daemon/crates/kpk-spike/src/store.rs: `Store::save` as a sequence of operations on the files of the
-- directory, each of which may fail.
use Prim.Native.String.{◌++◌ as str_append}
use kpasskey.Base.{Bool, true, false, Option, none, some, List, [], ◌∷◌, String, if◌then◌else◌}
use kpasskey.Base.Errors.{Result, ok, err, context, ◌>>=◌, ◌>>◌}
use kpasskey.Base.Text.{concat, is_empty}
use kpasskey.External.{Json}
use kpasskey.Store.{Device, Entry, to_json, safe_chars, path_for}
use text.Mathlib.Text.{◌==◌ as str_eq}
pub mod Outcomes
pub mod Map

-- The directory without the file.
unfoldable pub without : String → List Entry → List Entry
without name [] = []
without name ((n, content) ∷ entries) =
    let rest = without name entries in if str_eq n name then rest else (n, content) ∷ rest

unfoldable pub content_of : String → List Entry → Option (Result String)
content_of name [] = none
content_of name ((n, content) ∷ entries) =
    if str_eq n name then some content else content_of name entries

-- `std::fs::write`, and `std::fs::rename`, which replaces a file of the new name.
abbrev pub write_file : String → String → List Entry → List Entry
write_file name text entries = (name, ok text) ∷ without name entries

abbrev pub move_file : String → String → Option (Result String) → List Entry → List Entry
move_file from to none entries = entries
move_file from to (some content) entries = (to, content) ∷ without to (without from entries)

abbrev pub rename_file : String → String → List Entry → List Entry
rename_file from to entries = move_file from to (content_of from entries) entries

-- `with_extension("json.tmp")`: the dot that begins ".json" does not count.
unfoldable pub temporary_for : String → String
temporary_for id =
    if is_empty (safe_chars id) then ".json.json.tmp" else str_append (safe_chars id) ".json.tmp"

-- What the system makes of the operations of one `save`; `left` is the text that a failed write
-- leaves behind, if any.
pub record Run : Type 0 where
  pub wrote : Result (Unit {0})
  pub left : Option String
  pub renamed : Result (Unit {0})
  pub opened : Result (Unit {0})
  pub synced : Result (Unit {0})

abbrev pub left_behind : String → Option String → List Entry → List Entry
left_behind name none entries = entries
left_behind name (some text) entries = write_file name text entries

-- Opening and syncing the directory changes none of its files.
abbrev pub sync : String → Run → Result (Unit {0})
sync path run =
    context (concat ("opening " ∷ path ∷ " to fsync" ∷ [])) run.opened
    >> context "fsync on the device directory" run.synced

unfoldable pub save_renamed :
    String → String → Run → Result (Unit {0}) → List Entry → Result (Unit {0}) × List Entry
save_renamed path id run (err e) entries =
    (err (concat ("renaming into " ∷ path ∷ "/" ∷ path_for id ∷ []) ∷ e), entries)
save_renamed path id run (ok u) entries =
    (sync path run, rename_file (temporary_for id) (path_for id) entries)

unfoldable pub save_written :
    String → String → String → Run → Result (Unit {0}) → List Entry → Result (Unit {0}) × List Entry
save_written path id text run (err e) entries = (
  err (concat ("writing " ∷ path ∷ "/" ∷ temporary_for id ∷ []) ∷ e),
  left_behind (temporary_for id) run.left entries,
)
save_written path id text run (ok u) entries =
    save_renamed path id run run.renamed (write_file (temporary_for id) text entries)

module _ (j : Json) where
  unfoldable pub save : String → Device → Run → List Entry → Result (Unit {0}) × List Entry
  save path device run entries = elim (Json.to_string_pretty j (to_json j device)) [
    | err e ↦ (err e, entries)
    | ok text ↦ save_written path device.id text run run.wrote entries
  ]

-- `deleted` is what `remove_file` brings.
unfoldable pub remove : String → String → Result (Unit {0}) → List Entry → Result Bool × List Entry
remove path id deleted entries = elim (content_of (path_for id) entries) [
  | none ↦ (ok false, entries)
  | some content ↦ elim deleted [
    | err e ↦ (err (concat ("removing " ∷ path ∷ "/" ∷ path_for id ∷ []) ∷ e), entries)
    | ok u ↦ (ok true, without (path_for id) entries)
  ]
]
