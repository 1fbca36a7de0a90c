-- ===== src/Store.antt =====
-- daemon/crates/kpk-spike/src/store.rs: the records of the paired devices.
use Prim.Native.Char.{code}
use kpasskey.Base.{
  ℕ, Bool, true, false, ◌&&◌, ◌||◌, Option, none, some, List, [], ◌∷◌, ◌++◌, String, leb, ◌==◌,
  if◌then◌else◌,
}
use kpasskey.Base.Errors.{unwrap_or, Error, Result, ok, err, bail, context, ◌>>=◌}
use kpasskey.Base.Text.{concat, is_empty}
use kpasskey.External.{Json}
use text.Mathlib.Text.{◌==◌ as str_eq}
pub mod Fields
pub mod Record
pub mod Listing
pub mod Saving

pub record Device : Type 0 where
  pub id : String
  pub name : String
  pub model : String
  pub owner : String
  pub security_level : String
  pub verified_boot : String
  pub paired_at : ℕ
  pub public_key_pem : String

module _ (j : Json) where
  open j use {Value, from_str, get, as_str, as_u64, as_bool, object, text, number}

  -- `value.get(name).and_then(as_str)` `as_u64` and `as_bool`
  unfoldable pub get_str : Value → String → Option String
  get_str value name = elim (get value name) [ none ↦ none | some v ↦ as_str v ]

  unfoldable pub get_u64 : Value → String → Option ℕ
  get_u64 value name = elim (get value name) [ none ↦ none | some v ↦ as_u64 v ]

  unfoldable pub get_bool : Value → String → Option Bool
  get_bool value name = elim (get value name) [ none ↦ none | some v ↦ as_bool v ]

  unfoldable pub to_json : Device → Value
  to_json d = object (
      ("id", text d.id)
      ∷ ("name", text d.name)
      ∷ ("model", text d.model)
      ∷ ("owner", text d.owner)
      ∷ ("securityLevel", text d.security_level)
      ∷ ("verifiedBoot", text d.verified_boot)
      ∷ ("pairedAt", number d.paired_at)
      ∷ ("publicKeyPem", text d.public_key_pem)
      ∷ [])

  abbrev field_text : Value → String → String
  field_text value name = unwrap_or "" (get_str value name)

  unfoldable pub from_json : Value → Result Device
  from_json value =
      if is_empty (field_text value "id")
      then bail "device record has no id"
      else ok (record {
        id = field_text value "id";
        name = field_text value "name";
        model = field_text value "model";
        owner = field_text value "owner";
        security_level = field_text value "securityLevel";
        verified_boot = field_text value "verifiedBoot";
        paired_at = unwrap_or 0 (get_u64 value "pairedAt");
        public_key_pem = field_text value "publicKeyPem";
      })

-- What is behind the last dot, given the same for the rest of the text.
unfoldable pub or_here : ℕ → String → Option String → Option String
or_here c s (some rest) = some rest
or_here c s none = if c == b'.' then some s else none

unfoldable pub after_last_dot : String → Option String
after_last_dot String.[] = none
after_last_dot (String.◌∷◌ c s) = or_here (code c) s (after_last_dot s)

-- `Path::extension` of a file name: a dot that begins the name does not count
unfoldable pub extension : String → Option String
unfolding after_last_dot
extension String.[] = none
extension (String.◌∷◌ c s) = after_last_dot s

abbrev pub is_json_file : String → Bool
is_json_file name = elim (extension name) [ none ↦ false | some e ↦ str_eq e "json" ]

-- `sort_by_key` is stable: a device goes before those that were paired later.
unfoldable pub insert_by_time : Device → List Device → List Device
insert_by_time d [] = d ∷ []
insert_by_time d (x ∷ xs) =
    if leb d.paired_at x.paired_at then d ∷ x ∷ xs else x ∷ insert_by_time d xs

unfoldable pub sort_by_paired_at : List Device → List Device
sort_by_paired_at [] = []
sort_by_paired_at (d ∷ ds) = insert_by_time d (sort_by_paired_at ds)

-- `Store::open`: what creating the directory brings.
abbrev pub open_store : String → Result (Unit {0}) → Result String
open_store directory created = do
  made ← context (concat ("creating " ∷ directory ∷ [])) created
  ok directory

-- A directory entry: its file name, and what reading the file brings.
abbrev pub Entry : Type 0
Entry = String × Result String

module _ (j : Json) where
  -- The device of an entry, unless it is skipped.
  unfoldable pub read_entry : Entry → Option Device
  read_entry (name, content) =
      if is_json_file name
      then (elim (content >>= λ t. Json.from_str j t >>= λ v. from_json j v) [
        | ok d ↦ some d
        | err e ↦ none
      ])
      else none

  unfoldable pub read_entries : List Entry → List Device
  read_entries [] = []
  read_entries (e ∷ es) = elim (read_entry e) [
    | some d ↦ d ∷ read_entries es
    | none ↦ read_entries es
  ]

  -- The directory's path, and what `read_dir` brings, less the entries that it could not read.
  unfoldable pub list : String → Result (List Entry) → Result (List Device)
  list path directory = do
    entries ← context (concat ("reading " ∷ path ∷ [])) directory
    ok (sort_by_paired_at (read_entries entries))

-- `c.is_ascii_alphanumeric() || *c == '-'`
abbrev pub is_safe : ℕ → Bool
is_safe n =
    (leb b'0' n && leb n b'9')
    || (leb b'a' n && leb n b'z')
    || (leb b'A' n && leb n b'Z')
    || n == b'-'

unfoldable pub safe_chars : String → String
safe_chars String.[] = ""
safe_chars (String.◌∷◌ c s) =
    let rest = safe_chars s in if is_safe (code c) then String.◌∷◌ c rest else rest

-- The file name of a record; the directory is in front of it.
unfoldable pub path_for : String → String
unfolding safe_chars
path_for id = concat (safe_chars id ∷ ".json" ∷ [])
