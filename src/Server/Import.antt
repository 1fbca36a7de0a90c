-- ===== src/Server/Import.antt =====
-- daemon/crates/kpk-spike/src/server.rs: `import`, for a device that was paired by hand.
use kpasskey.Base.{
  ℕ, ◌<◌, ◌^◌, ◌≡◌, sym, true, false, Option, List, [], ◌∷◌, String, length, Bool-cases, inl, inr,
}
use kpasskey.Base.Errors.{Result, ok, err, context, unwrap_or, to_option, ◌>>=◌, ◌>>◌, Result-cases}
use kpasskey.Base.Bytes.{Bytes}
use kpasskey.Base.Text.{concat, is_empty}
use kpasskey.External.{Json, JsonLaws, Crypto}
use kpasskey.Link.{load_verifying_key, key_id}
use kpasskey.Link.Identity.{path_for-key_id}
use kpasskey.Store.{
  Device, Entry, to_json, path_for, is_json_file, extension, after_last_dot, or_here, safe_chars,
}
use kpasskey.Store.Listing.{IsStored}
use kpasskey.Store.Record.{from_json-to_json}
use kpasskey.Store.Saving
use kpasskey.Store.Saving.{Run, save_written, save_renamed}
use kpasskey.Store.Saving.Outcomes.{save-IsStored}

-- What the command line and the system give.
pub record Import : Type 0 where
  pub name : String
  pub model : String
  -- `Store::open`, and the reading of the key's file
  pub opened : Result (Unit {0})
  pub key_path : String
  pub key_file : Result String
  pub unix_time : Result ℕ
  pub user : Option String
  pub saving : Run

-- A text without characters names no record.
no_name : (id : String) → is_empty id ≡ true → is_json_file (path_for id) ≡ true → ⊥
unfolding path_for extension after_last_dot or_here concat safe_chars
no_name String.[] empty file = cc
no_name (String.◌∷◌ c s) empty file = cc

module _ (j : Json) (c : Crypto) (path : String) where
  abbrev pub imported : Import → String → String → Device
  imported i public_key_pem id = record {
    id = id;
    name = i.name;
    model = i.model;
    owner = unwrap_or "unknown" i.user;
    security_level = "TrustedEnvironment";
    verified_boot = "green";
    paired_at = unwrap_or 0 (to_option i.unix_time);
    public_key_pem = public_key_pem;
  }

  unfoldable pub imported_device : Import → Result Device
  imported_device i = do
    i.opened
    public_key_pem ← context (concat ("reading " ∷ i.key_path ∷ [])) i.key_file
    key ← context "that file is not a P-256 public key" (load_verifying_key c public_key_pem)
    id ← key_id c public_key_pem
    ok (imported i public_key_pem id)

  abbrev pub save_imported : Import → Result Device → List Entry → Result (Unit {0}) × List Entry
  save_imported i (err e) entries = (err e, entries)
  save_imported i (ok device) entries = Saving.save j path device i.saving entries

  unfoldable pub import : Import → List Entry → Result (Unit {0}) × List Entry
  import i entries = save_imported i (imported_device i) entries

  imported_device-eq_ok :
      (i : Import) (pem id : String) (device : Device)
      → i.key_file ≡ ok pem
      → key_id c pem ≡ ok id
      → imported_device i ≡ ok device
      → imported i pem id ≡ device
  unfolding imported_device
  imported_device-eq_ok i pem id device read_ named h = elim (Result-cases i.opened) [
    | inr (e, failed) ↦ absurd (cc (rw failed at h))
    | inl (u, opened) ↦ elim (Result-cases (load_verifying_key c pem)) [
      | inr (e, failed) ↦ absurd (cc (rw (opened, read_, failed) at h))
      | inl (key, loaded) ↦ cc (rw (opened, read_, loaded, named) at h)
    ]
  ]

  pub save-done :
      (device : Device) (run : Run) (entries : List Entry)
      → (Saving.save j path device run entries).0 ≡ ok tt
      → (run.wrote ≡ ok tt) × (run.renamed ≡ ok tt)
  unfolding Saving.save save_written save_renamed
  save-done device run entries h =
      elim (Result-cases (Json.to_string_pretty j (to_json j device))) [
        | inr (e, failed) ↦ absurd (cc (rw (failed, Saving.save) at h))
        | inl (text, printed) ↦ elim (Result-cases run.wrote) [
          | inr (e, failed) ↦ absurd (cc (rw (printed, Saving.save, failed, save_written) at h))
          | inl (u, wrote) ↦ elim (Result-cases run.renamed) [
            | inr (e, failed) ↦
                absurd
                  (cc (rw (printed, Saving.save, wrote, save_written, failed, save_renamed) at h))
            | inl (v, renamed) ↦ (wrote, renamed)
          ]
        ]
      ]

  pub named-not_empty :
      (pem id : String)
      → ((m : Bytes) → length (c.sha256 m) ≡ 32)
      → key_id c pem ≡ ok id
      → is_empty id ≡ false
  named-not_empty pem id whole named = elim (Bool-cases (is_empty id)) [
    | inr some_ ↦ some_
    | inl empty ↦
        let file : is_json_file (path_for id) ≡ true = (path_for-key_id c pem id whole named).1 in
        absurd (no_name id empty file)
  ]

  -- If serde_json finds the fields of the objects that `json!` builds and SHA-256 digests have 32
  -- bytes: when `import` succeeds for a key that has this id, at a time that is a u64, and the text
  -- printed for its record reads back as the record's value, the device stands in the directory
  -- afterwards, with the key, its id, and the name and model that were given.
  pub import-IsStored :
      (laws : JsonLaws j) (i : Import) (entries : List Entry) (pem id text : String)
      → ((m : Bytes) → length (c.sha256 m) ≡ 32)
      → unwrap_or 0 (to_option i.unix_time) < 2 ^ 64
      → i.key_file ≡ ok pem
      → key_id c pem ≡ ok id
      → Json.to_string_pretty j (to_json j (imported i pem id)) ≡ ok text
      → Json.from_str j text ≡ ok (to_json j (imported i pem id))
      → (import i entries).0 ≡ ok tt
      → IsStored j (import i entries).1 (imported i pem id)
  unfolding import
  import-IsStored laws i entries pem id text whole timely read_ named printed back h =
      elim (Result-cases (imported_device i)) [
        | inr (e, failed) ↦ absurd (cc (rw failed at h))
        | inl (device, found) ↦
            let same = imported_device-eq_ok i pem id device read_ named found in
            let (wrote, renamed) =
              save-done (imported i pem id) i.saving entries (rw (found, sym same) at h) in
            rw (found, sym same)
              (save-IsStored j path (imported i pem id) i.saving entries text wrote renamed
                (path_for-key_id c pem id whole named).1 printed
                (rw back (
                  from_json-to_json j laws (imported i pem id) (named-not_empty pem id whole named)
                    timely)))
      ]
