-- ===== src/Store/Fields.antt =====
-- The fields of the objects that the program builds with `json!`.
use kpasskey.Base.{ℕ, ◌<◌, ◌^◌, ◌≡◌, refl, Bool, none, some, List, String}
use kpasskey.External.{Json, JsonLaws, last_named}
use kpasskey.Store.{get_str, get_u64, get_bool}

module _ (j : Json) (laws : JsonLaws j) where
  open j use {Value, object, text, number, boolean}
  open laws use {as_str-text, as_bool-boolean, as_u64-number, get-object}

  abbrev pub Fields : Type 0
  Fields = List (String × Value)

  pub get_str-object :
      (name s : String) (fields : Fields)
      → last_named name fields ≡ some (text s)
      → get_str j (object fields) name ≡ some s
  unfolding get_str
  get_str-object name s fields h = rw (get_str, get-object fields name, h, as_str-text s) refl

  pub get_str-missing :
      (name : String) (fields : Fields)
      → last_named name fields ≡ none
      → get_str j (object fields) name ≡ none
  unfolding get_str
  get_str-missing name fields h = rw (get_str, get-object fields name, h) refl

  pub get_bool-object :
      (name : String) (t : Bool) (fields : Fields)
      → last_named name fields ≡ some (boolean t)
      → get_bool j (object fields) name ≡ some t
  unfolding get_bool
  get_bool-object name t fields h = rw (get_bool, get-object fields name, h, as_bool-boolean t) refl

  pub get_u64-object :
      (name : String) (n : ℕ) (fields : Fields)
      → n < 2 ^ 64
      → last_named name fields ≡ some (number n)
      → get_u64 j (object fields) name ≡ some n
  unfolding get_u64
  get_u64-object name n fields fits h =
      rw (get_u64, get-object fields name, h, as_u64-number n fits) refl
