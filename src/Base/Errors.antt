-- ===== src/Base/Errors.antt =====
-- `anyhow::Result` with its context chain, and state that survives an error.
use Prim.Native.String.{String, ◌++◌ as str_append}
use mathlib.Core.Path.{◌≡◌, refl}
use mathlib.Core.Logic.{◌⊎◌, inl, inr}
use mathlib.Core.Option.{Option, none, some}
use mathlib.Core.List.{List, [], ◌∷◌}

-- An error is its messages, the outermost context first.
abbrev pub Error : Type 0
Error = List String

pub data Result {ℓ} (A : Type ℓ) : Type ℓ where
  ok : A → Result A
  err : Error → Result A

abbrev pub bail {ℓ} : {A : Type ℓ} → String → Result A
bail message = err (message ∷ [])

-- `.context(…)` on a result and on an option
abbrev pub context {ℓ} : {A : Type ℓ} → String → Result A → Result A
context message (ok a) = ok a
context message (err e) = err (message ∷ e)

abbrev pub or_context {ℓ} : {A : Type ℓ} → String → Option A → Result A
or_context message (some a) = ok a
or_context message none = err (message ∷ [])

-- `unwrap_or(default)`, the default first
abbrev pub unwrap_or {ℓ} : {A : Type ℓ} → A → Option A → A
unwrap_or d none = d
unwrap_or d (some a) = a

-- `.ok()`
abbrev pub to_option {ℓ} : {A : Type ℓ} → Result A → Option A
to_option (ok a) = some a
to_option (err e) = none

-- `{error:#}`: the messages, joined by ": "
unfoldable pub show_error : Error → String
show_error [] = ""
show_error (m ∷ []) = m
show_error (m ∷ n ∷ e) = str_append m (str_append ": " (show_error (n ∷ e)))

-- `?`
module _ {ℓ κ} {A : Type ℓ} {B : Type κ} where
  infixl 5 ◌>>=◌
  abbrev pub ◌>>=◌ : Result A → (A → Result B) → Result B
  ok value >>= next = next value
  err messages >>= next = err messages

  -- Inversion of a successful bind.
  pub >>=-eq-ok :
      (checked : Result A) (next : A → Result B) {result : B}
      → (checked >>= next) ≡ ok result
      → (value : A) × (checked ≡ ok value) × (next value ≡ ok result)
  >>=-eq-ok (ok value) next h = (value, refl, h)
  >>=-eq-ok (err messages) next h = cc

module _ {ℓ} {B : Type ℓ} where
  infixl 5 ◌>>◌
  abbrev pub ◌>>◌ : Result (Unit {0}) → Result B → Result B
  checked >> next = checked >>= λ u. next

module _ {ℓ} {A : Type ℓ} where
  pub context-eq_ok :
      (message : String) (r : Result A) {a : A} → context message r ≡ ok a → r ≡ ok a
  context-eq_ok message (ok b) h = h
  context-eq_ok message (err e) h = cc

  pub or_context-eq_ok :
      (message : String) (o : Option A) {a : A} → or_context message o ≡ ok a → o ≡ some a
  or_context-eq_ok message none h = cc
  or_context-eq_ok message (some b) h = cc

pub Result-cases {ℓ} :
    {A : Type ℓ} (result : Result A)
    → ((value : A) × (result ≡ ok value)) ⊎ ((messages : Error) × (result ≡ err messages))
Result-cases (ok value) = inl (value, refl)
Result-cases (err messages) = inr (messages, refl)
