-- ===== src/Tests/Tokens.antt =====
-- A CBOR of tokens for the tests, with its laws.
use kpasskey.Base.{
  ℕ, zero, suc, ◌≡◌, refl, ap, ◌∙◌, Bool-cases, Option-cases, inl, inr, Option, none, some, List,
  [], ◌∷◌, ◌++◌, String, length, take, drop, take-append, drop-append, if◌then◌else◌, subst, map,
  sym,
}
use kpasskey.Base.Int.{ℤ, pos, negsuc}
use kpasskey.Base.Errors.{Result, ok, bail, ◌>>=◌, >>=-eq-ok}
use kpasskey.Base.Bytes.{Bytes}
use kpasskey.External.{Cbor, CborLaws}
use text.Mathlib.Text.{◌==◌ as str_eq}
use text.Mathlib.TextEquality.{eq_iff}

pub data Token : Type 0 where
  number : ℕ → Token
  name : String → Token

abbrev numbers : Bytes → List Token
numbers [] = []
numbers (n ∷ ns) = number n ∷ numbers ns

abbrev numbers_of : List Token → Bytes
numbers_of [] = []
numbers_of (number n ∷ ts) = n ∷ numbers_of ts
numbers_of (name s ∷ ts) = numbers_of ts

numbers_of-numbers : (ns : Bytes) → numbers_of (numbers ns) ≡ ns
numbers_of-numbers [] = refl
numbers_of-numbers (n ∷ ns) = ap (◌∷◌ n) (numbers_of-numbers ns)

-- Each value is its size and its tokens.
abbrev pack : List (List Token × List Token) → List Token
pack [] = []
pack ((k, v) ∷ entries) = number (length k) ∷ (k ++ (number (length v) ∷ (v ++ pack entries)))

abbrev size : List Token → ℕ
size (number n ∷ ts) = n
size ts = 0

abbrev head : List Token → List Token
head ts = take (size ts) (drop 1 ts)

abbrev tail : List Token → List Token
tail ts = drop (size ts) (drop 1 ts)

abbrev unpack : ℕ → List Token → List (List Token × List Token)
unpack zero ts = []
unpack (suc n) ts = (head ts, head (tail ts)) ∷ unpack n (tail (tail ts))

head_lem : (v rest : List Token) → head (number (length v) ∷ (v ++ rest)) ≡ v
head_lem v rest = take-append (length v) v rest refl

tail_lem : (v rest : List Token) → tail (number (length v) ∷ (v ++ rest)) ≡ rest
tail_lem v rest = drop-append (length v) v rest refl

unpack-pack : (es : List (List Token × List Token)) → unpack (length es) (pack es) ≡ es
unpack-pack [] = refl
unpack-pack ((k, v) ∷ es) =
    let more : List Token = number (length v) ∷ (v ++ pack es) in
    λ i.
      (head_lem k more i, (ap head (tail_lem k more) ∙ head_lem v (pack es)) i)
      ∷ (ap (λ ts. unpack (length es) (tail ts)) (tail_lem k more)
            ∙ ap (unpack (length es)) (tail_lem v (pack es))
            ∙ unpack-pack es)
          i

-- The names that the toy can write.
abbrev nth : ℕ → String
nth zero = "none"
nth (suc zero) = "public-key"
nth (suc (suc zero)) = "type"
nth n = "id"

-- The number at which a name stands, if it is below a bound.
abbrev index : ℕ → String → Option ℕ
index zero s = none
index (suc n) s = let rest = index n s in if str_eq (nth n) s then some n else rest

nth-index : (bound : ℕ) (s : String) (n : ℕ) → index bound s ≡ some n → nth n ≡ s
nth-index zero s n h = cc
nth-index (suc k) s n h = elim (Bool-cases (str_eq (nth k) s)) [
  | inl same ↦ subst (λ m. nth m ≡ s) (found (rw same at h)) ((eq_iff (nth k) s).0 same)
  | inr other ↦ nth-index k s n (rw other at h)
]
  where
    found : some k ≡ some n → k ≡ n
    found e = cc

abbrev name_index : Option ℕ → Result ℕ
name_index none = bail "name"
name_index (some n) = ok n

unfoldable pub write : List Token → Result Bytes
write [] = ok []
write (number n ∷ ts) = do rest ← write ts; ok (0 ∷ n ∷ rest)
write (name s ∷ ts) = do n ← name_index (index 4 s); rest ← write ts; ok (1 ∷ n ∷ rest)

unfoldable pub read : Bytes → List Token
read (zero ∷ n ∷ rest) = number n ∷ read rest
read (suc k ∷ n ∷ rest) = name (nth n) ∷ read rest
read bytes = []

ok_inj : {a b : Bytes} → ok a ≡ ok b → a ≡ b
ok_inj e = cc

read-write : (ts : List Token) (bytes : Bytes) → write ts ≡ ok bytes → read bytes ≡ ts
unfolding write read
read-write [] bytes h = ap read (sym (ok_inj h))
read-write (number n ∷ ts) bytes h =
    let (rest, written, same) = >>=-eq-ok (write ts) (λ rest. ok (0 ∷ n ∷ rest)) h in
    ap read (sym (ok_inj same)) ∙ ap (◌∷◌ (number n)) (read-write ts rest written)
read-write (name s ∷ ts) bytes h = elim (Option-cases (index 4 s)) [
  | inl unknown ↦ cc (rw unknown at h)
  | inr (n, known) ↦
      let (rest, written, same) =
        >>=-eq-ok (write ts) (λ rest. ok (1 ∷ n ∷ rest)) (rw known at h) in
      ap read (sym (ok_inj same)) ∙ λ i.
      name (nth-index 4 s n known i) ∷ read-write ts rest written i
]

abbrev as_integer : List Token → Option ℤ
as_integer (number zero ∷ number n ∷ []) = some (pos n)
as_integer (number (suc zero) ∷ number n ∷ []) = some (negsuc n)
as_integer ts = none

abbrev integer : ℤ → List Token
integer (pos n) = number 0 ∷ number n ∷ []
integer (negsuc n) = number 1 ∷ number n ∷ []

abbrev as_bytes : List Token → Option Bytes
as_bytes (number (suc (suc zero)) ∷ ts) = some (numbers_of ts)
as_bytes ts = none

abbrev as_text : List Token → Option String
as_text (name s ∷ []) = some s
as_text ts = none

abbrev as_map : List Token → Option (List (List Token × List Token))
as_map (number (suc (suc (suc zero))) ∷ number n ∷ ts) = some (unpack n ts)
as_map ts = none

abbrev pub some_cbor : Cbor
some_cbor = record {
  Value = List Token;
  from_reader = λ bytes. ok (read bytes);
  into_writer = write;
  as_integer = as_integer;
  as_bytes = as_bytes;
  as_text = as_text;
  as_array = λ ts. elim (as_map ts) [ none ↦ none | some es ↦ some (map (λ e. e.1) es) ];
  as_map = as_map;
  integer = integer;
  byte_string = λ raw. number 2 ∷ numbers raw;
  text = λ s. name s ∷ [];
  map = λ es. number 3 ∷ number (length es) ∷ pack es;
}

pub some_laws : CborLaws some_cbor
some_laws = record {
  as_integer-integer = λ n small. refl;
  as_bytes-byte_string = λ raw. ap some (numbers_of-numbers raw);
  as_text-text = λ s. refl;
  as_map-map = λ es. ap some (unpack-pack es);
  from_reader-into_writer = λ ts bytes h. ap ok (read-write ts bytes h);
}
