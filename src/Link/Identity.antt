-- ===== src/Link/Identity.antt =====
-- daemon/crates/kpk-spike/src/link.rs and store.rs: a device's id is a file name that `list` reads.
use Prim.Native.Char.{Char, code}
use Prim.Native.String.{◌++◌ as str_append}
use Prim.Native.String.append
use kpasskey.Base.{
  ℕ, zero, suc, ◌/◌, ◌%◌, ◌≡◌, ◌≢◌, ◌<◌, refl, ap, sym, subst, ◌∙◌, true, false, some, none, List,
  [], ◌∷◌, String, All, get_or, length, length-take, arith,
}
use kpasskey.Base
use kpasskey.Base.Errors.{ok, context, ◌>>=◌, >>=-eq-ok}
use kpasskey.Base.Bytes.{Bytes}
use kpasskey.Base.Text.{concat}
use kpasskey.External.{Crypto}
use kpasskey.Link.{hex_digit, hex, spki_digest, key_id, id_bytes}
use kpasskey.Store.{is_safe, safe_chars, path_for, after_last_dot, or_here, extension, is_json_file}

-- The text is one character, which the filter of `path_for` keeps.
abbrev IsSafe : String → Type 0
IsSafe s = (c : Char) × (s ≡ String.◌∷◌ c "") × (is_safe (code c) ≡ true)

get_or-All :
    (P : String → Type 0) (ss : List String) (n : ℕ) (d : String)
    → All P ss
    → P d
    → P (get_or ss n d)
get_or-All P [] n d h k = k
get_or-All P (s ∷ ss) zero d h k = h.0
get_or-All P (s ∷ ss) (suc n) d h k = get_or-All P ss n d h.1 k

hex_digit-IsSafe : (n : ℕ) → IsSafe (hex_digit n)
hex_digit-IsSafe n =
    get_or-All IsSafe
      ("0" ∷ "1" ∷ "2" ∷ "3" ∷ "4" ∷ "5" ∷ "6" ∷ "7" ∷ "8" ∷ "9" ∷ "a" ∷ "b" ∷ "c" ∷ "d" ∷ "e" ∷ "f"
        ∷ [])
      n "0"
      (
        (_, refl, refl),
        (
          (_, refl, refl),
          (
            (_, refl, refl),
            (
              (_, refl, refl),
              (
                (_, refl, refl),
                (
                  (_, refl, refl),
                  (
                    (_, refl, refl),
                    (
                      (_, refl, refl),
                      (
                        (_, refl, refl),
                        (
                          (_, refl, refl),
                          (
                            (_, refl, refl),
                            (
                              (_, refl, refl),
                              (
                                (_, refl, refl),
                                ((_, refl, refl), ((_, refl, refl), ((_, refl, refl), tt))),
                              ),
                            ),
                          ),
                        ),
                      ),
                    ),
                  ),
                ),
              ),
            ),
          ),
        ),
      )
      (_, refl, refl)

-- A digit in front of a text.
digit-append :
    (n : ℕ) (t : String) → str_append (hex_digit n) t ≡ String.◌∷◌ (hex_digit-IsSafe n).0 t
digit-append n t =
    let (c, same, safe) = hex_digit-IsSafe n in
    ap (λ s. str_append s t) same ∙ append.cons c "" t ∙ ap (String.◌∷◌ c) (append.nil t)

safe_chars-digit :
    (n : ℕ) (t : String)
    → safe_chars (str_append (hex_digit n) t) ≡ str_append (hex_digit n) (safe_chars t)
unfolding safe_chars
safe_chars-digit n t =
    let (c, same, safe) = hex_digit-IsSafe n in
    ap safe_chars (digit-append n t)
    ∙ (rw (safe, safe_chars) refl)
    ∙ sym (digit-append n (safe_chars t))

safe_chars-hex : (bytes : Bytes) → safe_chars (hex bytes) ≡ hex bytes
unfolding safe_chars hex
safe_chars-hex [] = refl
safe_chars-hex (n ∷ bytes) =
    safe_chars-digit (n / 16) (str_append (hex_digit (n % 16)) (hex bytes))
    ∙ ap (str_append (hex_digit (n / 16))) (
        safe_chars-digit (n % 16) (hex bytes)
        ∙ ap (str_append (hex_digit (n % 16))) (safe_chars-hex bytes))

after_last_dot-json : (s : String) → after_last_dot (str_append s ".json") ≡ some "json"
unfolding after_last_dot or_here
after_last_dot-json String.[] = ap after_last_dot (append.nil ".json")
after_last_dot-json (String.◌∷◌ c s) =
    ap after_last_dot (append.cons c s ".json")
    ∙ ap (or_here (code c) (str_append s ".json")) (after_last_dot-json s)

extension-hex :
    (n : ℕ) (bytes : Bytes) → extension (str_append (hex (n ∷ bytes)) ".json") ≡ some "json"
unfolding hex extension
extension-hex n bytes =
    let rest = str_append (hex_digit (n % 16)) (hex bytes) in
    let c = (hex_digit-IsSafe (n / 16)).0 in
    ap (λ s. extension (str_append s ".json")) (digit-append (n / 16) rest)
    ∙ ap extension (append.cons c rest ".json")
    ∙ after_last_dot-json rest

json_file : (name : String) → extension name ≡ some "json" → is_json_file name ≡ true
json_file name h = rw (h, is_json_file) refl

path_for-hex :
    (bytes : Bytes)
    → 0 < length bytes
    → (path_for (hex bytes) ≡ str_append (hex bytes) ".json")
      × (is_json_file (path_for (hex bytes)) ≡ true)
unfolding path_for concat
path_for-hex [] h = absurd (omega arith)
path_for-hex (n ∷ bytes) h =
    let same = ap (λ s. str_append s ".json") (safe_chars-hex (n ∷ bytes)) in
    (
      same,
      ap is_json_file same
          ∙ json_file (str_append (hex (n ∷ bytes)) ".json") (extension-hex n bytes),
    )

module _ (c : Crypto) where
  open c use {sha256}

  spki_digest-length :
      (pem : String) (digest : Bytes)
      → ((m : Bytes) → length (sha256 m) ≡ 32)
      → spki_digest c pem ≡ ok digest
      → length digest ≡ 32
  unfolding spki_digest
  spki_digest-length pem digest whole h =
      let (public, parsed, rest) =
        >>=-eq-ok (context "device public key is not a P-256 SPKI PEM" (c.from_public_key_pem pem))
          (λ public.
            context "re-encoding the device key as SPKI DER" (c.to_public_key_der public) >>= λ der.
            ok (sha256 der))
          h in
      let (der, encoded, digested) =
        >>=-eq-ok (context "re-encoding the device key as SPKI DER" (c.to_public_key_der public))
          (λ der. ok (sha256 der)) rest in
      let equal : sha256 der ≡ digest = cc in subst (λ d. length d ≡ 32) equal (whole der)

  -- If every SHA-256 digest has 32 bytes: the id of a key is kept whole by `path_for`, and the
  -- name that it makes of it is one that `list` reads.
  pub path_for-key_id :
      (pem id : String)
      → ((m : Bytes) → length (sha256 m) ≡ 32)
      → key_id c pem ≡ ok id
      → (path_for id ≡ str_append id ".json") × (is_json_file (path_for id) ≡ true)
  unfolding key_id
  path_for-key_id pem id whole h =
      let (digest, found, named) =
        >>=-eq-ok (spki_digest c pem) (λ d. ok (hex (Base.take id_bytes d))) h in
      let bytes = Base.take id_bytes digest in
      let long : 0 < length bytes =
        omega (arith, spki_digest-length pem digest whole found, length-take id_bytes digest) in
      let equal : hex bytes ≡ id = cc in
      subst (λ s. (path_for s ≡ str_append s ".json") × (is_json_file (path_for s) ≡ true)) equal
        (path_for-hex bytes long)
