-- ===== src/Tests/Toys.antt =====
-- Small crates for the tests, which know a few texts, with the laws that they keep.
use kpasskey.Base.{
  Bool, true, replicate, ℕ, ◌≡◌, refl, ap, Option, none, some, List, [], ◌∷◌, String, if◌then◌else◌,
}
use kpasskey.Base.Errors.{Result, ok, bail}
use kpasskey.Base.Bytes.{Bytes, bytes_eq}
use kpasskey.External.{Json, JsonLaws, Crypto, Base64, last_named}
use text.Mathlib.Text.{◌==◌ as str_eq}

-- The only signature that is valid is the byte 7.
abbrev pub some_crypto : Crypto
some_crypto = record {
  PublicKey = String;
  VerifyingKey = String;
  Signature = Bytes;
  from_public_key_pem = ok;
  verifying_key = λ k. k;
  to_public_key_der = λ k. ok [];
  x = λ k. some (replicate 32 1);
  y = λ k. some (replicate 32 2);
  sha256 = λ m. replicate 32 171;
  from_der = ok;
  verify = λ k m s. if bytes_eq s (7 ∷ []) then ok tt else bail "signature";
}

abbrev pub some_base64 : Base64
some_base64 = record {
  encode = λ m. "Bw==";
  decode = λ s. ok (7 ∷ []);
  url_encode = λ m. "Bw";
  url_decode = λ s. ok (7 ∷ []);
}

-- JSON, whose printed form is the name of the last field, and which reads the texts of a table.
mutual
  pub data Item : Type 0 where
    word : String → Item
    count : ℕ → Item
    flag : Bool → Item
    fields : Items → Item

  pub data Items : Type 0 where
    end : Items
    entry : String → Item → Items → Items

abbrev items : List (String × Item) → Items
items [] = end
items ((k, v) ∷ es) = entry k v (items es)

abbrev entries : Items → List (String × Item)
entries end = []
entries (entry k v es) = (k, v) ∷ entries es

entries-items : (es : List (String × Item)) → entries (items es) ≡ es
entries-items [] = refl
entries-items ((k, v) ∷ es) = ap (◌∷◌ (k, v)) (entries-items es)

abbrev last_name : Items → String
last_name end = ""
last_name (entry k v end) = k
last_name (entry k v (entry l w es)) = last_name (entry l w es)

abbrev shown : Item → String
shown (fields es) = last_name es
shown v = ""

abbrev pub make : List (String × Item) → Item
make es = fields (items es)

abbrev pub request_token : List (String × Item)
request_token =
    ("token", word "Bw")
    ∷ ("model", word "m")
    ∷ ("securityLevel", word "TrustedEnvironment")
    ∷ ("verifiedBoot", word "green")
    ∷ ("publicKeyPem", word "pem")
    ∷ []

abbrev pub parsed : String → Result Item
parsed s =
    if str_eq s "detail"
    then ok (make (("user", word "a") ∷ ("action", word "b") ∷ ("detail", word "c") ∷ []))
    else if str_eq s "userName"
    then ok
        (make (("op", word "webauthn.makecred") ∷ ("rpId", word "a") ∷ ("userName", word "b") ∷ []))
    else if str_eq s "payload"
    then ok (
        make (
          ("op", word "webauthn.assert")
          ∷ ("rpId", word "a")
          ∷ ("credId", word "b")
          ∷ ("payload", word "c")
          ∷ []))
    else if str_eq s "reason"
    then ok (make (("ok", flag true) ∷ ("reason", word "success") ∷ []))
    else if str_eq s "sig"
    then ok (make (("ok", flag true) ∷ ("sig", word "Bw==") ∷ []))
    else if str_eq s "publicKeyPem"
    then ok (make (("ok", flag true) ∷ ("credId", word "id") ∷ ("publicKeyPem", word "pem") ∷ []))
    else if str_eq s "pair"
    then ok (make (("t", word "pair.request") ∷ request_token))
    else if str_eq s "reply"
    then ok (make (("id", count 1) ∷ ("sig", word "Bw==") ∷ []))
    else if str_eq s "device"
    then ok (
        make (
          ("id", word "abababababababababababababababab")
          ∷ ("name", word "n")
          ∷ ("model", word "m")
          ∷ ("owner", word "unknown")
          ∷ ("securityLevel", word "TrustedEnvironment")
          ∷ ("verifiedBoot", word "green")
          ∷ ("pairedAt", count 5)
          ∷ ("publicKeyPem", word "pem")
          ∷ []))
    else bail "json"

abbrev pub got : Item → String → Option Item
got (fields es) name = last_named name (entries es)
got v name = none

abbrev as_word : Item → Option String
as_word (word s) = some s
as_word v = none

abbrev as_count : Item → Option ℕ
as_count (count n) = some n
as_count v = none

abbrev as_flag : Item → Option Bool
as_flag (flag t) = some t
as_flag v = none

abbrev pub table_json : Json
table_json = record {
  Value = Item;
  from_str = parsed;
  to_string = shown;
  to_string_pretty = λ v. ok "device";
  get = got;
  as_str = as_word;
  as_u64 = as_count;
  as_bool = as_flag;
  object = make;
  text = word;
  number = count;
  boolean = flag;
  with_field = λ v name w. v;
}

pub table_laws : JsonLaws table_json
table_laws = record {
  as_str-text = λ s. refl;
  as_bool-boolean = λ t. refl;
  as_u64-number = λ n small. refl;
  get-object = λ es name. ap (last_named name) (entries-items es);
}
