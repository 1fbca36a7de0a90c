-- ===== src/Tests/SelfTest.antt =====
-- The property of the self test, with keys that sign by writing their name and the message.
use kpasskey.Base.{ℕ, ◌≡◌, refl, none, [], ◌∷◌, String, if◌then◌else◌}
use kpasskey.Base.Errors.{ok, bail}
use kpasskey.Base.Bytes.{Bytes, bytes_eq, bytes_eq_refl}
use kpasskey.Base.Text.{as_bytes, concat, replace, trim, trim_start, trim_end}
use kpasskey.External.{Crypto, Signing, SigningLaws, Json}
use kpasskey.Link.{verify_assertion}
use kpasskey.Pairing.{hostname}
use kpasskey.Protocol.{VerifyRequest, new_request, to_line}
use kpasskey.Server.SelfTest.{check_line, self_test, IsTelling, self_test-IsTelling}
use kpasskey.Tests.Toys.{some_base64}

-- A key is a byte, which stands in front of the message in a signature.
abbrev signed_by : ℕ → String → Bytes
signed_by key message = key ∷ as_bytes message

abbrev strict_crypto : Crypto
strict_crypto = record {
  PublicKey = ℕ;
  VerifyingKey = ℕ;
  Signature = Bytes;
  from_public_key_pem = λ pem. bail "pem";
  verifying_key = λ k. k;
  to_public_key_der = λ k. ok [];
  x = λ k. none;
  y = λ k. none;
  sha256 = λ m. [];
  from_der = ok;
  verify = λ k m s. if bytes_eq s (signed_by k m) then ok tt else bail "signature";
}

abbrev strict_signing : Signing strict_crypto
strict_signing = record { SigningKey = ℕ; public_of = λ k. k; sign = signed_by; to_der = λ s. s }

strict_laws : SigningLaws strict_crypto strict_signing
strict_laws = record {
  from_der-to_der = λ s. refl;
  verify-sign = λ key message. rw (bytes_eq_refl (signed_by key message)) refl;
}

abbrev tester_json : Json
tester_json = record {
  Value = Unit {0};
  from_str = λ s. bail "json";
  to_string = λ v. "{\"user\":\"tester\"}";
  to_string_pretty = λ v. bail "json";
  get = λ v name. none;
  as_str = λ v. none;
  as_u64 = λ v. none;
  as_bool = λ v. none;
  object = λ fields. tt;
  text = λ s. tt;
  number = λ n. tt;
  boolean = λ t. tt;
  with_field = λ v name w. tt;
}

passes :
    self_test tester_json strict_crypto some_base64 strict_signing 1 2 (ok []) (ok "desk") ≡ ok tt
unfolding self_test check_line verify_assertion replace new_request to_line hostname concat trim
    trim_start trim_end bytes_eq as_bytes
passes = refl

self_test-IsTelling_example :
    (request : VerifyRequest) × (new_request 1 "tester" "self-test" "ephemeral key"
        (ok [])
        (ok "desk")
      ≡ ok request)
    × IsTelling tester_json strict_crypto some_base64 strict_signing strict_laws 1 2
        (to_line tester_json some_base64 request)
self_test-IsTelling_example =
    self_test-IsTelling tester_json strict_crypto some_base64 strict_signing strict_laws 1 2 (ok [])
      (ok "desk") passes
