-- ===== src/Tests/Pam.antt =====
-- The properties of the socket of the PAM module at concrete lines.
use kpasskey.Base.{◌≡◌, ◌↔◌, refl, [], ◌∷◌, String}
use kpasskey.Base.Errors.{Result, Error, ok, err, bail, show_error, ◌>>=◌}
use kpasskey.Base.Text.{concat, trim, trim_start, trim_end}
use kpasskey.Fidolink
use kpasskey.Fidolink.{Exchange, NewCredential, creation_body, assertion_body}
use kpasskey.Link.{load_verifying_key}
use kpasskey.Store.{get_str}
use kpasskey.Server.Pam.{
  verify, make_credential, assert, probe_request, printed, read_request, created, fido_reply,
}
use kpasskey.Server.Pam.Clients.{read_request-clients}
use kpasskey.Server.Pam.Verdicts.{answering}
use kpasskey.Server.Pam.Helper.Creations.{HasCredential, make_credential-answered}
use kpasskey.Tests.Toys.{some_crypto, some_base64, table_json, table_laws, Item, word, make}

abbrev silent : String → Exchange
silent line = answering table_json table_laws some_crypto some_base64 ""

read_back : table_json.from_str (trim "detail\n") ≡ table_json.from_str "detail"
unfolding trim trim_start trim_end
read_back = refl

read_request-clients_example :
    (read_request table_json some_crypto some_base64 (ok 0) (
        ok (
          printed table_json some_crypto some_base64
            (probe_request table_json some_crypto some_base64 "a" "b" "c")))
      ≡ ok (verify "a" "b" "c"))
    × (read_request table_json some_crypto some_base64 (ok 0) (
          ok (printed table_json some_crypto some_base64 (creation_body table_json silent "a" "b")))
        ≡ ok (make_credential "a" "b"))
    × (read_request table_json some_crypto some_base64 (ok 0) (
          ok (
            printed table_json some_crypto some_base64
              (assertion_body table_json silent "a" "b" "c")))
        ≡ ok (assert "a" "b" "c"))
unfolding concat trim trim_start trim_end
read_request-clients_example =
    read_request-clients table_json table_laws some_crypto some_base64 silent 0 "a" "b" "c" refl
      refl refl

-- The phone's answer to a creation, which the daemon passes on.
abbrev new_key : Result Item
new_key = ok (make (("credId", word "id") ∷ ("publicKeyPem", word "pem") ∷ []))

abbrev made_by : String → Exchange
made_by line = answering table_json table_laws some_crypto some_base64 "publicKeyPem\n"

passed_on :
    made_by ""
    ≡ answering table_json table_laws some_crypto some_base64 (
        printed table_json some_crypto some_base64 (
          fido_reply table_json some_crypto some_base64
            (new_key >>= created table_json some_crypto some_base64)))
unfolding fido_reply created get_str load_verifying_key concat
passed_on = refl

make_credential-answered_example :
    ((made : NewCredential)
      → (Fidolink.make_credential table_json made_by "a" "b" ≡ ok made) ↔ (
          (reply : Item) × (new_key ≡ ok reply)
          × HasCredential table_json table_laws some_crypto some_base64 reply made))
    × ((e : Error)
        → (new_key >>= created table_json some_crypto some_base64) ≡ err e
        → Fidolink.make_credential table_json made_by "a" "b" ≡ bail (show_error e))
unfolding fido_reply created get_str load_verifying_key concat trim trim_start trim_end
make_credential-answered_example =
    make_credential-answered table_json table_laws some_crypto some_base64 made_by "a" "b" new_key
      passed_on refl
