-- ===== src/Protocol.antt =====
-- daemon/crates/kpk-spike/src/protocol.rs: the signed request, and the phone's answer.
use kpasskey.Base.{ℕ, Option, none, some, [], ◌∷◌, String}
use kpasskey.Base.Errors.{Result, ok, context, or_context, ◌>>=◌}
use kpasskey.Base.Bytes.{Bytes}
use kpasskey.External.{Json, Base64}
use kpasskey.Store.{get_str, get_u64}
use kpasskey.Pairing.{hostname}

pub record VerifyRequest : Type 0 where
  pub id : ℕ
  pub challenge : Bytes
  pub user : String
  pub host : String
  pub action : String
  pub detail : String

-- `VerifyRequest::new`: the random bytes and the host's name are what the system gave.
unfoldable pub new_request :
    ℕ → String → String → String → Result Bytes → Result String → Result VerifyRequest
new_request id user action detail challenge host = do
  bytes ← context "drawing a challenge from the OS CSPRNG" challenge
  ok (record {
    id = id;
    challenge = bytes;
    user = user;
    host = hostname host;
    action = action;
    detail = detail;
  })

pub record VerifyResponse : Type 0 where
  pub id : ℕ
  pub signature : Bytes
  pub denied : Option String

module _ (j : Json) (b : Base64) where
  open j use {to_string, object, text, number, from_str}
  open b use {encode, decode}

  unfoldable pub to_line : VerifyRequest → String
  to_line r = to_string (
      object (
        ("v", number 1)
        ∷ ("type", text "verify.request")
        ∷ ("id", number r.id)
        ∷ ("challenge", text (encode r.challenge))
        ∷ ("user", text r.user)
        ∷ ("host", text r.host)
        ∷ ("action", text r.action)
        ∷ ("detail", text r.detail)
        ∷ []))

  unfoldable pub signed_response : ℕ → Option String → Result VerifyResponse
  signed_response id sig = do
    encoded ← or_context "response has neither sig nor denied" sig
    signature ← context "sig is not valid base64" (decode encoded)
    ok (record { id = id; signature = signature; denied = none })

  unfoldable pub parse_response : String → Result VerifyResponse
  parse_response line = do
    value ← context "phone sent invalid JSON" (from_str line)
    id ← or_context "response has no id" (get_u64 j value "id")
    elim (get_str j value "denied") [
      | some reason ↦ ok (record { id = id; signature = []; denied = some reason })
      | none ↦ signed_response id (get_str j value "sig")
    ]
