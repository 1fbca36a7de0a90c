-- ===== src/Server/Phone.antt =====
-- daemon/crates/kpk-spike/src/server.rs: the phone's connection, and the pairing that it completes.
use kpasskey.Base.{ℕ, Bool, true, false, Option, none, some, List, [], ◌∷◌, String, if◌then◌else◌}
use kpasskey.Base.Errors.{
  Error, Result, ok, err, context, or_context, to_option, unwrap_or, show_error, ◌>>=◌,
}
use kpasskey.Base.Bytes.{Bytes}
use kpasskey.Base.Text.{concat, is_empty, trim}
use kpasskey.External.{Json, Crypto, Base64}
use kpasskey.Link.{load_verifying_key, key_id}
use kpasskey.Pairing.{PairingSession, Pairings, take_matching}
use kpasskey.Store.{Device, Entry, get_str}
use kpasskey.Store.Saving
use kpasskey.Store.Saving.{Run}
use kpasskey.Server.{Daemon, deliver}
use text.Mathlib.Text.{◌==◌ as str_eq}
pub mod Windows
pub mod Completed
pub mod Ready

-- What the system gives while one line of the phone is dealt with: the times, the variable USER, the
-- file operations, and the writes of the answer and of a refusal.
pub record Moment : Type 0 where
  pub now : ℕ
  pub unix_time : Result ℕ
  pub user : Option String
  pub saving : Run
  pub answered : Result (Unit {0})
  pub refused : Result (Unit {0})

-- The daemon with what it shares: the pairing window, the files of the device directory, and the
-- phone's socket, if there is one, with the lines written to it.
pub record Desk (Key Value : Type 0) : Type 0 where
  pub daemon : Daemon Key Value
  pub pairings : Pairings
  pub files : List Entry
  pub connected : Bool
  pub sent : List String

module _ {Key Value : Type 0} where
  -- The write and the flush are one.
  unfoldable pub send_line :
      String → Result (Unit {0}) → Desk Key Value → Result (Unit {0}) × Desk Key Value
  send_line line (err e) d = (if d.connected then err e else err ("no phone connected" ∷ []), d)
  send_line line (ok u) d =
      if d.connected
      then (ok tt, record d { sent = line ∷ d.sent })
      else (err ("no phone connected" ∷ []), d)

abbrev pub is_kind : Option String → String → Bool
is_kind none name = false
is_kind (some s) name = str_eq s name

module _ (j : Json) (c : Crypto) (b : Base64) (path : String) where
  open j use {Value, from_str, to_string, object, text, boolean}
  open b use {url_decode}
  open c use {VerifyingKey}

  abbrev pub text_field : Value → String → String
  text_field value name = unwrap_or "" (get_str j value name)

  -- The token of a `pair.request`.
  unfoldable pub read_token : String → Result (Value × Bytes)
  read_token line = do
    value ← context "invalid pair.request" (from_str line)
    token ← context "pairing token is not base64url" (url_decode (text_field value "token"))
    ok (value, token)

  abbrev pub described : Value → PairingSession → Moment → String → Device
  described value session moment id = record {
    id = id;
    name = if is_empty session.label then text_field value "name" else session.label;
    model = text_field value "model";
    owner = unwrap_or "unknown" moment.user;
    security_level = text_field value "securityLevel";
    verified_boot = text_field value "verifiedBoot";
    paired_at = unwrap_or 0 (to_option moment.unix_time);
    public_key_pem = text_field value "publicKeyPem";
  }

  unfoldable pub new_device : Value → PairingSession → Moment → Result Device
  new_device value session moment = do
    key ←
        context "device sent an unusable public key"
          (load_verifying_key c (text_field value "publicKeyPem"))
    id ← key_id c (text_field value "publicKeyPem")
    ok (described value session moment id)

  abbrev pub paired_line : Device → String
  paired_line device =
      to_string
        (object (("t", text "pair.result") ∷ ("ok", boolean true) ∷ ("id", text device.id) ∷ []))

  abbrev pub Step : Type 0
  Step = Desk VerifyingKey Value → Result (Unit {0}) × Desk VerifyingKey Value

  unfoldable pub report_saved : Device → Moment → Result (Unit {0}) → Step
  report_saved device moment (err e) d = (err e, d)
  report_saved device moment (ok u) d = send_line (paired_line device) moment.answered d

  unfoldable pub store_device : Device → Moment → Step
  store_device device moment d =
      let (saved, files) = Saving.save j path device moment.saving d.files in
      report_saved device moment saved (record d { files = files })

  unfoldable pub admit : Moment → Result Device → Step
  admit moment (err e) d = (err e, d)
  admit moment (ok device) d = store_device device moment d

  unfoldable pub pair_session : Value → Moment → Option PairingSession → Step
  pair_session value moment none d = (err ("no matching pairing window is open" ∷ []), d)
  pair_session value moment (some session) d = admit moment (new_device value session moment) d

  unfoldable pub pair_token : Moment → Result (Value × Bytes) → Step
  pair_token moment (err e) d = (err e, d)
  pair_token moment (ok (value, token)) d =
      let (session, pairings) = take_matching token moment.now d.pairings in
      pair_session value moment session (record d { pairings = pairings })

  unfoldable pub complete_pairing : String → Moment → Step
  complete_pairing line moment d = pair_token moment (read_token line) d

  abbrev pub refusal_line : Error → String
  refusal_line e = to_string (
      object
        (("t", text "pair.result") ∷ ("ok", boolean false) ∷ ("reason", text (show_error e)) ∷ []))

  unfoldable pub report_refused :
      Moment → Result (Unit {0}) × Desk VerifyingKey Value → Desk VerifyingKey Value
  report_refused moment (ok u, d) = d
  report_refused moment (err e, d) = (send_line (refusal_line e) moment.refused d).1

  -- The field "t" of a line.
  unfoldable pub kind_of : String → Option String
  kind_of line = elim (to_option (from_str line)) [ none ↦ none | some v ↦ get_str j v "t" ]

  unfoldable pub on_phone_message :
      String → Moment → Desk VerifyingKey Value → Desk VerifyingKey Value
  on_phone_message line moment d =
      if is_kind (kind_of line) "pair.request"
      then report_refused moment (complete_pairing line moment d)
      else record d { daemon = deliver j c b line d.daemon }

  -- One line as it was read.
  unfoldable pub on_line : String → Moment → Desk VerifyingKey Value → Desk VerifyingKey Value
  on_line raw moment d =
      let line = trim raw in if is_empty line then d else on_phone_message line moment d

  -- The task of `adopt_phone` over what its reads bring: a line, or none at the end or at an error.
  unfoldable pub listen :
      List (Option String × Moment) → Desk VerifyingKey Value → Desk VerifyingKey Value
  listen [] d = d
  listen ((none, moment) ∷ reads) d = d
  listen ((some raw, moment) ∷ reads) d = listen reads (on_line raw moment d)

  -- A new connection takes the place of the old one.
  unfoldable pub adopt_phone :
      List (Option String × Moment) → Desk VerifyingKey Value → Desk VerifyingKey Value
  adopt_phone reads d = listen reads (record d { connected = true })
