-- ===== src/Server/Phone/Ready.antt =====
-- daemon/crates/kpk-spike/src/server.rs: when a pairing succeeds.
use kpasskey.Base.{◌<◌, ◌≡◌, ◌≢◌, true, some, [], List, ◌∷◌, String}
use kpasskey.Base.Bytes.{Bytes}
use kpasskey.Base.Errors.{ok, unwrap_or}
use kpasskey.External.{Json, Crypto, Base64}
use kpasskey.Link.{load_verifying_key, key_id}
use kpasskey.Store.{Device, get_str}
use kpasskey.Pairing.{PairingSession, pairing_window, elapsed}
use kpasskey.Store.Saving
use kpasskey.Server.Phone.{Moment, Desk, read_token, described, text_field}

module _ (j : Json) (c : Crypto) (b : Base64) (path : String) where
  open j use {Value}
  open c use {VerifyingKey}

  -- What has to hold for a `pair.request` to succeed: the line is a request with the token of the
  -- window, whose 120 seconds are not over, its key can be loaded and named, the record can be saved,
  -- and the phone can be told.
  abbrev pub IsReady :
      String → Moment → Desk VerifyingKey Value → Value → PairingSession → String → Type 0
  IsReady line moment d value session id =
      (read_token j c b path line ≡ ok (value, session.token))
      × (d.pairings.current ≡ some session)
      × (elapsed session moment.now < pairing_window)
      × ((key : VerifyingKey) × (load_verifying_key c (text_field j c b path value "publicKeyPem")
            ≡ ok key))
      × (key_id c (text_field j c b path value "publicKeyPem") ≡ ok id)
      × ((Saving.save j path (described j c b path value session moment id) moment.saving d.files).0
          ≡ ok tt)
      × (d.connected ≡ true)
      × (moment.answered ≡ ok tt)

  -- The device has the key of the request, the id that goes with it, the name of the window's label or,
  -- if that is empty, of the request, the user that runs the daemon, and the time of the pairing.
  abbrev pub IsPaired : Value → PairingSession → Moment → String → Device → Type 0
  IsPaired value session moment id device =
      (device.id ≡ id)
      × (some device.public_key_pem ≡ get_str j value "publicKeyPem")
      × (session.label ≢ "" → device.name ≡ session.label)
      × (session.label ≡ "" → device.name ≡ unwrap_or "" (get_str j value "name"))
      × (device.owner ≡ unwrap_or "unknown" moment.user)
      × (moment.unix_time ≡ ok device.paired_at)

  abbrev told_fields : String → List (String × Value)
  told_fields id = ("t", j.text "pair.result") ∷ ("ok", j.boolean true) ∷ ("id", j.text id) ∷ []

  abbrev told_value : String → Value
  told_value id = j.object (told_fields id)
