-- ===== src/Server/Phone/Completed.antt =====
-- daemon/crates/kpk-spike/src/server.rs: what a completed pairing stands on.
use kpasskey.Base.{
  ◌<◌, ◌≡◌, refl, subst, none, some, ◌∷◌, String, if◌then◌else◌, Bool-cases, Option-cases, inl, inr,
}
use kpasskey.Base.Errors.{Result, ok, err, Result-cases}
use kpasskey.Base.Bytes.{Bytes}
use kpasskey.Base.Text.{is_empty}
use kpasskey.External.{Json, Crypto, Base64}
use kpasskey.Link.{load_verifying_key, key_id}
use kpasskey.Pairing.{PairingSession, Pairings, pairing_window, elapsed, take_matching}
use kpasskey.Store.{Device}
use kpasskey.Store.Saving
use kpasskey.Server.Phone.{
  Moment, Desk, send_line, read_token, new_device, described, text_field, paired_line, report_saved,
  store_device, admit, pair_session, pair_token, complete_pairing,
}
use kpasskey.Pairing.Window.{take_matching_iff, take_matching_closes}

send_line-done :
    {Key Value : Type 0} (line : String) (written : Result (Unit {0})) (d : Desk Key Value)
    → (send_line line written d).0 ≡ ok tt
    → (send_line line written d).1 ≡ record d { sent = line ∷ d.sent }
unfolding send_line
send_line-done line (err e) d h = elim (Bool-cases d.connected) [
  | inl open_ ↦ cc (rw open_ at h)
  | inr shut ↦ cc (rw shut at h)
]
send_line-done line (ok u) d h = elim (Bool-cases d.connected) [
  | inl open_ ↦ rw open_
  | inr shut ↦ cc (rw shut at h)
]

module _ (j : Json) (c : Crypto) (b : Base64) (path : String) where
  open j use {Value}
  open c use {VerifyingKey}

  -- What a device that was stored stands on: its key can be loaded, its id is the key's, and the
  -- rest is what the request, the session and the system gave.
  abbrev pub IsNamed : Value → PairingSession → Device → Type 0
  IsNamed value session device =
      (device.public_key_pem ≡ text_field j c b path value "publicKeyPem")
      × ((key : VerifyingKey) × (load_verifying_key c device.public_key_pem ≡ ok key))
      × (key_id c device.public_key_pem ≡ ok device.id)
      × (device.name
          ≡ (if is_empty session.label then text_field j c b path value "name" else session.label))

  new_device-IsNamed :
      (value : Value) (session : PairingSession) (moment : Moment) (device : Device)
      → new_device j c b path value session moment ≡ ok device
      → IsNamed value session device
  unfolding new_device
  new_device-IsNamed value session moment device h =
      elim (Result-cases (load_verifying_key c (text_field j c b path value "publicKeyPem"))) [
        | inr (e, failed) ↦ absurd (cc (rw failed at h))
        | inl (key, loaded) ↦
            elim (Result-cases (key_id c (text_field j c b path value "publicKeyPem"))) [
              | inr (e, failed) ↦ absurd (cc (rw (loaded, failed) at h))
              | inl (id, found) ↦
                  let same : described j c b path value session moment id ≡ device =
                    cc (rw (loaded, found) at h) in
                  subst (IsNamed value session) same (refl, (key, loaded), found, refl)
            ]
      ]

  -- The device is in the files that `save` left, the answer went out, and nothing else changed.
  abbrev pub IsStoredAt :
      Moment → Device → Desk VerifyingKey Value → Desk VerifyingKey Value → Type 0
  IsStoredAt moment device d d' =
      ((Saving.save j path device moment.saving d.files).0 ≡ ok tt)
      × (d' ≡ record d {
        files = (Saving.save j path device moment.saving d.files).1;
        sent = paired_line j c b path device ∷ d.sent;
      })

  store_device-done :
      (device : Device) (moment : Moment) (d : Desk VerifyingKey Value)
      → (store_device j c b path device moment d).0 ≡ ok tt
      → IsStoredAt moment device d (store_device j c b path device moment d).1
  unfolding store_device report_saved
  store_device-done device moment d h =
      elim (Result-cases (Saving.save j path device moment.saving d.files).0) [
        | inr (e, failed) ↦ absurd (cc (rw (failed, report_saved) at h))
        | inl (u, saved) ↦ (
          saved,
          rw (saved, report_saved)
              (send_line-done (paired_line j c b path device) moment.answered
                (record d { files = (Saving.save j path device moment.saving d.files).1 })
                (rw (saved, report_saved) at h)),
        )
      ]

  admit-done :
      (moment : Moment) (r : Result Device) (d : Desk VerifyingKey Value)
      → (admit j c b path moment r d).0 ≡ ok tt
      → (device : Device) × (r ≡ ok device)
        × IsStoredAt moment device d (admit j c b path moment r d).1
  unfolding admit
  admit-done moment (err e) d h = cc
  admit-done moment (ok device) d h =
      let (saved, now_) = store_device-done device moment d h in (device, refl, (saved, now_))

  pair_token-done :
      (moment : Moment) (r : Result (Value × Bytes)) (d : Desk VerifyingKey Value)
      → (pair_token j c b path moment r d).0 ≡ ok tt
      → (value : Value) × (token : Bytes) × (session : PairingSession) × (device : Device) × (r
          ≡ ok (value, token))
        × ((take_matching token moment.now d.pairings).0 ≡ some session)
        × (new_device j c b path value session moment ≡ ok device)
        × IsStoredAt moment device
            (record d { pairings = (take_matching token moment.now d.pairings).1 })
            (pair_token j c b path moment r d).1
  unfolding pair_token pair_session
  pair_token-done moment (err e) d h = cc
  pair_token-done moment (ok (value, token)) d h =
      elim (Option-cases (take_matching token moment.now d.pairings).0) [
        | inl nothing ↦ absurd (cc (rw (nothing, pair_session) at h))
        | inr (session, taken) ↦
            let (device, made, (saved, now_)) =
              admit-done moment (new_device j c b path value session moment)
                (record d { pairings = (take_matching token moment.now d.pairings).1 })
                (rw (taken, pair_session) at h) in
            (
              value,
              token,
              session,
              device,
              refl,
              taken,
              made,
              (saved, rw (taken, pair_session) now_),
            )
      ]

  -- When `complete_pairing` succeeds: the line held a request with a token, a window was open whose
  -- 120 seconds were not over and whose token it is, and it is closed afterwards; the device
  -- that was saved has the request's key, which can be loaded, and the id of that key, and is named by
  -- the window's label, or by the request if that is empty; the save succeeded, the phone was told,
  -- and nothing else changed.
  pub complete_pairing-IsStored :
      (line : String) (moment : Moment) (d : Desk VerifyingKey Value)
      → (complete_pairing j c b path line moment d).0 ≡ ok tt
      → (value : Value) × (token : Bytes) × (session : PairingSession) × (device : Device)
        × (pairings : Pairings) × (read_token j c b path line ≡ ok (value, token))
        × (d.pairings.current ≡ some session)
        × (elapsed session moment.now < pairing_window)
        × (session.token ≡ token)
        × (pairings.current ≡ none)
        × IsNamed value session device
        × IsStoredAt moment device
            (record d { pairings = pairings })
            (complete_pairing j c b path line moment d).1
  unfolding complete_pairing
  complete_pairing-IsStored line moment d h =
      let (value, token, session, device, read_, taken, made, stored) =
        pair_token-done moment (read_token j c b path line) d h in
      let (open_, in_time, matching) =
        (take_matching_iff token moment.now d.pairings session).0 taken in
      (
        value,
        token,
        session,
        device,
        (take_matching token moment.now d.pairings).1,
        read_,
        open_,
        in_time,
        matching,
        take_matching_closes token moment.now d.pairings session taken,
        new_device-IsNamed value session moment device made,
        stored,
      )
