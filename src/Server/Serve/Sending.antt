-- ===== src/Server/Serve/Sending.antt =====
-- daemon/crates/kpk-spike/src/server.rs: writing to the phone, and a pairing, leave the daemon's
-- tasks as they are, and the lines that were written stay written.
use kpasskey.Base.{◌≡◌, ◌∙◌, refl, none, some, Option, String, In, inl, inr, Bool-cases}
use kpasskey.Base.Bytes.{Bytes}
use kpasskey.Base.Errors.{Result, ok, err}
use kpasskey.External.{Json, Crypto, Base64}
use kpasskey.Pairing.{PairingSession, take_matching}
use kpasskey.Store.{Device}
use kpasskey.Store.Saving
use kpasskey.Server.Phone.{
  Moment, Desk, send_line, read_token, new_device, report_saved, store_device, admit, pair_session,
  pair_token, complete_pairing, report_refused, refusal_line, paired_line,
}

module _ {Key Value : Type 0} where
  -- A line that was written before is among those written afterwards.
  abbrev pub Keeps : Desk Key Value → Desk Key Value → Type 0
  Keeps d after = (line : String) → In line d.sent → In line after.sent

  pub send_line-Keeps :
      (line : String) (write : Result (Unit {0})) (d : Desk Key Value)
      → Keeps d (send_line line write d).1
  unfolding send_line
  send_line-Keeps line (err e) d other i = i
  send_line-Keeps line (ok u) d other i = elim (Bool-cases d.connected) [
    | inl there ↦ rw there (inr i)
    | inr away ↦ rw away i
  ]

  -- A line whose writing succeeded was written.
  pub send_line-In :
      (line : String) (write : Result (Unit {0})) (d : Desk Key Value) {u : Unit {0}}
      → (send_line line write d).0 ≡ ok u
      → In line (send_line line write d).1.sent
  unfolding send_line
  send_line-In line (err e) d h = elim (Bool-cases d.connected) [
    | inl there ↦ absurd (cc (rw there at h))
    | inr away ↦ absurd (cc (rw away at h))
  ]
  send_line-In line (ok u) d h = elim (Bool-cases d.connected) [
    | inl there ↦ rw there (inl refl)
    | inr away ↦ absurd (cc (rw away at h))
  ]

module _ (j : Json) (c : Crypto) (b : Base64) (path : String) where
  open j use {Value}
  open c use {VerifyingKey}

  abbrev Phone : Type 0
  Phone = Desk VerifyingKey Value

  report_saved-Keeps :
      (device : Device) (moment : Moment) (saved : Result (Unit {0})) (d : Phone)
      → Keeps d (report_saved j c b path device moment saved d).1
  unfolding report_saved
  report_saved-Keeps device moment (err e) d line i = i
  report_saved-Keeps device moment (ok u) d line i =
      send_line-Keeps (paired_line j c b path device) moment.answered d line i

  admit-Keeps :
      (moment : Moment) (device : Result Device) (d : Phone)
      → Keeps d (admit j c b path moment device d).1
  unfolding admit store_device
  admit-Keeps moment (err e) d line i = i
  admit-Keeps moment (ok device) d line i =
      let saved = Saving.save j path device moment.saving d.files in
      report_saved-Keeps device moment saved.0 (record d { files = saved.1 }) line i

  pair_session-Keeps :
      (value : Value) (moment : Moment) (session : Option PairingSession) (d : Phone)
      → Keeps d (pair_session j c b path value moment session d).1
  unfolding pair_session
  pair_session-Keeps value moment none d line i = i
  pair_session-Keeps value moment (some session) d line i =
      admit-Keeps moment (new_device j c b path value session moment) d line i

  pair_token-Keeps :
      (moment : Moment) (asked : Result (Value × Bytes)) (d : Phone)
      → Keeps d (pair_token j c b path moment asked d).1
  unfolding pair_token
  pair_token-Keeps moment (err e) d line i = i
  pair_token-Keeps moment (ok (value, token)) d line i =
      let taken = take_matching token moment.now d.pairings in
      pair_session-Keeps value moment taken.0 (record d { pairings = taken.1 }) line i

  report_refused-Keeps :
      (moment : Moment) (r : Result (Unit {0}) × Phone)
      → Keeps r.1 (report_refused j c b path moment r)
  unfolding report_refused
  report_refused-Keeps moment (ok u, d) line i = i
  report_refused-Keeps moment (err e, d) line i =
      send_line-Keeps (refusal_line j c b path e) moment.refused d line i

  pub pairing-Keeps :
      (line : String) (moment : Moment) (d : Phone)
      → Keeps d (report_refused j c b path moment (complete_pairing j c b path line moment d))
  unfolding complete_pairing
  pairing-Keeps line moment d other i =
      report_refused-Keeps moment (complete_pairing j c b path line moment d) other
        (pair_token-Keeps moment (read_token j c b path line) d other i)

  pub send_line-daemon :
      (line : String) (write : Result (Unit {0})) (d : Phone)
      → (send_line line write d).1.daemon ≡ d.daemon
  unfolding send_line
  send_line-daemon line (err e) d = refl
  send_line-daemon line (ok u) d = elim (Bool-cases d.connected) [
    | inl there ↦ rw there refl
    | inr away ↦ rw away refl
  ]

  -- A pairing does not touch the daemon's tasks.
  report_saved-daemon :
      (device : Device) (moment : Moment) (saved : Result (Unit {0})) (d : Phone)
      → (report_saved j c b path device moment saved d).1.daemon ≡ d.daemon
  unfolding report_saved
  report_saved-daemon device moment (err e) d = refl
  report_saved-daemon device moment (ok u) d =
      send_line-daemon (paired_line j c b path device) moment.answered d

  admit-daemon :
      (moment : Moment) (device : Result Device) (d : Phone)
      → (admit j c b path moment device d).1.daemon ≡ d.daemon
  unfolding admit store_device
  admit-daemon moment (err e) d = refl
  admit-daemon moment (ok device) d =
      let saved = Saving.save j path device moment.saving d.files in
      report_saved-daemon device moment saved.0 (record d { files = saved.1 })

  pair_session-daemon :
      (value : Value) (moment : Moment) (session : Option PairingSession) (d : Phone)
      → (pair_session j c b path value moment session d).1.daemon ≡ d.daemon
  unfolding pair_session
  pair_session-daemon value moment none d = refl
  pair_session-daemon value moment (some session) d =
      admit-daemon moment (new_device j c b path value session moment) d

  pair_token-daemon :
      (moment : Moment) (asked : Result (Value × Bytes)) (d : Phone)
      → (pair_token j c b path moment asked d).1.daemon ≡ d.daemon
  unfolding pair_token
  pair_token-daemon moment (err e) d = refl
  pair_token-daemon moment (ok (value, token)) d =
      let taken = take_matching token moment.now d.pairings in
      pair_session-daemon value moment taken.0 (record d { pairings = taken.1 })

  report_refused-daemon :
      (moment : Moment) (r : Result (Unit {0}) × Phone)
      → (report_refused j c b path moment r).daemon ≡ r.1.daemon
  unfolding report_refused
  report_refused-daemon moment (ok u, d) = refl
  report_refused-daemon moment (err e, d) =
      send_line-daemon (refusal_line j c b path e) moment.refused d

  pub pairing-daemon :
      (line : String) (moment : Moment) (d : Phone)
      → (report_refused j c b path moment (complete_pairing j c b path line moment d)).daemon
        ≡ d.daemon
  unfolding complete_pairing
  pairing-daemon line moment d =
      report_refused-daemon moment (complete_pairing j c b path line moment d)
      ∙ pair_token-daemon moment (read_token j c b path line) d
