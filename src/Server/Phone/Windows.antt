-- ===== src/Server/Phone/Windows.antt =====
-- daemon/crates/kpk-spike/src/server.rs: no device without an open pairing window.
use kpasskey.Base.{
  ℕ, ◌+◌, ◌≤◌, ◌≡◌, refl, sym, subst, ◌∙◌, Option, none, some, List, [], ◌∷◌, String, arith,
  Bool-cases, Option-cases, inl, inr, All,
}
use kpasskey.Base.Errors.{Result, ok, err}
use kpasskey.Base.Bytes.{Bytes}
use kpasskey.Base.Text.{is_empty, trim}
use kpasskey.External.{Json, Crypto, Base64}
use kpasskey.Pairing.{
  PairingSession, Pairings, pairing_window, expired, expire_if_due, take_matching,
}
use kpasskey.Server.Phone.{
  Moment, Desk, send_line, read_token, refusal_line, pair_session, pair_token, complete_pairing,
  report_refused, kind_of, is_kind, on_phone_message, on_line, listen,
}

-- The window, if there is one, is over at the time.
abbrev pub IsShut : ℕ → Pairings → Type 0
IsShut t p = (s : PairingSession) → p.current ≡ some s → s.opened + pairing_window ≤ t

take_matching_shut :
    (token : Bytes) (t now : ℕ) (p : Pairings)
    → IsShut t p
    → t ≤ now
    → ((take_matching token now p).0 ≡ none) × ((take_matching token now p).1.current ≡ none)
unfolding take_matching expire_if_due expired
take_matching_shut token t now p h le = elim (Option-cases p.current) [
  | inl closed ↦ ground arith
  | inr (s, opened) ↦ ground (arith, h s opened)
]

none-IsShut : (t : ℕ) (p : Pairings) → p.current ≡ none → IsShut t p
none-IsShut t p closed s e = cc

module _ {Key Value : Type 0} where
  -- What a line to the phone leaves as it is.
  abbrev Keeps : Desk Key Value → Desk Key Value → Type 0
  Keeps d d' = (d'.files ≡ d.files) × (d'.pairings ≡ d.pairings)

  send_line-Keeps :
      (line : String) (written : Result (Unit {0})) (d : Desk Key Value)
      → Keeps d (send_line line written d).1
  unfolding send_line
  send_line-Keeps line (err e) d = (refl, refl)
  send_line-Keeps line (ok u) d = elim (Bool-cases d.connected) [
    | inl yes_ ↦ rw (yes_, send_line) (refl, refl)
    | inr no_ ↦ rw (no_, send_line) (refl, refl)
  ]

module _ (j : Json) (c : Crypto) (b : Base64) (path : String) where
  open j use {Value}
  open c use {VerifyingKey}

  abbrev StaysShut : ℕ → Desk VerifyingKey Value → Desk VerifyingKey Value → Type 0
  StaysShut t d d' = (d'.files ≡ d.files) × IsShut t d'.pairings

  pair_token-StaysShut :
      (t : ℕ) (moment : Moment) (r : Result (Value × Bytes)) (d : Desk VerifyingKey Value)
      → IsShut t d.pairings
      → t ≤ moment.now
      → StaysShut t d (pair_token j c b path moment r d).1
  unfolding pair_token pair_session
  pair_token-StaysShut t moment (err e) d h le = (refl, h)
  pair_token-StaysShut t moment (ok (value, token)) d h le =
      let (nothing, closed) = take_matching_shut token t moment.now d.pairings h le in
      rw (nothing, pair_session)
        (refl, none-IsShut t (take_matching token moment.now d.pairings).1 closed)

  report_refused-StaysShut :
      (t : ℕ) (moment : Moment) (d : Desk VerifyingKey Value)
      (outcome : Result (Unit {0}) × Desk VerifyingKey Value)
      → StaysShut t d outcome.1
      → StaysShut t d (report_refused j c b path moment outcome)
  unfolding report_refused
  report_refused-StaysShut t moment d (ok u, d') h = h
  report_refused-StaysShut t moment d (err e, d') (files, shut) =
      let (same_files, same_pairings) =
        send_line-Keeps (refusal_line j c b path e) moment.refused d' in
      (same_files ∙ files, subst (IsShut t) (sym same_pairings) shut)

  on_line-StaysShut :
      (t : ℕ) (raw : String) (moment : Moment) (d : Desk VerifyingKey Value)
      → IsShut t d.pairings
      → t ≤ moment.now
      → StaysShut t d (on_line j c b path raw moment d)
  unfolding on_line on_phone_message complete_pairing
  on_line-StaysShut t raw moment d h le = elim (Bool-cases (is_empty (trim raw))) [
    | inl nothing ↦ rw nothing (refl, h)
    | inr line ↦ elim (Bool-cases (is_kind (kind_of j c b path (trim raw)) "pair.request")) [
      | inl pairing ↦
          rw (line, pairing)
            (report_refused-StaysShut t moment d (complete_pairing j c b path (trim raw) moment d)
              (pair_token-StaysShut t moment (read_token j c b path (trim raw)) d h le))
      | inr other ↦ rw (line, other) (refl, h)
    ]
  ]

  -- Once a pairing window is over, or without one, whatever the phone sends from then on, unless
  -- a new window is opened: the files of the device directory stay as they are.
  pub listen_shut :
      (t : ℕ) (reads : List (Option String × Moment)) (d : Desk VerifyingKey Value)
      → IsShut t d.pairings
      → All (λ r. t ≤ r.1.now) reads
      → (listen j c b path reads d).files ≡ d.files
  unfolding listen
  listen_shut t [] d h later = refl
  listen_shut t ((none, moment) ∷ reads) d h later = refl
  listen_shut t ((some raw, moment) ∷ reads) d h later =
      let (files, shut) = on_line-StaysShut t raw moment d h later.0 in
      listen_shut t reads (on_line j c b path raw moment d) shut later.1 ∙ files
