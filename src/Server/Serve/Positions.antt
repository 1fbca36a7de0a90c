-- ===== src/Server/Serve/Positions.antt =====
-- daemon/crates/kpk-spike/src/server.rs: which happening of `serve` an event of its daemon stands for.
use kpasskey.Base.{
  ℕ, ◌≡◌, ◌⊎◌, refl, ap, sym, ◌∙◌, subst, false, Option, none, some, List, [], ◌∷◌, ◌++◌, String,
  All, inl, inr, Bool-cases,
}
use kpasskey.Base.Errors.{Result, ok, err, ◌>>◌, Result-cases}
use kpasskey.Base.Text.{trim, is_empty}
use kpasskey.External.{Json, Crypto, Base64}
use kpasskey.Server.{Verification, Question, find, find_question, active_device}
use kpasskey.Server.Events.{Event, asked, asking_sent}
use kpasskey.Server.Phone.{Desk, send_line, is_kind, kind_of}
use kpasskey.Server.Pam.{Operation, verify, make_credential, assert, read_request}
use kpasskey.Server.Serve.{
  Draws, Happening, phone_accepted, pam_accepted, pam_read, request_written, verification_woken,
  question_written, question_woken, phone_read, window_begun, window_cancelled, window_asked,
  device_removed, directory_changed, Serving, going, ended, Served, serving,
}
use kpasskey.Server.Serve.History.{
  request_events, written_events, asked_events, line_events, events_of, events_at, history,
}
use kpasskey.Server.Serve.Origin.{Origin, Asks, events_of-Origin}

module _ (j : Json) (c : Crypto) (b : Base64) (path : String) where
  open j use {Value, to_string}
  open c use {VerifyingKey}

  abbrev Running : Type 0
  Running = Served j c b path

  -- At most one event.
  abbrev IsSingle : List (Event Value) → Type 0
  IsSingle es = (es ≡ []) ⊎ ((e : Event Value) × (es ≡ e ∷ []))

  request_events-IsSingle :
      (request : Result Operation) (draws : Draws) (s : Running)
      → IsSingle (request_events j c b path request draws s.desk.files)
  request_events-IsSingle (err e) draws s = inl refl
  request_events-IsSingle (ok (verify user action detail)) draws s = inr (_, refl)
  request_events-IsSingle (ok (make_credential rp_id user_name)) draws s =
      elim (Result-cases (active_device j c b path (draws.read_dir >> ok s.desk.files))) [
        | inl (device, found) ↦ rw found (inr (_, refl))
        | inr (e, without) ↦ rw without (inl refl)
      ]
  request_events-IsSingle (ok (assert rp_id credential_id payload)) draws s = inr (_, refl)

  written_events-IsSingle :
      (task : ℕ) (write : Result (Unit {0})) (found : Option (Verification VerifyingKey))
      (d : Desk VerifyingKey Value)
      → IsSingle (written_events j c b path task write found d)
  written_events-IsSingle task write none d = inl refl
  written_events-IsSingle task write (some v) d = elim (Bool-cases v.request_sent) [
    | inl late ↦ rw late (inl refl)
    | inr early ↦ rw early (inr (_, refl))
  ]

  asked_events-IsSingle :
      (task : ℕ) (write : Result (Unit {0})) (found : Option (Question Value))
      (d : Desk VerifyingKey Value)
      → IsSingle (asked_events j c b path task write found d)
  asked_events-IsSingle task write none d = inl refl
  asked_events-IsSingle task write (some q) d = elim (Bool-cases q.request_sent) [
    | inl late ↦ rw late (inl refl)
    | inr early ↦ rw early (inr (_, refl))
  ]

  line_events-IsSingle : (line : String) → IsSingle (line_events j c b path line)
  line_events-IsSingle line = elim (Bool-cases (is_empty line)) [
    | inl nothing ↦ rw nothing (inl refl)
    | inr some_ ↦ elim (Bool-cases (is_kind (kind_of j c b path line) "pair.request")) [
      | inl pairing ↦ rw (some_, pairing) (inl refl)
      | inr reply ↦ rw (some_, reply) (inr (_, refl))
    ]
  ]

  events_of-IsSingle : (h : Happening) (s : Running) → IsSingle (events_of j c b path h s)
  unfolding events_of
  events_of-IsSingle (phone_accepted accepted) s = inl refl
  events_of-IsSingle (pam_accepted accepted) s = inl refl
  events_of-IsSingle (pam_read peer_uid line draws) s =
      request_events-IsSingle (read_request j c b peer_uid line) draws s
  events_of-IsSingle (request_written task write) s =
      written_events-IsSingle task write (find task s.desk.daemon.verifications) s.desk
  events_of-IsSingle (verification_woken task timer) s = inr (_, refl)
  events_of-IsSingle (question_written task write) s =
      asked_events-IsSingle task write (find_question task s.desk.daemon.questions) s.desk
  events_of-IsSingle (question_woken task timer) s = inr (_, refl)
  events_of-IsSingle (phone_read raw moment) s = line_events-IsSingle (trim raw)
  events_of-IsSingle (window_begun label token host address now) s = inl refl
  events_of-IsSingle window_cancelled s = inl refl
  events_of-IsSingle (window_asked now) s = inl refl
  events_of-IsSingle (directory_changed files) s = inl refl
  events_of-IsSingle (device_removed id deleted emitted) s = inl refl

  -- Where an event stands among what has happened: the happening that is this event, what was before it,
  -- and the state then.
  abbrev pub Position : Running → List Happening → Event Value → List (Event Value) → Type 0
  Position start past e before =
      (h : Happening) × (later earlier : List Happening) × (s : Running) × (past
        ≡ later ++ h ∷ earlier)
      × (serving j c b path start earlier ≡ going s)
      × (events_of j c b path h s ≡ e ∷ [])
      × (history j c b path start earlier ≡ before)

  later-Position :
      (start : Running) (h : Happening) (past : List Happening) (e : Event Value)
      (before : List (Event Value))
      → Position start past e before
      → Position start (h ∷ past) e before
  later-Position start h past e before (k, later, earlier, s, split, now_, event, events) =
      (k, h ∷ later, earlier, s, ap (◌∷◌ h) split, now_, event, events)

  head-Position :
      (start : Running) (h : Happening) (past : List Happening) (s : Running)
      (later before : List (Event Value)) (x e : Event Value)
      → serving j c b path start past ≡ going s
      → events_of j c b path h s ≡ x ∷ []
      → x ∷ history j c b path start past ≡ later ++ e ∷ before
      → ((rest : List (Event Value))
          → history j c b path start past ≡ rest ++ e ∷ before
          → Position start past e before)
      → Position start (h ∷ past) e before
  head-Position start h past s [] before x e now_ event eq so_far =
      (h, [], past, s, refl, now_, event ∙ ap (λ z. z ∷ []) cc, cc)
  head-Position start h past s (y ∷ later) before x e now_ event eq so_far =
      later-Position start h past e before (so_far later cc)

  events_at-Position :
      (start : Running) (h : Happening) (past : List Happening) (so_far : Serving Running)
      (later before : List (Event Value)) (e : Event Value)
      → serving j c b path start past ≡ so_far
      → events_at j c b path h so_far ++ history j c b path start past ≡ later ++ e ∷ before
      → ((rest : List (Event Value))
          → history j c b path start past ≡ rest ++ e ∷ before
          → Position start past e before)
      → Position start (h ∷ past) e before
  unfolding events_at
  events_at-Position start h past (ended x) later before e now_ eq known =
      later-Position start h past e before (known later eq)
  events_at-Position start h past (going s) later before e now_ eq known =
      elim (events_of-IsSingle h s) [
        | inl nothing ↦ later-Position start h past e before (known later (rw nothing at eq))
        | inr (x, one) ↦ head-Position start h past s later before x e now_ one (rw one at eq) known
      ]

  nothing_there :
      (later before : List (Event Value)) (e : Event Value) → [] ≡ later ++ e ∷ before → ⊥
  nothing_there [] before e eq = cc
  nothing_there (x ∷ later) before e eq = cc

  pub history-Position :
      (start : Running) (past : List Happening) (later before : List (Event Value))
      (e : Event Value)
      → history j c b path start past ≡ later ++ e ∷ before
      → Position start past e before
  unfolding history
  history-Position start [] later before e eq = absurd (nothing_there later before e eq)
  history-Position start (h ∷ past) later before e eq =
      events_at-Position start h past (serving j c b path start past) later before e refl eq
        (λ rest same. history-Position start past rest before e same)

  -- A question comes from a request that was read on the socket.
  pub asked_from :
      (start : Running) (h : Happening) (s : Running) (request : Value)
      → events_of j c b path h s ≡ asked request ∷ []
      → (peer_uid : Result ℕ) × (line : Result String) × (draws : Draws) × (h
          ≡ pam_read peer_uid line draws)
        × Asks j c b path (read_request j c b peer_uid line) request
  asked_from start h s request event =
      let (peer_uid, line, draws, there, asks) =
        (subst (All (Origin j c b path start (h ∷ []))) event
          (events_of-Origin j c b path start [] h s)).0 in
      elim there [
        | inl same ↦ (peer_uid, line, draws, sym same, asks)
        | inr nowhere ↦ absurd nowhere
      ]

  asked_events-sent :
      (task : ℕ) (write : Result (Unit {0})) (found : Option (Question Value))
      (d : Desk VerifyingKey Value)
      → asked_events j c b path task write found d ≡ asking_sent task (ok tt) ∷ []
      → (q : Question Value) × (found ≡ some q)
        × (q.request_sent ≡ false)
        × ((send_line (to_string q.request) write d).0 ≡ ok tt)
  asked_events-sent task write none d eq = cc
  asked_events-sent task write (some q) d eq = elim (Bool-cases q.request_sent) [
    | inl late ↦ absurd (cc (rw late at eq))
    | inr early ↦ (q, refl, early, cc (rw early at eq))
  ]

  -- A question that was sent was written to the phone.
  pub sent_from :
      (start : Running) (h : Happening) (s : Running) (task : ℕ)
      → events_of j c b path h s ≡ asking_sent task (ok tt) ∷ []
      → (write : Result (Unit {0})) × (q : Question Value) × (h ≡ question_written task write)
        × (find_question task s.desk.daemon.questions ≡ some q)
        × (q.request_sent ≡ false)
        × ((send_line (to_string q.request) write s.desk).0 ≡ ok tt)
  unfolding events_of
  sent_from start h s task event =
      let (write, there) =
        (subst (All (Origin j c b path start (h ∷ []))) event
          (events_of-Origin j c b path start [] h s)).0 in
      elim there [
        | inl same ↦
            let (q, found, early, wrote) =
              asked_events-sent task write (find_question task s.desk.daemon.questions) s.desk
                (ap (λ k. events_of j c b path k s) same ∙ event) in
            (write, q, sym same, found, early, wrote)
        | inr nowhere ↦ absurd nowhere
      ]
