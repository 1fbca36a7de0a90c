-- ===== src/Server/Serve/Origin.antt =====
-- daemon/crates/kpk-spike/src/server.rs: where the events that reach the daemon inside `serve` come
-- from: requests on its socket, and lines that the phone sent.
use kpasskey.Base.{
  ℕ, ◌≡◌, ◌⊎◌, refl, Option, none, some, List, [], ◌∷◌, String, All, All-map, All-append, In, inl,
  inr, Bool-cases,
}
use kpasskey.Base.Errors.{Result, ok, err, ◌>>◌, Result-cases}
use kpasskey.Base.Text.{trim, is_empty}
use kpasskey.External.{Json, Crypto, Base64}
use kpasskey.Server.{Verification, Question, find, find_question, active_device}
use kpasskey.Server.Events.{Event, requested, heard, sent, asked, asking_sent, asking_woken, woken}
use kpasskey.Server.Phone.{Moment, Desk, is_kind, kind_of}
use kpasskey.Server.Pam.{
  Operation, verify, make_credential, assert, read_request, creation_request, assertion_request,
}
use kpasskey.Server.Serve.{
  Draws, Happening, phone_accepted, pam_accepted, pam_read, request_written, verification_woken,
  question_written, question_woken, phone_read, window_begun, window_cancelled, window_asked,
  device_removed, directory_changed, Serving, going, ended, Served, serving,
}
use kpasskey.Server.Serve.History.{
  request_events, written_events, asked_events, line_events, events_of, events_at, history,
}

module _ (j : Json) (c : Crypto) (b : Base64) (path : String) where
  open j use {Value, to_string}
  open c use {VerifyingKey}

  -- The question that an operation of the helper puts to the phone.
  abbrev pub Asks : Result Operation → Value → Type 0
  Asks operation request =
      ((rp_id : String) × (user_name : String) × (operation ≡ ok (make_credential rp_id user_name))
        × (request ≡ creation_request j c b rp_id user_name))
      ⊎ ((rp_id : String) × (credential_id : String) × (payload : String) × (operation
            ≡ ok (assert rp_id credential_id payload))
          × (request ≡ assertion_request j c b rp_id credential_id payload))

  -- Where an event comes from.
  abbrev pub Origin : Served j c b path → List Happening → Event Value → Type 0
  Origin start past (requested call challenge host p directory) = Unit
  Origin start past (heard line) =
      (raw : String) × (moment : Moment) × In (phone_read raw moment) past × (trim raw ≡ line)
  Origin start past (sent task result) = Unit
  Origin start past (woken task timer) = Unit
  Origin start past (asked request) =
      (peer_uid : Result ℕ) × (line : Result String) × (draws : Draws) × In
        (pam_read peer_uid line draws) past
      × Asks (read_request j c b peer_uid line) request
  Origin start past (asking_sent task result) =
      (write : Result (Unit {0})) × In (question_written task write) past
  Origin start past (asking_woken task timer) = Unit

  later-Origin :
      (start : Served j c b path) (h : Happening) (past : List Happening) (e : Event Value)
      → Origin start past e
      → Origin start (h ∷ past) e
  later-Origin start h past (requested call challenge host p directory) o = tt
  later-Origin start h past (heard line) (raw, moment, i, same) = (raw, moment, inr i, same)
  later-Origin start h past (sent task result) o = tt
  later-Origin start h past (woken task timer) o = tt
  later-Origin start h past (asked request) (peer_uid, line, draws, i, asks) =
      (peer_uid, line, draws, inr i, asks)
  later-Origin start h past (asking_sent task result) (write, i) = (write, inr i)
  later-Origin start h past (asking_woken task timer) o = tt

  request_events-Origin :
      (start : Served j c b path) (past : List Happening) (s : Served j c b path)
      (peer_uid : Result ℕ) (line : Result String) (draws : Draws) (request : Result Operation)
      → read_request j c b peer_uid line ≡ request
      → All
          (Origin start (pam_read peer_uid line draws ∷ past))
          (request_events j c b path request draws s.desk.files)
  request_events-Origin start past s peer_uid line draws (err e) read = tt
  request_events-Origin start past s peer_uid line draws (ok (verify user action detail)) read =
      (tt, tt)
  request_events-Origin start past s peer_uid line draws (ok (make_credential rp_id user_name))
        read =
      elim (Result-cases (active_device j c b path (draws.read_dir >> ok s.desk.files))) [
        | inl (device, found) ↦
            rw found ((peer_uid, line, draws, inl refl, inl (rp_id, user_name, read, refl)), tt)
        | inr (e, without) ↦ rw without tt
      ]
  request_events-Origin start past s peer_uid line draws (ok (assert rp_id credential_id payload))
        read =
      ((peer_uid, line, draws, inl refl, inr (rp_id, credential_id, payload, read, refl)), tt)

  written_events-Origin :
      (start : Served j c b path) (past : List Happening) (task : ℕ) (write : Result (Unit {0}))
      (found : Option (Verification VerifyingKey)) (d : Desk VerifyingKey Value)
      → All (Origin start past) (written_events j c b path task write found d)
  written_events-Origin start past task write none d = tt
  written_events-Origin start past task write (some v) d = elim (Bool-cases v.request_sent) [
    | inl late ↦ rw late tt
    | inr early ↦ rw early (tt, tt)
  ]

  asked_events-Origin :
      (start : Served j c b path) (past : List Happening) (task : ℕ) (write : Result (Unit {0}))
      (found : Option (Question Value)) (d : Desk VerifyingKey Value)
      → In (question_written task write) past
      → All (Origin start past) (asked_events j c b path task write found d)
  asked_events-Origin start past task write none d i = tt
  asked_events-Origin start past task write (some q) d i = elim (Bool-cases q.request_sent) [
    | inl late ↦ rw late tt
    | inr early ↦ rw early ((write, i), tt)
  ]

  line_events-Origin :
      (start : Served j c b path) (past : List Happening) (raw : String) (moment : Moment)
      → All (Origin start (phone_read raw moment ∷ past)) (line_events j c b path (trim raw))
  line_events-Origin start past raw moment = elim (Bool-cases (is_empty (trim raw))) [
    | inl nothing ↦ rw nothing tt
    | inr line ↦ elim (Bool-cases (is_kind (kind_of j c b path (trim raw)) "pair.request")) [
      | inl pairing ↦ rw (line, pairing) tt
      | inr reply ↦ rw (line, reply) ((raw, moment, inl refl, refl), tt)
    ]
  ]

  pub events_of-Origin :
      (start : Served j c b path) (past : List Happening) (h : Happening) (s : Served j c b path)
      → All (Origin start (h ∷ past)) (events_of j c b path h s)
  unfolding events_of
  events_of-Origin start past (phone_accepted accepted) s = tt
  events_of-Origin start past (pam_accepted accepted) s = tt
  events_of-Origin start past (pam_read peer_uid line draws) s =
      request_events-Origin start past s peer_uid line draws (read_request j c b peer_uid line) refl
  events_of-Origin start past (request_written task write) s =
      written_events-Origin start (request_written task write ∷ past) task write
        (find task s.desk.daemon.verifications) s.desk
  events_of-Origin start past (verification_woken task timer) s = (tt, tt)
  events_of-Origin start past (question_written task write) s =
      asked_events-Origin start (question_written task write ∷ past) task write
        (find_question task s.desk.daemon.questions) s.desk (inl refl)
  events_of-Origin start past (question_woken task timer) s = (tt, tt)
  events_of-Origin start past (phone_read raw moment) s = line_events-Origin start past raw moment
  events_of-Origin start past (window_begun label token host address now) s = tt
  events_of-Origin start past window_cancelled s = tt
  events_of-Origin start past (window_asked now) s = tt
  events_of-Origin start past (directory_changed files) s = tt
  events_of-Origin start past (device_removed id deleted emitted) s = tt

  events_at-Origin :
      (start : Served j c b path) (past : List Happening) (h : Happening)
      (before : Serving (Served j c b path))
      → All (Origin start (h ∷ past)) (events_at j c b path h before)
  unfolding events_at
  events_at-Origin start past h (ended e) = tt
  events_at-Origin start past h (going s) = events_of-Origin start past h s

  pub history-Origin :
      (start : Served j c b path) (past : List Happening)
      → All (Origin start past) (history j c b path start past)
  unfolding history
  history-Origin start [] = tt
  history-Origin start (h ∷ past) =
      All-append (Origin start (h ∷ past)) (events_at j c b path h (serving j c b path start past))
        (history j c b path start past)
        (events_at-Origin start past h (serving j c b path start past))
        (All-map (later-Origin start h past) (history j c b path start past)
          (history-Origin start past))
