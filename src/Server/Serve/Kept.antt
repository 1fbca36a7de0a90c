-- ===== src/Server/Serve/Kept.antt =====
-- daemon/crates/kpk-spike/src/server.rs: the lines that were written to the phone stay written while
-- `serve` goes on.
use kpasskey.Base.{
  ℕ, ◌≡◌, ◌∙◌, sym, subst, Option, none, some, List, [], ◌∷◌, ◌++◌, String, inl, inr, Bool-cases,
}
use kpasskey.Base.Errors.{Result, ok, err, context}
use kpasskey.Base.Text.{trim, is_empty}
use kpasskey.External.{Json, Crypto, Base64}
use kpasskey.Protocol.{to_line}
use kpasskey.Server.{Verification, Question, find, find_question}
use kpasskey.Server.Phone.{
  Moment, Desk, is_kind, kind_of, on_phone_message, on_line, adopt_phone, listen,
}
use kpasskey.Server.Pam.{Operation, read_request}
use kpasskey.Server.Serve.{
  Draws, Happening, phone_accepted, pam_accepted, pam_read, request_written, verification_woken,
  question_written, question_woken, phone_read, window_begun, window_cancelled, window_asked,
  device_removed, directory_changed, going, Served, adopted, spawned, accept_request, write_request,
  write_question, happen, serving,
}
use kpasskey.Server.Serve.Sending.{Keeps, send_line-Keeps, pairing-Keeps}
use kpasskey.Server.Serve.Moments.{proceed-going, going_same}

module _ (j : Json) (c : Crypto) (b : Base64) (path : String) where
  open j use {Value, to_string}
  open c use {VerifyingKey}

  abbrev Running : Type 0
  Running = Served j c b path

  abbrev Phone : Type 0
  Phone = Desk VerifyingKey Value

  accepted-Keeps :
      (request : Result Operation) (draws : Draws) (s : Running)
      → Keeps s.desk (accept_request j c b path request draws s).desk
  unfolding accept_request
  accepted-Keeps (err e) draws s line i = i
  accepted-Keeps (ok operation) draws s line i = i

  write_request-Keeps :
      (task : ℕ) (write : Result (Unit {0})) (found : Option (Verification VerifyingKey))
      (d : Phone)
      → Keeps d (write_request j c b path task write found d)
  unfolding write_request
  write_request-Keeps task write none d line i = i
  write_request-Keeps task write (some v) d line i = elim (Bool-cases v.request_sent) [
    | inl late ↦ rw (write_request, late) i
    | inr early ↦ rw (write_request, early) (send_line-Keeps (to_line j b v.request) write d line i)
  ]

  write_question-Keeps :
      (task : ℕ) (write : Result (Unit {0})) (found : Option (Question Value)) (d : Phone)
      → Keeps d (write_question j c b path task write found d)
  unfolding write_question
  write_question-Keeps task write none d line i = i
  write_question-Keeps task write (some q) d line i = elim (Bool-cases q.request_sent) [
    | inl late ↦ rw (write_question, late) i
    | inr early ↦ rw (write_question, early) (send_line-Keeps (to_string q.request) write d line i)
  ]

  on_line-Keeps :
      (raw : String) (moment : Moment) (d : Phone) → Keeps d (on_line j c b path raw moment d)
  unfolding on_line on_phone_message
  on_line-Keeps raw moment d line i = elim (Bool-cases (is_empty (trim raw))) [
    | inl nothing ↦ rw (on_line, nothing) i
    | inr some_ ↦ elim (Bool-cases (is_kind (kind_of j c b path (trim raw)) "pair.request")) [
      | inl pairing ↦
          rw (on_line, on_phone_message, some_, pairing)
            (pairing-Keeps j c b path (trim raw) moment d line i)
      | inr reply ↦ rw (on_line, on_phone_message, some_, reply) i
    ]
  ]

  going-Keeps : (s u t : Running) → Keeps s.desk u.desk → going u ≡ going t → Keeps s.desk t.desk
  going-Keeps s u t kept eq =
      subst (λ (x : Running). Keeps s.desk x.desk) (going_same j c b path u t eq) kept

  adopted-Keeps :
      (accepted : Result (Unit {0})) (s t : Running)
      → adopted j c b path accepted s ≡ going t
      → Keeps s.desk t.desk
  unfolding adopt_phone listen
  adopted-Keeps (err e) s t eq = cc
  adopted-Keeps (ok u) s t eq =
      going-Keeps s (record s { desk = adopt_phone j c b path [] s.desk }) t (λ line i. i) eq

  spawned-Keeps :
      (accepted : Result (Unit {0})) (s t : Running)
      → spawned j c b path accepted s ≡ going t
      → Keeps s.desk t.desk
  spawned-Keeps (err e) s t eq = cc
  spawned-Keeps (ok u) s t eq = going-Keeps s s t (λ line i. i) eq

  happen-Keeps :
      (h : Happening) (s t : Running) → happen j c b path h s ≡ going t → Keeps s.desk t.desk
  unfolding happen
  happen-Keeps (phone_accepted accepted) s t eq =
      adopted-Keeps (context "accepting a phone connection" accepted) s t eq
  happen-Keeps (pam_accepted accepted) s t eq =
      spawned-Keeps (context "accepting a PAM connection" accepted) s t eq
  happen-Keeps (pam_read peer_uid line draws) s t eq =
      going-Keeps s _ t (accepted-Keeps (read_request j c b peer_uid line) draws s) eq
  happen-Keeps (request_written task write) s t eq =
      going-Keeps s _ t
        (write_request-Keeps task write (find task s.desk.daemon.verifications) s.desk) eq
  happen-Keeps (verification_woken task timer) s t eq = going-Keeps s _ t (λ line i. i) eq
  happen-Keeps (question_written task write) s t eq =
      going-Keeps s _ t
        (write_question-Keeps task write (find_question task s.desk.daemon.questions) s.desk) eq
  happen-Keeps (question_woken task timer) s t eq = going-Keeps s _ t (λ line i. i) eq
  happen-Keeps (phone_read raw moment) s t eq =
      going-Keeps s _ t (on_line-Keeps raw moment s.desk) eq
  happen-Keeps (window_begun label token host address now) s t eq =
      going-Keeps s _ t (λ line i. i) eq
  happen-Keeps window_cancelled s t eq = going-Keeps s _ t (λ line i. i) eq
  happen-Keeps (window_asked now) s t eq = going-Keeps s _ t (λ line i. i) eq
  happen-Keeps (directory_changed files) s t eq = going-Keeps s _ t (λ line i. i) eq
  happen-Keeps (device_removed id deleted emitted) s t eq = going-Keeps s _ t (λ line i. i) eq

  -- While `serve` goes on, what had been written stays among what was written.
  pub serving-Keeps :
      (start : Running) (later before : List Happening) (s t : Running)
      → serving j c b path start before ≡ going s
      → serving j c b path start (later ++ before) ≡ going t
      → Keeps s.desk t.desk
  unfolding serving
  serving-Keeps start [] before s t then_ eq line i =
      going-Keeps s s t (λ line i. i) (sym then_ ∙ eq) line i
  serving-Keeps start (h ∷ later) before s t then_ eq line i =
      let (u, so_far, last) =
        proceed-going j c b path h (serving j c b path start (later ++ before)) eq in
      happen-Keeps h u t last line (serving-Keeps start later before s u then_ so_far line i)
