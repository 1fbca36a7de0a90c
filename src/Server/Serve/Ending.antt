-- ===== src/Server/Serve/Ending.antt =====
-- daemon/crates/kpk-spike/src/server.rs: what makes `serve` return.
use kpasskey.Base.{ℕ, ◌≡◌, ◌↔◌, ◌⊎◌, refl, subst, List, [], ◌∷◌, String, In, inl, inr}
use kpasskey.Base.Errors.{Error, Result, ok, err, context, Result-cases}
use kpasskey.External.{Json, Crypto, Base64}
use kpasskey.Store.{Entry}
use kpasskey.Server.Serve.{
  Happening, phone_accepted, pam_accepted, pam_read, request_written, verification_woken,
  question_written, question_woken, phone_read, window_begun, window_cancelled, window_asked,
  device_removed, directory_changed, Serving, going, ended, Served, adopted, spawned, happen,
  proceed, serving, listening, serve, opened, start_up, Startup,
}

module _ (j : Json) (c : Crypto) (b : Base64) (path : String) where
  abbrev Running : Type 0
  Running = Served j c b path

  -- Taking a connection failed.
  abbrev pub HasRefused : List Happening → Type 0
  HasRefused past =
      (x : Error) × (In (phone_accepted (err x)) past ⊎ In (pam_accepted (err x)) past)

  later : (h : Happening) (past : List Happening) → HasRefused past → HasRefused (h ∷ past)
  later h past (x, inl i) = (x, inl (inr i))
  later h past (x, inr i) = (x, inr (inr i))

  adopted-ended :
      (accepted : Result (Unit {0})) (s : Running) {e : Error} (past : List Happening)
      → adopted j c b path (context "accepting a phone connection" accepted) s ≡ ended e
      → HasRefused (phone_accepted accepted ∷ past)
  adopted-ended (ok u) s past h = cc
  adopted-ended (err x) s past h = (x, inl (inl refl))

  spawned-ended :
      (accepted : Result (Unit {0})) (s : Running) {e : Error} (past : List Happening)
      → spawned j c b path (context "accepting a PAM connection" accepted) s ≡ ended e
      → HasRefused (pam_accepted accepted ∷ past)
  spawned-ended (ok u) s past h = cc
  spawned-ended (err x) s past h = (x, inr (inl refl))

  happen-ended :
      (h : Happening) (s : Running) {e : Error} (past : List Happening)
      → happen j c b path h s ≡ ended e
      → HasRefused (h ∷ past)
  unfolding happen
  happen-ended (phone_accepted accepted) s past eq = adopted-ended accepted s past eq
  happen-ended (pam_accepted accepted) s past eq = spawned-ended accepted s past eq
  happen-ended (pam_read peer_uid line draws) s past eq = cc
  happen-ended (request_written task write) s past eq = cc
  happen-ended (verification_woken task timer) s past eq = cc
  happen-ended (question_written task write) s past eq = cc
  happen-ended (question_woken task timer) s past eq = cc
  happen-ended (phone_read raw moment) s past eq = cc
  happen-ended (window_begun label token host address now) s past eq = cc
  happen-ended window_cancelled s past eq = cc
  happen-ended (window_asked now) s past eq = cc
  happen-ended (directory_changed files) s past eq = cc
  happen-ended (device_removed id deleted emitted) s past eq = cc

  proceed-ended :
      (h : Happening) (past : List Happening) (before : Serving Running) {e : Error}
      → ((x : Error) → before ≡ ended x → HasRefused past)
      → proceed j c b path h before ≡ ended e
      → HasRefused (h ∷ past)
  unfolding proceed
  proceed-ended h past (ended x) why eq = later h past (why x refl)
  proceed-ended h past (going s) why eq = happen-ended h s past eq

  refused :
      (s : Running) (past : List Happening) {e : Error}
      → serving j c b path s past ≡ ended e
      → HasRefused past
  unfolding serving
  refused s [] eq = cc
  refused s (h ∷ past) eq =
      proceed-ended h past (serving j c b path s past) (λ x eq. refused s past eq) eq

  -- `serve` has returned.
  abbrev pub IsEnded : Serving Running → Type 0
  IsEnded outcome = (e : Error) × (outcome ≡ ended e)

  proceed-stays :
      (h : Happening) (before : Serving Running)
      → IsEnded before
      → IsEnded (proceed j c b path h before)
  unfolding proceed
  proceed-stays h (ended x) (e, eq) = (x, refl)
  proceed-stays h (going s) (e, eq) = cc

  proceed-phone :
      (x : Error) (before : Serving Running)
      → IsEnded (proceed j c b path (phone_accepted (err x)) before)
  unfolding proceed happen
  proceed-phone x (ended y) = (y, refl)
  proceed-phone x (going s) = ("accepting a phone connection" ∷ x, refl)

  proceed-pam :
      (x : Error) (before : Serving Running)
      → IsEnded (proceed j c b path (pam_accepted (err x)) before)
  unfolding proceed happen
  proceed-pam x (ended y) = (y, refl)
  proceed-pam x (going s) = ("accepting a PAM connection" ∷ x, refl)

  returns :
      (s : Running) (past : List Happening) → HasRefused past → IsEnded (serving j c b path s past)
  unfolding serving
  returns s [] (x, inl i) = absurd i
  returns s [] (x, inr i) = absurd i
  returns s (h ∷ past) (x, inl (inl same)) =
      subst (λ k. IsEnded (proceed j c b path k (serving j c b path s past))) same
        (proceed-phone x (serving j c b path s past))
  returns s (h ∷ past) (x, inr (inl same)) =
      subst (λ k. IsEnded (proceed j c b path k (serving j c b path s past))) same
        (proceed-pam x (serving j c b path s past))
  returns s (h ∷ past) (x, inl (inr i)) =
      proceed-stays h (serving j c b path s past) (returns s past (x, inl i))
  returns s (h ∷ past) (x, inr (inr i)) =
      proceed-stays h (serving j c b path s past) (returns s past (x, inr i))

  -- Starting failed.
  abbrev pub HasFailed : String → ℕ → Startup → Type 0
  HasFailed socket_path port startup =
      (e : Error) × (start_up path socket_path port startup ≡ err e)

  -- Whatever its clients, the phone and the callers on the bus do: `serve` has returned exactly when
  -- its start failed, or taking a connection failed, of the phone or on the socket.
  pub serve-ends_iff :
      (socket_path : String) (port timeout_secs : ℕ) (startup : Startup) (files : List Entry)
      (past : List Happening)
      → IsEnded (serve j c b path socket_path port timeout_secs startup files past)
        ↔ (HasFailed socket_path port startup ⊎ HasRefused past)
  unfolding serve listening
  serve-ends_iff socket_path port timeout_secs startup files past =
      elim (Result-cases (start_up path socket_path port startup)) [
        | inl (u, started) ↦
            let s = opened j c b path timeout_secs files in
            rw (started, listening)
              (
                (λ h. inr (refused s past h.1)),
                (λ h. elim h [
                  | inl (e, failed) ↦ absurd (cc failed)
                  | inr refused_ ↦ returns s past refused_
                ]),
              )
        | inr (e, failed) ↦ rw (failed, listening) ((λ h. inl (e, refl)), (λ h. (e, refl)))
      ]

  -- A `serve` that goes on has started.
  pub serve-going :
      (socket_path : String) (port timeout_secs : ℕ) (startup : Startup) (files : List Entry)
      (past : List Happening) {t : Running}
      → serve j c b path socket_path port timeout_secs startup files past ≡ going t
      → serving j c b path (opened j c b path timeout_secs files) past ≡ going t
  unfolding serve listening
  serve-going socket_path port timeout_secs startup files past eq =
      elim (Result-cases (start_up path socket_path port startup)) [
        | inl (u, started) ↦ rw (started, listening) at eq
        | inr (e, failed) ↦ absurd (cc (rw (failed, listening) at eq))
      ]
