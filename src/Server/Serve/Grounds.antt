-- ===== src/Server/Serve/Grounds.antt =====
-- daemon/crates/kpk-spike/src/server.rs: the line of a request was written to the phone before its
-- verification waits, and the daemon's steps keep it so.
use kpasskey.Base.{
  ℕ, ◌≡◌, refl, ap, sym, subst, Bool, true, Option, none, some, List, [], ◌∷◌, ◌++◌, String, ◌==◌,
  All, All-map, All-zip, In, inl, inr, Bool-cases, Option-cases, ==_iff,
}
use kpasskey.Base.Bytes.{Bytes}
use kpasskey.Base.Errors.{Result, ok, err, bail, Result-cases}
use kpasskey.External.{Json, Crypto, Base64}
use kpasskey.Link.{verify_assertion}
use kpasskey.Store.{Device, Entry}
use kpasskey.Protocol.{VerifyRequest, VerifyResponse, new_request, to_line, parse_response}
use kpasskey.Server.{
  Reply, signed, refused, Verification, find, mark_sent, lookup, has_sender, reply_of, State,
  active_key, conclude, register, start_verification, line_sent, judge, poll, wake, json_waiter,
  deliver_response, deliver,
}
use kpasskey.Server.Tables.{discard-All, fill-All, find-All}
use kpasskey.Server.Events.{Event, IsSigned, IsRunning, IsSound}
use kpasskey.Server.Distinct.Lists.{IsDistinct, find-only}
pub mod Woken

-- Of the verifications with the number, what holds of them marked.
mark_sent-at {κ} :
    {Key : Type 0} (P : Verification Key → Type κ) (t : ℕ) (vs : List (Verification Key))
    → All (λ v. P v × (v.task ≡ t → P (record v { request_sent = true }))) vs
    → All P (mark_sent t vs)
unfolding mark_sent
mark_sent-at P t [] h = tt
mark_sent-at P t (v ∷ vs) h = elim (Bool-cases (v.task == t)) [
  | inl same ↦ rw same (h.0.1 ((==_iff v.task t).0 same), mark_sent-at P t vs h.1)
  | inr other ↦ rw other (h.0.0, mark_sent-at P t vs h.1)
]

In-behind : {A : Type 0} (a : A) (xs ys : List A) → In a ys → In a (xs ++ ys)
In-behind a [] ys i = i
In-behind a (x ∷ xs) ys i = inr (In-behind a xs ys i)

module _ (j : Json) (c : Crypto) (b : Base64) where
  open j use {Value}
  open c use {VerifyingKey}

  -- What is known of the task, the device, the key and the request of a verification.
  abbrev pub Known : Type 1
  Known = ℕ → Device → VerifyingKey → VerifyRequest → Type 0

  abbrev pub IsPut : Known → List String → Verification VerifyingKey → Type 0
  IsPut C lines v =
      C v.task v.device v.key v.request × (v.request_sent ≡ true → In (to_line j b v.request) lines)

  -- What an approval stands on, with the line that was written to the phone.
  abbrev pub IsGrounded : Known → List (Event Value) → List String → ℕ → Type 0
  IsGrounded C past lines task =
      (v : Verification VerifyingKey) × (signature : Bytes) × (v.task ≡ task)
      × C v.task v.device v.key v.request
      × IsSigned j c b past v.request.id signature
      × (verify_assertion c v.key (to_line j b v.request) signature ≡ ok tt)
      × In (to_line j b v.request) lines

  abbrev pub IsOutcome : Known → List (Event Value) → List String → ℕ × Result (Unit {0}) → Type 0
  IsOutcome C past lines r = r.1 ≡ ok tt → IsGrounded C past lines r.0

  abbrev pub HasGrounds : Known → List (Event Value) → List String → State j c b → Type 0
  HasGrounds C past lines d =
      All (IsPut C lines) d.verifications × All (IsOutcome C past lines) d.verdicts

  -- More knowledge, more events and more lines take nothing away.
  pub grow-HasGrounds :
      (C D : Known) (events past : List (Event Value)) (lines more : List String) (d : State j c b)
      → ((task : ℕ) (device : Device) (key : VerifyingKey) (request : VerifyRequest)
          → C task device key request
          → D task device key request)
      → ((line : String) → In line lines → In line more)
      → HasGrounds C past lines d
      → HasGrounds D (events ++ past) more d
  grow-HasGrounds C D events past lines more d learnt kept (put, outcomes) = (
    All-map
        (λ v h. (
          learnt v.task v.device v.key v.request h.0,
          λ sent_. kept (to_line j b v.request) (h.1 sent_),
        ))
        d.verifications put,
    All-map
        (λ r h approved.
          let (v, signature, same, known, (line, heard_, parsed), valid, written) = h approved in
          (
            v,
            signature,
            same,
            learnt v.task v.device v.key v.request known,
            (line, In-behind _ events past heard_, parsed),
            valid,
            kept (to_line j b v.request) written,
          ))
        d.verdicts outcomes,
  )

  pub conclude-HasGrounds :
      (C : Known) (past : List (Event Value)) (lines : List String) (task : ℕ)
      (verdict : Result (Unit {0})) (d : State j c b)
      → IsOutcome C past lines (task, verdict)
      → HasGrounds C past lines d
      → HasGrounds C past lines (conclude j c b task verdict d)
  conclude-HasGrounds C past lines task verdict d grounds (put, outcomes) =
      (discard-All (IsPut C lines) task d.verifications put, (grounds, outcomes))

  pub start-HasGrounds :
      (C : Known) (past : List (Event Value)) (lines : List String) (user action detail : String)
      (challenge : Result Bytes) (host : Result String) (path : String)
      (directory : Result (List Entry)) (d : State j c b)
      → ((device : Device) (key : VerifyingKey) (request : VerifyRequest)
          → active_key j c b path directory ≡ ok (device, key)
          → new_request d.next_id user action detail challenge host ≡ ok request
          → C d.next_task device key request)
      → HasGrounds C past lines d
      → HasGrounds C past lines
          (start_verification j c b user action detail challenge host path directory d)
  unfolding start_verification register
  start-HasGrounds C past lines user action detail challenge host path directory d known h =
      elim (Result-cases (active_key j c b path directory)) [
        | inr (e, refused_) ↦
            rw (refused_, start_verification)
              (conclude-HasGrounds C past lines d.next_task (err e) d (λ eq. cc) h)
        | inl ((device, key), found) ↦
            elim (Result-cases (new_request d.next_id user action detail challenge host)) [
              | inl (request, made) ↦
                  rw (found, start_verification, made, register)
                    (((known device key request found made, λ eq. cc), h.0), h.1)
              | inr (e, failed) ↦
                  rw (found, start_verification, failed, register)
                    (conclude-HasGrounds C past lines d.next_task (err e) d (λ eq. cc) h)
            ]
      ]

  -- The result of writing the line of what a task's number finds.
  pub told-HasGrounds :
      (C : Known) (past : List (Event Value)) (lines : List String) (task : ℕ)
      (result : Result (Unit {0})) (v : Verification VerifyingKey) (d : State j c b)
      → find task d.verifications ≡ some v
      → (result ≡ ok tt → In (to_line j b v.request) lines)
      → IsDistinct d.verifications
      → HasGrounds C past lines d
      → HasGrounds C past lines (line_sent j c b task result d)
  unfolding line_sent
  told-HasGrounds C past lines task (ok u) v d found written distinct (put, outcomes) = (
    mark_sent-at (IsPut C lines) task d.verifications (
        All-map
          (λ w h. (
            h.0,
            λ same. (
              h.0.0,
              λ sent_.
                  subst (λ x. In (to_line j b (Verification.request x)) lines) (sym (h.1 same))
                    (written refl),
            ),
          ))
          d.verifications
          (All-zip (IsPut C lines) (λ w. w.task ≡ task → w ≡ v) d.verifications put
            (find-only task d.verifications distinct found))),
    outcomes,
  )
  told-HasGrounds C past lines task (err e) v d found written distinct h =
      rw (found, line_sent)
        (elim (Bool-cases v.request_sent) [
          | inl late ↦ rw late h
          | inr early ↦
              rw early
                (conclude-HasGrounds C past lines task (bail "no phone connected") d (λ eq. cc) h)
        ])

  response-HasGrounds :
      (C : Known) (past : List (Event Value)) (lines : List String) (parsed : Result VerifyResponse)
      (d : State j c b)
      → HasGrounds C past lines d
      → HasGrounds C past lines (deliver_response j c b parsed d)
  unfolding deliver_response
  response-HasGrounds C past lines (err e) d h = h
  response-HasGrounds C past lines (ok r) d h = elim (Option-cases (lookup r.id d.pending)) [
    | inl nobody ↦ rw (nobody, deliver_response) h
    | inr (task, waiting) ↦
        rw (waiting, deliver_response)
          (
            fill-All (IsPut C lines) task (reply_of r.denied r.signature) d.verifications
                (All-map (λ v k. (k, λ same. k)) d.verifications h.0),
            h.1,
          )
  ]

  pub deliver-HasGrounds :
      (C : Known) (past : List (Event Value)) (lines : List String) (line : String)
      (d : State j c b)
      → HasGrounds C past lines d
      → HasGrounds C past lines (deliver j c b line d)
  unfolding deliver
  deliver-HasGrounds C past lines line d h = elim (Option-cases (json_waiter j c b line d)) [
    | inl nobody ↦
        rw (nobody, deliver) (response-HasGrounds C past lines (parse_response j b line) d h)
    | inr ((id, task, value), found) ↦ rw (found, deliver) h
  ]
