-- ===== src/Server/Soundness/Lines.antt =====
-- daemon/crates/kpk-spike/src/server.rs: `deliver` keeps the daemon sound.
use kpasskey.Base.{
  ℕ, ◌≡◌, refl, sym, ◌∙◌, Option, none, some, List, String, All-map, All-zip, In, inl, inr,
  Option-cases,
}
use mathlib.Core.Option.{some-injective}
use kpasskey.Base.Errors.{Result, ok, err}
use kpasskey.Base.Bytes.{Bytes}
use kpasskey.External.{Json, Crypto, Base64}
use kpasskey.Protocol.{VerifyResponse, parse_response}
use kpasskey.Server.{lookup, signed, fill, reply_of, State, json_waiter, deliver_response, deliver}
use kpasskey.Server.Tables.{lookup-All, remove-All, fill-All}
use kpasskey.Server.Events.{Event, heard, IsSigned, IsEntry, IsRunning, IsSound}

module _ (j : Json) (c : Crypto) (b : Base64) (timeout : String) where
  open j use {Value}
  open c use {VerifyingKey}

  reply_of-signed :
      (denied : Option String) (s : Bytes) {signature : Bytes}
      → reply_of denied s ≡ signed signature
      → (denied ≡ none) × (s ≡ signature)
  unfolding reply_of
  reply_of-signed none s eq = (refl, cc)
  reply_of-signed (some reason) s eq = cc

  -- The line that a reply came with.
  delivered-IsSigned :
      (past : List (Event Value)) (line : String) (r : VerifyResponse) (id : ℕ)
      → In (heard line) past
      → parse_response j b line ≡ ok r
      → id ≡ r.id
      → (signature : Bytes) → some (reply_of r.denied r.signature) ≡ some (signed signature)
      → IsSigned j c b past id signature
  delivered-IsSigned past line r id event parsed same signature eq =
      let (granted, equal) =
        reply_of-signed r.denied r.signature
          (some-injective (reply_of r.denied r.signature) (signed signature) eq) in
      (
        line,
        event,
        parsed ∙ (λ i. ok (record { id = sym same i; signature = equal i; denied = granted i })),
      )

  deliver_response-IsSound :
      (past : List (Event Value)) (line : String) (parsed : Result VerifyResponse) (d : State j c b)
      → In (heard line) past
      → parse_response j b line ≡ parsed
      → IsSound j c b timeout past d
      → IsSound j c b timeout past (deliver_response j c b parsed d)
  unfolding deliver_response
  deliver_response-IsSound past line (err e) d event eq h = h
  deliver_response-IsSound past line (ok r) d event eq h =
      elim (Option-cases (lookup r.id d.pending)) [
        | inl nobody ↦ rw (nobody, deliver_response) h
        | inr (task, waiting) ↦
            let entry =
              lookup-All (IsEntry j c b d.next_task d.verifications) r.id d.pending h.0 waiting in
            let filled = fill task (reply_of r.denied r.signature) d.verifications in
            rw (waiting, deliver_response)
              (
                remove-All (IsEntry j c b d.next_task filled) r.id d.pending (
                    All-map
                      (λ e k. (
                        k.0,
                        fill-All (λ v. v.task ≡ e.1 → v.request.id ≡ e.0) task
                            (reply_of r.denied r.signature) d.verifications
                            (All-map (λ v l. (l, λ same. l)) d.verifications k.1),
                      ))
                      d.pending h.0),
                fill-All (IsRunning j c b timeout past d.next_task) task
                    (reply_of r.denied r.signature) d.verifications
                    (All-map
                      (λ v k. (
                        k.0,
                        λ same. (
                          k.0.0,
                          (
                            k.0.1.0,
                            delivered-IsSigned past line r v.request.id event eq (k.1 same),
                          ),
                        ),
                      ))
                      d.verifications
                      (All-zip (IsRunning j c b timeout past d.next_task)
                        (λ v. v.task ≡ task → v.request.id ≡ r.id) d.verifications h.1 entry.1)),
                h.2,
              )
      ]

  pub deliver-IsSound :
      (past : List (Event Value)) (line : String) (d : State j c b)
      → In (heard line) past
      → IsSound j c b timeout past d
      → IsSound j c b timeout past (deliver j c b line d)
  unfolding deliver
  deliver-IsSound past line d event h = elim (Option-cases (json_waiter j c b line d)) [
    | inl nobody ↦
        rw (nobody, deliver)
          (deliver_response-IsSound past line (parse_response j b line) d event refl h)
    | inr ((id, task, value), waiting) ↦ rw (waiting, deliver) h
  ]
