-- ===== src/Server/SelfTest.antt =====
-- daemon/crates/kpk-spike/src/server.rs: `self_test`, which tries the signature check on keys of its own.
use kpasskey.Base.{◌≡◌, ◌≢◌, refl, ap, ◌∙◌, Bool, true, false, String, Bool-cases, inl, inr}
use kpasskey.Base.Errors.{Result, ok, err, bail, context, ◌>>=◌, ◌>>◌, >>=-eq-ok}
use kpasskey.Base.Bytes.{Bytes}
use kpasskey.Base.Text.{replace}
use kpasskey.External.{Json, Crypto, Base64, Signing, SigningLaws}
use kpasskey.Link.{verify_assertion}
use kpasskey.Protocol.{VerifyRequest, new_request, to_line}

-- `.is_ok()`
abbrev pub is_ok {ℓ} : {A : Type ℓ} → Result A → Bool
is_ok (ok a) = true
is_ok (err e) = false

abbrev pub refuse_if : Bool → String → Result (Unit {0})
refuse_if true message = bail message
refuse_if false message = ok tt

-- The field that is altered, before and after.
abbrev pub honest_user : String
honest_user = "\"user\":\"tester\""

abbrev pub forged_user : String
forged_user = "\"user\":\"root\""

abbrev pub tampered : String → String
tampered line = replace line honest_user forged_user

module _ (j : Json) (c : Crypto) (b : Base64) (s : Signing c) where
  open s use {SigningKey, public_of, sign, to_der}

  -- The three checks of a line.
  unfoldable pub check_line : SigningKey → SigningKey → String → Result (Unit {0})
  check_line key other line = do
    context "a correct signature failed to verify"
        (verify_assertion c (public_of key) line (to_der (sign key line)))
    refuse_if (is_ok (verify_assertion c (public_of key) (tampered line) (to_der (sign key line))))
        "a signature verified over tampered bytes; the binding is broken"
    refuse_if (is_ok (verify_assertion c (public_of key) line (to_der (sign other line))))
        "a signature from an unenrolled key verified; device binding is broken"

  -- The keys, the challenge and the host's name are what the system gave.
  unfoldable pub self_test :
      SigningKey → SigningKey → Result Bytes → Result String → Result (Unit {0})
  self_test key other challenge host = do
    request ← new_request 1 "tester" "self-test" "ephemeral key" challenge host
    check_line key other (to_line j b request)

  refuse_if-ok : (t : Bool) (message : String) → refuse_if t message ≡ ok tt → t ≡ false
  refuse_if-ok true message h = cc
  refuse_if-ok false message h = refl

  module _ (laws : SigningLaws c s) where
    open laws use {from_der-to_der, verify-sign}

    -- A key verifies what it signed.
    verify_assertion-sign :
        (key : SigningKey) (line : String)
        → verify_assertion c (public_of key) line (to_der (sign key line)) ≡ ok tt
    unfolding verify_assertion
    verify_assertion-sign key line =
        rw (verify_assertion, from_der-to_der (sign key line), verify-sign key line) refl

    -- What a self test that passes has shown.
    abbrev pub IsTelling : SigningKey → SigningKey → String → Type 0
    IsTelling key other line =
        (tampered line ≢ line)
        × (other ≢ key)
        × (is_ok (verify_assertion c (public_of key) (tampered line) (to_der (sign key line)))
            ≡ false)
        × (is_ok (verify_assertion c (public_of key) line (to_der (sign other line))) ≡ false)

    check_line-IsTelling :
        (key other : SigningKey) (line : String)
        → check_line key other line ≡ ok tt
        → IsTelling key other line
    unfolding check_line
    check_line-IsTelling key other line passed =
        let good = verify_assertion-sign key line in
        let altered : Result (Unit {0}) =
          verify_assertion c (public_of key) (tampered line) (to_der (sign key line)) in
        let foreign : Result (Unit {0}) =
          verify_assertion c (public_of key) line (to_der (sign other line)) in
        elim (Bool-cases (is_ok altered)) [
          | inl broken ↦ absurd (cc (rw (good, broken, check_line) at passed))
          | inr bound ↦ elim (Bool-cases (is_ok foreign)) [
            | inl broken ↦ absurd (cc (rw (good, bound, broken, check_line) at passed))
            | inr known ↦ (
              (λ same.
                  let accepted : is_ok altered ≡ true =
                    ap (λ l. is_ok (verify_assertion c (public_of key) l (to_der (sign key line))))
                      same
                    ∙ ap is_ok good in
                  cc),
              (λ same.
                  let accepted : is_ok foreign ≡ true =
                    ap (λ k. is_ok (verify_assertion c (public_of key) line (to_der (sign k line))))
                      same
                    ∙ ap is_ok good in
                  cc),
              bound,
              known,
            )
          ]
        ]

    -- If p256 keeps to its documentation: a self test that passes had a request, its altered line differs
    -- from its line, its two keys differ, and it saw both the altered line and the other key's signature
    -- refused.
    pub self_test-IsTelling :
        (key other : SigningKey) (challenge : Result Bytes) (host : Result String)
        → self_test key other challenge host ≡ ok tt
        → (request : VerifyRequest) × (new_request 1 "tester" "self-test" "ephemeral key" challenge
              host
            ≡ ok request)
          × IsTelling key other (to_line j b request)
    unfolding self_test
    self_test-IsTelling key other challenge host passed =
        let (request, made, checked) =
          >>=-eq-ok (new_request 1 "tester" "self-test" "ephemeral key" challenge host)
            (λ r. check_line key other (to_line j b r)) passed in
        (request, made, check_line-IsTelling key other (to_line j b request) checked)
