-- ===== src/Webauthn/Layout.antt =====
-- daemon/crates/kpk-spike/src/webauthn.rs: the authenticator data, as a site reads it.
use kpasskey.Base
use kpasskey.Base.{
  ℕ, ◌+◌, ◌*◌, ◌<◌, ◌%◌, ◌/◌, ◌≡◌, refl, ap, sym, ◌∙◌, drop-drop, ltb, Bool-cases, inl, inr, ltb→lt,
  subst, Option, none, some, List, [], ◌∷◌, ◌++◌, String, length, get_or, drop, take-append,
  drop-append, arith, length-append,
}
use kpasskey.Base.Errors.{ok, err, unwrap_or}
use kpasskey.Base.Bytes.{Bytes, u16_to_be_bytes, u32_to_be_bytes, u16_try_from}
use kpasskey.External.{Crypto}
use kpasskey.Base.Text.{as_bytes}
use kpasskey.Webauthn.{authenticator_data, attested_credential_data}
use kpasskey.Webauthn.Consts.{aaguid}

-- WebAuthn, section 6.1: what a site cuts authenticator data into.
pub record AuthData : Type 0 where
  pub rp_id_hash : Bytes
  pub flags : ℕ
  pub sign_count : Bytes
  pub rest : Bytes

pub read_auth_data : Bytes → AuthData
read_auth_data data_ = record {
  rp_id_hash = Base.take 32 data_;
  flags = get_or (drop 32 data_) 0 0;
  sign_count = Base.take 4 (drop 33 data_);
  rest = drop 37 data_;
}

-- Section 6.5.2: and the attested credential data.
pub record Attested : Type 0 where
  pub guid : Bytes
  pub credential_id : Bytes
  pub public_key : Bytes

pub id_length : Bytes → ℕ
id_length data_ = get_or data_ 16 0 * 256 + get_or data_ 17 0

pub read_attested : Bytes → Attested
read_attested data_ = record {
  guid = Base.take 16 data_;
  credential_id = Base.take (id_length data_) (drop 18 data_);
  public_key = drop (id_length data_) (drop 18 data_);
}

drop_tail : (h rest : Bytes) (n : ℕ) → length h ≡ 32 → drop (32 + n) (h ++ rest) ≡ drop n rest
drop_tail h rest n e =
    sym (drop-drop n 32 (32 + n) (h ++ rest) refl) ∙ ap (drop n) (drop-append 32 h rest e)

read_auth_data_lem :
    (c : Crypto) (rp_id : String) (flags sign_count : ℕ) (attested : Option Bytes)
    → length (c.sha256 (as_bytes rp_id)) ≡ 32
    → read_auth_data (authenticator_data c rp_id flags sign_count attested) ≡ record {
      rp_id_hash = c.sha256 (as_bytes rp_id);
      flags = flags;
      sign_count = u32_to_be_bytes sign_count;
      rest = unwrap_or [] attested;
    }
unfolding read_auth_data authenticator_data
read_auth_data_lem c rp_id flags n attested e =
    let h : Bytes = c.sha256 (as_bytes rp_id) in
    let tail : Bytes = flags ∷ u32_to_be_bytes n ++ unwrap_or [] attested in
    λ i. record {
      rp_id_hash = take-append 32 h tail e i;
      flags = get_or (drop_tail h tail 0 e i) 0 0;
      sign_count = Base.take 4 (drop_tail h tail 1 e i);
      rest = drop_tail h tail 5 e i;
    }

abbrev written : Bytes → Bytes → Bytes
written credential_id key =
    aaguid ++ (u16_to_be_bytes (length credential_id) ++ (credential_id ++ key))

read_written :
    (credential_id key : Bytes)
    → length credential_id < 65536
    → read_attested (written credential_id key)
      ≡ record { guid = aaguid; credential_id = credential_id; public_key = key }
unfolding read_attested id_length
read_written credential_id key fits =
    let n : ℕ = length credential_id in
    let same : n / 256 % 256 * 256 + n % 256 ≡ n = omega arith in
    let rest : Bytes = credential_id ++ key in
    λ i. record {
      guid = aaguid;
      credential_id = (ap (λ k. Base.take k rest) same ∙ take-append n credential_id key refl) i;
      public_key = (ap (λ k. drop k rest) same ∙ drop-append n credential_id key refl) i;
    }

attested-eq_ok :
    (credential_id key extra : Bytes)
    → attested_credential_data credential_id key ≡ ok extra
    → (length credential_id < 65536) × (written credential_id key ≡ extra)
unfolding attested_credential_data
attested-eq_ok credential_id key extra h = elim (Bool-cases (ltb (length credential_id) 65536)) [
  | inr long ↦ absurd (absurd_of (rw (long, u16_try_from) at h))
  | inl fits ↦ (ltb→lt (length credential_id) 65536 fits, ok_inj (rw (fits, u16_try_from) at h))
]
  where
    absurd_of : err ("credential id is too long" ∷ []) ≡ ok extra → ⊥
    absurd_of e = cc

    ok_inj : ok (written credential_id key) ≡ ok extra → written credential_id key ≡ extra
    ok_inj e = cc

-- If SHA-256 digests have 32 bytes: when `attested_credential_data` succeeds, a site cuts the
-- authenticator data that carry it into the hash of the relying party's id, the flags, the counter,
-- and the attested data, and those into this authenticator's AAGUID, the credential's id and its key.
pub read_attested_lem :
    (c : Crypto) (rp_id : String) (flags sign_count : ℕ) (credential_id key extra : Bytes)
    → ((m : Bytes) → length (c.sha256 m) ≡ 32)
    → attested_credential_data credential_id key ≡ ok extra
    → (read_auth_data (authenticator_data c rp_id flags sign_count (some extra)) ≡ record {
      rp_id_hash = c.sha256 (as_bytes rp_id);
      flags = flags;
      sign_count = u32_to_be_bytes sign_count;
      rest = extra;
    })
      × (read_attested extra
          ≡ record { guid = aaguid; credential_id = credential_id; public_key = key })
read_attested_lem c rp_id flags n credential_id key extra whole h =
    let (fits, same) = attested-eq_ok credential_id key extra h in
    (
      read_auth_data_lem c rp_id flags n (some extra) (whole (as_bytes rp_id)),
      ap read_attested (sym same) ∙ read_written credential_id key fits,
    )
