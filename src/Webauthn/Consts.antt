-- ===== src/Webauthn/Consts.antt =====
-- The constants of webauthn.rs.
use kpasskey.Base.{ℕ, [], ◌∷◌}
use kpasskey.Base.Bytes.{Bytes}

abbrev pub aaguid : Bytes
aaguid =
    0x6f ∷ 0x1d ∷ 0x2b ∷ 0x1a ∷ 0x9c ∷ 0x4e ∷ 0x4f ∷ 0x57 ∷ 0xa1 ∷ 0xd3 ∷ 0x7b ∷ 0x8e ∷ 0x2c ∷ 0x05
    ∷ 0xf9 ∷ 0xa4 ∷ []

abbrev pub flag_user_present : ℕ
flag_user_present = 0x01

abbrev pub flag_user_verified : ℕ
flag_user_verified = 0x04

abbrev pub flag_attested : ℕ
flag_attested = 0x40
