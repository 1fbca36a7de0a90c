-- ===== src/Store/Record.antt =====
-- daemon/crates/kpk-spike/src/store.rs: a device record as JSON.
use kpasskey.Base.{◌<◌, ◌^◌, ◌≡◌, refl, false, [], ◌∷◌}
use kpasskey.Base.Errors.{ok}
use kpasskey.Base.Text.{is_empty}
use kpasskey.External.{Json, JsonLaws}
use kpasskey.Store.{Device, to_json, from_json}
use kpasskey.Store.Fields.{Fields, get_str-object, get_u64-object}

-- If serde_json finds the fields of the objects that `json!` builds: a device whose id is not
-- empty and whose time of pairing is a u64 is read back whole from its JSON form.
pub from_json-to_json :
    (j : Json) (laws : JsonLaws j) (d : Device)
    → is_empty d.id ≡ false
    → d.paired_at < 2 ^ 64
    → from_json j (to_json j d) ≡ ok d
unfolding from_json to_json
from_json-to_json j laws d named fits =
    rw
      (
        get_str-object j laws "id" d.id record_fields refl,
        get_str-object j laws "name" d.name record_fields refl,
        get_str-object j laws "model" d.model record_fields refl,
        get_str-object j laws "owner" d.owner record_fields refl,
        get_str-object j laws "securityLevel" d.security_level record_fields refl,
        get_str-object j laws "verifiedBoot" d.verified_boot record_fields refl,
        get_u64-object j laws "pairedAt" d.paired_at record_fields fits refl,
        get_str-object j laws "publicKeyPem" d.public_key_pem record_fields refl,
        named,
      )
      refl
  where
    record_fields : Fields j laws
    record_fields =
        ("id", Json.text j d.id)
        ∷ ("name", Json.text j d.name)
        ∷ ("model", Json.text j d.model)
        ∷ ("owner", Json.text j d.owner)
        ∷ ("securityLevel", Json.text j d.security_level)
        ∷ ("verifiedBoot", Json.text j d.verified_boot)
        ∷ ("pairedAt", Json.number j d.paired_at)
        ∷ ("publicKeyPem", Json.text j d.public_key_pem)
        ∷ []
