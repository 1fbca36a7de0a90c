-- ===== src/Tests/Session.antt =====
-- The properties of the store, the bus and the command line at concrete inputs.
use kpasskey.Base.{◌≡◌, refl, none, List, [], ◌∷◌, String, arith}
use kpasskey.Base.Errors.{Result, ok, err}
use kpasskey.Base.Text.{concat, decimal}
use kpasskey.Dbus.{Bus, remove_device}
use kpasskey.Dbus.Rows.{IsRemoval, remove_device-signal}
use kpasskey.Link.{load_verifying_key, key_id, spki_digest, hex}
use kpasskey.Main.Dispatch.{Programs, main, main-arguments}
use kpasskey.Pairing
use kpasskey.Server.Import.{Import, import, imported_device, import-IsStored}
use kpasskey.Store.{Device, Entry, to_json, from_json, path_for, safe_chars}
use kpasskey.Store.Listing.{IsStored}
use kpasskey.Store.Record.{from_json-to_json}
use kpasskey.Store.Saving.{
  Run, save, save_written, save_renamed, without, content_of, temporary_for,
}
use kpasskey.Store.Saving.Map.{view, save_map, save-map}
use kpasskey.Tests.Toys.{some_crypto, table_json, table_laws}

abbrev id : String
id = "abababababababababababababababab"

abbrev pixel : Device
pixel = record {
  id = id;
  name = "n";
  model = "m";
  owner = "unknown";
  security_level = "TrustedEnvironment";
  verified_boot = "green";
  paired_at = 5;
  public_key_pem = "pem";
}

from_json-to_json_example : from_json table_json (to_json table_json pixel) ≡ ok pixel
from_json-to_json_example = from_json-to_json table_json table_laws pixel refl (omega arith)

-- A disk that does not fail, but for the sync.
abbrev unsynced : Run
unsynced = record {
  wrote = ok tt;
  left = none;
  renamed = ok tt;
  opened = ok tt;
  synced = err ("disk" ∷ []);
}

abbrev smooth : Run
smooth = record unsynced { synced = ok tt }

abbrev files : List Entry
files = ("abababababababababababababababab.json", ok "device") ∷ []

save-map_example :
    view (save table_json "/devices" pixel unsynced files).1
    ≡ save_map (temporary_for id) (path_for id) "device" none (ok tt) (ok tt) (view files)
save-map_example = save-map table_json "/devices" pixel unsynced files "device" refl

abbrev by_hand : Import
by_hand = record {
  name = "n";
  model = "m";
  opened = ok tt;
  key_path = "key.pem";
  key_file = ok "pem";
  unix_time = ok 5;
  user = none;
  saving = smooth;
}

named : key_id some_crypto "pem" ≡ ok id
unfolding key_id spki_digest hex
named = refl

reads_back : table_json.from_str "device" ≡ ok (to_json table_json pixel)
unfolding to_json
reads_back = refl

succeeds : (import table_json some_crypto "/devices" by_hand []).0 ≡ ok tt
unfolding import imported_device load_verifying_key key_id spki_digest hex to_json path_for
    safe_chars concat save save_written save_renamed without content_of temporary_for
succeeds = refl

import-IsStored_example :
    IsStored table_json (import table_json some_crypto "/devices" by_hand []).1 pixel
import-IsStored_example =
    import-IsStored table_json some_crypto "/devices" table_laws by_hand [] "pem" id "device"
      (λ m. refl) (omega arith) refl named refl reads_back succeeds

abbrev bus : Bus
bus = record { pairings = Pairing.new; files = files; changed = 0 }

remove_device-signal_example :
    IsRemoval table_json some_crypto "/devices" id
      (ok tt)
      bus
      (remove_device table_json some_crypto "/devices" id (ok tt) (ok tt) bus)
remove_device-signal_example =
    remove_device-signal table_json some_crypto "/devices" id (ok tt) (ok tt) bus

-- Programs that fail with their arguments.
abbrev programs : Programs
programs = record {
  server_serve = λ devices socket port timeout_secs. err (devices ∷ socket ∷ []);
  server_import = λ devices pubkey name model. err (devices ∷ pubkey ∷ name ∷ model ∷ []);
  server_probe = λ socket action detail. err (socket ∷ action ∷ detail ∷ []);
  server_self_test = ok tt;
  uhid_run = err [];
}

abbrev run : List String → Result (Unit {0})
run args = main "/home/ada/.local/share/kpasskey/devices" (ok tt) programs args

main-arguments_example :
    (run (
        "serve"
        ∷ "--devices"
        ∷ "/d"
        ∷ "--socket"
        ∷ "/s"
        ∷ "--port"
        ∷ decimal 34719
        ∷ "--timeout"
        ∷ decimal 45
        ∷ [])
      ≡ err ("/d" ∷ "/s" ∷ []))
    × ((pubkey : String)
        → run (
            "import" ∷ "--devices" ∷ "/d" ∷ "--pubkey" ∷ pubkey ∷ "--action" ∷ "/s" ∷ "--detail"
            ∷ "m" ∷ [])
          ≡ err ("/d" ∷ pubkey ∷ "/s" ∷ "m" ∷ []))
    × (run ("probe" ∷ "--socket" ∷ "/d" ∷ "--action" ∷ "/s" ∷ "--detail" ∷ "m" ∷ [])
        ≡ err ("/d" ∷ "/s" ∷ "m" ∷ []))
    × (run ("self-test" ∷ []) ≡ ok tt)
    × (run ("uhid" ∷ []) ≡ err [])
main-arguments_example =
    main-arguments "/home/ada/.local/share/kpasskey/devices" programs "/d" "/s" "m" 34719 45
      (omega arith) (omega arith)
