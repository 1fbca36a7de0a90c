-- ===== src/Tests/Phone.antt =====
-- The properties of the phone's connection at a concrete request.
use kpasskey.Base.{◌+◌, ◌*◌, subst, ◌≤◌, ◌<◌, ◌≡◌, refl, some, none, [], ◌∷◌, String, true, arith}
use kpasskey.Base.Errors.{ok}
use kpasskey.Base.Bytes.{Bytes, bytes_eq}
use kpasskey.Base.Text.{concat}
use kpasskey.Link.{load_verifying_key, key_id, spki_digest, hex}
use kpasskey.Pairing.{
  PairingSession, Pairings, expired, expire_if_due, take_matching, elapsed, pairing_window, second,
}
use kpasskey.Server.{init}
use kpasskey.Server.Phone.{
  Moment, Desk, send_line, read_token, new_device, report_saved, store_device, admit, pair_session,
  pair_token, complete_pairing, listen,
}
use kpasskey.Server.Phone.Windows.{listen_shut}
use kpasskey.Server.Phone.Completed.{IsNamed, IsStoredAt, complete_pairing-IsStored}
use kpasskey.Store.{get_str, to_json, path_for, safe_chars}
use kpasskey.Store.Saving.{
  Run, save, save_written, save_renamed, without, content_of, temporary_for,
}
use kpasskey.Tests.Toys.{some_crypto, some_base64, table_json, Item, word, make, request_token}

abbrev smooth : Run
smooth = record { wrote = ok tt; left = none; renamed = ok tt; opened = ok tt; synced = ok tt }

abbrev moment : Moment
moment = record {
  now = 5 * second;
  unix_time = ok 5;
  user = none;
  saving = smooth;
  answered = ok tt;
  refused = ok tt;
}

abbrev session : PairingSession
session = record { token = 7 ∷ []; uri = ""; short_code = ""; label = "n"; opened = 0 }

-- A desk with an open window, and the same without one.
abbrev desk : Desk String Item
desk = record {
  daemon = init table_json some_crypto some_base64 "45s";
  pairings = record { current = some session };
  files = [];
  connected = true;
  sent = [];
}

abbrev request : Item
request = make (("t", word "pair.request") ∷ request_token)

succeeds :
    (complete_pairing table_json some_crypto some_base64 "/devices" "pair" moment desk).0 ≡ ok tt
unfolding send_line read_token new_device report_saved store_device admit pair_session pair_token
    complete_pairing load_verifying_key key_id spki_digest hex expired expire_if_due take_matching
    bytes_eq get_str to_json path_for safe_chars concat save save_written save_renamed without
    content_of temporary_for
succeeds = refl

complete_pairing-IsStored_example :
    (value : Item) × (token : Bytes) × (session : PairingSession) × (device : _)
    × (pairings : Pairings) × (read_token table_json some_crypto some_base64 "/devices" "pair"
        ≡ ok (value, token))
    × (desk.pairings.current ≡ some session)
    × (elapsed session moment.now < pairing_window)
    × (session.token ≡ token)
    × (pairings.current ≡ none)
    × IsNamed table_json some_crypto some_base64 "/devices" value session device
    × IsStoredAt table_json some_crypto some_base64 "/devices" moment device
        (record desk { pairings = pairings })
        (complete_pairing table_json some_crypto some_base64 "/devices" "pair" moment desk).1
complete_pairing-IsStored_example =
    complete_pairing-IsStored table_json some_crypto some_base64 "/devices" "pair" moment desk
      succeeds

abbrev id : String
id = "abababababababababababababababab"

-- The same request once the window is over.
abbrev late : Moment
late = record moment { now = 120 * second }

is_over : (s : PairingSession) → some session ≡ some s → s.opened + pairing_window ≤ 120 * second
is_over s e =
    let same : session ≡ s = cc in
    subst (λ x. x.opened + pairing_window ≤ 120 * second) same (omega arith)

listen_shut_example :
    (listen table_json some_crypto some_base64 "/devices" ((some "pair", late) ∷ []) desk).files
    ≡ []
listen_shut_example =
    listen_shut table_json some_crypto some_base64 "/devices" (120 * second)
      ((some "pair", late) ∷ []) desk is_over (omega arith, tt)
