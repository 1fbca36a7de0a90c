-- ===== src/Tests/Serve.antt =====
-- The properties of `serve` at a concrete course of events.
use kpasskey.Base.{true, false, ◌↔◌, ◌⊎◌, ◌≡◌, refl, none, some, List, [], ◌∷◌, String, In, inl}
use kpasskey.Base.Errors.{ok, err}
use kpasskey.Base.Bytes.{bytes_eq}
use kpasskey.Base.Text.{concat, decimal, trim, trim_start, trim_end}
use kpasskey.Dbus.{publish}
use kpasskey.Link.{verify_assertion, load_verifying_key}
use kpasskey.Pairing.{hostname}
use kpasskey.Protocol.{new_request, to_line, signed_response, parse_response}
use kpasskey.Store.{
  Entry, get_str, get_u64, from_json, or_here, after_last_dot, extension, insert_by_time,
  sort_by_paired_at, read_entry, read_entries, list,
}
use kpasskey.Server.{
  find, discard, fill, mark_sent, lookup, remove, insert, has_sender, reply_of, active_device,
  active_key, register, start_verification, line_sent, judge, poll, wake, json_waiter,
  deliver_response, deliver, start_question, question_sent, accept, poll_question, wake_question,
  find_question, discard_question, fill_question, mark_asked,
}
use kpasskey.Server.Pam.{verify, read_request, route, webauthn_operation, begin, ask_creation}
use kpasskey.Server.Phone.{
  Moment, send_line, kind_of, on_phone_message, on_line, listen, adopt_phone,
}
use kpasskey.Server.Serve.{
  Startup, Draws, Happening, phone_accepted, pam_accepted, pam_read, request_written,
  verification_woken, question_written, question_woken, phone_read, Served, going, start_up,
  accept_request, write_request, write_question, happen, proceed, serving, listening, serve, opened,
  verify_timeout,
}
use kpasskey.Server.Serve.Approved.{IsApproved, serve-IsApproved, IsGranted, serve-IsGranted}
use kpasskey.Server.Serve.Asked.{Asking}
use kpasskey.Server.Serve.Ending.{IsEnded, HasFailed, HasRefused, serve-ends_iff, serve-going}
use kpasskey.Server.Serve.History.{history}
use kpasskey.Server.Serve.Refinement.{serving-history}
use kpasskey.Server.Events.{after_events}
use kpasskey.Tests.Toys.{some_crypto, some_base64, table_json, Item, word, count, make}

abbrev pub socket : String
socket = "/run/kpasskey/pam.sock"

abbrev pub startup : Startup
startup = record {
  created = ok tt;
  bus = record { session = ok tt; name = ok tt; serve_at = ok tt; build = ok tt };
  parent = some "/run/kpasskey";
  parent_created = ok tt;
  pam_bound = ok tt;
  phone_bound = ok tt;
}

abbrev pub files : List Entry
files = ("d.json", ok "device") ∷ []

abbrev pub draws : Draws
draws = record { challenge = ok []; host = ok "desk"; read_dir = ok tt }

abbrev pub moment : Moment
moment = record {
  now = 0;
  unix_time = ok 5;
  user = none;
  saving = record { wrote = ok tt; left = none; renamed = ok tt; opened = ok tt; synced = ok tt };
  answered = ok tt;
  refused = ok tt;
}

-- A login that the phone approves; the newest stands first.
abbrev login : List Happening
login =
    verification_woken 0 false
    ∷ phone_read "reply" moment
    ∷ request_written 0 (ok tt)
    ∷ pam_read (ok 0) (ok "detail") draws
    ∷ pam_accepted (ok tt)
    ∷ phone_accepted (ok tt)
    ∷ []

-- A creation that the phone answers.
abbrev creation : List Happening
creation =
    question_woken 0 false
    ∷ phone_read "reply" moment
    ∷ question_written 0 (ok tt)
    ∷ pam_read (ok 0) (ok "userName") draws
    ∷ pam_accepted (ok tt)
    ∷ phone_accepted (ok tt)
    ∷ []

abbrev pub Running : Type 0
Running = Served table_json some_crypto some_base64 "/devices"

abbrev answer : Item
answer = make (("id", count 1) ∷ ("sig", word "Bw==") ∷ [])

approved :
    (t : Running) × (serve table_json some_crypto some_base64 "/devices" socket 34719 45 startup
        files login
      ≡ going t)
    × In (0, ok tt) t.desk.daemon.verdicts
unfolding start_up accept_request write_request write_question happen proceed serving listening
    serve publish read_request route webauthn_operation begin ask_creation send_line kind_of
    on_phone_message on_line listen adopt_phone find discard fill mark_sent lookup remove insert
    has_sender reply_of active_device active_key register start_verification line_sent judge poll
    wake json_waiter deliver_response deliver get_str get_u64 from_json or_here after_last_dot
    extension insert_by_time sort_by_paired_at read_entry read_entries list new_request to_line
    signed_response parse_response verify_assertion load_verifying_key hostname concat decimal trim
    trim_start trim_end bytes_eq
approved = (_, refl, inl refl)

-- The state before the request was read.
abbrev pub arrival : Running
arrival =
    let start = opened table_json some_crypto some_base64 "/devices" 45 files in
    record start { desk = record start.desk { connected = true } }

pub arrived :
    serving table_json some_crypto some_base64 "/devices"
      (opened table_json some_crypto some_base64 "/devices" 45 files)
      (pam_accepted (ok tt) ∷ phone_accepted (ok tt) ∷ [])
    ≡ going arrival
unfolding happen proceed serving listen adopt_phone concat decimal
arrived = refl

abbrev asking : Asking table_json some_crypto some_base64 "/devices"
asking = record {
  peer_uid = ok 0;
  line = ok "detail";
  draws = draws;
  call = record { user = "a"; action = "b"; detail = "c" };
  later = verification_woken 0 false ∷ phone_read "reply" moment ∷ request_written 0 (ok tt) ∷ [];
  before = pam_accepted (ok tt) ∷ phone_accepted (ok tt) ∷ [];
  state = arrival;
}

was_read :
    read_request table_json some_crypto some_base64 (ok 0) (ok "detail") ≡ ok (verify "a" "b" "c")
unfolding read_request route get_str trim trim_start trim_end
was_read = refl

serve-IsApproved_example :
    IsApproved table_json some_crypto some_base64 "/devices" login approved.0.desk.sent asking
serve-IsApproved_example =
    serve-IsApproved table_json some_crypto some_base64 "/devices" socket 34719 45 startup files
      login approved.0 asking approved.1 (refl, arrived, was_read) approved.2

granted :
    (t : Running) × (serve table_json some_crypto some_base64 "/devices" socket 34719 45 startup
        files creation
      ≡ going t)
    × In (0, ok answer) t.desk.daemon.answers
unfolding start_up accept_request write_request write_question happen proceed serving listening
    serve publish read_request route webauthn_operation begin ask_creation send_line kind_of
    on_phone_message on_line listen adopt_phone lookup remove insert has_sender active_device
    json_waiter deliver_response deliver get_str get_u64 from_json or_here after_last_dot extension
    insert_by_time sort_by_paired_at read_entry read_entries list start_question question_sent
    accept poll_question wake_question find_question discard_question fill_question mark_asked
    hostname concat decimal trim trim_start trim_end bytes_eq
granted = (_, refl, inl refl)

serve-IsGranted_example :
    IsGranted table_json some_crypto some_base64 "/devices"
      (opened table_json some_crypto some_base64 "/devices" 45 files)
      creation
      granted.0.desk.sent
      0
      answer
serve-IsGranted_example =
    serve-IsGranted table_json some_crypto some_base64 "/devices" socket 34719 45 startup files
      creation granted.0 0 answer granted.1 granted.2

serving-history_example :
    approved.0.desk.daemon
    ≡ after_events table_json some_crypto some_base64
        (verify_timeout table_json some_crypto some_base64 "/devices" 45)
        (history table_json some_crypto some_base64 "/devices"
          (opened table_json some_crypto some_base64 "/devices" 45 files)
          login)
serving-history_example =
    serving-history table_json some_crypto some_base64 "/devices" 45 files login approved.0 (
      serve-going table_json some_crypto some_base64 "/devices" socket 34719 45 startup files login
        approved.1)

serve-ends_iff_example :
    IsEnded table_json some_crypto some_base64 "/devices" (
      serve table_json some_crypto some_base64 "/devices" socket 34719 45 startup files
        (pam_read (ok 0) (ok "detail") draws ∷ phone_accepted (err []) ∷ []))
    ↔ (HasFailed table_json some_crypto some_base64 "/devices" socket 34719 startup
        ⊎ HasRefused table_json some_crypto some_base64 "/devices"
            (pam_read (ok 0) (ok "detail") draws ∷ phone_accepted (err []) ∷ []))
serve-ends_iff_example =
    serve-ends_iff table_json some_crypto some_base64 "/devices" socket 34719 45 startup files
      (pam_read (ok 0) (ok "detail") draws ∷ phone_accepted (err []) ∷ [])
