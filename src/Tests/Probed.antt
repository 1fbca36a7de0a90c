-- ===== src/Tests/Probed.antt =====
-- A probe at the socket of `serve`, at a concrete course of events.
use kpasskey.Base.{true, false, ◌≡◌, refl, some, List, [], ◌∷◌, String}
use kpasskey.Base.Errors.{ok}
use kpasskey.Base.Bytes.{bytes_eq}
use kpasskey.Base.Text.{concat, decimal, trim, trim_start, trim_end}
use kpasskey.Dbus.{publish}
use kpasskey.Fidolink.{Exchange}
use kpasskey.Link.{verify_assertion, load_verifying_key}
use kpasskey.Pairing.{hostname}
use kpasskey.Protocol.{new_request, to_line, signed_response, parse_response}
use kpasskey.Store.{
  get_str, get_u64, get_bool, from_json, or_here, after_last_dot, extension, insert_by_time,
  sort_by_paired_at, read_entry, read_entries, list,
}
use kpasskey.Server.{
  find, discard, fill, mark_sent, lookup, remove, insert, has_sender, reply_of, active_device,
  active_key, register, start_verification, line_sent, judge, poll, wake, json_waiter,
  deliver_response, deliver,
}
use kpasskey.Server.Pam.{
  read_request, route, webauthn_operation, begin, ask_creation, reply_on, result_of, verifying,
  probe, verdict_of,
}
use kpasskey.Server.Pam.Verdicts.{answering}
use kpasskey.Server.Phone.{send_line, kind_of, on_phone_message, on_line, listen, adopt_phone}
use kpasskey.Server.Serve.{
  Happening, phone_accepted, pam_accepted, pam_read, request_written, verification_woken,
  phone_read, going, start_up, accept_request, write_request, write_question, happen, proceed,
  serving, listening, serve,
}
use kpasskey.Server.Serve.Approved.{IsApproved}
use kpasskey.Server.Serve.Probed.{probing, probe_line, probe-IsApproved}
use kpasskey.Tests.Serve.{socket, startup, files, draws, moment, Running, arrival, arrived}
use kpasskey.Tests.Toys.{some_crypto, some_base64, table_json, table_laws, Item, word, flag, make}

abbrev afterwards : List Happening
afterwards = verification_woken 0 false ∷ phone_read "reply" moment ∷ request_written 0 (ok tt) ∷ []

abbrev before : List Happening
before = pam_accepted (ok tt) ∷ phone_accepted (ok tt) ∷ []

abbrev course : List Happening
course =
    verification_woken 0 false
    ∷ phone_read "reply" moment
    ∷ request_written 0 (ok tt)
    ∷ pam_read (ok 0)
        (ok
          (probe_line table_json table_laws some_crypto some_base64 "/devices" (some "a") "b" "c"))
        draws
    ∷ before

abbrev approval : Item
approval = make (("ok", flag true) ∷ ("reason", word "success") ∷ [])

abbrev approving : String → Exchange
approving line = answering table_json table_laws some_crypto some_base64 "reason\n"

served :
    (t : Running) × (serve table_json some_crypto some_base64 "/devices" socket 34719 45 startup
        files course
      ≡ going t)
    × (reply_on table_json some_crypto some_base64 (verifying 0) t.desk.daemon ≡ some approval)
unfolding start_up accept_request write_request write_question happen proceed serving listening
    serve publish read_request route webauthn_operation begin ask_creation send_line kind_of
    on_phone_message on_line listen adopt_phone find discard fill mark_sent lookup remove insert
    has_sender reply_of active_device active_key register start_verification line_sent judge poll
    wake json_waiter deliver_response deliver get_str get_u64 from_json or_here after_last_dot
    extension insert_by_time sort_by_paired_at read_entry read_entries list new_request to_line
    signed_response parse_response verify_assertion load_verifying_key hostname concat decimal trim
    trim_start trim_end bytes_eq reply_on result_of
served = (_, refl, refl)

succeeds : probe table_json some_crypto some_base64 approving socket (some "a") "b" "c" ≡ ok tt
unfolding probe verdict_of get_bool concat trim trim_start trim_end
succeeds = refl

probe-IsApproved_example :
    IsApproved table_json some_crypto some_base64 "/devices" course served.0.desk.sent (
      probing table_json table_laws some_crypto some_base64 "/devices" 0
        (some "a")
        "b"
        "c"
        draws
        afterwards
        before
        arrival)
unfolding concat trim trim_start trim_end
probe-IsApproved_example =
    probe-IsApproved table_json table_laws some_crypto some_base64 "/devices" socket 34719 45
      startup files served.0 arrival afterwards before 0 draws approving (some "a") "b" "c" approval
      served.1 arrived refl served.2 refl refl succeeds
