-- ===== src/Tests/Server.antt =====
-- The properties of the daemon at a concrete directory, with crates that know a few texts.

use kpasskey.Base.{
  ℕ, ◌≤◌, ◌≡◌, ◌↔◌, refl, List, [], ◌∷◌, Option, none, some, true, false, String, if◌then◌else◌, In,
  inl, inr,
}
use kpasskey.Base.Errors.{err, Result, ok, bail}
use kpasskey.Base.Bytes.{bytes_eq}
use kpasskey.Server.Events.{
  Call, Event, requested, sent, woken, heard, IsJustified, step, after_events,
}
use kpasskey.Server.{
  State, Verification, find, discard, fill, mark_sent, lookup, remove, insert, has_sender, reply_of,
  active_device, active_key, register, start_verification, line_sent, judge, poll, wake,
  json_waiter, deliver_response, deliver,
}
use kpasskey.Store.{
  Device, Entry, get_str, get_u64, from_json, or_here, after_last_dot, extension, insert_by_time,
  sort_by_paired_at, read_entry, read_entries, list,
}
use kpasskey.Protocol.{VerifyResponse, new_request, to_line, signed_response, parse_response}
use kpasskey.Link.{verify_assertion, load_verifying_key}
use kpasskey.Pairing.{hostname}
use kpasskey.Base.Text.{concat, trim, trim_start, trim_end}
use kpasskey.External.{Json}
use kpasskey.Tests.Toys.{some_crypto, some_base64}
use kpasskey.Store.Saving.{Run, save}
use kpasskey.Store.Saving.Outcomes.{save-interrupted}
use kpasskey.Store.Listing.{IsSorted, IsStored, IsHeld, list-IsSorted, active_device-oldest}
use kpasskey.Server.Soundness.{approval-IsJustified}
use kpasskey.Server.Waiting.{IsOver, deliver_first, wake-timer}
use text.Mathlib.Text.{◌==◌ as str_eq}

data Value : Type 0 where
  leaf_text : String → Value
  leaf_number : ℕ → Value
  reply_value : Value
  device_value : Value

abbrev parse : String → Result Value
parse s =
    if str_eq s "reply"
    then ok reply_value
    else if str_eq s "device"
    then ok device_value
    else bail "json"

abbrev field : Value → String → Option Value
field (leaf_text s) name = none
field (leaf_number n) name = none
field reply_value name =
    if str_eq name "id"
    then some (leaf_number 1)
    else if str_eq name "sig"
    then some (leaf_text "Bw==")
    else none
field device_value name =
    if str_eq name "id"
    then some (leaf_text "d")
    else if str_eq name "publicKeyPem"
    then some (leaf_text "pem")
    else none

abbrev text_of : Value → Option String
text_of (leaf_text s) = some s
text_of v = none

abbrev number_of : Value → Option ℕ
number_of (leaf_number n) = some n
number_of v = none

abbrev some_json : Json
some_json = record {
  Value = Value;
  from_str = parse;
  to_string = λ v. "line";
  to_string_pretty = λ v. ok "device";
  get = field;
  as_str = text_of;
  as_u64 = number_of;
  as_bool = λ v. none;
  object = λ fields. leaf_text "";
  text = leaf_text;
  number = leaf_number;
  boolean = λ t. leaf_text "";
  with_field = λ v name w. v;
}

abbrev directory : List Entry
directory = ("d.json", ok "device") ∷ ("e.json", ok "broken") ∷ []

abbrev device : Device
device = record {
  id = "d";
  name = "";
  model = "";
  owner = "";
  security_level = "";
  verified_boot = "";
  paired_at = 0;
  public_key_pem = "pem";
}

abbrev login : Call
login = record { user = "ada"; action = "login"; detail = "" }

-- A request, and the phone's answer before the daemon looks at it; the newest event stands first.
abbrev answered : List (Event Value)
answered =
    heard "reply"
    ∷ sent 0 (ok tt)
    ∷ requested login (ok []) (ok "desk") "/devices" (ok directory)
    ∷ []

approved :
    In
      (0, ok tt)
      (after_events some_json some_crypto some_base64 "60s" (woken 0 false ∷ answered)).verdicts
unfolding step after_events find discard fill mark_sent lookup remove insert has_sender reply_of
    active_device active_key register start_verification line_sent judge poll wake json_waiter
    deliver_response deliver get_str get_u64 from_json or_here after_last_dot extension
    insert_by_time sort_by_paired_at read_entry read_entries list new_request to_line
    signed_response parse_response verify_assertion load_verifying_key hostname concat trim
    trim_start trim_end bytes_eq
approved = inl refl

approval-IsJustified_example :
    IsJustified some_json some_crypto some_base64 "60s" (woken 0 false ∷ answered) 0
approval-IsJustified_example =
    approval-IsJustified some_json some_crypto some_base64 "60s" (woken 0 false ∷ answered) 0
      approved

abbrev waiting : State some_json some_crypto some_base64
waiting =
    after_events some_json some_crypto some_base64 "60s"
      (sent 0 (ok tt) ∷ requested login (ok []) (ok "desk") "/devices" (ok directory) ∷ [])

no_question : json_waiter some_json some_crypto some_base64 "reply" waiting ≡ none
unfolding step after_events find discard fill mark_sent lookup remove insert has_sender reply_of
    active_device active_key register start_verification line_sent judge poll wake json_waiter
    deliver_response deliver get_str get_u64 from_json or_here after_last_dot extension
    insert_by_time sort_by_paired_at read_entry read_entries list new_request to_line
    signed_response parse_response verify_assertion load_verifying_key hostname concat trim
    trim_start trim_end
no_question = refl

abbrev response : VerifyResponse
response = record { id = 1; signature = 7 ∷ []; denied = none }

parsed : parse_response some_json some_base64 "reply" ≡ ok response
unfolding parse_response signed_response get_str get_u64
parsed = refl

deliver_first_example :
    deliver some_json some_crypto some_base64 "reply"
      (deliver some_json some_crypto some_base64 "reply" waiting)
    ≡ deliver some_json some_crypto some_base64 "reply" waiting
deliver_first_example =
    deliver_first some_json some_crypto some_base64 "reply" "reply" response response waiting parsed
      parsed refl no_question no_question

abbrev in_progress : Verification String
in_progress = record {
  task = 0;
  device = device;
  key = "pem";
  request = record {
    id = 1;
    challenge = [];
    user = "ada";
    host = "desk";
    action = "login";
    detail = "";
  };
  request_sent = true;
  reply = none;
}

is_in_progress : find 0 waiting.verifications ≡ some in_progress
unfolding step after_events find discard fill mark_sent lookup remove insert has_sender reply_of
    active_device active_key register start_verification line_sent judge poll wake json_waiter
    deliver_response deliver get_str get_u64 from_json or_here after_last_dot extension
    insert_by_time sort_by_paired_at read_entry read_entries list new_request to_line
    signed_response parse_response verify_assertion load_verifying_key hostname concat trim
    trim_start trim_end
is_in_progress = refl

wake-timer_example :
    IsOver some_json some_crypto some_base64 0 waiting
      (wake some_json some_crypto some_base64 0 true waiting)
wake-timer_example =
    wake-timer some_json some_crypto some_base64 0 in_progress waiting is_in_progress refl

list-IsSorted_example :
    (ds : List Device) × (list some_json "/devices" (ok directory) ≡ ok ds)
    × IsSorted ds
    × (IsHeld some_json directory device ↔ In device ds)
list-IsSorted_example = list-IsSorted some_json "/devices" directory device

stored : IsStored some_json directory device
unfolding step after_events find discard fill mark_sent lookup remove insert has_sender reply_of
    active_device active_key register start_verification line_sent judge poll wake json_waiter
    deliver_response deliver get_str get_u64 from_json or_here after_last_dot extension
    insert_by_time sort_by_paired_at read_entry read_entries list new_request to_line
    signed_response parse_response verify_assertion load_verifying_key hostname concat trim
    trim_start trim_end
stored = (("d.json", ok "device"), inl refl, refl)

active_device-oldest_example :
    (a : Device) × (active_device some_json some_crypto some_base64 "/devices" (ok directory)
      ≡ ok a)
    × IsStored some_json directory a
    × (a.paired_at ≤ device.paired_at)
active_device-oldest_example =
    active_device-oldest some_json some_crypto some_base64 "/devices" directory device stored

-- A disk that fails at the rename, and one that does not fail.
abbrev torn : Run
torn = record {
  wrote = ok tt;
  left = none;
  renamed = err ("disk" ∷ []);
  opened = ok tt;
  synced = ok tt;
}

abbrev smooth : Run
smooth = record { wrote = ok tt; left = none; renamed = ok tt; opened = ok tt; synced = ok tt }

save-interrupted_example :
    IsStored some_json (save some_json "/devices" device torn directory).1 device
    ↔ IsStored some_json directory device
save-interrupted_example =
    save-interrupted some_json "/devices" device torn directory device ("disk" ∷ []) (inr refl)
