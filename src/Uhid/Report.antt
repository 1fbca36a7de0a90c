-- ===== src/Uhid/Report.antt =====
-- `dispatch` and `handle_report` of uhid.rs: from packets to messages and their answers.
use kpasskey.Base.{
  ℕ, ◌+◌, ◌-◌, ◌*◌, ◌%◌, ◌^◌, min, bit_and, bit_or, Option, none, some, List, [], ◌∷◌, ◌++◌, drop,
  length, get_elem?, get_or, ltb, ◌==◌, if◌then◌else◌,
}
use kpasskey.Base.Errors.{Error, Result, ok, err, or_context, ◌>>=◌}
use kpasskey.Base.Bytes.{Bytes, u32_to_be_bytes, u32_from_be_bytes}
use kpasskey.Webauthn.Consts.{aaguid}
use kpasskey.Uhid.Consts.{
  hid_report_size, ctaphid_ping, ctaphid_init, ctaphid_cbor, ctaphid_error, ctap_broadcast_cid,
  ctap2_make_credential, ctap2_get_assertion, ctap2_get_info, ctap1_err_invalid_command, ctap2_ok,
}
use kpasskey.Uhid.Buffer
use kpasskey.Uhid.Frame.{frame}
pub mod Packets
pub mod RoundTrip
pub mod Invariant
pub mod Channels

-- `authenticatorGetInfo`
abbrev pub get_info_response : Bytes
get_info_response =
    let head : Bytes =
      0xa3 ∷ 0x01 ∷ 0x81 ∷ 0x68 ∷ b'F' ∷ b'I' ∷ b'D' ∷ b'O' ∷ b'_' ∷ b'2' ∷ b'_' ∷ b'0' ∷ 0x03
      ∷ 0x50 ∷ [] in
    let options : Bytes =
      0x04 ∷ 0xa3 ∷ 0x62 ∷ b'r' ∷ b'k' ∷ 0xf4 ∷ 0x62 ∷ b'u' ∷ b'p' ∷ 0xf5 ∷ 0x62 ∷ b'u' ∷ b'v'
      ∷ 0xf5 ∷ [] in
    (ctap2_ok ∷ []) ++ ((head ++ aaguid) ++ options)

-- `waiting` holds the command and the body that the spawned thread works on.
pub data Outcome : Type 0 where
  ready : List Bytes → Outcome
  waiting : ℕ → Bytes → Outcome

pub record Assembly : Type 0 where
  pub channel : ℕ
  pub command : ℕ
  pub expected : ℕ
  pub payload : Bytes

-- The variables of `run` that `handle_report` borrows.
pub record Host : Type 0 where
  pub assembly : Option Assembly
  pub next_channel : ℕ

abbrev map_result {ℓ κ} : {A : Type ℓ} {B : Type κ} → (A → B) → Result A → Result B
map_result f (ok a) = ok (f a)
map_result f (err e) = err e

-- The channel that INIT answers with, and the counter behind it.
unfoldable pub assign_channel : ℕ → ℕ → ℕ × ℕ
assign_channel channel next_channel =
    if channel == ctap_broadcast_cid
    then ((next_channel + 1) % 2 ^ 32, (next_channel + 1) % 2 ^ 32)
    else (channel, next_channel)

-- nonce, channel, protocol version, device version, capabilities
abbrev pub init_body : Bytes → ℕ → Bytes
init_body nonce assigned = nonce ++ (u32_to_be_bytes assigned ++ (2 ∷ 1 ∷ 0 ∷ 0 ∷ 0x04 ∷ []))

unfoldable pub dispatch_init : ℕ → Bytes → ℕ → Result Outcome × ℕ
dispatch_init channel payload next_channel = elim (Buffer.take payload 0 8) [
  | err e ↦ (err e, next_channel)
  | ok nonce ↦
      let (assigned, next) = assign_channel channel next_channel in
      (map_result ready (frame channel ctaphid_init (init_body nonce assigned)), next)
]

unfoldable pub dispatch_cbor : ℕ → Bytes → Result Outcome
dispatch_cbor channel payload =
    let ctap_command = get_or payload 0 0 in
    let body = drop 1 payload in
    if ctap_command == ctap2_get_info
    then map_result ready (frame channel ctaphid_cbor get_info_response)
    else if ctap_command == ctap2_make_credential
    then ok (waiting ctap_command body)
    else if ctap_command == ctap2_get_assertion
    then ok (waiting ctap_command body)
    else map_result ready (frame channel ctaphid_cbor (ctap1_err_invalid_command ∷ []))

-- The second part is `next_channel` afterwards.
unfoldable pub dispatch : ℕ → ℕ → Bytes → ℕ → Result Outcome × ℕ
dispatch channel command payload next_channel =
    if command == ctaphid_init
    then dispatch_init channel payload next_channel
    else if command == ctaphid_ping
    then (map_result ready (frame channel ctaphid_ping payload), next_channel)
    else if command == ctaphid_cbor
    then (dispatch_cbor channel payload, next_channel)
    else (
      map_result ready (frame channel ctaphid_error (ctap1_err_invalid_command ∷ [])),
      next_channel,
    )

-- The channel and the marker byte of a report.
unfoldable pub read_header : Bytes → Result (ℕ × ℕ)
read_header report = do
  four ← Buffer.take report 0 4
  channel ← u32_from_be_bytes four
  marker ← or_context "short report" (get_elem? report 4)
  ok (channel, marker)

-- The length field of an init packet and the part of the payload that it carries.
unfoldable pub read_init : Bytes → Result (ℕ × Bytes)
read_init report = do
  high ← or_context "short report" (get_elem? report 5)
  low ← or_context "short report" (get_elem? report 6)
  let expected = bit_or (high * 256 % 65536) low
  payload ← Buffer.take report 7 (min expected (hid_report_size - 7))
  ok (expected, payload)

-- `dispatch(…).map(Some)`
abbrev pub answer : Host → Result Outcome × ℕ → Result (Option Outcome) × Host
answer host (outcome, next) = (map_result some outcome, record host { next_channel = next })

unfoldable pub init_report : ℕ → ℕ → Bytes → Host → Result (Option Outcome) × Host
init_report channel marker report host = elim (read_init report) [
  | err e ↦ (err e, host)
  | ok (expected, payload) ↦
      let command = bit_and marker 0x7f in
      if ltb (length payload) expected
      then (
        ok none,
        record host {
          assembly = some (record {
            channel = channel;
            command = command;
            expected = expected;
            payload = payload;
          });
        },
      )
      else answer host (dispatch channel command payload host.next_channel)
]

unfoldable pub extend : Assembly → Bytes → Host → Result (Option Outcome) × Host
extend state report host =
    elim (Buffer.take report 5
      (min (state.expected - length state.payload) (hid_report_size - 5))) [
        | err e ↦ (err e, host)
        | ok part ↦
            let payload = state.payload ++ part in
            if ltb (length payload) state.expected
            then (ok none, record host { assembly = some (record state { payload = payload }) })
            else answer (record host { assembly = none })
                (dispatch state.channel state.command payload host.next_channel)
      ]

unfoldable pub continuation_report :
    Option Assembly → ℕ → Bytes → Host → Result (Option Outcome) × Host
continuation_report none channel report host = (ok none, host)
continuation_report (some state) channel report host =
    if state.channel == channel then extend state report host else (ok none, host)

unfoldable pub handle_report : Bytes → Host → Result (Option Outcome) × Host
handle_report report host = elim (read_header report) [
  | err e ↦ (err e, host)
  | ok (channel, marker) ↦
      if bit_and marker 0x80 == 0
      then continuation_report host.assembly channel report host
      else init_report channel marker report host
]
