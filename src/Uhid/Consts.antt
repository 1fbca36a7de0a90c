-- ===== src/Uhid/Consts.antt =====
-- The constants of uhid.rs.
use kpasskey.Base.{ℕ, ◌+◌, [], ◌∷◌}
use kpasskey.Base.Bytes.{Bytes}

abbrev pub uhid_start : ℕ
uhid_start = 2

abbrev pub uhid_stop : ℕ
uhid_stop = 3

abbrev pub uhid_open : ℕ
uhid_open = 4

abbrev pub uhid_close : ℕ
uhid_close = 5

abbrev pub uhid_output : ℕ
uhid_output = 6

abbrev pub uhid_create2 : ℕ
uhid_create2 = 11

abbrev pub uhid_input2 : ℕ
uhid_input2 = 12

abbrev pub uhid_data_max : ℕ
uhid_data_max = 4096

abbrev pub uhid_event_size : ℕ
uhid_event_size = 4 + 4372

abbrev pub hid_report_size : ℕ
hid_report_size = 64

abbrev pub ctaphid_ping : ℕ
ctaphid_ping = 0x01

abbrev pub ctaphid_init : ℕ
ctaphid_init = 0x06

abbrev pub ctaphid_cbor : ℕ
ctaphid_cbor = 0x10

abbrev pub ctaphid_error : ℕ
ctaphid_error = 0x3f

abbrev pub ctap2_err_operation_denied : ℕ
ctap2_err_operation_denied = 0x27

abbrev pub ctap_broadcast_cid : ℕ
ctap_broadcast_cid = 0xffff_ffff

abbrev pub ctap2_make_credential : ℕ
ctap2_make_credential = 0x01

abbrev pub ctap2_get_assertion : ℕ
ctap2_get_assertion = 0x02

abbrev pub ctap2_get_info : ℕ
ctap2_get_info = 0x04

abbrev pub ctap1_err_invalid_command : ℕ
ctap1_err_invalid_command = 0x01

abbrev pub ctap2_err_no_credentials : ℕ
ctap2_err_no_credentials = 0x2e

abbrev pub ctap2_ok : ℕ
ctap2_ok = 0x00

abbrev pub ctaphid_keepalive : ℕ
ctaphid_keepalive = 0x3b

abbrev pub keepalive_up_needed : ℕ
keepalive_up_needed = 0x02

abbrev pub fido_report_descriptor : Bytes
fido_report_descriptor =
    0x06 ∷ 0xd0 ∷ 0xf1 ∷ 0x09 ∷ 0x01 ∷ 0xa1 ∷ 0x01 ∷ 0x09 ∷ 0x20 ∷ 0x15 ∷ 0x00 ∷ 0x26 ∷ 0xff ∷ 0x00
    ∷ 0x75 ∷ 0x08 ∷ 0x95 ∷ 0x40 ∷ 0x81 ∷ 0x02 ∷ 0x09 ∷ 0x21 ∷ 0x15 ∷ 0x00 ∷ 0x26 ∷ 0xff ∷ 0x00
    ∷ 0x75 ∷ 0x08 ∷ 0x95 ∷ 0x40 ∷ 0x91 ∷ 0x02 ∷ 0xc0 ∷ []
