-- ===== src/Uhid/Events/Input.antt =====
-- What `input_event` writes.

use kpasskey.Base.{◌-◌, ◌≤◌, ◌≡◌, ◌++◌, length, arith, lt→ltb, le→ltb_false}
use kpasskey.Base.Errors.{ok}
use kpasskey.Base.Bytes.{Bytes, Endian, little, big, u16_to_ne_bytes, u32_to_ne_bytes}
use kpasskey.Uhid.Buffer
use kpasskey.Uhid.Consts.{uhid_input2}
use kpasskey.Uhid.Frame.Shape.{zeros, put_chunk}
use kpasskey.Uhid.Events.{input_event}

-- The type, the size, the report, and zeros up to the size of an event.
abbrev pub input_bytes : Endian → Bytes → Bytes
input_bytes e report =
    u32_to_ne_bytes e uhid_input2
    ++ (u16_to_ne_bytes e (length report) ++ (report ++ zeros (4370 - length report)))

-- The event for a report of at most 4096 bytes is its type, its size, the report, and zeros.
pub input_event_lem :
    (e : Endian) (report : Bytes)
    → length report ≤ 4096
    → input_event e report ≡ ok (input_bytes e report)
unfolding input_event Buffer.put
input_event_lem little report h =
    rw (le→ltb_false 4096 (length report) h, lt→ltb (length report) 65536 (omega arith))
      (put_chunk 4370 (u32_to_ne_bytes little uhid_input2 ++ u16_to_ne_bytes little (length report))
        report (omega arith) (omega arith))
input_event_lem big report h =
    rw (le→ltb_false 4096 (length report) h, lt→ltb (length report) 65536 (omega arith))
      (put_chunk 4370 (u32_to_ne_bytes big uhid_input2 ++ u16_to_ne_bytes big (length report))
        report (omega arith) (omega arith))
