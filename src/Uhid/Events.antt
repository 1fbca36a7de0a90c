-- ===== src/Uhid/Events.antt =====
-- The uhid events: `create_event` and `input_event` of uhid.rs, and how `run` reads UHID_OUTPUT.
use kpasskey.Base
use kpasskey.Base.{
  ℕ, ◌+◌, ◌-◌, ◌^◌, min, ◌≤◌, ◌<◌, ◌≡◌, refl, ap, ◌∙◌, List, [], ◌∷◌, ◌++◌, length, replicate, ltb,
  if◌then◌else◌, arith, drop, lt→ltb, le→ltb_false, length-append, length-replicate, take-append,
  drop-append,
}
pub mod Input
pub mod Output
use Prim.Native.Char.{code}
use Prim.Native.String.{String}
use kpasskey.Base.Errors.{Result, ok, err, bail, or_context, ◌>>=◌}
use kpasskey.Base.Bytes.{
  Bytes, Endian, u16_to_ne_bytes, u32_to_ne_bytes, u16_try_from, u16_from_ne_bytes,
}
use kpasskey.Uhid.Consts.{
  uhid_event_size, uhid_create2, uhid_input2, uhid_data_max, fido_report_descriptor,
  hid_report_size,
}
use kpasskey.Uhid.Buffer

-- The bytes of an ASCII text.
abbrev pub codes : String → Bytes
codes String.[] = []
codes (String.◌∷◌ c s) = code c ∷ codes s

abbrev rd_size_offset : ℕ
rd_size_offset = 4 + 128 + 64 + 64

unfoldable pub create_event : Endian → Result Bytes
create_event e = do
  event ← Buffer.put (replicate uhid_event_size 0) 0 (u32_to_ne_bytes e uhid_create2)
  event ← Buffer.put event 4 (codes "kpasskey virtual authenticator")
  descriptor_length ←
      or_context "report descriptor is too long" (u16_try_from (length fido_report_descriptor))
  event ← Buffer.put event rd_size_offset (u16_to_ne_bytes e descriptor_length)
  event ← Buffer.put event (rd_size_offset + 2) (u16_to_ne_bytes e 3)
  event ← Buffer.put event (rd_size_offset + 4) (u32_to_ne_bytes e 0x1209)
  event ← Buffer.put event (rd_size_offset + 8) (u32_to_ne_bytes e 0x0001)
  event ← Buffer.put event (rd_size_offset + 12) (u32_to_ne_bytes e 1)
  event ← Buffer.put event (rd_size_offset + 16) (u32_to_ne_bytes e 0)
  Buffer.put event (rd_size_offset + 20) fido_report_descriptor

unfoldable pub input_event : Endian → Bytes → Result Bytes
input_event e report =
    if ltb uhid_data_max (length report) then bail "report is larger than the uhid maximum" else (do
      event ← Buffer.put (replicate uhid_event_size 0) 0 (u32_to_ne_bytes e uhid_input2)
      size ← or_context "report length overflow" (u16_try_from (length report))
      event ← Buffer.put event 4 (u16_to_ne_bytes e size)
      Buffer.put event 6 report)

-- Where the report of a UHID_OUTPUT event begins, and how long it is said to be.
abbrev pub report_extent : ℕ → ℕ × ℕ
report_extent size = if ltb hid_report_size size then (5, size - 1) else (4, size)

-- output_req is data[4096], size u16, rtype u8.
unfoldable pub read_output : Endian → Bytes → Result Bytes
read_output e buffer = do
  two ← Buffer.take buffer (4 + uhid_data_max) 2
  size ← u16_from_ne_bytes e two
  Buffer.take buffer (report_extent size).0 (min (report_extent size).1 hid_report_size)
