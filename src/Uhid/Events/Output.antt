-- ===== src/Uhid/Events/Output.antt =====
-- daemon/crates/kpk-spike/src/uhid.rs: the report that an output event holds.
use kpasskey.Base.{
  ℕ, ◌-◌, ◌^◌, ◌≤◌, ◌<◌, ◌≡◌, refl, ap, sym, ◌∙◌, min, [], ◌∷◌, ◌++◌, length, arith, length-append,
  append_assoc,
}
use kpasskey.Base.Errors.{ok}
use kpasskey.Base.Bytes.{
  Bytes, Endian, little, big, u16_to_ne_bytes, u16_from_ne_bytes, u32_to_ne_bytes,
}
use kpasskey.Uhid.Buffer
use kpasskey.Uhid.Buffer.{take-middle, take-inside}
use kpasskey.Uhid.Events.{read_output, report_extent}

-- An output event: its kind, 4096 bytes of data, the size, and what follows.
abbrev pub output_event : Endian → Bytes → Bytes → ℕ → Bytes → Bytes
output_event e kind payload size tail = kind ++ (payload ++ (u16_to_ne_bytes e size ++ tail))

u16_ne : (e : Endian) (n : ℕ) → n < 65536 → u16_from_ne_bytes e (u16_to_ne_bytes e n) ≡ ok n
u16_ne little n h = ap ok (omega arith)
u16_ne big n h = ap ok (omega arith)

length-u16 : (e : Endian) (n : ℕ) → length (u16_to_ne_bytes e n) ≡ 2
length-u16 little n = refl
length-u16 big n = refl

read_size :
    (e : Endian) (kind payload : Bytes) (size : ℕ) (tail : Bytes)
    → length kind ≡ 4
    → length payload ≡ 4096
    → length tail < 1000
    → Buffer.take (output_event e kind payload size tail) 4100 2 ≡ ok (u16_to_ne_bytes e size)
read_size e kind payload size tail hk hp ht =
    ap (λ b. Buffer.take b 4100 2)
      (sym (append_assoc kind payload (u16_to_ne_bytes e size ++ tail)))
    ∙ take-middle 4100 2 (kind ++ payload) (u16_to_ne_bytes e size) tail
        (omega (arith, length-append kind payload)) (length-u16 e size)
        (omega (
          arith,
          length-append kind payload,
          length-append (kind ++ payload) (u16_to_ne_bytes e size ++ tail),
          length-append (u16_to_ne_bytes e size) tail,
          length-u16 e size,
        ))

pub length-event :
    (e : Endian) (kind payload : Bytes) (size : ℕ) (tail : Bytes)
    → length kind ≡ 4
    → length payload ≡ 4096
    → length tail < 1000
    → length (output_event e kind payload size tail) < 2 ^ 64
length-event e kind payload size tail hk hp ht = omega (
  arith,
  length-append kind (payload ++ (u16_to_ne_bytes e size ++ tail)),
  length-append payload (u16_to_ne_bytes e size ++ tail),
  length-append (u16_to_ne_bytes e size) tail,
  length-u16 e size,
)

-- A report of `size` bytes that begins `skip` bytes into the data.
read_report :
    (e : Endian) (kind before report pad : Bytes) (size : ℕ) (tail : Bytes)
    → length kind ≡ 4
    → length before ≡ (report_extent size).0 - 4
    → 4 ≤ (report_extent size).0
    → length report ≡ min (report_extent size).1 64
    → length (before ++ (report ++ pad)) ≡ 4096
    → size < 65536
    → length tail < 1000
    → read_output e (output_event e kind (before ++ (report ++ pad)) size tail) ≡ ok report
unfolding read_output
read_report e kind before report pad size tail hk hb lo hr hp hs ht =
    rw (read_size e kind (before ++ (report ++ pad)) size tail hk hp ht, u16_ne e size hs)
      (ap (λ b. Buffer.take b (report_extent size).0 (min (report_extent size).1 64)) regroup
        ∙ take-middle (report_extent size).0 (min (report_extent size).1 64) (kind ++ before) report
            (pad ++ (u16_to_ne_bytes e size ++ tail)) (omega (arith, length-append kind before)) hr
            (rw (← regroup) (length-event e kind (before ++ (report ++ pad)) size tail hk hp ht)))
  where
    regroup :
        output_event e kind (before ++ (report ++ pad)) size tail
        ≡ (kind ++ before) ++ (report ++ (pad ++ (u16_to_ne_bytes e size ++ tail)))
    regroup = simp append_assoc

-- A 64-byte report is read whole from an output event, with size 64 when it stands alone and with
-- size 65 when the host puts a report number in front of it.
pub read_output_numbered :
    (e : Endian) (kind report pad : Bytes) (number : ℕ) (last tail : Bytes)
    → length kind ≡ 4
    → length report ≡ 64
    → length pad ≡ 4031
    → length last ≡ 1
    → length tail < 1000
    → (read_output e (output_event e kind (report ++ (pad ++ last)) 64 tail) ≡ ok report)
      × (read_output e (output_event e kind (number ∷ report ++ pad) 65 tail) ≡ ok report)
read_output_numbered e kind report pad number last tail hk hr hp hl ht = (
  read_report e kind [] report (pad ++ last) 64 tail hk refl (omega arith) hr
      (omega (arith, length-append report (pad ++ last), length-append pad last)) (omega arith) ht,
  read_report e kind (number ∷ []) report pad 65 tail hk refl (omega arith) hr
      (omega (arith, length-append report pad)) (omega arith) ht,
)

pub length-u32 : (e : Endian) (n : ℕ) → length (u32_to_ne_bytes e n) ≡ 4
length-u32 little n = refl
length-u32 big n = refl
