-- ===== src/Uhid/Report/Invariant.antt =====
-- What stays true of the state of `handle_report`.

use kpasskey.Base.{
  ℕ, zero, suc, ◌+◌, ◌-◌, ◌*◌, ◌/◌, ◌%◌, ◌^◌, ◌<◌, ◌≡◌, min, bit_and, bit_or, [], ◌∷◌, ◌++◌, Option,
  none, some, length, ltb, ◌==◌, arith, All, get_elem?, ltb→lt, Bool-cases, inl, inr, subst, String,
}
use mathlib.Core.Option.{some-injective}
use kpasskey.Base.Masks.{low_bits, join_bytes}
use kpasskey.Base.Errors.{Result, ok, or_context, >>=-eq-ok, Result-cases}
use kpasskey.Base.Bytes.{Bytes, IsByte, u32_from_be_bytes}
use kpasskey.Uhid.Buffer
use kpasskey.Uhid.Buffer.{take-IsByte}
use kpasskey.Uhid.Report.{
  Assembly, Host, answer, assign_channel, dispatch, dispatch_init, read_header, read_init,
  init_report, extend, continuation_report, handle_report,
}

-- An open assembly is short of its message, which a u16 measures, on a u32 channel.
abbrev pub IsOpen : Option Assembly → Type 0
IsOpen none = Unit
IsOpen (some a) =
    (length a.payload < a.expected)
    × (a.expected < 65536)
    × (a.channel < 2 ^ 32)
    × (a.command < 128)

pub record IsWellFormed (host : Host) : Type 0 where
  pub counter : host.next_channel < 2 ^ 32
  pub open_assembly : IsOpen host.assembly

dispatch_counter :
    (channel command : ℕ) (payload : Bytes) (next : ℕ)
    → next < 2 ^ 32
    → (dispatch channel command payload next).1 < 2 ^ 32
unfolding dispatch dispatch_init assign_channel
dispatch_counter channel command payload next h = ground arith

answer-IsWellFormed :
    (host : Host) (channel command : ℕ) (payload : Bytes)
    → IsWellFormed host
    → IsWellFormed (answer host (dispatch channel command payload host.next_channel)).1
answer-IsWellFormed host channel command payload v = record {
  counter = dispatch_counter channel command payload host.next_channel v.counter;
  open_assembly = v.open_assembly;
}

get_elem?-IsByte : (xs : Bytes) (i : ℕ) {b : ℕ} → All IsByte xs → get_elem? xs i ≡ some b → b < 256
get_elem?-IsByte [] i h e = cc
get_elem?-IsByte (x ∷ xs) zero {b} h e = subst IsByte (some-injective x b e) h.0
get_elem?-IsByte (x ∷ xs) (suc i) h e = get_elem?-IsByte xs i h.1 e

or_context-eq_ok {ℓ} :
    {A : Type ℓ} (message : String) (o : Option A) {a : A}
    → or_context message o ≡ ok a
    → o ≡ some a
or_context-eq_ok message none e = cc
or_context-eq_ok message (some b) e = cc

u32_from_be_bytes-lt :
    (bytes : Bytes) (n : ℕ) → All IsByte bytes → u32_from_be_bytes bytes ≡ ok n → n < 2 ^ 32
u32_from_be_bytes-lt [] n h e = cc
u32_from_be_bytes-lt (a ∷ []) n h e = cc
u32_from_be_bytes-lt (a ∷ b ∷ []) n h e = cc
u32_from_be_bytes-lt (a ∷ b ∷ c ∷ []) n h e = cc
u32_from_be_bytes-lt (a ∷ b ∷ c ∷ d ∷ []) n h e = ground arith
u32_from_be_bytes-lt (a ∷ b ∷ c ∷ d ∷ x ∷ r) n h e = cc

header_range :
    (c m channel marker : ℕ)
    → ◌≡◌ {A = Result (ℕ × ℕ)} (ok (c, m)) (ok (channel, marker))
    → c < 2 ^ 32
    → m < 256
    → (channel < 2 ^ 32) × (marker < 256)
header_range c m channel marker e hc hm = ground arith

init_range :
    (high low expected : ℕ) (part payload : Bytes)
    → ◌≡◌ {A = Result (ℕ × Bytes)}
        (ok (bit_or (high * 256 % 65536) low, part))
        (ok (expected, payload))
    → high < 256
    → low < 256
    → expected < 65536
init_range high low expected part payload e hh hl =
    let h : (high * 256 + low) / 256 % 256 * 256 % 65536 ≡ high * 256 % 65536 = omega arith in
    let l : (high * 256 + low) % 256 ≡ low = omega arith in
    let joined : bit_or (high * 256 % 65536) low ≡ high * 256 + low =
      rw (h, l) at (join_bytes (high * 256 + low) (omega arith)) in
    ground arith

read_header-range :
    (report : Bytes) (channel marker : ℕ)
    → All IsByte report
    → read_header report ≡ ok (channel, marker)
    → (channel < 2 ^ 32) × (marker < 256)
unfolding read_header
read_header-range report channel marker h e =
    let (four, taken, e₁) = >>=-eq-ok (Buffer.take report 0 4) _ e in
    let (c, from, e₂) = >>=-eq-ok (u32_from_be_bytes four) _ e₁ in
    let (m, got, e₃) = >>=-eq-ok (or_context "short report" (get_elem? report 4)) _ e₂ in
    header_range c m channel marker e₃
      (u32_from_be_bytes-lt four c (take-IsByte report 0 4 h taken) from)
      (get_elem?-IsByte report 4 h (or_context-eq_ok "short report" (get_elem? report 4) got))

read_init-range :
    (report : Bytes) (expected : ℕ) (payload : Bytes)
    → All IsByte report
    → read_init report ≡ ok (expected, payload)
    → expected < 65536
unfolding read_init
read_init-range report expected payload h e =
    let (high, got₁, e₁) = >>=-eq-ok (or_context "short report" (get_elem? report 5)) _ e in
    let (low, got₂, e₂) = >>=-eq-ok (or_context "short report" (get_elem? report 6)) _ e₁ in
    let (part, taken, e₃) =
      >>=-eq-ok (Buffer.take report 7 (min (bit_or (high * 256 % 65536) low) 57)) _ e₂ in
    init_range high low expected part payload e₃
      (get_elem?-IsByte report 5 h (or_context-eq_ok "short report" (get_elem? report 5) got₁))
      (get_elem?-IsByte report 6 h (or_context-eq_ok "short report" (get_elem? report 6) got₂))

init_report-IsWellFormed :
    (channel marker : ℕ) (report : Bytes) (host : Host)
    → channel < 2 ^ 32
    → marker < 256
    → All IsByte report
    → IsWellFormed host
    → IsWellFormed (init_report channel marker report host).1
unfolding init_report
init_report-IsWellFormed channel marker report host hc hm hr v =
    elim (Result-cases (read_init report)) [
      | inr (e, failed) ↦ rw (failed, init_report) v
      | inl ((expected, payload), read) ↦ elim (Bool-cases (ltb (length payload) expected)) [
        | inl short ↦
            rw (read, init_report, short)
              (record {
                counter = v.counter;
                open_assembly = (
                  ltb→lt (length payload) expected short,
                  read_init-range report expected payload hr read,
                  hc,
                  rw (low_bits marker hm) (omega arith),
                );
              })
        | inr whole ↦
            rw (read, init_report, whole)
              (answer-IsWellFormed host channel (bit_and marker 0x7f) payload v)
      ]
    ]

extend-IsWellFormed :
    (state : Assembly) (report : Bytes) (host : Host)
    → IsOpen (some state)
    → IsWellFormed host
    → IsWellFormed (extend state report host).1
unfolding extend
extend-IsWellFormed state report host o v =
    elim (Result-cases (Buffer.take report 5 (min (state.expected - length state.payload) 59))) [
      | inr (e, failed) ↦ rw (failed, extend) v
      | inl (part, read) ↦ elim (Bool-cases (ltb (length (state.payload ++ part)) state.expected)) [
        | inl short ↦
            rw (read, extend, short)
              (record {
                counter = v.counter;
                open_assembly =
                    (ltb→lt (length (state.payload ++ part)) state.expected short, o.1, o.2, o.3);
              })
        | inr whole ↦
            rw (read, extend, whole)
              (answer-IsWellFormed (record host { assembly = none }) state.channel state.command
                (state.payload ++ part) (record { counter = v.counter; open_assembly = tt }))
      ]
    ]

continuation_report-IsWellFormed :
    (assembly : Option Assembly) (channel : ℕ) (report : Bytes) (host : Host)
    → IsOpen assembly
    → IsWellFormed host
    → IsWellFormed (continuation_report assembly channel report host).1
unfolding continuation_report
continuation_report-IsWellFormed none channel report host o v = v
continuation_report-IsWellFormed (some state) channel report host o v =
    elim (Bool-cases (state.channel == channel)) [
      | inl same ↦ rw same (extend-IsWellFormed state report host o v)
      | inr different ↦ rw different v
    ]

-- For every report of bytes, if it holds before it holds afterwards: the counter is a u32, and an
-- open assembly is short of its message, which is shorter than 65536 bytes, on a u32 channel and
-- with a seven-bit command.
pub handle_report-IsWellFormed :
    (report : Bytes) (host : Host)
    → All IsByte report
    → IsWellFormed host
    → IsWellFormed (handle_report report host).1
unfolding handle_report
handle_report-IsWellFormed report host h v = elim (Result-cases (read_header report)) [
  | inr (e, failed) ↦ rw (failed, handle_report) v
  | inl ((channel, marker), read) ↦
      let (hc, hm) = read_header-range report channel marker h read in
      elim (Bool-cases (bit_and marker 0x80 == 0)) [
        | inl continuation ↦
            rw (read, handle_report, continuation)
              (continuation_report-IsWellFormed host.assembly channel report host v.open_assembly v)
        | inr init ↦
            rw (read, handle_report, init)
              (init_report-IsWellFormed channel marker report host hc hm h v)
      ]
]
