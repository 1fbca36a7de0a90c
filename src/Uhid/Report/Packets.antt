-- ===== src/Uhid/Report/Packets.antt =====
-- One packet of `frame` under `handle_report`.
use kpasskey.Base
use kpasskey.Base.{
  ℕ, zero, suc, ◌+◌, ◌-◌, ◌*◌, ◌/◌, ◌%◌, ◌^◌, ◌≤◌, ◌<◌, ◌≡◌, ◌≢◌, refl, ap, sym, ◌∙◌, min, bit_and,
  bit_or, List, [], ◌∷◌, ◌++◌, Option, none, some, true, false, length, ltb, leb, ◌==◌,
  if◌then◌else◌, arith, drop, length-append, length-take, length-drop, length-replicate,
  take-append, append_assoc, take-append-drop, Bool-cases, leb_false→lt, leb→le, inl, inr, lt→ltb,
  le→ltb_false, take_all, drop_all,
}
use kpasskey.Base.Masks.{low_bits, top_bit, set_top_bit, join_bytes}
use kpasskey.Base.Errors.{ok}
use kpasskey.Base.Bytes.{Bytes, u16_to_be_bytes, u32_to_be_bytes, u32_join}
use kpasskey.Uhid.Buffer
use kpasskey.Uhid.Buffer.{take-inside}
use kpasskey.Uhid.Frame.Shape.{zeros, first_packet, next_packet}
use kpasskey.Uhid.Report.{
  Assembly, Host, answer, dispatch, read_header, read_init, init_report, extend,
  continuation_report, handle_report,
}

pub length-padded :
    (n : ℕ) (chunk : Bytes) → length chunk ≤ n → length (chunk ++ zeros (n - length chunk)) ≡ n
length-padded n chunk h = omega (
  arith,
  length-append chunk (zeros (n - length chunk)),
  length-replicate {A = ℕ} (n - length chunk) 0,
)

-- The header of any packet that begins as `frame` begins it.
pub read_header_lem :
    (channel marker : ℕ) (rest : Bytes)
    → channel < 2 ^ 32
    → length rest < 1000
    → read_header (u32_to_be_bytes channel ++ marker ∷ rest) ≡ ok (channel, marker)
unfolding read_header
read_header_lem channel marker rest h hr =
    rw (take-inside (u32_to_be_bytes channel ++ marker ∷ rest) 0 4 (omega arith) (omega arith))
      (rw (u32_join channel h))

abbrev first_packet_of : ℕ → ℕ → Bytes → Bytes
first_packet_of channel marker payload =
    u32_to_be_bytes channel
    ++ (marker ∷ [])
    ++ (u16_to_be_bytes (length payload)
        ++ (Base.take 57 payload ++ zeros (57 - length (Base.take 57 payload))))

read_init_lem :
    (channel marker : ℕ) (payload : Bytes)
    → length payload < 65536
    → read_init (first_packet_of channel marker payload) ≡ ok (length payload, Base.take 57 payload)
unfolding read_init
read_init_lem channel marker payload h =
    rw
      (
        join_bytes (length payload) h,
        take-inside (first_packet_of channel marker payload) 7 (min (length payload) 57)
            (omega (
              arith,
              length-padded 57 (Base.take 57 payload) (omega (arith, length-take 57 payload)),
            ))
            (omega (
              arith,
              length-padded 57 (Base.take 57 payload) (omega (arith, length-take 57 payload)),
            )),
      )
      (ap (λ c. ok (length payload, c))
        (take-append (min (length payload) 57) (Base.take 57 payload) _
          (omega (arith, length-take 57 payload))))

-- The state that an init packet leaves, if it does not hold the whole message.
abbrev pub opened : ℕ → ℕ → Bytes → Host → Host
opened channel command payload host = record host {
  assembly = some (record {
    channel = channel;
    command = command;
    expected = length payload;
    payload = Base.take 57 payload;
  });
}

pub init_marker : (command : ℕ) → command < 128 → (bit_and (bit_or command 0x80) 0x80 == 0) ≡ false
init_marker command h =
    rw (set_top_bit command h, top_bit (command + 128) (omega arith)) (ground arith)

init_command : (command : ℕ) → command < 128 → bit_and (bit_or command 0x80) 0x7f ≡ command
init_command command h =
    rw (set_top_bit command h, low_bits (command + 128) (omega arith)) (omega arith)

-- A report is sent on by its header.
pub handle_report-init :
    (report : Bytes) (host : Host) (channel marker : ℕ)
    → read_header report ≡ ok (channel, marker)
    → (bit_and marker 0x80 == 0) ≡ false
    → handle_report report host ≡ init_report channel marker report host
unfolding handle_report
handle_report-init report host channel marker e b = rw (e, handle_report, b)

pub handle_report-continuation :
    (report : Bytes) (host : Host) (channel marker : ℕ)
    → read_header report ≡ ok (channel, marker)
    → (bit_and marker 0x80 == 0) ≡ true
    → handle_report report host ≡ continuation_report host.assembly channel report host
unfolding handle_report
handle_report-continuation report host channel marker e b = rw (e, handle_report, b)

pub handle_first :
    (channel command : ℕ) (payload : Bytes) (host : Host)
    → channel < 2 ^ 32
    → command < 128
    → length payload < 65536
    → handle_report (first_packet channel command (length payload) (Base.take 57 payload)) host ≡ (
        if leb (length payload) 57
        then answer host (dispatch channel command payload host.next_channel)
        else (ok none, opened channel command payload host))
unfolding init_report
handle_first channel command payload host hc hm hp =
    handle_report-init _ host channel (bit_or command 0x80)
      (read_header_lem channel (bit_or command 0x80) _ hc (
        omega
          (arith, length-padded 57 (Base.take 57 payload) (omega (arith, length-take 57 payload)))))
      (init_marker command hm)
    ∙ rw
        (
          read_init_lem channel (bit_or command 0x80) payload hp,
          init_report,
          init_command command hm,
        )
        (elim (Bool-cases (leb (length payload) 57)) [
          | inl short ↦ rw (
            short,
            take_all 57 payload (ground arith),
            le→ltb_false (length payload) (length payload) (omega arith),
          )
          | inr long ↦ rw (
            long,
            lt→ltb (length (Base.take 57 payload)) (length payload)
                (ground (arith, length-take 57 payload)),
          )
        ])

-- The assembly after one more chunk of 59 bytes.
abbrev pub extended : Assembly → Bytes → Assembly
extended state rest = record state { payload = state.payload ++ Base.take 59 rest }

pub length-next_packet :
    (channel sequence : ℕ) (rest : Bytes)
    → length (next_packet channel sequence (Base.take 59 rest)) ≡ 64
length-next_packet channel sequence rest =
    omega (arith, length-padded 59 (Base.take 59 rest) (omega (arith, length-take 59 rest)))

read_part :
    (channel sequence k : ℕ) (rest : Bytes)
    → k ≡ min (length rest) 59
    → Buffer.take (next_packet channel sequence (Base.take 59 rest)) 5 k ≡ ok (Base.take 59 rest)
read_part channel sequence k rest e =
    take-inside (next_packet channel sequence (Base.take 59 rest)) 5 k
      (omega (arith, length-next_packet channel sequence rest))
      (omega (arith, length-next_packet channel sequence rest))
    ∙ ap (λ c. ok c)
        (take-append k (Base.take 59 rest) (zeros (59 - length (Base.take 59 rest)))
          (omega (arith, length-take 59 rest)))

extend_lem :
    (state : Assembly) (sequence : ℕ) (rest : Bytes) (host : Host)
    → length state.payload + length rest ≡ state.expected
    → extend state (next_packet state.channel sequence (Base.take 59 rest)) host ≡ (
        if leb (length rest) 59
        then answer
            (record host { assembly = none })
            (dispatch state.channel state.command (state.payload ++ rest) host.next_channel)
        else (ok none, record host { assembly = some (extended state rest) }))
unfolding extend
extend_lem state sequence rest host e =
    rw
      (
        read_part state.channel sequence (min (state.expected - length state.payload) 59) rest
            (omega arith),
        extend,
      )
      (elim (Bool-cases (leb (length rest) 59)) [
        | inl short ↦ rw (
          short,
          take_all 59 rest (ground arith),
          le→ltb_false (length (state.payload ++ rest)) state.expected
              (omega (arith, length-append state.payload rest)),
        )
        | inr long ↦ rw (
          long,
          lt→ltb (length (state.payload ++ Base.take 59 rest)) state.expected (
              omega (
                arith,
                leb_false→lt (length rest) 59 long,
                length-append state.payload (Base.take 59 rest),
                length-take 59 rest,
              )),
        )
      ])

-- A continuation for the channel of the assembly extends it; for another channel it is dropped.
pub continuation_own :
    (state : Assembly) (report : Bytes) (host : Host)
    → continuation_report (some state) state.channel report host ≡ extend state report host
unfolding continuation_report
continuation_own state report host = ground arith

pub continuation_other :
    (state : Assembly) (channel : ℕ) (report : Bytes) (host : Host)
    → state.channel ≢ channel
    → continuation_report (some state) channel report host ≡ (ok none, host)
unfolding continuation_report
continuation_other state channel report host h = ground arith

pub handle_next :
    (state : Assembly) (sequence : ℕ) (rest : Bytes) (host : Host)
    → host.assembly ≡ some state
    → state.channel < 2 ^ 32
    → sequence < 128
    → length state.payload + length rest ≡ state.expected
    → handle_report (next_packet state.channel sequence (Base.take 59 rest)) host ≡ (
        if leb (length rest) 59
        then answer
            (record host { assembly = none })
            (dispatch state.channel state.command (state.payload ++ rest) host.next_channel)
        else (ok none, record host { assembly = some (extended state rest) }))
handle_next state sequence rest host at hc hs e =
    handle_report-continuation _ host state.channel sequence
      (read_header_lem state.channel sequence _ hc
        (omega (arith, length-next_packet state.channel sequence rest)))
      (rw (top_bit sequence (omega arith)) (ground arith))
    ∙ ap
        (λ a.
          continuation_report a state.channel
            (next_packet state.channel sequence (Base.take 59 rest)) host)
        at
    ∙ continuation_own state _ host
    ∙ extend_lem state sequence rest host e
