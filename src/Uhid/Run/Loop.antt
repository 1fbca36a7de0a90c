-- ===== src/Uhid/Run/Loop.antt =====
-- What the loop of `run` reads, writes, and stops at.

use kpasskey.Base.{
  ℕ, zero, suc, ◌^◌, ◌≤◌, ◌<◌, ◌≡◌, refl, ap, sym, ◌∙◌, List, [], ◌∷◌, ◌++◌, length, replicate,
  arith, drop, length-append, append_assoc, append-nil, le→ltb_false, ◌⊎◌, inl, inr,
}
use Prim.Native.String.{String}
use kpasskey.Base.Errors.{Error, Result, ok, err}
use kpasskey.Base.Bytes.{
  Bytes, Endian, little, big, u16_to_ne_bytes, u32_to_be_bytes, u32_to_ne_bytes, u32_from_ne_bytes,
}
use kpasskey.Uhid.Consts.{uhid_output, ctaphid_keepalive, keepalive_up_needed}
use kpasskey.Uhid.Buffer
use kpasskey.Uhid.Buffer.{take-middle, take-inside}
use kpasskey.Uhid.Events.{read_output}
use kpasskey.Uhid.Frame.Shape.{first_packet, frame_lem}
use kpasskey.Uhid.Events.Input.{input_bytes, input_event_lem}
use kpasskey.Uhid.Report.Channels.{handle_report-short_init}
use kpasskey.Uhid.Report.{Host, handle_report}
use kpasskey.Uhid.Run.{
  Receipt, answer, timeout, go, fail, on_kind, await_phone, write_packets, write_all, on_output,
  on_event, run_loop,
}
use kpasskey.Uhid.Events.Output.{output_event, length-event, length-u32, read_output_numbered}

output_kind : (e : Endian) → u32_from_ne_bytes e (u32_to_ne_bytes e uhid_output) ≡ ok uhid_output
output_kind little = refl
output_kind big = refl

-- The event that reports `waiting for the user` on a channel.
abbrev pub keepalive_event : Endian → ℕ → Bytes
keepalive_event e channel =
    input_bytes e (first_packet channel ctaphid_keepalive 1 (keepalive_up_needed ∷ []))

module _ (e : Endian) (device_write : Bytes → Result (Unit {0}))
    (receipts : ℕ → Bytes → List Receipt) where
  write_all_lem :
      (message : String) (bytes : Bytes) (out : List Bytes)
      → device_write bytes ≡ ok tt
      → write_all e device_write receipts message bytes out ≡ (go tt, out ++ bytes ∷ [])
  unfolding write_all
  write_all_lem message bytes out works = rw (works, write_all)

  keepalive_step :
      (channel : ℕ) (rest : List Receipt) (out : List Bytes)
      → ((b : Bytes) → device_write b ≡ ok tt)
      → await_phone e device_write receipts channel (timeout ∷ rest) out
        ≡ await_phone e device_write receipts channel rest (out ++ keepalive_event e channel ∷ [])
  unfolding await_phone write_packets
  keepalive_step channel rest out works = rw (
    frame_lem channel ctaphid_keepalive (keepalive_up_needed ∷ []) (omega arith),
    input_event_lem e (first_packet channel ctaphid_keepalive 1 (keepalive_up_needed ∷ []))
        (omega arith),
    write_all_lem "writing a report to the host" (keepalive_event e channel) out
        (works (keepalive_event e channel)),
  )

  -- If every write to the device succeeds: while the phone is silent, one keepalive event is
  -- written for each interval, and nothing else; then the answer is returned.
  pub await_phone_keeps_alive :
      (channel n : ℕ) (body : Bytes) (rest : List Receipt) (out : List Bytes)
      → ((b : Bytes) → device_write b ≡ ok tt)
      → await_phone e device_write receipts channel (replicate n timeout ++ answer body ∷ rest) out
        ≡ (go body, out ++ replicate n (keepalive_event e channel))
  unfolding await_phone
  await_phone_keeps_alive channel zero body rest out works =
      ap (λ o. (go body, o)) (sym (append-nil out))
  await_phone_keeps_alive channel (suc n) body rest out works =
      keepalive_step channel (replicate n timeout ++ answer body ∷ rest) out works
      ∙ await_phone_keeps_alive channel n body rest (out ++ keepalive_event e channel ∷ []) works
      ∙ ap (λ o. (go body, o))
          (append_assoc out (keepalive_event e channel ∷ [])
            (replicate n (keepalive_event e channel)))

  on_event-output :
      (payload : Bytes) (size : ℕ) (tail : Bytes) (host : Host) (out : List Bytes)
      → length payload ≡ 4096
      → length tail < 1000
      → on_event e device_write receipts
          (output_event e (u32_to_ne_bytes e uhid_output) payload size tail)
          host
          out
        ≡ on_output e device_write receipts
            (output_event e (u32_to_ne_bytes e uhid_output) payload size tail)
            host
            out
  unfolding on_event on_kind
  on_event-output payload size tail host out hp ht = rw (
    take-middle 0 4 [] (u32_to_ne_bytes e uhid_output) (payload ++ (u16_to_ne_bytes e size ++ tail))
        refl (length-u32 e uhid_output)
        (length-event e (u32_to_ne_bytes e uhid_output) payload size tail (length-u32 e uhid_output)
          hp ht),
    output_kind e,
  )

  -- An error of `handle_report` is an error of the arm that called it.
  on_output-failed :
      (buffer report : Bytes) (channel marker : ℕ) (body : Bytes) (host : Host) (error : Error)
      (out : List Bytes)
      → read_output e buffer ≡ ok report
      → report ≡ u32_to_be_bytes channel ++ marker ∷ body
      → channel < 2 ^ 32
      → length body < 1000
      → (handle_report report host).0 ≡ err error
      → on_output e device_write receipts buffer host out ≡ (fail error, out)
  unfolding on_output
  on_output-failed buffer report channel marker body host error out read shape hc hb failed = rw (
    read,
    ap (λ r. Buffer.take r 0 4) shape
        ∙ take-inside (u32_to_be_bytes channel ++ marker ∷ body) 0 4 (omega arith) (omega arith),
    failed,
  )

  -- The two forms in which a 64-byte report reaches the device: alone with size 64, or with a report
  -- number in front of it and size 65.
  abbrev pub IsEventOf : Bytes → Bytes → Type 0
  IsEventOf report event =
      (pad : Bytes) × (extra : ℕ) × (tail : Bytes) × (length pad ≡ 4031)
      × (length tail < 1000)
      × ((event
            ≡ output_event e (u32_to_ne_bytes e uhid_output) (report ++ (pad ++ extra ∷ [])) 64
                tail)
          ⊎ (event
              ≡ output_event e (u32_to_ne_bytes e uhid_output) (extra ∷ report ++ pad) 65 tail))

  on_event-failed :
      (event report : Bytes) (channel marker : ℕ) (body : Bytes) (host : Host) (error : Error)
      (out : List Bytes)
      → length report ≡ 64
      → IsEventOf report event
      → report ≡ u32_to_be_bytes channel ++ marker ∷ body
      → channel < 2 ^ 32
      → length body < 1000
      → (handle_report report host).0 ≡ err error
      → on_event e device_write receipts event host out ≡ (fail error, out)
  on_event-failed event report channel marker body host error out hr
        (pad, extra, tail, hp, ht, inl form) shape hc hb failed =
      rw (
        form,
        on_event-output (report ++ (pad ++ extra ∷ [])) 64 tail host out
            (omega
              (arith, length-append report (pad ++ extra ∷ []), length-append pad (extra ∷ [])))
            ht,
        on_output-failed _ report channel marker body host error out
            (read_output_numbered e (u32_to_ne_bytes e uhid_output) report pad extra (extra ∷ [])
              tail (length-u32 e uhid_output) hr hp refl ht).0
            shape hc hb failed,
      )
  on_event-failed event report channel marker body host error out hr
        (pad, extra, tail, hp, ht, inr form) shape hc hb failed =
      rw (
        form,
        on_event-output (extra ∷ report ++ pad) 65 tail host out
            (omega (arith, length-append report pad)) ht,
        on_output-failed _ report channel marker body host error out
            (read_output_numbered e (u32_to_ne_bytes e uhid_output) report pad extra (extra ∷ [])
              tail (length-u32 e uhid_output) hr hp refl ht).1
            shape hc hb failed,
      )

  -- When a read brings an output event with a report of 64 bytes, alone or behind a report number, which
  -- is, on a u32 channel, an INIT packet that announces fewer than eight bytes, the loop of `run` ends
  -- with an error, whatever the state of the authenticator; nothing is written, and the reads that
  -- would follow are never made.
  pub run_loop-short_init :
      (bytes buffer : Bytes) (channel n : ℕ) (rest : Bytes) (reads : List (Result Bytes))
      (host : Host) (out : List Bytes)
      → channel < 2 ^ 32
      → n < 8
      → length rest ≡ 57
      → 4 ≤ length bytes
      → IsEventOf
          (u32_to_be_bytes channel ++ 0x86 ∷ 0 ∷ n ∷ rest)
          (bytes ++ drop (length bytes) buffer)
      → run_loop e device_write receipts (ok bytes ∷ reads) buffer host out
        ≡ (fail ("slice out of range" ∷ []), out)
  unfolding run_loop
  run_loop-short_init bytes buffer channel n rest reads host out hc hn hr hb event = rw (
    le→ltb_false (length bytes) 4 hb,
    on_event-failed (bytes ++ drop (length bytes) buffer)
        (u32_to_be_bytes channel ++ 0x86 ∷ 0 ∷ n ∷ rest) channel 0x86 (0 ∷ n ∷ rest) host
        ("slice out of range" ∷ []) out (omega arith) event refl hc (omega arith)
        (ap (λ r. r.0) (handle_report-short_init channel n rest host hc hn hr)),
  )
