-- ===== src/Tests/Uhid.antt =====
-- The properties of the authenticator at concrete packets.
use kpasskey.Base
use kpasskey.Base.{
  ℕ, zero, suc, ◌+◌, ◌-◌, ◌*◌, ◌/◌, ◌%◌, ◌^◌, ◌≤◌, ◌<◌, ◌≡◌, ◌≢◌, ◌↔◌, refl, ap, sym, subst, ◌∙◌,
  min, bit_and, bit_or, List, [], ◌∷◌, ◌++◌, Option, none, some, Bool, true, false, String, length,
  leb, ltb, ◌==◌, if◌then◌else◌, arith, drop, replicate, length-replicate, length-append, drop_all,
  append-nil, All, All-replicate, In, get_elem?, inl, inr,
}
use kpasskey.Base.Errors.{Result, ok}
use kpasskey.Base.Bytes.{Bytes, IsByte, little, u32_to_be_bytes, u32_to_ne_bytes}
use kpasskey.Uhid.Buffer
use kpasskey.Uhid.Consts.{uhid_output, ctap_broadcast_cid, ctaphid_init}
use kpasskey.Uhid.Frame.{frame}
use kpasskey.Uhid.Frame.Shape.{first_packet, next_packets, message_packets, frame_lem}
use kpasskey.Uhid.Report.{Host, ready, read_header, handle_report, init_report, dispatch}
use kpasskey.Uhid.Report.RoundTrip.{receive, Woven-refl, other}
use kpasskey.Uhid.Report.Invariant.{IsWellFormed, handle_report-IsWellFormed}
use kpasskey.Uhid.Report.Channels.{dispatch_init-reply, assigned, Distinct, assigned-Distinct}
use kpasskey.Uhid.Framing.{
  answered, receive-frame, receive-frame_interleaved, frame_shape, frame_sequence_overflow,
}
use kpasskey.Uhid.Run.{go, fail, answer, timeout, await_phone, run_loop}
use kpasskey.Uhid.Events.Output.{output_event}
use kpasskey.Uhid.Run.Loop.{
  keepalive_event, await_phone_keeps_alive, run_loop-short_init, IsEventOf,
}

abbrev idle : Host
idle = record { assembly = none; next_channel = 0 }

-- A ping of 200 bytes takes four packets.
abbrev ping : Bytes
ping = replicate 200 5

abbrev ping_first : Bytes
ping_first = first_packet 7 1 200 (Base.take 57 ping)

abbrev ping_rest : List Bytes
ping_rest = next_packets 200 7 0 (drop 57 ping)

receive-frame_example : receive (ping_first ∷ ping_rest) idle ≡ answered 7 1 ping idle
receive-frame_example =
    receive-frame 7 1 ping idle (ping_first ∷ ping_rest) (omega arith) (omega arith) (omega arith)
      (frame_lem 7 1 ping (omega arith))

-- A continuation of channel 9
abbrev stray : Bytes
stray = 0 ∷ 0 ∷ 0 ∷ 9 ∷ 5 ∷ replicate 59 1

receive-frame_interleaved_example :
    receive (ping_first ∷ stray ∷ ping_rest) idle ≡ receive (ping_first ∷ ping_rest) idle
unfolding read_header Buffer.take
receive-frame_interleaved_example =
    receive-frame_interleaved 7 1 ping idle ping_first ping_rest (stray ∷ ping_rest) (omega arith)
      (omega arith) (omega arith) (omega arith) (frame_lem 7 1 ping (omega arith))
      (other stray 9 5 refl refl (omega arith) (Woven-refl 7 ping_rest))

frame_shape_example :
    (ps : List Bytes) × (frame 7 1 ping ≡ ok ps)
    × All (λ p. length p ≡ 64) ps
    × (length ps ≡ 1 + (length ping - 57 + 58) / 59)
frame_shape_example = frame_shape 7 1 ping (omega arith)

-- One byte more than sequence numbers can count
abbrev long_body : Bytes
long_body = replicate 7610 5

frame_sequence_overflow_example :
    (p : Bytes) × (get_elem? (message_packets 7 1 long_body) 129 ≡ some p)
    × (get_elem? p 4 ≡ some 0x80)
    × (handle_report p idle ≡ init_report 7 0x80 p idle)
frame_sequence_overflow_example =
    frame_sequence_overflow 7 1 long_body (message_packets 7 1 long_body) idle (omega arith)
      (omega (arith, length-replicate {A = ℕ} 7610 5))
      (frame_lem 7 1 long_body (omega (arith, length-replicate {A = ℕ} 7610 5)))

-- The first packet of a message of 200 bytes
abbrev opening : Bytes
opening = 0 ∷ 0 ∷ 0 ∷ 9 ∷ 0x81 ∷ 0 ∷ 200 ∷ replicate 57 1

handle_report-IsWellFormed_example : IsWellFormed (handle_report opening idle).1
handle_report-IsWellFormed_example =
    handle_report-IsWellFormed opening idle
      (
        omega arith,
        (
          omega arith,
          (
            omega arith,
            (
              omega arith,
              (omega arith, (omega arith, (omega arith, All-replicate IsByte 57 1 (omega arith)))),
            ),
          ),
        ),
      )
      (record { counter = omega arith; open_assembly = tt })

dispatch_init-reply_example :
    (p : Bytes) × (assigned counter : ℕ) × (dispatch ctap_broadcast_cid ctaphid_init
        (replicate 8 3)
        4
      ≡ (ok (ready (p ∷ [])), counter))
    × (length p ≡ 64)
    × (Base.take 7 p ≡ u32_to_be_bytes ctap_broadcast_cid ++ 0x86 ∷ 0 ∷ 17 ∷ [])
    × (Base.take 8 (drop 7 p) ≡ Base.take 8 (replicate 8 3))
    × (Base.take 4 (drop 15 p) ≡ u32_to_be_bytes assigned)
    × (Base.take 5 (drop 19 p) ≡ 2 ∷ 1 ∷ 0 ∷ 0 ∷ 4 ∷ [])
    × (ctap_broadcast_cid ≡ 0xffffffff → (assigned ≡ 5) × (counter ≡ 5))
    × (ctap_broadcast_cid ≢ 0xffffffff → (assigned ≡ ctap_broadcast_cid) × (counter ≡ 4))
dispatch_init-reply_example =
    dispatch_init-reply ctap_broadcast_cid (replicate 8 3) 4 (omega arith) (omega arith)

assigned-Distinct_example :
    Distinct (assigned 3 4) × All (λ c. (4 < c) × (c < ctap_broadcast_cid)) (assigned 3 4)
assigned-Distinct_example = assigned-Distinct 3 4 (omega arith)

abbrev kind : Bytes
kind = u32_to_ne_bytes little uhid_output

abbrev pad : Bytes
pad = replicate 4031 0

abbrev works : Bytes → Result (Unit {0})
works bytes = ok tt

await_phone_keeps_alive_example :
    await_phone little works (λ command body. []) 7 (replicate 2 timeout ++ answer ping ∷ []) []
    ≡ (go ping, [] ++ replicate 2 (keepalive_event little 7))
await_phone_keeps_alive_example =
    await_phone_keeps_alive little works (λ command body. []) 7 2 ping [] [] (λ b. refl)

abbrev short_init : Bytes
short_init = u32_to_be_bytes 7 ++ 0x86 ∷ 0 ∷ 3 ∷ replicate 57 0

-- The packet behind a report number.
abbrev short_event : Bytes
short_event = output_event little kind (0 ∷ short_init ++ pad) 65 []

is_event : IsEventOf little works (λ command body. []) short_init short_event
is_event = (pad, 0, [], length-replicate {A = ℕ} 4031 0, omega arith, inr refl)

run_loop-short_init_example :
    run_loop little works (λ command body. []) (ok short_event ∷ []) [] idle []
    ≡ (fail ("slice out of range" ∷ []), [])
run_loop-short_init_example =
    run_loop-short_init little works (λ command body. []) short_event [] 7 3 (replicate 57 0) []
      idle [] (omega arith) (omega arith) refl (omega arith)
      (subst (IsEventOf little works (λ command body. []) short_init)
        (sym (
          ap (◌++◌ short_event) (drop_all (length short_event) [] (omega arith))
          ∙ append-nil short_event))
        is_event)
