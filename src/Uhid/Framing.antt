-- ===== src/Uhid/Framing.antt =====
-- `frame` and `handle_report` together: messages survive being cut into packets.
use kpasskey.Base
use kpasskey.Base.{
  ℕ, zero, suc, ◌+◌, ◌-◌, ◌*◌, ◌/◌, ◌%◌, ◌^◌, ◌≤◌, ◌<◌, ◌≡◌, refl, ap, sym, ◌∙◌, min, bit_and,
  bit_or, List, [], ◌∷◌, ◌++◌, Option, none, some, length, leb, if◌then◌else◌, arith, drop,
  length-append, length-take, length-drop, drop-drop, All, get_elem?, Bool-cases, inl, inr, leb→le,
  lt→leb_false, leb_false→lt, subst, false, true,
}
use mathlib.Core.List.{head-eq_of_cons-eq, tail-eq_of_cons-eq}
use kpasskey.Base.Errors.{Result, ok}
use kpasskey.Base.Bytes.{Bytes}
use kpasskey.Uhid.Frame.{frame}
use kpasskey.Uhid.Frame.Shape.{
  first_packet, next_packet, next_packets, next_packets_done, message_packets, frame_lem,
  frame_too_long,
}
use kpasskey.Uhid.Report.{Outcome, Host, answer, dispatch, handle_report, init_report}
use kpasskey.Uhid.Report.Packets.{
  length-padded, length-next_packet, read_header_lem, handle_report-init,
}
use kpasskey.Uhid.Report.RoundTrip.{
  receive, alone, finished, Woven, Woven-refl, receive_message, then_receive, then_alone,
}

packets_of :
    (channel command : ℕ) (payload : Bytes) {ps : List Bytes}
    → length payload < 65536
    → frame channel command payload ≡ ok ps
    → ps ≡ message_packets channel command payload
packets_of channel command payload h e = cc (frame_lem channel command payload h)

-- What `handle_report` makes of a message: its one answer, with no assembly left behind if the
-- message took more than one packet.
abbrev pub answered : ℕ → ℕ → Bytes → Host → Result (List Outcome) × Host
answered channel command payload host =
    if leb (length payload) 57
    then alone (answer host (dispatch channel command payload host.next_channel))
    else finished channel command payload host

-- With nothing behind it, an answer is the whole of what is received.
receive_nothing :
    (r : Result (Option Outcome) × Host) (fuel channel sequence : ℕ) (rest : Bytes)
    → length rest ≤ 0
    → then_receive r (receive (next_packets fuel channel sequence rest)) ≡ alone r
unfolding receive
receive_nothing r fuel channel sequence rest h =
    ap (λ l. then_receive r (receive l)) (next_packets_done fuel channel sequence rest h)
    ∙ then_alone r (λ h. (ok [], h)) (λ h same. refl)

-- On a u32 channel, with a seven-bit command and a payload of at most 7609 bytes: the packets that
-- `frame` makes are put together again by `handle_report`, report after report, and the one answer
-- is that of `dispatch` to the whole payload.
pub receive-frame :
    (channel command : ℕ) (payload : Bytes) (host : Host) (ps : List Bytes)
    → channel < 2 ^ 32
    → command < 128
    → length payload ≤ 7609
    → frame channel command payload ≡ ok ps
    → receive ps host ≡ answered channel command payload host
receive-frame channel command payload host ps hc hm hp e =
    ap (λ l. receive l host) (packets_of channel command payload (omega arith) e)
    ∙ receive_message channel command payload host _ (Woven-refl channel _) hc hm hp
    ∙ elim (Bool-cases (leb (length payload) 57)) [
      | inl short ↦ rw short (
          receive_nothing (answer host (dispatch channel command payload host.next_channel))
            (length payload) channel 0 (drop 57 payload)
            (omega (arith, leb→le (length payload) 57 short, length-drop 57 payload)))
      | inr long ↦ rw long
    ]

-- On a u32 channel, with a seven-bit command and a payload of more than 57 and at most 7609 bytes:
-- continuations of other channels behind the first packet change nothing, the answer and the
-- authenticator's state are the same without them.
pub receive-frame_interleaved :
    (channel command : ℕ) (payload : Bytes) (host : Host) (p : Bytes) (ps qs : List Bytes)
    → channel < 2 ^ 32
    → command < 128
    → 57 < length payload
    → length payload ≤ 7609
    → frame channel command payload ≡ ok (p ∷ ps)
    → Woven channel ps qs
    → receive (p ∷ qs) host ≡ receive (p ∷ ps) host
receive-frame_interleaved channel command payload host p ps qs hc hm long hp e w =
    ap (λ x. receive (x ∷ qs) host)
      (head-eq_of_cons-eq (packets_of channel command payload (omega arith) e))
    ∙ receive_message channel command payload host qs
        (subst (λ l. Woven channel l qs)
          (tail-eq_of_cons-eq (packets_of channel command payload (omega arith) e)) w)
        hc hm hp
    ∙ rw (lt→leb_false (length payload) 57 long) (
        sym (
          rw (lt→leb_false (length payload) 57 long) at
            (receive-frame channel command payload host (p ∷ ps) hc hm hp e)))

length-first_packet :
    (channel command len : ℕ) (payload : Bytes)
    → length (first_packet channel command len (Base.take 57 payload)) ≡ 64
length-first_packet channel command len payload =
    omega (arith, length-padded 57 (Base.take 57 payload) (omega (arith, length-take 57 payload)))

next_packets_shape :
    (fuel channel sequence : ℕ) (rest : Bytes)
    → length rest ≤ fuel
    → All (λ p. length p ≡ 64) (next_packets fuel channel sequence rest)
      × (length (next_packets fuel channel sequence rest) ≡ (length rest + 58) / 59)
next_packets_shape zero channel sequence [] h = (tt, omega arith)
next_packets_shape zero channel sequence (b ∷ rest) h = absurd (omega arith)
next_packets_shape (suc fuel) channel sequence [] h = (tt, omega arith)
next_packets_shape (suc fuel) channel sequence (b ∷ rest) h =
    let (all, count) =
      next_packets_shape fuel channel ((sequence + 1) % 256) (drop 59 (b ∷ rest))
        (omega (arith, length-drop 59 (b ∷ rest))) in
    (
      (length-next_packet channel sequence (b ∷ rest), all),
      omega (arith, count, length-drop 59 (b ∷ rest)),
    )

-- A payload shorter than 65536 bytes is framed into one packet, and one for each 59 bytes or part of
-- them behind the first 57; each has 64 bytes.
pub frame_shape :
    (channel command : ℕ) (payload : Bytes)
    → length payload < 65536
    → (ps : List Bytes) × (frame channel command payload ≡ ok ps)
      × All (λ p. length p ≡ 64) ps
      × (length ps ≡ 1 + (length payload - 57 + 58) / 59)
frame_shape channel command payload h =
    let (all, count) =
      next_packets_shape (length payload) channel 0 (drop 57 payload)
        (omega (arith, length-drop 57 payload)) in
    (
      message_packets channel command payload,
      frame_lem channel command payload h,
      (length-first_packet channel command (length payload) payload, all),
      omega (arith, count, length-drop 57 payload),
    )

-- The continuation at index `i` carries the sequence number `sequence + i`, wrapped to a byte.
get_elem?-next_packets :
    (i fuel channel sequence : ℕ) (rest : Bytes)
    → 59 * i < length rest
    → length rest ≤ fuel
    → sequence < 256
    → get_elem? (next_packets fuel channel sequence rest) i
      ≡ some (next_packet channel ((sequence + i) % 256) (Base.take 59 (drop (59 * i) rest)))
get_elem?-next_packets i zero channel sequence rest h hf hs = absurd (omega arith)
get_elem?-next_packets i (suc fuel) channel sequence [] h hf hs = absurd (omega arith)
get_elem?-next_packets zero (suc fuel) channel sequence (b ∷ rest) h hf hs =
    ap (λ s. some (next_packet channel s (Base.take 59 (b ∷ rest)))) (omega arith)
get_elem?-next_packets (suc i) (suc fuel) channel sequence (b ∷ rest) h hf hs =
    get_elem?-next_packets i fuel channel ((sequence + 1) % 256) (drop 59 (b ∷ rest))
      (omega (arith, length-drop 59 (b ∷ rest))) (omega (arith, length-drop 59 (b ∷ rest)))
      (omega arith)
    ∙ ap (λ s. some (next_packet channel s (Base.take 59 (drop (59 * i) (drop 59 (b ∷ rest))))))
        wrap
    ∙ ap (λ r. some (next_packet channel ((sequence + suc i) % 256) (Base.take 59 r)))
        (drop-drop (59 * i) 59 (59 * suc i) (b ∷ rest) (omega arith))
  where
    wrap : ((sequence + 1) % 256 + i) % 256 ≡ (sequence + suc i) % 256
    wrap = omega arith

-- On a u32 channel, of what `frame` makes of a payload of more than 7609 bytes, the 129th
-- continuation is marked as an init packet, and `handle_report` takes it for one.
pub frame_sequence_overflow :
    (channel command : ℕ) (payload : Bytes) (ps : List Bytes) (host : Host)
    → channel < 2 ^ 32
    → 7609 < length payload
    → frame channel command payload ≡ ok ps
    → (p : Bytes) × (get_elem? ps 129 ≡ some p)
      × (get_elem? p 4 ≡ some 0x80)
      × (handle_report p host ≡ init_report channel 0x80 p host)
frame_sequence_overflow channel command payload ps host hc hp e =
    elim (Bool-cases (leb 65536 (length payload))) [
      | inl long ↦
          cc (e, frame_too_long channel command payload (leb→le 65536 (length payload) long))
      | inr fits ↦ (
        next_packet channel 128 (Base.take 59 (drop 7552 (drop 57 payload))),
        ap (λ l. get_elem? l 129)
              (packets_of channel command payload (leb_false→lt 65536 (length payload) fits) e)
            ∙ get_elem?-next_packets 128 (length payload) channel 0 (drop 57 payload)
                (omega (arith, length-drop 57 payload)) (omega (arith, length-drop 57 payload))
                (omega arith),
        refl,
        handle_report-init _ host channel 0x80
            (read_header_lem channel 0x80 _ hc
              (omega (arith, length-next_packet channel 128 (drop 7552 (drop 57 payload)))))
            refl,
      )
    ]
