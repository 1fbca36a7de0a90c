-- ===== src/Uhid/Frame/Shape.antt =====
-- What `frame` puts into each packet.
use kpasskey.Base
use kpasskey.Base.{
  ℕ, zero, suc, ◌+◌, ◌-◌, ◌*◌, ◌%◌, ◌^◌, ◌≤◌, ◌<◌, ◌≡◌, refl, ap, sym, ◌∙◌, min, bit_or, List, [],
  ◌∷◌, ◌++◌, length, replicate, ltb, if◌then◌else◌, arith, drop, length-append, length-take,
  length-drop, length-replicate, append_assoc, All, append-nil, take_all, drop_all, drop-drop, leb,
  Bool-cases, inl, inr, le→ltb_false, lt→ltb,
}
use kpasskey.Base.Errors.{ok, err}
use kpasskey.Base.Bytes.{Bytes, u16_to_be_bytes, u32_to_be_bytes}
use kpasskey.Uhid.Buffer
use kpasskey.Uhid.Buffer.{put-middle, take-inside}
use kpasskey.Uhid.Frame.{init_packet, continuation_packet, frame_loop, frame}

abbrev pub zeros : ℕ → Bytes
zeros n = replicate n 0

-- A packet: channel, marker, further header, chunk, and zeros up to 64 bytes.
abbrev pub first_packet : ℕ → ℕ → ℕ → Bytes → Bytes
first_packet channel command len chunk =
    u32_to_be_bytes channel
    ++ (bit_or command 0x80 ∷ [])
    ++ (u16_to_be_bytes len ++ (chunk ++ zeros (57 - length chunk)))

abbrev pub next_packet : ℕ → ℕ → Bytes → Bytes
next_packet channel sequence chunk =
    u32_to_be_bytes channel ++ (sequence ∷ []) ++ (chunk ++ zeros (59 - length chunk))

-- The continuation packets of what is left of a payload.
abbrev pub next_packets : ℕ → ℕ → ℕ → Bytes → List Bytes
next_packets zero channel sequence rest = []
next_packets (suc fuel) channel sequence [] = []
next_packets (suc fuel) channel sequence (b ∷ rest) =
    next_packet channel sequence (Base.take 59 (b ∷ rest))
    ∷ next_packets fuel channel ((sequence + 1) % 256) (drop 59 (b ∷ rest))

pub replicate-split : (n k : ℕ) → k ≤ n → zeros n ≡ zeros k ++ zeros (n - k)
replicate-split n zero h = ap zeros (omega arith)
replicate-split zero (suc k) h = absurd (omega arith)
replicate-split (suc n) (suc k) h =
    ap (◌∷◌ 0) (replicate-split n k (omega arith) ∙ ap (λ j. zeros k ++ zeros j) (omega arith))

-- Writing a chunk behind a header of zeros.
pub put_chunk :
    (n : ℕ) (header chunk : Bytes)
    → length chunk ≤ n
    → length header + n < 2 ^ 64
    → Buffer.put (header ++ zeros n) (length header) chunk
      ≡ ok (header ++ (chunk ++ zeros (n - length chunk)))
put_chunk n header chunk h fits = rw (replicate-split n (length chunk) h) (
    put-middle (length header) chunk header (zeros (length chunk)) (zeros (n - length chunk)) refl
      (length-replicate {A = ℕ} (length chunk) 0)
      (omega (
        arith,
        length-append header (zeros (length chunk) ++ zeros (n - length chunk)),
        length-append (zeros (length chunk)) (zeros (n - length chunk)),
        length-replicate {A = ℕ} (length chunk) 0,
        length-replicate {A = ℕ} (n - length chunk) 0,
      )))

length_chunk : (n k : ℕ) (bytes : Bytes) → k ≤ n → length (Base.take k bytes) ≤ n
length_chunk n k bytes h = omega (arith, length-take k bytes)

pub init_packet_lem :
    (channel command : ℕ) (payload : Bytes) (len k : ℕ)
    → k ≤ 57
    → k ≤ length payload
    → length payload < 2 ^ 64
    → init_packet channel command payload len k
      ≡ ok (first_packet channel command len (Base.take k payload))
unfolding init_packet Buffer.put
init_packet_lem channel command payload len k h hk hp =
    rw (take-inside payload 0 k (omega arith) hp) (
      put_chunk 57 (u32_to_be_bytes channel ++ bit_or command 0x80 ∷ u16_to_be_bytes len)
        (Base.take k payload) (length_chunk 57 k payload h) (omega arith))

-- A chunk of `n` bytes or what is left.
chunk_lem : (n : ℕ) (bytes : Bytes) → Base.take (min (length bytes) n) bytes ≡ Base.take n bytes
chunk_lem n bytes = elim (Bool-cases (leb (length bytes) n)) [
  | inl short ↦
      take_all (min (length bytes) n) bytes (ground arith) ∙ sym (take_all n bytes (ground arith))
  | inr long ↦ let e : min (length bytes) n ≡ n = ground arith in rw e
]

drop_chunk : (n : ℕ) (bytes : Bytes) → drop (min (length bytes) n) bytes ≡ drop n bytes
drop_chunk n bytes = elim (Bool-cases (leb (length bytes) n)) [
  | inl short ↦
      drop_all (min (length bytes) n) bytes (ground arith) ∙ sym (drop_all n bytes (ground arith))
  | inr long ↦ let e : min (length bytes) n ≡ n = ground arith in rw e
]

-- The next round starts behind the chunk.
next_offset :
    (offset : ℕ) (payload : Bytes)
    → drop (offset + min (length payload - offset) 59) payload ≡ drop 59 (drop offset payload)
next_offset offset payload = elim (Bool-cases (leb (length payload) (offset + 59))) [
  | inl short ↦
      drop_all (offset + min (length payload - offset) 59) payload (ground arith)
      ∙ sym (drop_all 59 (drop offset payload) (ground (arith, length-drop offset payload)))
  | inr long ↦ sym (drop-drop 59 offset _ payload (ground arith))
]

pub next_packets_step :
    (fuel channel sequence : ℕ) (rest : Bytes)
    → 0 < length rest
    → next_packets (suc fuel) channel sequence rest
      ≡ next_packet channel sequence (Base.take 59 rest)
        ∷ next_packets fuel channel ((sequence + 1) % 256) (drop 59 rest)
next_packets_step fuel channel sequence [] h = absurd (omega arith)
next_packets_step fuel channel sequence (b ∷ rest) h = refl

pub next_packets_done :
    (fuel channel sequence : ℕ) (rest : Bytes)
    → length rest ≤ 0
    → next_packets fuel channel sequence rest ≡ []
next_packets_done zero channel sequence rest h = refl
next_packets_done (suc fuel) channel sequence [] h = refl
next_packets_done (suc fuel) channel sequence (b ∷ rest) h = absurd (omega arith)

pub continuation_packet_lem :
    (channel : ℕ) (payload : Bytes) (offset sequence : ℕ)
    → offset ≤ length payload
    → length payload < 2 ^ 64
    → continuation_packet channel payload offset sequence
      ≡ ok (next_packet channel sequence (Base.take 59 (drop offset payload)))
unfolding continuation_packet Buffer.put
continuation_packet_lem channel payload offset sequence h hp =
    rw (take-inside payload offset (min (length payload - offset) 59) (omega arith) hp) (
      rw (← length-drop offset payload, chunk_lem 59 (drop offset payload))
        (put_chunk 59 (u32_to_be_bytes channel ++ sequence ∷ [])
          (Base.take 59 (drop offset payload))
          (length_chunk 59 59 (drop offset payload) (omega arith)) (omega arith)))

frame_loop_lem :
    (fuel channel : ℕ) (payload : Bytes) (offset sequence : ℕ) (packets : List Bytes)
    → length payload ≤ offset + fuel
    → length payload < 2 ^ 64
    → frame_loop fuel channel payload offset sequence packets
      ≡ ok (packets ++ next_packets fuel channel sequence (drop offset payload))
unfolding frame_loop
frame_loop_lem zero channel payload offset sequence packets h hp =
    rw (le→ltb_false offset (length payload) (omega arith), append-nil)
frame_loop_lem (suc fuel) channel payload offset sequence packets h hp =
    elim (Bool-cases (ltb offset (length payload))) [
      | inl more ↦
          rw (more, continuation_packet_lem channel payload offset sequence (ground arith) hp)
            (frame_loop_lem fuel channel payload (offset + min (length payload - offset) 59)
                ((sequence + 1) % 256) _ (ground arith) hp
              ∙ rw (next_offset offset payload, append_assoc)
                  (ap (λ r. ok (packets ++ r))
                    (sym (
                      next_packets_step fuel channel sequence (drop offset payload)
                        (ground (arith, length-drop offset payload))))))
      | inr done ↦ rw done (
          sym (
            ap (λ r. ok r)
              (rw
                (next_packets_done (suc fuel) channel sequence (drop offset payload)
                  (ground (arith, length-drop offset payload)))
                (append-nil packets))))
    ]

-- The packets of a message.
abbrev pub message_packets : ℕ → ℕ → Bytes → List Bytes
message_packets channel command payload =
    first_packet channel command (length payload) (Base.take 57 payload)
    ∷ next_packets (length payload) channel 0 (drop 57 payload)

-- `frame` succeeds on every payload that a u16 can measure.
pub frame_lem :
    (channel command : ℕ) (payload : Bytes)
    → length payload < 65536
    → frame channel command payload ≡ ok (message_packets channel command payload)
unfolding frame
frame_lem channel command payload h =
    rw
      (
        lt→ltb (length payload) 65536 h,
        init_packet_lem channel command payload (length payload) (min (length payload) 57)
            (omega arith) (omega arith) (omega arith),
      )
      (frame_loop_lem (length payload) channel payload (min (length payload) 57) 0 _ (omega arith)
          (omega arith)
        ∙ rw (chunk_lem 57 payload, drop_chunk 57 payload))

pub frame_too_long :
    (channel command : ℕ) (payload : Bytes)
    → 65536 ≤ length payload
    → frame channel command payload ≡ err ("response too long for CTAPHID" ∷ [])
unfolding frame
frame_too_long channel command payload h = rw (le→ltb_false (length payload) 65536 h)
