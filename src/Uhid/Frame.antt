-- ===== src/Uhid/Frame.antt =====
-- `frame` of uhid.rs: a response as CTAPHID packets, one init packet and then continuations.
use kpasskey.Base.{
  ℕ, zero, suc, ◌+◌, ◌-◌, ◌%◌, min, bit_or, List, [], ◌∷◌, ◌++◌, length, replicate, ltb,
  if◌then◌else◌,
}
use kpasskey.Base.Errors.{Result, ok, bail, or_context, ◌>>=◌}
use kpasskey.Base.Bytes.{Bytes, u16_to_be_bytes, u32_to_be_bytes, u16_try_from}
use kpasskey.Uhid.Consts.{hid_report_size}
use kpasskey.Uhid.Buffer
pub mod Shape

-- The packet that starts a message.
unfoldable pub init_packet : ℕ → ℕ → Bytes → ℕ → ℕ → Result Bytes
init_packet channel command payload length_field first_chunk = do
  p ← Buffer.put (replicate hid_report_size 0) 0 (u32_to_be_bytes channel)
  p ← Buffer.put p 4 (bit_or command 0x80 ∷ [])
  p ← Buffer.put p 5 (u16_to_be_bytes length_field)
  part ← Buffer.take payload 0 first_chunk
  Buffer.put p 7 part

-- The body of the loop: the packet for the payload from `offset` on.
unfoldable pub continuation_packet : ℕ → Bytes → ℕ → ℕ → Result Bytes
continuation_packet channel payload offset sequence = do
  let chunk = min (length payload - offset) (hid_report_size - 5)
  p ← Buffer.put (replicate hid_report_size 0) 0 (u32_to_be_bytes channel)
  p ← Buffer.put p 4 (sequence ∷ [])
  part ← Buffer.take payload offset chunk
  Buffer.put p 5 part

-- `while offset < payload.len()`; the first argument is fuel.
unfoldable pub frame_loop : ℕ → ℕ → Bytes → ℕ → ℕ → List Bytes → Result (List Bytes)
frame_loop zero channel payload offset sequence packets =
    if ltb offset (length payload) then bail "out of fuel" else ok packets
frame_loop (suc fuel) channel payload offset sequence packets =
    let chunk = min (length payload - offset) (hid_report_size - 5) in
    let more = (do
      packet ← continuation_packet channel payload offset sequence
      frame_loop fuel channel payload (offset + chunk) ((sequence + 1) % 256)
          (packets ++ (packet ∷ []))) in
    if ltb offset (length payload) then more else ok packets

-- Each round takes a byte at least, so `length payload` rounds are enough.
unfoldable pub frame : ℕ → ℕ → Bytes → Result (List Bytes)
frame channel command payload = do
  length_field ← or_context "response too long for CTAPHID" (u16_try_from (length payload))
  let first_chunk = min (length payload) (hid_report_size - 7)
  packet ← init_packet channel command payload length_field first_chunk
  frame_loop (length payload) channel payload first_chunk 0 (packet ∷ [])
