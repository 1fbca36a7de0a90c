-- ===== src/Uhid/Run.antt =====
-- The event loop of uhid.rs: `write_packets`, `await_phone` and `run`.
use kpasskey.Base
use kpasskey.Base.{
  ℕ, ◌+◌, ◌-◌, min, Option, none, some, List, [], ◌∷◌, ◌++◌, length, replicate, ltb, ◌==◌,
  if◌then◌else◌, drop,
}
use Prim.Native.String.{String}
pub mod Loop
use kpasskey.Base.Errors.{Error, Result, ok, err, context}
use kpasskey.Base.Bytes.{Bytes, Endian, u16_from_ne_bytes, u32_from_ne_bytes, u32_from_be_bytes}
use kpasskey.Uhid.Consts.{
  uhid_event_size, uhid_data_max, uhid_stop, uhid_output, hid_report_size, ctaphid_cbor,
  ctaphid_keepalive, keepalive_up_needed,
}
use kpasskey.Uhid.Buffer
use kpasskey.Uhid.Events.{create_event, input_event, read_output}
use kpasskey.Uhid.Frame.{frame}
use kpasskey.Uhid.Report.{Outcome, ready, waiting, Host, handle_report}

-- What one `recv_timeout` brings.
pub data Receipt : Type 0 where
  answer : Bytes → Receipt
  timeout : Receipt
  disconnected : Receipt

-- How a part of the loop ends: it goes on with a value, it returns `Ok(())`, it fails, or it waits
-- for input that has not come.
pub data Flow {ℓ} (A : Type ℓ) : Type ℓ where
  go : A → Flow A
  stop : Flow A
  fail : Error → Flow A
  wait : Flow A

-- What has been written to the device is the state of every action.
abbrev pub Io {ℓ} : Type ℓ → Type ℓ
Io A = List Bytes → Flow A × List Bytes

abbrev pub after {ℓ κ} :
    {A : Type ℓ} {B : Type κ} → Flow A × List Bytes → (A → Io B) → Flow B × List Bytes
after (go a, out) f = f a out
after (stop, out) f = (stop, out)
after (fail e, out) f = (fail e, out)
after (wait, out) f = (wait, out)

module _ {ℓ κ} {A : Type ℓ} {B : Type κ} where
  infixl 5 ◌>>=◌
  abbrev pub ◌>>=◌ : Io A → (A → Io B) → Io B
  ◌>>=◌ action next out = after (action out) next

abbrev pub lift {ℓ} : {A : Type ℓ} → Result A → Io A
lift (ok a) out = (go a, out)
lift (err e) out = (fail e, out)

infixl 5 ◌>>◌
abbrev pub ◌>>◌ {ℓ} : {B : Type ℓ} → Io (Unit {0}) → Io B → Io B
action >> next = action >>= λ u. next

abbrev pub pure {ℓ} : {A : Type ℓ} → A → Io A
pure a out = (go a, out)

-- The device, what the phone threads send, and the byte order are not the program's.
module _ (e : Endian) (device_write : Bytes → Result (Unit {0}))
    (receipts : ℕ → Bytes → List Receipt) where
  -- `device.write_all(bytes).context(message)?`
  unfoldable pub write_all : String → Bytes → Io (Unit {0})
  write_all message bytes out = elim (device_write bytes) [
    | ok _ ↦ (go tt, out ++ (bytes ∷ []))
    | err x ↦ (fail (message ∷ x), out)
  ]

  unfoldable pub write_packets : List Bytes → Io (Unit {0})
  write_packets [] = pure tt
  write_packets (p ∷ ps) = do
    event ← lift (input_event e p)
    write_all "writing a report to the host" event
    write_packets ps

  -- The receipts are what `recv_timeout` returns, call by call.
  unfoldable pub await_phone : ℕ → List Receipt → Io Bytes
  await_phone channel [] out = (wait, out)
  await_phone channel (answer body ∷ rest) out = (go body, out)
  await_phone channel (timeout ∷ rest) out =
      (do
        packets ← lift (frame channel ctaphid_keepalive (keepalive_up_needed ∷ []))
        write_packets packets
        await_phone channel rest)
        out
  await_phone channel (disconnected ∷ rest) out =
      (fail ("the phone request ended without an answer" ∷ []), out)

  unfoldable pub on_outcome : ℕ → Option Outcome → Io (Unit {0})
  on_outcome channel none = pure tt
  on_outcome channel (some (ready packets)) = write_packets packets
  on_outcome channel (some (waiting command body)) = do
    reply ← await_phone channel (receipts command body)
    packets ← lift (frame channel ctaphid_cbor reply)
    write_packets packets

  -- The arm of UHID_OUTPUT.
  unfoldable pub on_output : Bytes → Host → Io Host
  on_output buffer host = do
    report ← lift (read_output e buffer)
    four ← lift (Buffer.take report 0 4)
    channel ← lift (u32_from_be_bytes four)
    outcome ← lift (handle_report report host).0
    on_outcome channel outcome
    pure (handle_report report host).1

  -- `match kind`: of the other kinds the loop only takes note.
  unfoldable pub on_kind : ℕ → Bytes → Host → Io Host
  on_kind kind buffer host =
      if kind == uhid_stop
      then (λ out. (stop, out))
      else if kind == uhid_output
      then on_output buffer host
      else pure host

  -- One event in the buffer.
  unfoldable pub on_event : Bytes → Host → Io Host
  on_event buffer host = do
    four ← lift (Buffer.take buffer 0 4)
    kind ← lift (u32_from_ne_bytes e four)
    on_kind kind buffer host

  -- The loop of `run` over what the reads bring; a read overwrites the front of the buffer.
  unfoldable pub run_loop : List (Result Bytes) → Bytes → Host → Io (Unit {0})
  run_loop [] buffer host out = (wait, out)
  run_loop (err x ∷ reads) buffer host out = (fail ("reading a uhid event" ∷ x), out)
  run_loop (ok bytes ∷ reads) buffer host out =
      let buffer' = bytes ++ drop (length bytes) buffer in
      let skip = run_loop reads buffer' host out in
      let handle = (do h ← on_event buffer' host; run_loop reads buffer' h) out in
      if ltb (length bytes) 4 then skip else handle

  unfoldable pub run : Result (Unit {0}) → List (Result Bytes) → Io (Unit {0})
  run device reads = do
    lift (context "opening /dev/uhid (needs root)" device)
    event ← lift (create_event e)
    write_all "creating the uhid device" event
    run_loop reads (replicate (uhid_event_size + 16) 0)
        (record { assembly = none; next_channel = 1 })
