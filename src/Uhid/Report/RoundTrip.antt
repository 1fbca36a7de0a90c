-- ===== src/Uhid/Report/RoundTrip.antt =====
-- `handle_report` on the packets that `frame` writes.
use kpasskey.Base
use kpasskey.Base.{
  ℕ, zero, suc, ◌+◌, ◌-◌, ◌*◌, ◌/◌, ◌%◌, ◌^◌, ◌≤◌, ◌<◌, ◌≡◌, ◌≢◌, refl, ap, sym, ◌∙◌, min, bit_and,
  bit_or, List, [], ◌∷◌, ◌++◌, Option, none, some, true, false, length, ltb, leb, ◌==◌,
  if◌then◌else◌, arith, drop, length-append, length-take, length-drop, length-replicate,
  take-append, append_assoc, take-append-drop, Bool-cases, leb_false→lt, leb→le, inl, inr, lt→ltb,
  le→ltb_false, take_all, drop_all,
}
use mathlib.Core.List.{head-eq_of_cons-eq, tail-eq_of_cons-eq}
use kpasskey.Base.Errors.{Result, ok, err}
use kpasskey.Base.Bytes.{Bytes}
use kpasskey.Uhid.Frame.Shape.{first_packet, next_packet, next_packets, next_packets_done}
use kpasskey.Uhid.Report.{
  Outcome, Assembly, Host, map_result, answer, dispatch, read_header, continuation_report,
  handle_report,
}
use kpasskey.Uhid.Report.Packets.{
  opened, extended, handle_first, handle_next, continuation_other, handle_report-continuation,
}

abbrev pub then_receive :
    Result (Option Outcome) × Host
    → (Host → Result (List Outcome) × Host)
    → Result (List Outcome) × Host
then_receive (err e, host) rest = (err e, host)
then_receive (ok none, host) rest = rest host
then_receive (ok (some o), host) rest = (map_result (λ l. o ∷ l) (rest host).0, (rest host).1)

-- Hand the packets to `handle_report` in order, as the loop of `run` does: an error ends it.
unfoldable pub receive : List Bytes → Host → Result (List Outcome) × Host
receive [] host = (ok [], host)
receive (p ∷ ps) host = then_receive (handle_report p host) (receive ps)

receive_step :
    (p : Bytes) (ps : List Bytes) (host : Host) {r : Result (Option Outcome) × Host}
    → handle_report p host ≡ r
    → receive (p ∷ ps) host ≡ then_receive r (receive ps)
unfolding receive
receive_step p ps host e = ap (λ x. then_receive x (receive ps)) e

-- The one outcome of a message, as the list that `receive` returns.
abbrev pub alone : Result (Option Outcome) × Host → Result (List Outcome) × Host
alone (err e, host) = (err e, host)
alone (ok none, host) = (ok [], host)
alone (ok (some o), host) = (ok (o ∷ []), host)

-- `Woven channel ps qs`: `qs` is `ps` with continuation packets of other channels in between.
pub data Woven (channel : ℕ) : List Bytes → List Bytes → Type 0 where
  done : Woven channel [] []
  own : (p : Bytes) {ps qs : List Bytes} → Woven channel ps qs → Woven channel (p ∷ ps) (p ∷ qs)
  other :
      (q : Bytes) (c m : ℕ)
      → read_header q ≡ ok (c, m)
      → (bit_and m 0x80 == 0) ≡ true
      → channel ≢ c
      → {ps qs : List Bytes} → Woven channel ps qs
      → Woven channel ps (q ∷ qs)

receive_others :
    {channel : ℕ} {ps qs : List Bytes}
    → Woven channel ps qs
    → (host : Host) → ps ≡ []
    → host.assembly ≡ none
    → receive qs host ≡ (ok [], host)
unfolding receive continuation_report
receive_others done host e at = refl
receive_others (own p w) host e at = cc
receive_others (other q c m h b n {qs = qs} w) host e at =
    receive_step q qs host
      (handle_report-continuation q host c m h b ∙ ap (λ a. continuation_report a c q host) at)
    ∙ receive_others w host e at

-- What is received once the whole payload is there.
abbrev pub finished : ℕ → ℕ → Bytes → Host → Result (List Outcome) × Host
finished channel command payload host =
    alone (
      answer (record host { assembly = none }) (dispatch channel command payload host.next_channel))

pub then_alone :
    (r : Result (Option Outcome) × Host) (k : Host → Result (List Outcome) × Host)
    → ((h : Host) → h ≡ r.1 → k h ≡ (ok [], h))
    → then_receive r k ≡ alone r
then_alone (err e, host) k h = refl
then_alone (ok none, host) k h = h host refl
then_alone (ok (some o), host) k h = rw (h host refl)

own_packet :
    (channel : ℕ) (p : Bytes) (state : Assembly) (sequence : ℕ) (rest : Bytes) (host : Host)
    → p ≡ next_packet channel sequence (Base.take 59 rest)
    → state.channel ≡ channel
    → host.assembly ≡ some state
    → channel < 2 ^ 32
    → sequence < 128
    → length state.payload + length rest ≡ state.expected
    → handle_report p host ≡ (
        if leb (length rest) 59
        then answer
            (record host { assembly = none })
            (dispatch channel state.command (state.payload ++ rest) host.next_channel)
        else (ok none, record host { assembly = some (extended state rest) }))
own_packet channel p state sequence rest host ep c at hc hs e =
    rw (ep, ← c) (handle_next state sequence rest host at (omega arith) hs e)

receive_last :
    {channel : ℕ} {ps qs : List Bytes}
    → Woven channel ps qs
    → (r : Result (Option Outcome) × Host) → ps ≡ []
    → r.1.assembly ≡ none
    → then_receive r (receive qs) ≡ alone r
receive_last {qs = qs} w r e at =
    then_alone r (receive qs)
      (λ h same. receive_others w h e (ap (λ (x : Host). x.assembly) same ∙ at))

receive_rest :
    {channel : ℕ} {ps qs : List Bytes}
    → Woven channel ps qs
    → (fuel sequence : ℕ) (rest : Bytes) (state : Assembly) (host : Host)
    → ps ≡ next_packets fuel channel sequence rest
    → state.channel ≡ channel
    → host.assembly ≡ some state
    → channel < 2 ^ 32
    → 59 * sequence + length rest ≤ 7552
    → 0 < length rest
    → length rest ≤ fuel
    → length state.payload + length rest ≡ state.expected
    → receive qs host ≡ finished channel state.command (state.payload ++ rest) host
receive_rest w zero sequence rest state host e c at hc hs pos hf hl = absurd (omega arith)
receive_rest w (suc fuel) sequence [] state host e c at hc hs pos hf hl = absurd (omega arith)
receive_rest done (suc fuel) sequence (b ∷ rest) state host e c at hc hs pos hf hl = cc
receive_rest {channel} (own p {ps = ps} {qs = qs} w) (suc fuel) sequence (b ∷ rest) state host e c
      at hc hs pos hf hl =
    let bs : Bytes = b ∷ rest in
    let tail : ps ≡ next_packets fuel channel ((sequence + 1) % 256) (drop 59 bs) =
      tail-eq_of_cons-eq e in
    let step = receive_step p qs host (
      own_packet channel p state sequence bs host (head-eq_of_cons-eq e) c at hc (omega arith)
        hl) in
    elim (Bool-cases (leb (length bs) 59)) [
      | inl short ↦
          step
          ∙ rw short (
              receive_last w _
                (tail
                  ∙ next_packets_done fuel channel ((sequence + 1) % 256) (drop 59 bs)
                      (omega (arith, leb→le (length bs) 59 short, length-drop 59 bs)))
                refl)
      | inr long ↦
          step
          ∙ rw long (
              receive_rest w fuel ((sequence + 1) % 256) (drop 59 bs) (extended state bs)
                (record host { assembly = some (extended state bs) }) tail c refl hc
                (omega (arith, length-drop 59 bs))
                (omega (arith, leb_false→lt (length bs) 59 long, length-drop 59 bs))
                (omega (arith, length-drop 59 bs))
                (omega (
                  arith,
                  leb_false→lt (length bs) 59 long,
                  length-drop 59 bs,
                  length-take 59 bs,
                  length-append state.payload (Base.take 59 bs),
                ))
              ∙ ap (λ m. finished channel state.command m host)
                  (append_assoc state.payload (Base.take 59 bs) (drop 59 bs)
                    ∙ ap (λ m. state.payload ++ m) (take-append-drop 59 bs)))
    ]
receive_rest {channel} (other q d m h t n {qs = qs} w) (suc fuel) sequence (b ∷ rest) state host e c
      at hc hs pos hf hl =
    receive_step q qs host (
      handle_report-continuation q host d m h t
      ∙ ap (λ a. continuation_report a d q host) at
      ∙ continuation_other state d q host (λ p. n (sym c ∙ p)))
    ∙ receive_rest w (suc fuel) sequence (b ∷ rest) state host e c at hc hs pos hf hl

pub Woven-refl : (channel : ℕ) (ps : List Bytes) → Woven channel ps ps
Woven-refl channel [] = done
Woven-refl channel (p ∷ ps) = own p (Woven-refl channel ps)

-- The packets of one message, up to the last continuation that a sequence number below 128 can
-- mark, are put together again, whatever continuations of other channels come in between.
pub receive_message :
    (channel command : ℕ) (payload : Bytes) (host : Host) (qs : List Bytes)
    → Woven channel (next_packets (length payload) channel 0 (drop 57 payload)) qs
    → channel < 2 ^ 32
    → command < 128
    → length payload ≤ 7609
    → receive (first_packet channel command (length payload) (Base.take 57 payload) ∷ qs) host ≡ (
        if leb (length payload) 57
        then then_receive
            (answer host (dispatch channel command payload host.next_channel))
            (receive qs)
        else finished channel command payload host)
receive_message channel command payload host qs w hc hm hp =
    elim (Bool-cases (leb (length payload) 57)) [
      | inl short ↦
          receive_step _ qs host (handle_first channel command payload host hc hm (omega arith))
          ∙ rw short
      | inr long ↦
          receive_step _ qs host (handle_first channel command payload host hc hm (omega arith))
          ∙ rw long (
              receive_rest w (length payload) 0 (drop 57 payload)
                (record {
                  channel = channel;
                  command = command;
                  expected = length payload;
                  payload = Base.take 57 payload;
                })
                (opened channel command payload host) refl refl refl hc
                (omega (arith, length-drop 57 payload))
                (omega (arith, leb_false→lt (length payload) 57 long, length-drop 57 payload))
                (omega (arith, length-drop 57 payload))
                (omega (
                  arith,
                  leb_false→lt (length payload) 57 long,
                  length-drop 57 payload,
                  length-take 57 payload,
                ))
              ∙ ap (λ m. finished channel command m host) (take-append-drop 57 payload))
    ]
