-- ===== src/Uhid/Report/Channels.antt =====
-- INIT: the channels that are handed out, and the packet that cannot be answered.
use kpasskey.Base
use kpasskey.Base.{
  ℕ, zero, suc, ◌+◌, ◌-◌, ◌*◌, ◌/◌, ◌%◌, ◌^◌, ◌≤◌, ◌<◌, ◌≡◌, ◌≢◌, refl, ap, sym, ◌∙◌, min, bit_and,
  bit_or, List, [], ◌∷◌, ◌++◌, Option, none, some, length, ltb, ◌==◌, if◌then◌else◌, arith, drop,
  All, true, false, append_assoc, length-append, length-take, le→ltb_false, Bool-cases, inl, inr,
  ==_iff,
}
use kpasskey.Base.Masks.{join_bytes}
use kpasskey.Base.Errors.{ok, err}
use kpasskey.Base.Bytes.{Bytes, u32_to_be_bytes}
use kpasskey.Uhid.Consts.{ctap_broadcast_cid, ctaphid_init}
use kpasskey.Uhid.Buffer.{take-inside, take-outside}
use kpasskey.Uhid.Frame.Shape.{first_packet, frame_lem}
use kpasskey.Uhid.Report.{
  ready, Host, assign_channel, init_body, dispatch, dispatch_init, handle_report, init_report,
  read_init,
}
use kpasskey.Uhid.Report.Packets.{handle_report-init, read_header_lem}

-- What `assign_channel` does with the channel of the packet and the counter.
assign_channel-cases :
    (channel next : ℕ)
    → (channel ≡ 0xffffffff
        → ((assign_channel channel next).0 ≡ (next + 1) % 2 ^ 32)
          × ((assign_channel channel next).1 ≡ (next + 1) % 2 ^ 32))
      × (channel ≢ 0xffffffff
          → ((assign_channel channel next).0 ≡ channel) × ((assign_channel channel next).1 ≡ next))
unfolding assign_channel
assign_channel-cases channel next = elim (Bool-cases (channel == ctap_broadcast_cid)) [
  | inl same ↦ rw same ((λ h. (refl, refl)), λ h. absurd (h ((==_iff channel 0xffffffff).0 same)))
  | inr other ↦
      rw other
        ((λ h. absurd (cc (rw ((==_iff channel 0xffffffff).1 h) at other))), λ h. (refl, refl))
]

-- INIT with a payload of at least eight and fewer than 65536 bytes is answered by one packet of 64
-- bytes: on the channel of the request, an INIT of 17 bytes, which carries the first eight bytes of the
-- payload, the channel that is assigned, and the versions and capabilities. On the broadcast channel
-- the counter is raised by one, with the wrap-around of a u32, and the channel assigned is its new value;
-- on any other channel that channel is assigned, and the counter stays.
pub dispatch_init-reply :
    (channel : ℕ) (payload : Bytes) (next : ℕ)
    → 8 ≤ length payload
    → length payload < 65536
    → (p : Bytes) × (assigned counter : ℕ) × (dispatch channel ctaphid_init payload next
        ≡ (ok (ready (p ∷ [])), counter))
      × (length p ≡ 64)
      × (Base.take 7 p ≡ u32_to_be_bytes channel ++ 0x86 ∷ 0 ∷ 17 ∷ [])
      × (Base.take 8 (drop 7 p) ≡ Base.take 8 payload)
      × (Base.take 4 (drop 15 p) ≡ u32_to_be_bytes assigned)
      × (Base.take 5 (drop 19 p) ≡ 2 ∷ 1 ∷ 0 ∷ 0 ∷ 4 ∷ [])
      × (channel ≡ 0xffffffff → (assigned ≡ (next + 1) % 2 ^ 32) × (counter ≡ (next + 1) % 2 ^ 32))
      × (channel ≢ 0xffffffff → (assigned ≡ channel) × (counter ≡ next))
unfolding dispatch dispatch_init
dispatch_init-reply channel (a ∷ b ∷ c ∷ d ∷ e ∷ f ∷ g ∷ h ∷ rest) next long fits =
    let nonce : Bytes = a ∷ b ∷ c ∷ d ∷ e ∷ f ∷ g ∷ h ∷ [] in
    let body : Bytes = init_body nonce (assign_channel channel next).0 in
    (
      first_packet channel ctaphid_init 17 body,
      (assign_channel channel next).0,
      (assign_channel channel next).1,
      rw (
        take-inside (a ∷ b ∷ c ∷ d ∷ e ∷ f ∷ g ∷ h ∷ rest) 0 8 long (omega arith),
        dispatch_init,
        frame_lem channel ctaphid_init body (omega arith),
      ),
      refl,
      refl,
      refl,
      refl,
      refl,
      (assign_channel-cases channel next).0,
      (assign_channel-cases channel next).1,
    )
dispatch_init-reply channel payload next long fits = absurd (omega arith)

-- The channels that `count` INITs on the broadcast channel are given, one after the other.
abbrev pub assigned : ℕ → ℕ → List ℕ
assigned zero next = []
assigned (suc count) next =
    let (channel, next') = assign_channel ctap_broadcast_cid next in channel ∷ assigned count next'

abbrev pub Distinct : List ℕ → Type 0
Distinct [] = Unit
Distinct (c ∷ cs) = All (λ d. c ≢ d) cs × Distinct cs

assign_broadcast :
    (next : ℕ) → next + 1 < 2 ^ 32 → assign_channel ctap_broadcast_cid next ≡ (next + 1, next + 1)
unfolding assign_channel
assign_broadcast next h = ap (λ c. (c, c)) (omega arith)

assigned-above :
    (count next low : ℕ)
    → low ≤ next
    → next + count < ctap_broadcast_cid
    → All (λ c. (low < c) × (c < ctap_broadcast_cid)) (assigned count next)
assigned-above zero next low h hn = tt
assigned-above (suc count) next low h hn =
    rw (assign_broadcast next (omega arith))
      ((omega arith, omega arith), assigned-above count (next + 1) low (omega arith) (omega arith))

above-ne :
    (c : ℕ) (cs : List ℕ) → All (λ d. (c < d) × (d < ctap_broadcast_cid)) cs → All (λ d. c ≢ d) cs
above-ne c [] h = tt
above-ne c (d ∷ cs) ((lo, hi), rest) = (omega arith, above-ne c cs rest)

-- As long as the counter does not reach the broadcast channel, no two of the channels handed out
-- one after the other are the same, and each is above the counter at the start and below the
-- broadcast channel.
pub assigned-Distinct :
    (count next : ℕ)
    → next + count < ctap_broadcast_cid
    → Distinct (assigned count next)
      × All (λ c. (next < c) × (c < ctap_broadcast_cid)) (assigned count next)
assigned-Distinct zero next h = (tt, tt)
assigned-Distinct (suc count) next h =
    let (distinct, above) = assigned-Distinct count (next + 1) (omega arith) in
    (
      rw (assign_broadcast next (omega arith))
          (above-ne (next + 1) (assigned count (next + 1)) above, distinct),
      assigned-above (suc count) next next (omega arith) h,
    )

or_zero : (n : ℕ) → n < 8 → bit_or 0 n ≡ n
or_zero n h =
    let high : n / 256 % 256 * 256 % 65536 ≡ 0 = omega arith in
    let low : n % 256 ≡ n = omega arith in rw (high, low) at (join_bytes n (omega arith))

read_init-short :
    (channel n : ℕ) (rest : Bytes)
    → n < 8
    → length rest ≡ 57
    → read_init (u32_to_be_bytes channel ++ 0x86 ∷ 0 ∷ n ∷ rest) ≡ ok (n, Base.take n rest)
unfolding read_init
read_init-short channel n rest hn hr =
    let all : min n 57 ≡ n = omega arith in
    rw (
      or_zero n hn,
      all,
      take-inside (u32_to_be_bytes channel ++ 0x86 ∷ 0 ∷ n ∷ rest) 7 n (omega arith) (omega arith),
    )

dispatch_init-short :
    (channel : ℕ) (payload : Bytes) (next : ℕ)
    → length payload < 8
    → dispatch channel ctaphid_init payload next ≡ (err ("slice out of range" ∷ []), next)
unfolding dispatch dispatch_init
dispatch_init-short channel payload next h =
    rw (take-outside payload 0 8 h (omega arith), dispatch_init)

-- An INIT packet that announces fewer than the eight bytes of a nonce is an error of `handle_report`.
pub handle_report-short_init :
    (channel n : ℕ) (rest : Bytes) (host : Host)
    → channel < 2 ^ 32
    → n < 8
    → length rest ≡ 57
    → handle_report (u32_to_be_bytes channel ++ 0x86 ∷ 0 ∷ n ∷ rest) host
      ≡ (err ("slice out of range" ∷ []), host)
unfolding init_report
handle_report-short_init channel n rest host hc hn hr =
    handle_report-init _ host channel 0x86
      (read_header_lem channel 0x86 (0 ∷ n ∷ rest) hc (omega arith)) refl
    ∙ rw (
      read_init-short channel n rest hn hr,
      init_report,
      le→ltb_false (length (Base.take n rest)) n (omega (arith, length-take n rest)),
      dispatch_init-short channel (Base.take n rest) host.next_channel
          (omega (arith, length-take n rest)),
    )
