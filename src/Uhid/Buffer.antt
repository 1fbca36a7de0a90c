-- ===== src/Uhid/Buffer.antt =====
-- `put` and `take` of uhid.rs: checked writes to and reads from a byte buffer.
use kpasskey.Base
use kpasskey.Base.{
  All, All-take, All-drop, subst, ℕ, ◌+◌, ◌-◌, ◌^◌, ◌≤◌, ◌<◌, ◌≡◌, refl, ap, sym, ◌∙◌, Option, none,
  some, List, [], ◌∷◌, ◌++◌, arith, leb, ltb, if◌then◌else◌, length, length-append, drop,
  append_assoc, drop-append, drop-drop, take-append, Bool-cases,
}
use kpasskey.Base.Errors.{Result, ok, err, or_context, ◌>>=◌}
use kpasskey.Base.Bytes.{Bytes, IsByte, checked_add}

-- `buffer.get(offset..end)`
abbrev pub get_range : Bytes → ℕ → ℕ → Option Bytes
get_range buffer offset end =
    if leb offset end
    then (if leb end (length buffer)
        then some (Base.take (end - offset) (drop offset buffer))
        else none)
    else none

-- `buffer.get_mut(offset..end)`, and the copy into it
abbrev pub set_range : Bytes → ℕ → ℕ → Bytes → Option Bytes
set_range buffer offset end bytes =
    if leb offset end
    then (if leb end (length buffer)
        then some (Base.take offset buffer ++ (bytes ++ drop end buffer))
        else none)
    else none

unfoldable pub put : Bytes → ℕ → Bytes → Result Bytes
put buffer offset bytes = do
  end ← or_context "uhid buffer offset overflow" (checked_add offset (length bytes))
  or_context "uhid buffer too small" (set_range buffer offset end bytes)

unfoldable pub take : Bytes → ℕ → ℕ → Result Bytes
take buffer offset len = do
  end ← or_context "slice overflow" (checked_add offset len)
  or_context "slice out of range" (get_range buffer offset end)

-- A read inside the buffer.
pub take-inside :
    (buffer : Bytes) (offset len : ℕ)
    → offset + len ≤ length buffer
    → length buffer < 2 ^ 64
    → take buffer offset len ≡ ok (Base.take len (drop offset buffer))
unfolding take
take-inside buffer offset len h fits = ground arith

-- A read past the end.
pub take-outside :
    (buffer : Bytes) (offset len : ℕ)
    → length buffer < offset + len
    → offset + len < 2 ^ 64
    → take buffer offset len ≡ err ("slice out of range" ∷ [])
unfolding take
take-outside buffer offset len h fits = ground arith

pub put-inside :
    (buffer : Bytes) (offset : ℕ) (bytes : Bytes)
    → offset + length bytes ≤ length buffer
    → length buffer < 2 ^ 64
    → put buffer offset bytes
      ≡ ok (Base.take offset buffer ++ (bytes ++ drop (offset + length bytes) buffer))
unfolding put
put-inside buffer offset bytes h fits = ground arith

-- A write replaces as many bytes as it brings.
pub put-middle :
    (offset : ℕ) (bytes pre mid post : Bytes)
    → length pre ≡ offset
    → length mid ≡ length bytes
    → length (pre ++ (mid ++ post)) < 2 ^ 64
    → put (pre ++ (mid ++ post)) offset bytes ≡ ok (pre ++ (bytes ++ post))
put-middle offset bytes pre mid post h e fits =
    put-inside (pre ++ (mid ++ post)) offset bytes room fits
    ∙ ap (λ p. ok (p ++ (bytes ++ drop (offset + length bytes) (pre ++ (mid ++ post)))))
        (take-append offset pre (mid ++ post) h)
    ∙ ap (λ p. ok (pre ++ (bytes ++ p))) tail
  where
    room : offset + length bytes ≤ length (pre ++ (mid ++ post))
    room = omega (arith, length-append pre (mid ++ post), length-append mid post)

    tail : drop (offset + length bytes) (pre ++ (mid ++ post)) ≡ post
    tail =
        sym (drop-drop (length bytes) offset _ (pre ++ (mid ++ post)) refl)
        ∙ ap (drop (length bytes)) (drop-append offset pre (mid ++ post) h)
        ∙ drop-append (length bytes) mid post e

-- A write past the end.
pub put-outside :
    (buffer : Bytes) (offset : ℕ) (bytes : Bytes)
    → length buffer < offset + length bytes
    → offset + length bytes < 2 ^ 64
    → put buffer offset bytes ≡ err ("uhid buffer too small" ∷ [])
unfolding put
put-outside buffer offset bytes h fits = ground arith

-- A read of exactly the middle part.
pub take-middle :
    (offset len : ℕ) (pre mid post : Bytes)
    → length pre ≡ offset
    → length mid ≡ len
    → length (pre ++ (mid ++ post)) < 2 ^ 64
    → take (pre ++ (mid ++ post)) offset len ≡ ok mid
take-middle offset len pre mid post h e fits =
    take-inside (pre ++ (mid ++ post)) offset len
      (omega (arith, length-append pre (mid ++ post), length-append mid post)) fits
    ∙ ap (λ r. ok (Base.take len r)) (drop-append offset pre (mid ++ post) h)
    ∙ ap (λ r. ok r) (take-append len mid post e)

-- A successful read is a part of the buffer.
pub take-eq_ok :
    (buffer : Bytes) (offset len : ℕ) {part : Bytes}
    → take buffer offset len ≡ ok part
    → part ≡ Base.take len (drop offset buffer)
unfolding take
take-eq_ok buffer offset len {part} e = ground arith

pub take-IsByte :
    (buffer : Bytes) (offset len : ℕ) {part : Bytes}
    → All IsByte buffer
    → take buffer offset len ≡ ok part
    → All IsByte part
take-IsByte buffer offset len h e =
    subst (All IsByte) (sym (take-eq_ok buffer offset len e))
      (All-take IsByte len (drop offset buffer) (All-drop IsByte offset buffer h))
