-- ===== src/Main/Numbers.antt =====
-- daemon/crates/kpk-spike/src/main.rs: a number that is printed is parsed again.
use Prim.Native.Char.{Char, code}
use Prim.Native.String.{◌++◌}
use Prim.Native.String.append
use kpasskey.Base.{
  ℕ, zero, suc, ◌==◌, ==_iff, ◌+◌, ◌*◌, ◌/◌, ◌%◌, ◌^◌, ◌<◌, ◌≤◌, ◌≡◌, refl, ap, sym, ◌∙◌, String,
  true, false, Bool-cases, inl, inr, get_or, [], ◌∷◌, ltb, ltb→lt, arith,
}
use kpasskey.Base.Errors.{ok, ◌>>=◌}
use kpasskey.Base.Text.{is_empty, digit, decimal, decimal_digits}
use kpasskey.Main.{add_digit, add_digits, parse_number}
use text.Mathlib.TextLemmas.{append-nil, append_assoc}

add_digit-ok :
    (limit value c n : ℕ)
    → c ≡ b'0' + n
    → n < 10
    → value * 10 + n < limit
    → add_digit limit value c ≡ ok (value * 10 + n)
add_digit-ok limit value c n same h small = ground arith

add_digits-char :
    (limit value : ℕ) (c : Char) (n : ℕ) (rest : String)
    → code c ≡ b'0' + n
    → n < 10
    → value * 10 + n < limit
    → add_digits limit value (String.◌∷◌ c "" ++ rest) ≡ add_digits limit (value * 10 + n) rest
unfolding add_digits
add_digits-char limit value c n rest same h small =
    ap (add_digits limit value) (append.cons c "" rest ∙ ap (String.◌∷◌ c) (append.nil rest))
    ∙ ap (λ r. r >>= λ longer. add_digits limit longer rest)
        (add_digit-ok limit value (code c) n same h small)

add_digits-digit :
    (limit value n : ℕ) (rest : String)
    → n < 10
    → value * 10 + n < limit
    → add_digits limit value (digit n ++ rest) ≡ add_digits limit (value * 10 + n) rest
add_digits-digit limit value zero rest h small = add_digits-char limit value "0" 0 rest refl h small
add_digits-digit limit value (suc zero) rest h small =
    add_digits-char limit value "1" 1 rest refl h small
add_digits-digit limit value (suc (suc zero)) rest h small =
    add_digits-char limit value "2" 2 rest refl h small
add_digits-digit limit value (suc (suc (suc zero))) rest h small =
    add_digits-char limit value "3" 3 rest refl h small
add_digits-digit limit value (suc (suc (suc (suc zero)))) rest h small =
    add_digits-char limit value "4" 4 rest refl h small
add_digits-digit limit value (suc (suc (suc (suc (suc zero))))) rest h small =
    add_digits-char limit value "5" 5 rest refl h small
add_digits-digit limit value (suc (suc (suc (suc (suc (suc zero)))))) rest h small =
    add_digits-char limit value "6" 6 rest refl h small
add_digits-digit limit value (suc (suc (suc (suc (suc (suc (suc zero))))))) rest h small =
    add_digits-char limit value "7" 7 rest refl h small
add_digits-digit limit value (suc (suc (suc (suc (suc (suc (suc (suc zero)))))))) rest h small =
    add_digits-char limit value "8" 8 rest refl h small
add_digits-digit limit value (suc (suc (suc (suc (suc (suc (suc (suc (suc zero))))))))) rest h
      small =
    add_digits-char limit value "9" 9 rest refl h small
add_digits-digit limit value (suc (suc (suc (suc (suc (suc (suc (suc (suc (suc n)))))))))) rest h
      small =
    absurd (omega arith)

-- The numbers with at most so many digits.
abbrev places : ℕ → ℕ
places zero = 1
places (suc k) = 10 * places k

digit-mod : (n : ℕ) → digit n ≡ digit (n % 10)
digit-mod n =
    ap (λ k. get_or ("0" ∷ "1" ∷ "2" ∷ "3" ∷ "4" ∷ "5" ∷ "6" ∷ "7" ∷ "8" ∷ "9" ∷ []) k "0")
      (omega arith)

-- Printing has fuel for each digit.
add_digits-decimal_digits :
    (limit fuel n : ℕ) (rest : String)
    → n < places fuel
    → n < limit
    → add_digits limit 0 (decimal_digits fuel n ++ rest) ≡ add_digits limit n rest
unfolding decimal_digits
add_digits-decimal_digits limit zero n rest h small =
    ap (add_digits limit 0) (append.nil rest) ∙ ap (λ k. add_digits limit k rest) (omega arith)
add_digits-decimal_digits limit (suc fuel) n rest h small = elim (Bool-cases (ltb n 10)) [
  | inl one_ ↦
      rw (one_, decimal_digits)
        (add_digits-digit limit 0 n rest (ltb→lt n 10 one_) (omega arith)
          ∙ ap (λ k. add_digits limit k rest) (omega arith))
  | inr more ↦
      rw (more, decimal_digits)
        (ap (add_digits limit 0) (append_assoc (decimal_digits fuel (n / 10)) (digit n) rest)
          ∙ add_digits-decimal_digits limit fuel (n / 10) (digit n ++ rest) (omega arith)
              (omega arith)
          ∙ ap (λ s. add_digits limit (n / 10) (s ++ rest)) (digit-mod n)
          ∙ add_digits-digit limit (n / 10) (n % 10) rest (omega arith) (omega arith)
          ∙ ap (λ k. add_digits limit k rest) (omega arith))
]

-- A text that is read without a look at its sign has none.
parse_number-add_digits :
    (limit n : ℕ) (s : String)
    → is_empty s ≡ false
    → add_digits limit 0 s ≡ ok n
    → parse_number limit s ≡ ok n
unfolding parse_number add_digits
parse_number-add_digits limit n String.[] some_ h = cc
parse_number-add_digits limit n (String.◌∷◌ c s) some_ h = elim (Bool-cases (code c == b'+')) [
  | inl plus ↦ absurd (refused ((==_iff (code c) b'+').0 plus))
  | inr other ↦ rw other h
]
  where
    refused : code c ≡ b'+' → ⊥
    refused same = cc (rw same at h)

is_empty-eq : (s : String) → is_empty s ≡ true → s ≡ ""
is_empty-eq String.[] h = refl
is_empty-eq (String.◌∷◌ c s) h = cc

zero_text : is_empty (decimal 0) ≡ false
unfolding decimal
zero_text = refl

module _ (limit n : ℕ) (small : n < limit) (fits : limit ≤ 2 ^ 64) where
  decimal_read : add_digits limit 0 (decimal n) ≡ ok n
  unfolding decimal add_digits
  decimal_read =
      ap (add_digits limit 0) (sym (append-nil (decimal_digits 20 n)))
      ∙ add_digits-decimal_digits limit 20 n "" (omega arith) small

  decimal-is_empty : is_empty (decimal n) ≡ false
  unfolding add_digits
  decimal-is_empty = elim (Bool-cases (is_empty (decimal n))) [
    | inr some_ ↦ some_
    | inl empty ↦
        ap (λ k. is_empty (decimal k))
          (ok_inj (sym decimal_read ∙ ap (add_digits limit 0) (is_empty-eq (decimal n) empty)))
        ∙ zero_text
  ]
    where
      ok_inj : ok n ≡ add_digits limit 0 "" → n ≡ 0
      ok_inj e = cc

  -- A number below a limit of at most 2 ^ 64 is read back from its decimal digits.
  pub parse_number-decimal : parse_number limit (decimal n) ≡ ok n
  parse_number-decimal = parse_number-add_digits limit n (decimal n) decimal-is_empty decimal_read
