-- ===== src/Text/RoundTrip.antt =====
-- A printed number is parsed back.
use Prim.Native.Char.{Char, code}
use onyxchat.Base.{
  ℕ, zero, suc, ◌+◌, ◌*◌, ◌/◌, ◌%◌, ◌^◌, ◌<◌, ◌≤◌, String, ◌≡◌, refl, some, ◌==◌, arith, ap, ◌∙◌,
  pos, Bool-cases, inl, inr,
}
use onyxchat.Text.{
  digit_char, digit_value, print_from, print_nat, scan_digits, number, parse_int, good,
}

pub code-digit_char : (d : ℕ) → d < 10 → code (digit_char d) ≡ 48 + d
unfolding digit_char
code-digit_char zero h = refl
code-digit_char (suc zero) h = refl
code-digit_char (suc (suc zero)) h = refl
code-digit_char (suc (suc (suc zero))) h = refl
code-digit_char (suc (suc (suc (suc zero)))) h = refl
code-digit_char (suc (suc (suc (suc (suc zero))))) h = refl
code-digit_char (suc (suc (suc (suc (suc (suc zero)))))) h = refl
code-digit_char (suc (suc (suc (suc (suc (suc (suc zero))))))) h = refl
code-digit_char (suc (suc (suc (suc (suc (suc (suc (suc zero)))))))) h = refl
code-digit_char (suc (suc (suc (suc (suc (suc (suc (suc (suc zero))))))))) h = refl
code-digit_char (suc (suc (suc (suc (suc (suc (suc (suc (suc (suc n)))))))))) h =
    absurd (omega arith)

digit_value-digit_char : (d : ℕ) → d < 10 → digit_value (digit_char d) ≡ some d
unfolding digit_value
digit_value-digit_char d h = ground (arith, code-digit_char d)

scan_digits-digit :
    (n d : ℕ) (s : String)
    → d < 10
    → n * 10 + d < 2 ^ 64
    → scan_digits n (String.◌∷◌ (digit_char d) s) ≡ scan_digits (n * 10 + d) s
unfolding scan_digits
scan_digits-digit n d s h b = ground (arith, code-digit_char d)

-- The digits of n, read behind nothing, count n.
scan_digits-print_from :
    (fuel n : ℕ) (out : String)
    → n < fuel
    → n < 2 ^ 64
    → scan_digits 0 (print_from fuel n out) ≡ scan_digits n out
unfolding print_from
scan_digits-print_from zero n out h b = absurd (omega arith)
scan_digits-print_from (suc fuel) n out h b = elim (Bool-cases (n / 10 == 0)) [
  | inl one ↦ rw one (
      scan_digits-digit 0 (n % 10) out (omega arith) (ground arith)
      ∙ ap (λ m. scan_digits m out) (ground arith))
  | inr more ↦
      rw
        (
          more,
          scan_digits-print_from fuel (n / 10) (String.◌∷◌ (digit_char (n % 10)) out) (ground arith)
              (omega arith),
        )
        (scan_digits-digit (n / 10) (n % 10) out (omega arith) (omega arith)
          ∙ ap (λ m. scan_digits m out) (omega arith))
]

-- A text that begins with a digit.
record StartsWithDigit (s : String) : Type 0 where
  first : Char
  rest : String
  shape : s ≡ String.◌∷◌ first rest
  low : 48 ≤ code first

print_from-StartsWithDigit :
    (fuel n : ℕ) (out : String) → n < fuel → StartsWithDigit (print_from fuel n out)
unfolding print_from
print_from-StartsWithDigit zero n out h = absurd (omega arith)
print_from-StartsWithDigit (suc fuel) n out h = elim (Bool-cases (n / 10 == 0)) [
  | inl one ↦ rw one (record {
    first = digit_char (n % 10);
    rest = out;
    shape = refl;
    low = omega (arith, code-digit_char (n % 10) (omega arith));
  })
  | inr more ↦ rw more (print_from-StartsWithDigit fuel (n / 10) _ (ground arith))
]

parse_int_of_digits :
    (s : String) (n : ℕ)
    → StartsWithDigit s
    → scan_digits 0 s ≡ number n
    → n < 2 ^ 63
    → parse_int s ≡ good (pos n)
unfolding parse_int
parse_int_of_digits s n d h b = rw d.shape (ground (arith, rw d.shape at h, d.low))

-- What FormatInt prints of a number below 2 ^ 63, ParseInt reads back.
pub parse_int-print_nat : (n : ℕ) → n < 2 ^ 63 → parse_int (print_nat n) ≡ good (pos n)
unfolding print_nat
parse_int-print_nat n b =
    parse_int_of_digits (print_from (suc n) n "") n
      (print_from-StartsWithDigit (suc n) n "" (omega arith))
      (scan_digits-print_from (suc n) n "" (omega arith) (omega arith)
        ∙ (unfold scan_digits in refl))
      b
