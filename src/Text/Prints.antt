-- ===== src/Text/Prints.antt =====
-- Printed numbers as parts of keys and values: where they end, and that they differ.
use Prim.Native.String
use onyxchat.Base.{
  ℕ, zero, suc, ◌%◌, ◌/◌, ◌<◌, ◌^◌, String, str_eq, Bool, true, false, ◌≡◌, refl, sym, ap, ◌∙◌,
  Option, none, some, ◌==◌, arith, Bool-cases, inl, inr, pos, ==_iff, eq_iff,
}
use text.Mathlib.TextLemmas.{nil-append, cons-append, append_cancel_left}
use onyxchat.Text.{digit_char, print_from, print_nat, cut, parse_int, good}
use onyxchat.Text.RoundTrip.{code-digit_char, parse_int-print_nat}

good_pos : (m n : ℕ) → good (pos m) ≡ good (pos n) → m ≡ n
good_pos m n e = cc

abbrev before_with : (String → String) → Option (String × String) → Option (String × String)
before_with f none = none
before_with f (some (b, a)) = some (f b, a)

before_with-before_with :
    (f g : String → String) (x : Option (String × String))
    → before_with f (before_with g x) ≡ before_with (λ b. f (g b)) x
before_with-before_with f g none = refl
before_with-before_with f g (some (b, a)) = refl

before_with_same : (x : Option (String × String)) → before_with (λ b. b) x ≡ x
before_with_same none = refl
before_with_same (some (b, a)) = refl

before_with_same_at :
    (f g : String → String)
    → ((b : String) → f b ≡ g b)
    → (x : Option (String × String)) → before_with f x ≡ before_with g x
before_with_same_at f g h none = refl
before_with_same_at f g h (some (b, a)) = rw (h b) refl

-- No digit is the separator.
cut-digit :
    (d : ℕ) (s : String)
    → d < 10
    → cut 58 (String.◌∷◌ (digit_char d) s)
      ≡ before_with (λ b. String.◌∷◌ (digit_char d) b) (cut 58 s)
unfolding cut
cut-digit d s h = ground (arith, code-digit_char d)

cut-print_from :
    (fuel n : ℕ) (out : String)
    → cut 58 (print_from fuel n out) ≡ before_with (print_from fuel n) (cut 58 out)
unfolding print_from
cut-print_from zero n out = sym (before_with_same (cut 58 out))
cut-print_from (suc fuel) n out = elim (Bool-cases (n / 10 == 0)) [
  | inl one ↦
      rw (one, cut-digit (n % 10) out (omega arith))
        (before_with_same_at _ _ (λ b. rw one refl) (cut 58 out))
  | inr more ↦
      rw
        (
          more,
          cut-print_from fuel (n / 10) (String.◌∷◌ (digit_char (n % 10)) out),
          cut-digit (n % 10) out (omega arith),
        )
        (before_with-before_with _ _ (cut 58 out)
          ∙ before_with_same_at _ _ (λ b. rw more refl) (cut 58 out))
]

print_from-append :
    (fuel n : ℕ) (out s : String)
    → String.◌++◌ (print_from fuel n out) s ≡ print_from fuel n (String.◌++◌ out s)
unfolding print_from
print_from-append zero n out s = refl
print_from-append (suc fuel) n out s = elim (Bool-cases (n / 10 == 0)) [
  | inl one ↦ rw (one, cons-append) refl
  | inr more ↦ rw more (
      print_from-append fuel (n / 10) (String.◌∷◌ (digit_char (n % 10)) out) s
      ∙ ap (print_from fuel (n / 10)) (cons-append _ out s))
]

-- What stands before the first colon of a number, a colon and any text is the number.
pub cut-print_nat :
    (n : ℕ) (s : String)
    → cut 58 (String.◌++◌ (print_nat n) (String.◌++◌ ":" s)) ≡ some (print_nat n, s)
unfolding print_nat cut
cut-print_nat n s =
    ap (cut 58) (
      print_from-append (suc n) n "" (String.◌++◌ ":" s)
      ∙ ap (print_from (suc n) n) (nil-append (String.◌++◌ ":" s)))
    ∙ cut-print_from (suc n) n (String.◌++◌ ":" s)
    ∙ rw (cons-append, nil-append) refl

-- Two numbers that an int64 holds are printed alike only if they are the same.
pub print_nat_eq :
    (m n : ℕ) → m < 2 ^ 63 → n < 2 ^ 63 → str_eq (print_nat m) (print_nat n) ≡ (m == n)
print_nat_eq m n p q = elim (Bool-cases (m == n)) [
  | inl same ↦ rw (same, (==_iff m n).0 same) ((eq_iff (print_nat n) (print_nat n)).1 refl)
  | inr apart ↦ rw apart (differ (str_eq (print_nat m) (print_nat n)) refl apart)
]
  where
    same_number : print_nat m ≡ print_nat n → m ≡ n
    same_number e =
        good_pos m n (sym (parse_int-print_nat m p) ∙ ap parse_int e ∙ parse_int-print_nat n q)

    differ : (b : Bool) → str_eq (print_nat m) (print_nat n) ≡ b → (m == n) ≡ false → b ≡ false
    differ false e a = refl
    differ true e a = ground (arith, a, same_number ((eq_iff (print_nat m) (print_nat n)).0 e))

-- What stands before both of two texts does not make them equal.
pub str_eq-append : (p s t : String) → str_eq (String.◌++◌ p s) (String.◌++◌ p t) ≡ str_eq s t
str_eq-append p s t = elim (Bool-cases (str_eq s t)) [
  | inl same ↦ rw (same, (eq_iff s t).0 same) ((eq_iff (String.◌++◌ p t) (String.◌++◌ p t)).1 refl)
  | inr apart ↦ rw apart (differ (str_eq (String.◌++◌ p s) (String.◌++◌ p t)) refl apart)
]
  where
    differ :
        (b : Bool) → str_eq (String.◌++◌ p s) (String.◌++◌ p t) ≡ b → str_eq s t ≡ false → b ≡ false
    differ false e a = refl
    differ true e a = ground (
      arith,
      a,
      (eq_iff s t).1 (append_cancel_left p s t ((eq_iff (String.◌++◌ p s) (String.◌++◌ p t)).0 e)),
    )
