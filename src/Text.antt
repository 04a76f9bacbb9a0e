-- ===== src/Text.antt =====
-- The functions of Go's strings, strconv and fmt that the server walks texts with. A text is a
-- sequence of characters, as decoded JSON and query strings are.
pub mod RoundTrip
pub mod Prints
pub mod Trim
use Prim.Native.Char.{Char, code}
use onyxchat.Base.{
  ℕ, zero, suc, ◌+◌, ◌-◌, ◌*◌, ◌/◌, ◌%◌, ◌^◌, String, Bool, true, false, ◌&&◌, ◌||◌, Option, none,
  some, ltb, leb, ◌==◌, if◌then◌else◌, str_eq, ℤ, pos, negate, List, [], ◌∷◌,
}

-- unicode.IsSpace
unfoldable pub is_space : Char → Bool
is_space ch =
    let c = code ch in
    (leb 9 c && leb c 13)
    || c == 32
    || c == 0x85
    || c == 0xa0
    || c == 0x1680
    || (leb 0x2000 c && leb c 0x200a)
    || c == 0x2028
    || c == 0x2029
    || c == 0x202f
    || c == 0x205f
    || c == 0x3000

unfoldable pub trim_left : String → String
unfolding is_space
trim_left String.[] = ""
trim_left (String.◌∷◌ c s) = let rest = trim_left s in if is_space c then rest else String.◌∷◌ c s

unfoldable pub trim_right : String → String
unfolding is_space
trim_right String.[] = ""
trim_right (String.◌∷◌ c s) =
    let rest = trim_right s in if str_eq rest "" && is_space c then "" else String.◌∷◌ c rest

-- strings.TrimSpace
unfoldable pub trim_space : String → String
unfolding trim_left trim_right
trim_space s = trim_right (trim_left s)

-- strings.SplitN(s, sep, 2) where it finds the separator: what stands before it and after it.
unfoldable pub cut : ℕ → String → Option (String × String)
cut sep String.[] = none
cut sep (String.◌∷◌ c s) =
    let rest = cut sep s in
    if code c == sep
    then some ("", s)
    else elim rest [ none ↦ none | some (before, after) ↦ some (String.◌∷◌ c before, after) ]

unfoldable pub digit_char : ℕ → Char
digit_char zero = "0"
digit_char (suc zero) = "1"
digit_char (suc (suc zero)) = "2"
digit_char (suc (suc (suc zero))) = "3"
digit_char (suc (suc (suc (suc zero)))) = "4"
digit_char (suc (suc (suc (suc (suc zero))))) = "5"
digit_char (suc (suc (suc (suc (suc (suc zero)))))) = "6"
digit_char (suc (suc (suc (suc (suc (suc (suc zero))))))) = "7"
digit_char (suc (suc (suc (suc (suc (suc (suc (suc zero)))))))) = "8"
digit_char _ = "9"

print_from : ℕ → ℕ → String → String
unfolding digit_char
print_from zero n out = out
print_from (suc fuel) n out =
    let rest = print_from fuel (n / 10) (String.◌∷◌ (digit_char (n % 10)) out) in
    if n / 10 == 0 then String.◌∷◌ (digit_char (n % 10)) out else rest

-- strconv.FormatInt(n, 10), the verb %d and a cast to text in SQL, of a number that is not negative.
unfoldable pub print_nat : ℕ → String
unfolding print_from
print_nat n = print_from (suc n) n ""

pub data Parsed : Type 0 where
  good : ℤ → Parsed
  syntax_error : Parsed
  range_error : ℤ → Parsed

unfoldable pub digit_value : Char → Option ℕ
digit_value ch = let c = code ch in if leb 48 c && leb c 57 then some (c - 48) else none

-- strconv.ParseUint in base 10: the scan ends at the first character that is no digit, or when the
-- number passes 64 bits.
pub data Scanned : Type 0 where
  number : ℕ → Scanned
  not_digit too_large : Scanned

unfoldable pub scan_digits : ℕ → String → Scanned
unfolding digit_value
scan_digits n String.[] = number n
scan_digits n (String.◌∷◌ c s) = elim (digit_value c) [
  | none ↦ not_digit
  | some d ↦ elim (ltb (n * 10 + d) (2 ^ 64)) [
    | true ↦ scan_digits (n * 10 + d) s
    | false ↦ too_large
  ]
]

abbrev parse_uint : String → Scanned
parse_uint String.[] = not_digit
parse_uint (String.◌∷◌ c s) = scan_digits 0 (String.◌∷◌ c s)

abbrev signed : Bool → Scanned → Parsed
signed negative not_digit = syntax_error
signed true too_large = range_error (negate (2 ^ 63))
signed false too_large = range_error (pos (2 ^ 63 - 1))
signed true (number n) = if ltb (2 ^ 63) n then range_error (negate (2 ^ 63)) else good (negate n)
signed false (number n) = if ltb n (2 ^ 63) then good (pos n) else range_error (pos (2 ^ 63 - 1))

-- strconv.ParseInt(s, 10, 64)
unfoldable pub parse_int : String → Parsed
unfolding scan_digits
parse_int String.[] = syntax_error
parse_int (String.◌∷◌ c s) =
    if code c == b'+'
    then signed false (parse_uint s)
    else if code c == b'-'
    then signed true (parse_uint s)
    else signed false (parse_uint (String.◌∷◌ c s))

-- The value that a call returns beside its error, and whether there is one.
abbrev pub parsed_value : Parsed → ℤ
parsed_value (good n) = n
parsed_value syntax_error = pos 0
parsed_value (range_error n) = n

abbrev pub parsed_good : Parsed → Option ℤ
parsed_good (good n) = some n
parsed_good _ = none

abbrev pub onto : Char → List String → List String
onto c [] = String.◌∷◌ c "" ∷ []
onto c (part ∷ parts) = String.◌∷◌ c part ∷ parts

-- strings.Split(s, sep), for a separator of one character.
unfoldable pub split : ℕ → String → List String
split sep String.[] = "" ∷ []
split sep (String.◌∷◌ c s) =
    let parts = split sep s in if code c == sep then "" ∷ parts else onto c parts
