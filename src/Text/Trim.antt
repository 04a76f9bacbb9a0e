-- ===== src/Text/Trim.antt =====
-- strings.TrimSpace and strings.Split.
use Prim.Native.Char.{Char}
use onyxchat.Base.{String, str_eq, false, ◌&&◌, ◌≡◌, refl, ap, ◌∙◌, inl, inr, Bool-cases, arith}
use onyxchat.Text.{is_space, trim_left, trim_right, trim_space}

-- A text that is empty or begins with no space.
data Begins : String → Type 0 where
  empty : Begins ""
  letter : (c : Char) (s : String) → is_space c ≡ false → Begins (String.◌∷◌ c s)

trim_left-Begins : (s : String) → Begins (trim_left s)
unfolding trim_left
trim_left-Begins String.[] = empty
trim_left-Begins (String.◌∷◌ c s) = elim (Bool-cases (is_space c)) [
  | inl space ↦ rw space (trim_left-Begins s)
  | inr other ↦ rw other (letter c s other)
]

trim_left-trim_right : {s : String} → Begins s → trim_left (trim_right s) ≡ trim_right s
unfolding trim_left trim_right
trim_left-trim_right empty = refl
trim_left-trim_right (letter c s other) = ground (arith)

trim_right-trim_right : (s : String) → trim_right (trim_right s) ≡ trim_right s
unfolding trim_right
trim_right-trim_right String.[] = refl
trim_right-trim_right (String.◌∷◌ c s) =
    elim (Bool-cases (str_eq (trim_right s) "" && is_space c)) [
      | inl blank ↦ rw blank refl
      | inr kept ↦ rw kept (rw (trim_right-trim_right s) (rw kept refl))
    ]

pub trim_space-trim_space : (s : String) → trim_space (trim_space s) ≡ trim_space s
unfolding trim_space
trim_space-trim_space s =
    ap trim_right (trim_left-trim_right (trim_left-Begins s)) ∙ trim_right-trim_right (trim_left s)
