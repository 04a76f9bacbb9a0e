-- ===== src/Start/Origins.antt =====
-- The origins that SM_ALLOWED_ORIGINS names, and those that the WebSocket upgrader accepts.
use Prim.Native.Char.{Char, code}
use onyxchat.Base.{
  String, str_eq, eq_iff, Bool, false, not, ◌||◌, ◌==◌, ◌≡◌, refl, inl, inr, Bool-cases, arith,
  if◌then◌else◌, List, [], ◌∷◌,
}
use onyxchat.Sql.{exists_row}
use onyxchat.Text.{trim_space, split}
use onyxchat.Http.Socket.{check_origin}
use onyxchat.Start.Server.{parse_allowed_origins, keep_origins}

abbrev pub has_comma : String → Bool
has_comma String.[] = false
has_comma (String.◌∷◌ c s) = code c == 44 || has_comma s

-- A text, a comma, and another text; and a list of texts with commas between them.
abbrev pub comma_between : String → String → String
comma_between String.[] rest = String.◌∷◌ "," rest
comma_between (String.◌∷◌ c s) rest = String.◌∷◌ c (comma_between s rest)

abbrev pub join : List String → String
join [] = ""
join (o ∷ []) = o
join (o ∷ q ∷ os) = comma_between o (join (q ∷ os))

-- A name of an origin: not empty, without spaces around it and without a comma.
pub record IsOrigin (o : String) : Type 0 where
  pub given : str_eq o "" ≡ false
  pub trimmed : trim_space o ≡ o
  pub whole : has_comma o ≡ false

abbrev pub AllOrigins : List String → Type 0
AllOrigins [] = Unit
AllOrigins (o ∷ os) = IsOrigin o × AllOrigins os

split-whole : (o : String) → has_comma o ≡ false → split 44 o ≡ o ∷ []
unfolding split
split-whole String.[] h = refl
split-whole (String.◌∷◌ c s) h = ground (arith, split-whole s)

split-comma_between :
    (o rest : String) → has_comma o ≡ false → split 44 (comma_between o rest) ≡ o ∷ split 44 rest
unfolding split
split-comma_between String.[] rest h = refl
split-comma_between (String.◌∷◌ c s) rest h = ground (arith, split-comma_between s rest)

keep_origins-join :
    (o : String) (os : List String)
    → AllOrigins (o ∷ os)
    → keep_origins (split 44 (join (o ∷ os))) ≡ o ∷ os
keep_origins-join o [] (h, _) = rw (split-whole o h.whole, h.trimmed, h.given) refl
keep_origins-join o (q ∷ os) (h, hs) =
    rw
      (split-comma_between o (join (q ∷ os)) h.whole, h.trimmed, h.given, keep_origins-join q os hs)
      refl

letter_given : (c : Char) (s : String) → str_eq (String.◌∷◌ c s) "" ≡ false
letter_given c s = elim (Bool-cases (str_eq (String.◌∷◌ c s) "")) [
  | inl empty ↦ let e : String.◌∷◌ c s ≡ "" = (eq_iff (String.◌∷◌ c s) "").0 empty in cc
  | inr given ↦ given
]

join_given :
    (o : String) (os : List String) → str_eq o "" ≡ false → str_eq (join (o ∷ os)) "" ≡ false
join_given o [] h = h
join_given String.[] (q ∷ os) h = cc
join_given (String.◌∷◌ c s) (q ∷ os) h = letter_given c (comma_between s (join (q ∷ os)))

-- The origins of a list come back from the list with commas between them.
parse_allowed_origins-join :
    (os : List String) → AllOrigins os → parse_allowed_origins (join os) ≡ os
unfolding parse_allowed_origins
parse_allowed_origins-join [] h = refl
parse_allowed_origins-join (o ∷ os) h = rw (join_given o os h.0.given) (keep_origins-join o os h)

accepted :
    (os : List String) (origin : String)
    → AllOrigins os
    → exists_row (λ o. str_eq (trim_space o) origin) os ≡ exists_row (λ o. str_eq o origin) os
unfolding exists_row
accepted [] origin h = refl
accepted (o ∷ os) origin (h, hs) = rw (h.trimmed, accepted os origin hs) refl

-- Where SM_ALLOWED_ORIGINS joins origins by commas, each of them given, without spaces around it and
-- without a comma, the server parses those origins, and its upgrader accepts, whatever the environment,
-- exactly the origins among them; a request without the header Origin is accepted outside prod only.
pub check_origin-join :
    (os : List String) (env origin : String)
    → AllOrigins os
    → (parse_allowed_origins (join os) ≡ os)
      × (check_origin (parse_allowed_origins (join os)) env origin ≡ (
          if str_eq origin ""
          then not (str_eq env "prod")
          else exists_row (λ o. str_eq o origin) os))
unfolding check_origin
check_origin-join os env origin h = (
  parse_allowed_origins-join os h,
  rw (parse_allowed_origins-join os h, accepted os origin h) refl,
)
