-- ===== src/Remapper/Text.antt =====
-- The functions of Go's package strings that the remapper uses.
use text.Mathlib.Text.{starts_with}
use Prim.Native.String.{slice}
use bemi_db.Prelude.{
  ◌≡◌, refl, ℕ, zero, suc, ◌-◌, String, ◌<>◌, len, List, [], ◌∷◌, Bool, true, false, ◌==◌, nat_eq,
  string_eq, if◌then◌else◌,
}

-- strings.ReplaceAll, with the rest of a match to skip first
replace_from : ℕ → String → String → String → String
replace_from skip String.[] from to = ""
replace_from (suc skip) (String.◌∷◌ c s) from to = replace_from skip s from to
replace_from zero (String.◌∷◌ c s) from to =
    let matched = to <> replace_from (len from - 1) s from to in
    let kept = String.◌∷◌ c (replace_from zero s from to) in
    if starts_with (String.◌∷◌ c s) from then matched else kept

unfoldable pub replace_all : String → String → String → String
unfolding replace_from
replace_all s from to = replace_from 0 s from to

-- strings.Replace with the count 1
unfoldable pub replace_first : String → String → String → String
replace_first String.[] from to = ""
replace_first (String.◌∷◌ c s) from to =
    let kept = String.◌∷◌ c (replace_first s from to) in
    if starts_with (String.◌∷◌ c s) from
    then to <> slice (String.◌∷◌ c s) (len from) (len (String.◌∷◌ c s))
    else kept

-- A character before the first of the parts.
abbrev prepend_char : String → List String → List String
prepend_char c [] = c ∷ []
prepend_char c (part ∷ parts) = (c <> part) ∷ parts

-- strings.Split with a separator of one character
unfoldable pub split : String → String → List String
split String.[] separator = "" ∷ []
split (String.◌∷◌ c s) separator =
    let parts = split s separator in
    if starts_with (String.◌∷◌ c s) separator
    then "" ∷ parts
    else prepend_char (slice (String.◌∷◌ c s) 0 1) parts

-- Whether the first character of a text is in the set.
unfoldable pub starts_in : String → List String → Bool
starts_in s [] = false
starts_in s (c ∷ cutset) = if starts_with s c then true else starts_in s cutset

trim_left : String → List String → String
unfolding starts_in
trim_left String.[] cutset = ""
trim_left (String.◌∷◌ c s) cutset =
    let rest = trim_left s cutset in
    if starts_in (String.◌∷◌ c s) cutset then rest else String.◌∷◌ c s

-- A text that is in the set goes, if nothing follows it.
trim_right : String → List String → String
unfolding starts_in
trim_right String.[] cutset = ""
trim_right (String.◌∷◌ c s) cutset =
    let rest = trim_right s cutset in
    if starts_in (String.◌∷◌ c s) cutset
    then (if rest == "" then "" else String.◌∷◌ c rest)
    else String.◌∷◌ c rest

-- strings.Trim
unfoldable pub trim : String → List String → String
unfolding trim_left trim_right
trim s cutset = trim_right (trim_left s cutset) cutset

unfoldable pub join : String → List String → String
join separator [] = ""
join separator (s ∷ []) = s
join separator (s ∷ t ∷ rest) = s <> (separator <> join separator (t ∷ rest))

trimmed : trim "{a, b}" ("{" ∷ "}" ∷ []) ≡ "a, b"
unfolding trim trim_left trim_right starts_in
trimmed = refl

parts : split "public.users" "." ≡ "public" ∷ "users" ∷ []
unfolding split
parts = refl
