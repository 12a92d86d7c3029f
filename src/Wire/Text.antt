-- ===== src/Wire/Text.antt =====
-- The texts that Go's fmt and strconv print for integers and bytes (src/utils.go, `%d` and `%x`).
pub mod Decimal
use bemi_db.Prelude.{
  ℕ, suc, ◌/◌, ◌%◌, String, ◌<>◌, List, [], ◌∷◌, ltb, if◌then◌else◌, ◌==◌, nat_eq,
}
use bemi_db.Prelude.Int.{ℤ, pos, negsuc}

-- One digit, up to base sixteen.
digit : ℕ → String
digit d =
    if d == 0
    then "0"
    else if d == 1
    then "1"
    else if d == 2
    then "2"
    else if d == 3
    then "3"
    else if d == 4
    then "4"
    else if d == 5
    then "5"
    else if d == 6
    then "6"
    else if d == 7
    then "7"
    else if d == 8
    then "8"
    else if d == 9
    then "9"
    else if d == 10
    then "a"
    else if d == 11
    then "b"
    else if d == 12
    then "c"
    else if d == 13
    then "d"
    else if d == 14
    then "e"
    else "f"

-- A number has fewer decimal digits than its successor, which is the fuel.
digits_of : ℕ → ℕ → String
digits_of ℕ.zero n = ""
digits_of (suc fuel) n =
    let more = digits_of fuel (n / 10) <> digit (n % 10) in if ltb n 10 then digit n else more

-- strconv.FormatUint(n, 10)
unfoldable pub nat_to_string : ℕ → String
unfolding digits_of digit
nat_to_string n = digits_of (suc n) n

-- `IntToString`, `Int64ToString`
unfoldable pub int_to_string : ℤ → String
unfolding nat_to_string
int_to_string (pos n) = nat_to_string n
int_to_string (negsuc n) = "-" <> nat_to_string (suc n)

-- `%x` of a byte slice
unfoldable pub hex : List ℕ → String
unfolding digit
hex [] = ""
hex (b ∷ bytes) = digit (b / 16) <> (digit (b % 16) <> hex bytes)
