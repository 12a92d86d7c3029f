-- ===== src/Remapper/Names.antt =====
-- src/query_remapper_function.go and src/query_remapper_table.go: the names in the queries that
-- create macros, tables and views.
use text.Mathlib.Text.{starts_with}
use Prim.Native.Char.{code}
use Prim.Native.String.{slice}
use bemi_db.Prelude.{
  ℕ, String, len, List, [], ◌∷◌, Option, none, some, Bool, false, ◌==◌, nat_eq, string_eq,
  if◌then◌else◌, ◌&&◌, ◌||◌, leb,
}

-- `\w`
abbrev pub is_word : ℕ → Bool
is_word c = (leb 97 c && leb c 122) || (leb 65 c && leb c 90) || (leb 48 c && leb c 57) || c == 95

-- `\w*` at the front of a text
unfoldable pub word : String → String
word String.[] = ""
word (String.◌∷◌ c s) = let rest = word s in if is_word (code c) then String.◌∷◌ c rest else ""

unfoldable pub after_word : String → String
after_word String.[] = ""
after_word (String.◌∷◌ c s) =
    let rest = after_word s in if is_word (code c) then rest else String.◌∷◌ c s

abbrev pub drop : String → String → String
drop prefix s = slice s (len prefix) (len s)

-- `(\w+)` and then the text, after the prefix
unfoldable pub match_name : String → String → String → Option String
unfolding word after_word
match_name prefix ending s =
    let rest = drop prefix s in
    if starts_with s prefix
      && (if word rest == "" then false else starts_with (after_word rest) ending)
    then some (word rest)
    else none

abbrev or_later : Option String → Option String → Option String
or_later none later = later
or_later (some name) later = some name

-- The leftmost match in a text.
unfoldable pub find_name : String → String → String → Option String
unfolding match_name
find_name prefix ending String.[] = none
find_name prefix ending (String.◌∷◌ c s) =
    or_later (match_name prefix ending (String.◌∷◌ c s)) (find_name prefix ending s)

abbrev with_name : Option String → List String → List String
with_name none names = names
with_name (some name) names = name ∷ names

-- `CREATE MACRO (\w+)\(`
unfoldable pub extract_macro_names : List String → List String
unfolding find_name
extract_macro_names [] = []
extract_macro_names (macro ∷ macros) =
    with_name (find_name "CREATE MACRO " "(" macro) (extract_macro_names macros)

-- `CREATE (TABLE|VIEW) (\w+)`, in queries that create one thing each
unfoldable pub extract_table_names : List String → List String
unfolding find_name
extract_table_names [] = []
extract_table_names (table ∷ tables) =
    with_name (or_later (find_name "CREATE TABLE " "" table) (find_name "CREATE VIEW " "" table))
      (extract_table_names tables)
