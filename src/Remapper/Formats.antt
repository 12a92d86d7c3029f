-- ===== src/Remapper/Formats.antt =====
-- src/parser_function.go, pgFormatToStrftime: the date and time formats of Postgres as those of
-- DuckDB, one token after the other.
use bemi_db.Prelude.{◌≡◌, refl, String, List, [], ◌∷◌, Bool, if◌then◌else◌}
use bemi_db.Syncer.Connections.{text_contains}
use bemi_db.Remapper.Text.{replace_all}

-- The tokens with what they become; FM strips the padding of four of them.
abbrev pub replacements : Bool → List (String × String)
replacements has_fm =
    ("FM", "")
    ∷ ("YYYY", "%Y")
    ∷ ("YY", "%y")
    ∷ ("IYYY", "%G")
    ∷ ("IY", "%g")
    ∷ ("Month", "%B")
    ∷ ("MONTH", "%B")
    ∷ ("month", "%B")
    ∷ ("Mon", "%b")
    ∷ ("MON", "%b")
    ∷ ("mon", "%b")
    ∷ ("MM", if has_fm then "%-m" else "%m")
    ∷ ("Day", "%A")
    ∷ ("DAY", "%A")
    ∷ ("day", "%A")
    ∷ ("Dy", "%a")
    ∷ ("DY", "%a")
    ∷ ("dy", "%a")
    ∷ ("DDD", "%j")
    ∷ ("DD", if has_fm then "%-d" else "%d")
    ∷ ("D", "%w")
    ∷ ("HH24", if has_fm then "%-H" else "%H")
    ∷ ("HH12", if has_fm then "%-I" else "%I")
    ∷ ("HH", if has_fm then "%-I" else "%I")
    ∷ ("MI", "%M")
    ∷ ("SS", "%S")
    ∷ ("MS", "%g")
    ∷ ("US", "%f")
    ∷ ("AM", "%p")
    ∷ ("PM", "%p")
    ∷ ("am", "%p")
    ∷ ("pm", "%p")
    ∷ ("TZ", "%Z")
    ∷ ("OF", "%z")
    ∷ ("IW", "%V")
    ∷ ("WW", "%W")
    ∷ []

unfoldable pub replace_tokens : List (String × String) → String → String
unfolding replace_all
replace_tokens [] s = s
replace_tokens ((from, to) ∷ rest) s = replace_tokens rest (replace_all s from to)

unfoldable pub pg_format_to_strftime : String → String
unfolding replace_tokens text_contains
pg_format_to_strftime s = replace_tokens (replacements (text_contains s "FM")) s

date_format : pg_format_to_strftime "YYYY-MM-DD HH24:MI:SS" ≡ "%Y-%m-%d %H:%M:%S"
unfolding pg_format_to_strftime replace_all
date_format = refl

-- The year of a week is never found, since YY is replaced first.
iso_year : pg_format_to_strftime "IYYY-IW" ≡ "I%yY-%V"
unfolding pg_format_to_strftime replace_all
iso_year = refl
