-- ===== src/Wire/Handlers/Parameters.antt =====
-- src/query_handler.go, HandleBindQuery: how many variables are bound, when the format codes are
-- indexed out of range, and which integers binary parameters stand for.
use bemi_db.Prelude.{
  ℕ, zero, suc, ◌+◌, ◌-◌, ◌/◌, ◌%◌, ◌^◌, ◌≤◌, ◌<◌, ◌≡◌, ◌≢◌, refl, ◌⊎◌, inl, inr, List, [], ◌∷◌,
  map, Option, none, some, true, false, arith, length, get_elem?,
}
use native.Mathlib.Decide.{dec_lt}
use bemi_db.Prelude.Int.{ℤ, pos, negsuc, pos_part, neg_part}
use bemi_db.Wire.Message.{HandlerError}
use bemi_db.Wire.Engine.{Value, Engine, Byte}
use bemi_db.Wire.Statement.{PreparedStatement}
use bemi_db.Wire.Handlers.Bind.{
  Bound, panicked, failed, variables, text_format, bound_value, bound_variables, big_endian, signed,
}

get_elem?-in : {A : Type 0} (xs : List A) (i : ℕ) → i < length xs → get_elem? xs i ≢ none
get_elem?-in [] i h = absurd (omega arith)
get_elem?-in (x ∷ xs) zero h = λ e. cc
get_elem?-in (x ∷ xs) (suc i) h = get_elem?-in xs i (omega arith)

get_elem?-out : {A : Type 0} (xs : List A) (i : ℕ) → length xs ≤ i → get_elem? xs i ≡ none
get_elem?-out [] i h = refl
get_elem?-out (x ∷ xs) zero h = absurd (omega arith)
get_elem?-out (x ∷ xs) (suc i) h = get_elem?-out xs i (omega arith)

text_format-in :
    (codes : List ℕ) (i : ℕ) → (length codes ≤ 1) ⊎ (i < length codes) → text_format codes i ≢ none
unfolding text_format
text_format-in [] i h = λ e. cc
text_format-in (c ∷ []) i h = λ e. cc
text_format-in (c ∷ d ∷ codes) i h = ground (arith, get_elem?-in (c ∷ d ∷ codes) i)

Bound-cases :
    (b : Bound)
    → ((vs : List Value) × (b ≡ variables vs))
      ⊎ ((b ≡ panicked) ⊎ ((x : HandlerError) × (b ≡ failed x)))
Bound-cases panicked = inr (inl refl)
Bound-cases (failed x) = inr (inr (x, refl))
Bound-cases (variables vs) = inl (vs, refl)

-- The bits of an integer in `w` bits.
abbrev pub twos_complement : ℕ → ℤ → ℕ
twos_complement w (pos n) = n
twos_complement w (negsuc n) = 2 ^ w - 1 - n

abbrev pub InRange : ℕ → ℤ → Type 0
InRange w z = (pos_part z < 2 ^ (w - 1)) × (neg_part z ≤ 2 ^ (w - 1))

-- The bytes of a number, most significant first.
abbrev pub bytes32 : ℕ → List Byte
bytes32 n = n / 2 ^ 24 % 256 ∷ n / 2 ^ 16 % 256 ∷ n / 2 ^ 8 % 256 ∷ n % 256 ∷ []

abbrev pub bytes64 : ℕ → List Byte
bytes64 n = n / 2 ^ 56 % 256 ∷ n / 2 ^ 48 % 256 ∷ n / 2 ^ 40 % 256 ∷ n / 2 ^ 32 % 256 ∷ bytes32 n

-- The parameters that are not NULL.
abbrev pub count_present : List (Option (List Byte)) → ℕ
count_present [] = 0
count_present (none ∷ params) = count_present params
count_present (some p ∷ params) = suc (count_present params)

-- The format codes of a Bind message cover its parameters.
abbrev pub CoversFrom : List ℕ → ℕ → List (Option (List Byte)) → Type 0
CoversFrom codes i params = (length codes ≤ 1) ⊎ (i + length params ≤ length codes)

module _ (engine : Engine) (stmt : PreparedStatement) where
  pub bound_variables-ne-panicked :
      (codes : List ℕ) (i : ℕ) (params : List (Option (List Byte)))
      → CoversFrom codes i params
      → bound_variables engine stmt codes i params ≢ panicked
  unfolding bound_variables
  bound_variables-ne-panicked codes i [] h = λ e. cc
  bound_variables-ne-panicked codes i (none ∷ params) h =
      bound_variables-ne-panicked codes (i + 1) params (omega arith)
  bound_variables-ne-panicked codes i (some p ∷ params) h = ground (
    arith,
    bound_variables-ne-panicked codes (i + 1) params (omega arith),
    text_format-in codes i (omega arith),
  )

  -- A successful Bind binds one variable for each parameter that is not NULL: a NULL parameter
  -- leaves no variable, so the parameters behind it move up.
  pub length-bound_variables :
      (codes : List ℕ) (i : ℕ) (params : List (Option (List Byte))) (vs : List Value)
      → bound_variables engine stmt codes i params ≡ variables vs
      → length vs ≡ count_present params
  unfolding bound_variables
  length-bound_variables codes i [] vs h = ground arith
  length-bound_variables codes i (none ∷ params) vs h =
      length-bound_variables codes (i + 1) params vs h
  length-bound_variables codes i (some p ∷ params) vs h =
      elim (Bound-cases (bound_variables engine stmt codes (i + 1) params)) [
        | inl (ws, e) ↦ ground (arith, length-bound_variables codes (i + 1) params ws e)
        | inr none_bound ↦ ground arith
      ]

  -- A text parameter with a format code of its own is bound.
  text_bound :
      (codes : List ℕ) (i : ℕ) (p : List Byte)
      → 2 ≤ length codes
      → get_elem? codes i ≡ some 0
      → text_format codes i ≡ some true
  unfolding text_format
  text_bound [] i p h e = absurd (omega arith)
  text_bound (c ∷ []) i p h e = absurd (omega arith)
  text_bound (c ∷ d ∷ codes) i p h e = ground arith

  text_unbound :
      (codes : List ℕ) (i : ℕ) → 2 ≤ length codes → length codes ≤ i → text_format codes i ≡ none
  unfolding text_format
  text_unbound [] i h k = absurd (omega arith)
  text_unbound (c ∷ []) i h k = absurd (omega arith)
  text_unbound (c ∷ d ∷ codes) i h k = ground (arith, get_elem?-out (c ∷ d ∷ codes) i k)

  -- With two format codes or more, all of them for text, a Bind whose parameters are not NULL and
  -- outnumber its format codes makes the source index its format codes out of range.
  pub bound_variables-panics :
      (codes : List ℕ) (i : ℕ) (ps : List (List Byte))
      → 2 ≤ length codes
      → ((j : ℕ) → j < length codes → get_elem? codes j ≡ some 0)
      → i ≤ length codes
      → length codes < i + length ps
      → bound_variables engine stmt codes i (map some ps) ≡ panicked
  unfolding bound_variables bound_value
  bound_variables-panics codes i [] two texts start more = absurd (omega arith)
  bound_variables-panics codes i (p ∷ ps) two texts start more = elim (dec_lt i (length codes)) [
    | yes inside ↦ ground (
      arith,
      text_bound codes i p two (texts i inside),
      bound_variables-panics codes (i + 1) ps two texts (omega arith) (omega arith),
    )
    | no outside ↦ ground (arith, text_unbound codes i two (omega arith))
  ]

  -- A binary parameter of four or eight bytes that holds an integer of that width in two's
  -- complement, most significant byte first, is bound to that integer.
  pub bound_value-integers :
      (i : ℕ) (z y : ℤ)
      → InRange 32 z
      → InRange 64 y
      → (bound_value engine stmt false i (bytes32 (twos_complement 32 z)) ≡ some (Value.int32 z))
        × (bound_value engine stmt false i (bytes64 (twos_complement 64 y)) ≡ some (Value.int64 y))
  unfolding bound_value signed big_endian
  bound_value-integers i (pos m) (pos n) h k = ground arith
  bound_value-integers i (pos m) (negsuc n) h k = ground arith
  bound_value-integers i (negsuc m) (pos n) h k = ground arith
  bound_value-integers i (negsuc m) (negsuc n) h k = ground arith
