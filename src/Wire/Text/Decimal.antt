-- ===== src/Wire/Text/Decimal.antt =====
-- The number that Go's decimal digits stand for.
use Prim.Native.Char.{code}
use text.Mathlib.TextLemmas.{nil-append, cons-append}
use bemi_db.Prelude.{
  ◌≡◌, ℕ, zero, suc, ◌+◌, ◌-◌, ◌*◌, ◌/◌, ◌%◌, ◌<◌, String, ◌<>◌, Option, some, arith, Bool-cases,
  inl, inr, ltb,
}
use bemi_db.Wire.Text.{nat_to_string, digits_of, digit}

-- The number that digits stand for, after those of `n`.
value_from : ℕ → String → ℕ
value_from n String.[] = n
value_from n (String.◌∷◌ c s) = value_from (n * 10 + (code c - 48)) s

value_from-append : (n : ℕ) (s t : String) → value_from n (s <> t) ≡ value_from (value_from n s) t
unfolding value_from
value_from-append n String.[] t = rw (nil-append t)
value_from-append n (String.◌∷◌ c s) t =
    rw (cons-append c s t) (value_from-append (n * 10 + (code c - 48)) s t)

value_from-digit : (n d : ℕ) → d < 10 → value_from n (digit d) ≡ n * 10 + d
unfolding value_from digit
value_from-digit n zero h = omega arith
value_from-digit n (suc zero) h = omega arith
value_from-digit n (suc (suc zero)) h = omega arith
value_from-digit n (suc (suc (suc zero))) h = omega arith
value_from-digit n (suc (suc (suc (suc zero)))) h = omega arith
value_from-digit n (suc (suc (suc (suc (suc zero))))) h = omega arith
value_from-digit n (suc (suc (suc (suc (suc (suc zero)))))) h = omega arith
value_from-digit n (suc (suc (suc (suc (suc (suc (suc zero))))))) h = omega arith
value_from-digit n (suc (suc (suc (suc (suc (suc (suc (suc zero)))))))) h = omega arith
value_from-digit n (suc (suc (suc (suc (suc (suc (suc (suc (suc zero))))))))) h = omega arith
value_from-digit n (suc (suc (suc (suc (suc (suc (suc (suc (suc (suc d)))))))))) h =
    absurd (omega arith)

value_from-digits_of : (fuel n : ℕ) → n < fuel → value_from 0 (digits_of fuel n) ≡ n
unfolding digits_of
value_from-digits_of zero n h = absurd (omega arith)
value_from-digits_of (suc fuel) n h = elim (Bool-cases (ltb n 10)) [
  | inl one ↦ rw one (omega (arith, value_from-digit 0 n (ground arith)))
  | inr more ↦
      rw (more, value_from-append 0 (digits_of fuel (n / 10)) (digit (n % 10)))
        (rw (value_from-digits_of fuel (n / 10) (ground arith))
          (omega (arith, value_from-digit (n / 10) (n % 10))))
]

pub string_to_int64 : String → Option ℕ
string_to_int64 s = some (value_from 0 s)

pub string_to_int64-nat_to_string : (n : ℕ) → string_to_int64 (nat_to_string n) ≡ some n
unfolding string_to_int64 nat_to_string
string_to_int64-nat_to_string n = rw (value_from-digits_of (suc n) n (omega arith))
