-- ===== src/Remapper/Rewrite.antt =====
-- How a rewrite ends: with a result, or with the end of the process.
use bemi_db.Prelude.{◌≡◌, refl, ◌⊎◌, inl, inr, Bool, true, false, if◌then◌else◌}

pub data Rewrite (A : Type 0) : Type 0 where
  done : A → Rewrite A
  -- Panic
  exited : Rewrite A
  -- an index out of range, or the field of a nil pointer
  panicked : Rewrite A
  -- the model has no fuel left
  out_of_fuel : Rewrite A

infixl 5 ◌>>=◌
abbrev pub ◌>>=◌ : {A B : Type 0} → Rewrite A → (A → Rewrite B) → Rewrite B
◌>>=◌ (done a) k = k a
◌>>=◌ exited k = exited
◌>>=◌ panicked k = panicked
◌>>=◌ out_of_fuel k = out_of_fuel

abbrev pub mapped : {A B : Type 0} → (A → B) → Rewrite A → Rewrite B
mapped f o = o >>= λ a. done (f a)

-- The property holds of each result.
abbrev pub Gives : {A : Type 0} → Rewrite A → (A → Type 0) → Type 0
Gives (done a) P = P a
Gives exited P = Unit
Gives panicked P = Unit
Gives out_of_fuel P = Unit

pub Gives-bind :
    {A B : Type 0} (o : Rewrite A) (k : A → Rewrite B) (P : A → Type 0) (Q : B → Type 0)
    → Gives o P
    → ((a : A) → P a → Gives (k a) Q)
    → Gives (o >>= k) Q
Gives-bind (done a) k P Q g h = h a g
Gives-bind exited k P Q g h = tt
Gives-bind panicked k P Q g h = tt
Gives-bind out_of_fuel k P Q g h = tt

-- It does not run out of fuel, and the property holds of each result.
abbrev pub Ends : {A : Type 0} → Rewrite A → (A → Type 0) → Type 0
Ends (done a) P = P a
Ends exited P = Unit
Ends panicked P = Unit
Ends out_of_fuel P = ⊥

pub Ends-bind :
    {A B : Type 0} (o : Rewrite A) (k : A → Rewrite B) (P : A → Type 0) (Q : B → Type 0)
    → Ends o P
    → ((a : A) → P a → Ends (k a) Q)
    → Ends (o >>= k) Q
Ends-bind (done a) k P Q g h = h a g
Ends-bind exited k P Q g h = tt
Ends-bind panicked k P Q g h = tt
Ends-bind out_of_fuel k P Q g h = g

pub Rewrite-cases :
    {A : Type 0} (o : Rewrite A)
    → ((a : A) × (o ≡ done a)) ⊎ ((o ≡ exited) ⊎ ((o ≡ panicked) ⊎ (o ≡ out_of_fuel)))
Rewrite-cases (done a) = inl (a, refl)
Rewrite-cases exited = inr (inl refl)
Rewrite-cases panicked = inr (inr (inl refl))
Rewrite-cases out_of_fuel = inr (inr (inr refl))

pub Ends-if :
    {A : Type 0} (P : A → Type 0) (b : Bool) (o p : Rewrite A)
    → Ends o P
    → Ends p P
    → Ends (if b then o else p) P
Ends-if P true o p ho hp = ho
Ends-if P false o p ho hp = hp

pub Ends-weaken :
    {A : Type 0} (o : Rewrite A) (P Q : A → Type 0) → Ends o P → ((a : A) → P a → Q a) → Ends o Q
Ends-weaken (done a) P Q h g = g a h
Ends-weaken exited P Q h g = tt
Ends-weaken panicked P Q h g = tt
Ends-weaken out_of_fuel P Q h g = h
