-- ===== src/Names/Sets.antt =====
-- src/custom_types.go: Set, as a list without repetition.
use bemi_db.Prelude.{
  ◌≡◌, ◌⊎◌, inl, inr, ◌↔◌, List, [], ◌∷◌, Bool, true, false, Bool-cases, Eq, ◌==◌, if◌then◌else◌,
  arith,
}

module _ {ℓ} {A : Type ℓ} ⦃cmp : Eq A⦄ where
  unfoldable pub contains : List A → A → Bool
  contains [] item = false
  contains (x ∷ set) item = if x == item then true else contains set item

  unfoldable pub add : List A → A → List A
  add set item = if contains set item then set else item ∷ set

  -- `NewSet` adds the items in order to a set.
  unfoldable pub add_all : List A → List A → List A
  add_all set [] = set
  add_all set (item ∷ items) = add_all (add set item) items

  unfoldable pub new_set : List A → List A
  new_set items = add_all [] items

  -- No item occurs twice.
  abbrev pub IsDistinct : List A → Type ℓ
  IsDistinct [] = Unit
  IsDistinct (x ∷ xs) = (contains xs x ≡ false) × IsDistinct xs

  contains-add :
      (set : List A) (item x : A)
      → (contains (add set item) x ≡ true) ↔ ((item == x ≡ true) ⊎ (contains set x ≡ true))
  unfolding contains add
  contains-add set item x = elim (Bool-cases (contains set item)) [
    | inl e ↦ ground (arith, cmp.same_iff item x)
    | inr e ↦ ground arith
  ]

  add-IsDistinct : (set : List A) (item : A) → IsDistinct set → IsDistinct (add set item)
  unfolding add
  add-IsDistinct set item d = elim (Bool-cases (contains set item)) [
    | inl e ↦ rw e d
    | inr e ↦ rw e (e, d)
  ]

  contains-add_all :
      (items : List A) (set : List A) (x : A)
      → (contains (add_all set items) x ≡ true)
        ↔ ((contains set x ≡ true) ⊎ (contains items x ≡ true))
  unfolding add_all contains
  contains-add_all [] set x = ground arith
  contains-add_all (item ∷ items) set x =
      ground (arith, contains-add_all items (add set item) x, contains-add set item x)

  add_all-IsDistinct :
      (items : List A) (set : List A) → IsDistinct set → IsDistinct (add_all set items)
  unfolding add_all
  add_all-IsDistinct [] set d = d
  add_all-IsDistinct (item ∷ items) set d =
      add_all-IsDistinct items (add set item) (add-IsDistinct set item d)

  -- A set made from a list contains exactly the items of the list, each once.
  pub new_set-contains :
      (items : List A) (x : A)
      → ((contains (new_set items) x ≡ true) ↔ (contains items x ≡ true))
        × IsDistinct (new_set items)
  unfolding new_set contains
  new_set-contains items x =
      (ground (arith, contains-add_all items [] x), add_all-IsDistinct items [] tt)
