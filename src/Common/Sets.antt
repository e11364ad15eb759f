-- ===== src/Common/Sets.antt =====
-- Nim's `HashSet` and membership in a `seq`, as lists over a type with decidable equality.
use nim_libp2p.Common.{
  ℕ, suc, ◌≡◌, refl, arith, List, [], ◌∷◌, ◌++◌, Bool, true, false, eqb, if◌then◌else◌, ◌||◌, ◌+◌,
  ◌<◌,
}

module _ {ℓ} {A : Type ℓ} (dec : Discrete A) where
  unfoldable pub contains : A → List A → Bool
  contains a [] = false
  contains a (x ∷ xs) = eqb dec a x || contains a xs

  -- `incl`: a value that is there already stays where it is.
  unfoldable pub incl : A → List A → List A
  incl a xs = if contains a xs then xs else xs ++ a ∷ []

  -- How often a value stands in a list.
  unfoldable pub count : A → List A → ℕ
  count a [] = 0
  count a (x ∷ xs) = if eqb dec a x then suc (count a xs) else count a xs

  pub contains-append :
      (a : A) (xs ys : List A) → contains a (xs ++ ys) ≡ (contains a xs || contains a ys)
  unfolding contains
  contains-append a [] ys = refl
  contains-append a (x ∷ xs) ys = ground (arith, contains-append a xs ys)

  pub contains-incl :
      (a b : A) (xs : List A) → contains a (incl b xs) ≡ (contains a xs || eqb dec a b)
  unfolding incl contains
  contains-incl a b xs = ground (arith, contains-append a xs (b ∷ []))

  pub count-append : (a : A) (xs ys : List A) → count a (xs ++ ys) ≡ count a xs + count a ys
  unfolding count
  count-append a [] ys = ground arith
  count-append a (x ∷ xs) ys = ground (arith, count-append a xs ys)

  -- A value is in a list exactly when it is counted there.
  pub count_of_contains : (a : A) (xs : List A) → contains a xs ≡ true → 0 < count a xs
  unfolding contains count
  count_of_contains a [] h = ground arith
  count_of_contains a (x ∷ xs) h = ground (arith, count_of_contains a xs)

  pub count_of_absent : (a : A) (xs : List A) → contains a xs ≡ false → count a xs ≡ 0
  unfolding contains count
  count_of_absent a [] h = refl
  count_of_absent a (x ∷ xs) h = ground (arith, count_of_absent a xs)
