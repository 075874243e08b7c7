-- ===== src/Prelude/Sets.antt =====
-- Python's sets of keys, as lists: membership, inclusion, equality of sets.
use activex_endpoint.Prelude.Equality.{Eq, ◌==◌, ==-refl}
use activex_endpoint.Prelude.Lists.{filter}
use mathlib.Core.Path.{◌≡◌, refl}
use mathlib.Core.Bool.{Bool, true, false, ◌&&◌, ◌||◌}
use mathlib.Core.List.{List, [], ◌∷◌, ◌++◌}
use native.Mathlib.Omega.{arith}

module _ {ℓ} {A : Type ℓ} ⦃e : Eq A⦄ where
  -- `a in xs`
  unfoldable pub contains : List A → A → Bool
  contains [] a = false
  contains (x ∷ xs) a = x == a || contains xs a

  -- `xs <= ys`
  unfoldable pub subset : List A → List A → Bool
  unfolding contains
  subset [] ys = true
  subset (x ∷ xs) ys = contains ys x && subset xs ys

  -- `xs == ys`, for sets
  unfoldable pub set_eq : List A → List A → Bool
  unfolding subset
  set_eq xs ys = subset xs ys && subset ys xs

  pub contains-append :
      (xs ys : List A) (a : A) → contains (xs ++ ys) a ≡ (contains xs a || contains ys a)
  unfolding contains
  contains-append [] ys a = refl
  contains-append (x ∷ xs) ys a = ground (arith, contains-append xs ys a)

  pub contains-filter :
      (p : A → Bool) (xs : List A) (a : A) → contains (filter p xs) a ≡ (contains xs a && p a)
  unfolding contains
  contains-filter p [] a = refl
  contains-filter p (x ∷ xs) a = ground (arith, contains-filter p xs a, e.beq_iff x a)

  pub subset-contains :
      (xs ys : List A) (a : A) → subset xs ys ≡ true → contains xs a ≡ true → contains ys a ≡ true
  unfolding subset contains
  subset-contains [] ys a s h = ground arith
  subset-contains (x ∷ xs) ys a s h = ground (arith, e.beq_iff x a, subset-contains xs ys a)

  pub subset-of :
      (xs ys : List A)
      → ((a : A) → contains xs a ≡ true → contains ys a ≡ true)
      → subset xs ys ≡ true
  unfolding subset contains
  subset-of [] ys h = refl
  subset-of (x ∷ xs) ys h =
      ground (arith, h x, ==-refl x, subset-of xs ys (λ a c. h a (ground arith)))

  pub set_eq_refl : (xs : List A) → set_eq xs xs ≡ true
  unfolding set_eq
  set_eq_refl xs = rw (subset-of xs xs (λ a h. h))
