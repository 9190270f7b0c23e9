-- ===== src/Base/Sums.antt =====
-- Sums of a measure over a list.
use Prim.Native.Nat.{ℕ, ◌+◌, ◌≤◌, ◌<◌}
use mathlib.Core.Path.{refl, subst}
use mathlib.Core.Logic.{inl, inr}
use mathlib.Core.List.{List, [], ◌∷◌, Memᴰ}
use mathlib.Core.List.Memᴰ
use native.Mathlib.Omega.{arith}
use safetylint.Base.Lists.{length}

module _ {A : Type 0} where
  abbrev pub sum : (A → ℕ) → List A → ℕ
  sum f [] = 0
  sum f (x ∷ xs) = f x + sum f xs

  pub sum_mono :
      (f g : A → ℕ) (xs : List A) → ((x : A) → Memᴰ x xs → f x ≤ g x) → sum f xs ≤ sum g xs
  sum_mono f g [] h = omega arith
  sum_mono f g (x ∷ xs) h =
      omega (arith, h x (Memᴰ.head refl), sum_mono f g xs (λ y m. h y (Memᴰ.tail m)))

  -- One term that is smaller makes the sum smaller.
  pub sum_lt :
      (f g : A → ℕ) (xs : List A) (a : A)
      → Memᴰ a xs
      → ((x : A) → Memᴰ x xs → f x ≤ g x)
      → f a < g a
      → sum f xs < sum g xs
  sum_lt f g [] a m h lt = absurd (Memᴰ.not-nil m)
  sum_lt f g (x ∷ xs) a m h lt = elim (Memᴰ.cases_cons m) [
    | inl e ↦
        let lt' : f x < g x = subst (λ y. f y < g y) e lt in
        omega (arith, sum_mono f g xs (λ y n. h y (Memᴰ.tail n)))
    | inr n ↦ omega (arith, h x (Memᴰ.head refl), sum_lt f g xs a n (λ y k. h y (Memᴰ.tail k)) lt)
  ]

  pub sum-le-length : (f : A → ℕ) (xs : List A) → ((x : A) → f x ≤ 1) → sum f xs ≤ length xs
  sum-le-length f [] h = omega arith
  sum-le-length f (x ∷ xs) h = omega (arith, h x, sum-le-length f xs h)
