-- ===== src/Base/Members.antt =====
-- Membership in lists that are tested, searched or thinned out.
use mathlib.Core.Path.{◌≡◌, refl, sym, subst}
use mathlib.Core.Logic.{◌↔◌, inl, inr}
use mathlib.Core.Bool.{Bool, true, false}
use mathlib.Core.List.{List, [], ◌∷◌, Memᴰ}
use mathlib.Core.List.Memᴰ
use native.Mathlib.Omega.{arith}
use safetylint.Base.Tests.{Bool-cases}
use Prim.Native.Nat.{◌≤◌, ◌<◌}
use safetylint.Base.Lists.{any, all, reject, length}

module _ {A : Type 0} where
  pub Memᴰ-all : (p : A → Bool) (xs : List A) (x : A) → Memᴰ x xs → all p xs ≡ true → p x ≡ true
  Memᴰ-all p [] x m h = absurd (Memᴰ.not-nil m)
  Memᴰ-all p (y ∷ xs) x m h = elim (Memᴰ.cases_cons m) [
    | inl e ↦ subst (λ z. p z ≡ true) (sym e) (ground arith)
    | inr n ↦ Memᴰ-all p xs x n (ground arith)
  ]

  pub all-Memᴰ : (p : A → Bool) (xs : List A) → ((x : A) → Memᴰ x xs → p x ≡ true) → all p xs ≡ true
  all-Memᴰ p [] h = refl
  all-Memᴰ p (x ∷ xs) h =
      ground (arith, h x (Memᴰ.head refl), all-Memᴰ p xs (λ y m. h y (Memᴰ.tail m)))

  pub Memᴰ-any : (p : A → Bool) (xs : List A) (x : A) → Memᴰ x xs → p x ≡ true → any p xs ≡ true
  Memᴰ-any p [] x m h = absurd (Memᴰ.not-nil m)
  Memᴰ-any p (y ∷ xs) x m h = elim (Memᴰ.cases_cons m) [
    | inl e ↦ let k : p y ≡ true = subst (λ z. p z ≡ true) e h in ground arith
    | inr n ↦ let ih = Memᴰ-any p xs x n h in ground arith
  ]

  pub any-Memᴰ : (p : A → Bool) (xs : List A) → any p xs ≡ true → (x : A) × Memᴰ x xs × (p x ≡ true)
  any-Memᴰ p [] h = cc
  any-Memᴰ p (x ∷ xs) h = elim (Bool-cases (p x)) [
    | inl e ↦ (x, Memᴰ.head refl, e)
    | inr e ↦ let (y, m, k) = any-Memᴰ p xs (ground arith) in (y, Memᴰ.tail m, k)
  ]

  pub any-reject :
      (p q : A → Bool) (xs : List A)
      → ((x : A) → q x ≡ true → p x ≡ false)
      → any p (reject q xs) ≡ any p xs
  any-reject p q [] h = refl
  any-reject p q (x ∷ xs) h = ground (arith, h x, any-reject p q xs h)

  pub Memᴰ-reject :
      (q : A → Bool) (xs : List A) (x : A) → Memᴰ x (reject q xs) ↔ (Memᴰ x xs × (q x ≡ false))
  Memᴰ-reject q xs x = (down xs, λ k. up xs k.0 k.1)
    where
      down : (xs : List A) → Memᴰ x (reject q xs) → Memᴰ x xs × (q x ≡ false)
      down [] m = absurd (Memᴰ.not-nil m)
      down (y ∷ xs) m = elim (Bool-cases (q y)) [
        | inl e ↦ let (n, k) = down xs (rw e at m) in (Memᴰ.tail n, k)
        | inr e ↦ elim (Memᴰ.cases_cons (rw e at m)) [
          | inl same ↦ (Memᴰ.head same, subst (λ z. q z ≡ false) (sym same) e)
          | inr n ↦ let (n', k) = down xs n in (Memᴰ.tail n', k)
        ]
      ]

      up : (xs : List A) → Memᴰ x xs → q x ≡ false → Memᴰ x (reject q xs)
      up [] m k = absurd (Memᴰ.not-nil m)
      up (y ∷ xs) m k = elim (Memᴰ.cases_cons m) [
        | inl same ↦ rw (subst (λ z. q z ≡ false) same k) (Memᴰ.head same)
        | inr n ↦ elim (Bool-cases (q y)) [
          | inl e ↦ rw e (up xs n k)
          | inr e ↦ rw e (Memᴰ.tail (up xs n k))
        ]
      ]

  -- Who rejects more keeps less.
  pub reject_le :
      (p q : A → Bool) (xs : List A)
      → ((x : A) → q x ≡ true → p x ≡ true)
      → length (reject p xs) ≤ length (reject q xs)
  reject_le p q [] h = omega arith
  reject_le p q (x ∷ xs) h = ground (arith, h x, reject_le p q xs h)

  pub reject_lt :
      (p q : A → Bool) (xs : List A) (x : A)
      → ((y : A) → q y ≡ true → p y ≡ true)
      → Memᴰ x xs
      → q x ≡ false
      → p x ≡ true
      → length (reject p xs) < length (reject q xs)
  reject_lt p q [] x h m e k = absurd (Memᴰ.not-nil m)
  reject_lt p q (y ∷ xs) x h m e k = elim (Memᴰ.cases_cons m) [
    | inl same ↦
        let ey : q y ≡ false = subst (λ z. q z ≡ false) same e in
        let ky : p y ≡ true = subst (λ z. p z ≡ true) same k in ground (arith, reject_le p q xs h)
    | inr n ↦ ground (arith, h y, reject_lt p q xs x h n e k)
  ]

  pub reject-bound : (q : A → Bool) (xs : List A) → length (reject q xs) ≤ length xs
  reject-bound q [] = omega arith
  reject-bound q (x ∷ xs) = ground (arith, reject-bound q xs)
