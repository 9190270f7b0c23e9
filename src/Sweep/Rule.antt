-- ===== src/Sweep/Rule.antt =====
-- The rules of the loop: an invariant of every visit holds at the end, the last sweep changes
-- nothing, and a measure that every change lowers bounds the sweeps. `Q` holds of every block.
use safetylint.Base.{
  ℕ, zero, suc, ◌≤◌, ◌<◌, ◌≡◌, refl, ap, subst, arith, Bool, true, false, List, [], ◌∷◌, some,
  Bool-cases, inl, inr, Memᴰ,
}
use safetylint.Sweep.{sweep, until_stable}

module _ {B S : Type 0} (visit : B → S → S × Bool) (Q : B → Type 0) (I : S → Type 0)
    (keep : (b : B) (s : S) → Q b → I s → I (visit b s).0) where
  pub sweep_keeps :
      (bs : List B) (s : S) → ((b : B) → Memᴰ b bs → Q b) → I s → I (sweep visit bs s).0
  unfolding sweep
  sweep_keeps [] s q h = h
  sweep_keeps (b ∷ bs) s q h =
      sweep_keeps bs (visit b s).0 (λ c m. q c (Memᴰ.tail m)) (keep b s (q b (Memᴰ.head refl)) h)

  -- When the loop ends, its state comes from a sweep that changed nothing.
  pub until_stable_keeps :
      (bs : List B) (fuel : ℕ) (s t : S)
      → ((b : B) → Memᴰ b bs → Q b)
      → I s
      → until_stable visit bs fuel s ≡ some t
      → (u : S) × I u × (sweep visit bs u ≡ (t, false))
  unfolding until_stable
  until_stable_keeps bs zero s t q h e = cc
  until_stable_keeps bs (suc fuel) s t q h e = elim (Bool-cases (sweep visit bs s).1) [
    | inl more ↦
        until_stable_keeps bs fuel (sweep visit bs s).0 t q (sweep_keeps bs s q h) (rw more at e)
    | inr last ↦ (s, h, ground arith)
  ]

  pub until_stable_inv :
      (bs : List B) (fuel : ℕ) (s t : S)
      → ((b : B) → Memᴰ b bs → Q b)
      → I s
      → until_stable visit bs fuel s ≡ some t
      → I t
  until_stable_inv bs fuel s t q h e =
      let (u, i, last) = until_stable_keeps bs fuel s t q h e in
      subst I (ap (λ r. r.0) last) (sweep_keeps bs u q i)

  module _ (μ : S → ℕ)
      (same : (b : B) (s : S) → Q b → I s → (visit b s).1 ≡ false → μ (visit b s).0 ≡ μ s)
      (less : (b : B) (s : S) → Q b → I s → (visit b s).1 ≡ true → μ (visit b s).0 < μ s) where
    sweep_measure :
        (bs : List B) (s : S)
        → ((b : B) → Memᴰ b bs → Q b)
        → I s
        → (μ (sweep visit bs s).0 ≤ μ s)
          × ((sweep visit bs s).1 ≡ true → μ (sweep visit bs s).0 < μ s)
    unfolding sweep
    sweep_measure [] s q h = (omega arith, λ e. cc)
    sweep_measure (b ∷ bs) s q h =
        let qb = q b (Memᴰ.head refl) in
        let ih = sweep_measure bs (visit b s).0 (λ c m. q c (Memᴰ.tail m)) (keep b s qb h) in
        elim (Bool-cases (visit b s).1) [
          | inl changed ↦
              let lt = less b s qb h changed in (omega (arith, ih.0), λ e. omega (arith, ih.0))
          | inr kept ↦
              let eq = same b s qb h kept in
              (omega (arith, ih.0), λ e. omega (arith, ih.1 (rw kept at e)))
        ]

    -- With more fuel than the measure the loop ends.
    pub until_stable_ends :
        (bs : List B) (fuel : ℕ) (s : S)
        → ((b : B) → Memᴰ b bs → Q b)
        → I s
        → μ s < fuel
        → (t : S) × (until_stable visit bs fuel s ≡ some t)
    unfolding until_stable
    until_stable_ends bs zero s q h lt = absurd (omega arith)
    until_stable_ends bs (suc fuel) s q h lt = elim (Bool-cases (sweep visit bs s).1) [
      | inl more ↦ rw more (
          until_stable_ends bs fuel (sweep visit bs s).0 q (sweep_keeps bs s q h)
            (omega (arith, (sweep_measure bs s q h).1 more)))
      | inr last ↦ rw last ((sweep visit bs s).0, refl)
    ]

-- If the loop ends from where the first sweep leads, it ends.
pub until_stable_later :
    {B S : Type 0} (visit : B → S → S × Bool) (bs : List B) (fuel : ℕ) (s : S)
    → (t : S) × (until_stable visit bs fuel (sweep visit bs s).0 ≡ some t)
    → (t : S) × (until_stable visit bs (suc fuel) s ≡ some t)
unfolding until_stable
until_stable_later visit bs fuel s h = elim (Bool-cases (sweep visit bs s).1) [
  | inl more ↦ rw more h
  | inr last ↦ rw last ((sweep visit bs s).0, refl)
]
