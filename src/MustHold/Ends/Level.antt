-- ===== src/MustHold/Ends/Level.antt =====
-- How far the modes of a table entry can still move: the guards that the function locks or unlocks
-- only lose modes, and those that it merely starts with only gain them.
use safetylint.Base.{
  ℕ, ◌≡◌, ◌≢◌, ◌≤◌, ◌<◌, ◌*◌, ◌-◌, refl, arith, false, [], ◌∷◌, ◌++◌, Memᴰ, decides, ◌⊎◌, inl, inr,
  if◌then◌else◌, length, sum, sum_mono, sum_lt, ltb, ℕ_discrete,
}
use mathlib.Core.List.Memᴰ
use safetylint.Hold.{HoldSet, get, IsWf, guard_set_equal, hold_write}
use safetylint.Hold.Equal.{guard_set_equal_iff}

module _ {K : Type 0} (dec : Discrete K) (universe init : HoldSet K) where
  -- What every entry of the tables satisfies.
  pub record IsGood (x : HoldSet K) : Type 0 where
    pub wf : IsWf dec x
    pub cap : (k : K) → get dec x k ≤ hold_write
    pub known : (k : K) → get dec universe k ≡ 0 → get dec init k ≡ 0 → get dec x k ≡ 0

  -- The order of the analysis.
  pub record IsBelow (x y : HoldSet K) : Type 0 where
    pub loses : (k : K) → 0 < get dec universe k → get dec x k ≤ get dec y k
    pub gains : (k : K) → get dec universe k ≡ 0 → get dec y k ≤ get dec x k

  abbrev room : HoldSet K → K × ℕ → ℕ
  room x (k, m) = if ltb 0 (get dec universe k) then get dec x k else hold_write - get dec x k

  abbrev pub level : HoldSet K → ℕ
  level x = sum (room x) (universe ++ init)

  room_le : (x y : HoldSet K) (p : K × ℕ) → IsBelow x y → IsGood x → IsGood y → room x p ≤ room y p
  room_le x y (k, m) b gx gy = ground (arith, b.loses k, b.gains k, gx.cap k, gy.cap k)

  room_lt :
      (x y : HoldSet K) (p : K × ℕ)
      → IsBelow x y
      → IsGood x
      → IsGood y
      → get dec x p.0 ≢ get dec y p.0
      → room x p < room y p
  room_lt x y (k, m) b gx gy ne = ground (arith, b.loses k, b.gains k, gx.cap k, gy.cap k)

  pub level_le : (x y : HoldSet K) → IsGood x → IsGood y → IsBelow x y → level x ≤ level y
  level_le x y gx gy b =
      sum_mono (room x) (room y) (universe ++ init) (λ p m. room_le x y p b gx gy)

  sum-le-twice :
      (f : K × ℕ → ℕ) (xs : HoldSet K) → ((p : K × ℕ) → f p ≤ 2) → sum f xs ≤ 2 * length xs
  sum-le-twice f [] h = omega arith
  sum-le-twice f (p ∷ xs) h = omega (arith, h p, sum-le-twice f xs h)

  pub level_bound : (x : HoldSet K) → IsGood x → level x ≤ 2 * length (universe ++ init)
  level_bound x g = sum-le-twice (room x) (universe ++ init) (λ p. ground (arith, g.cap p.0))

  abbrev Agree : HoldSet K → HoldSet K → HoldSet K → Type 0
  Agree x y xs = (p : K × ℕ) → Memᴰ p xs → get dec x p.0 ≡ get dec y p.0

  Agree-or :
      (x y xs : HoldSet K)
      → Agree x y xs ⊎ ((p : K × ℕ) × Memᴰ p xs × (get dec x p.0 ≢ get dec y p.0))
  Agree-or x y [] = inl (λ p m. absurd (Memᴰ.not-nil m))
  Agree-or x y (q ∷ xs) = elim (ℕ_discrete (get dec x q.0) (get dec y q.0)) [
    | no ne ↦ inr (q, Memᴰ.head refl, ne)
    | yes e ↦ elim (Agree-or x y xs) [
      | inr (p, m, ne) ↦ inr (p, Memᴰ.tail m, ne)
      | inl h ↦ inl (λ p m. elim (Memᴰ.cases_cons m) [ inl same ↦ rw same e | inr n ↦ h p n ])
    ]
  ]

  member : (s : HoldSet K) (k : K) → 0 < get dec s k → (m : ℕ) × Memᴰ (k, m) s
  unfolding get
  member [] k h = absurd (omega arith)
  member ((j, m) ∷ s) k h = by_key (dec j k) h (member s k)
    where
      by_key :
          (d : Dec (j ≡ k))
          → 0 < (if decides d then m else get dec s k)
          → (0 < get dec s k → (n : ℕ) × Memᴰ (k, n) s)
          → (n : ℕ) × Memᴰ (k, n) ((j, m) ∷ s)
      by_key (yes e) h ih = (m, Memᴰ.head (rw e refl))
      by_key (no ne) h ih = let (n, mem) = ih h in (n, Memᴰ.tail mem)

  in_left : (p : K × ℕ) (xs ys : HoldSet K) → Memᴰ p xs → Memᴰ p (xs ++ ys)
  in_left p [] ys m = absurd (Memᴰ.not-nil m)
  in_left p (x ∷ xs) ys m = elim (Memᴰ.cases_cons m) [
    | inl e ↦ Memᴰ.head e
    | inr n ↦ Memᴰ.tail (in_left p xs ys n)
  ]

  in_right : (p : K × ℕ) (xs ys : HoldSet K) → Memᴰ p ys → Memᴰ p (xs ++ ys)
  in_right p [] ys m = m
  in_right p (x ∷ xs) ys m = Memᴰ.tail (in_right p xs ys m)

  Agree-all :
      (x y : HoldSet K)
      → IsGood x
      → IsGood y
      → Agree x y (universe ++ init)
      → (k : K) → get dec x k ≡ get dec y k
  Agree-all x y gx gy h k = elim (ℕ_discrete (get dec universe k) 0) [
    | no ne ↦
        let (m, mem) = member universe k (omega (arith, ne)) in
        h (k, m) (in_left (k, m) universe init mem)
    | yes e ↦ elim (ℕ_discrete (get dec init k) 0) [
      | no ne ↦
          let (m, mem) = member init k (omega (arith, ne)) in
          h (k, m) (in_right (k, m) universe init mem)
      | yes i ↦ omega (arith, gx.known k e i, gy.known k e i)
    ]
  ]

  -- Entries that differ, in order, differ in how far they can move.
  pub level_lt :
      (x y : HoldSet K)
      → IsGood x
      → IsGood y
      → IsBelow x y
      → guard_set_equal dec x y ≡ false
      → level x < level y
  level_lt x y gx gy b h = elim (Agree-or x y (universe ++ init)) [
    | inl a ↦
        let same = (guard_set_equal_iff dec x y gx.wf gy.wf).1 (Agree-all x y gx gy a) in
        absurd (ground arith)
    | inr (p, m, ne) ↦
        sum_lt (room x) (room y) (universe ++ init) p m (λ q n. room_le x y q b gx gy)
          (room_lt x y p b gx gy ne)
  ]
