-- ===== src/Partition/Covered.antt =====
-- `mergeRanges` returns a range only if the given ranges cover it, and it covers them.
use safetylint.Base.{
  ℕ, zero, suc, ◌+◌, ◌-◌, ◌%◌, ◌^◌, ◌≤◌, ◌<◌, ◌≡◌, ◌⊎◌, inl, inr, refl, sym, ap, ◌∙◌, subst, arith,
  Bool, true, false, ◌&&◌, List, [], ◌∷◌, Option, none, some, Memᴰ, ltb, leb, all, any, set, get_or,
  replicate, length, length-set, get_or-set_ne, ℕ_discrete, Bool-cases, Option-cases, if◌then◌else◌,
  any-Memᴰ,
}
use mathlib.Core.List.Memᴰ
use mathlib.Core.Option.{some-injective}
use safetylint.Partition.Slice.{IndexRange}
use safetylint.Partition.Merge.{hull, mark, mark_all, merge_ranges}

abbrev pub in_range : ℕ → IndexRange → Bool
in_range i r = leb r.lo i && ltb i r.hi

-- the upper end of an int64, in its place in the order
abbrev pub IsInt64 : IndexRange → Type 0
IsInt64 r = IndexRange.hi r < 2 ^ 64

-- the first range lies in the second
abbrev Within : IndexRange → IndexRange → Type 0
Within r m = (IndexRange.lo m ≤ IndexRange.lo r) × (IndexRange.hi r ≤ IndexRange.hi m)

hull-Within :
    (m : IndexRange) (rs : List IndexRange)
    → Within m (hull m rs) × ((r : IndexRange) → Memᴰ r rs → Within r (hull m rs))
unfolding hull
hull-Within m [] = ((omega arith, omega arith), λ r h. absurd (Memᴰ.not-nil h))
hull-Within m (r ∷ rs) =
    let n : IndexRange = record {
      lo = if ltb r.lo m.lo then r.lo else m.lo;
      hi = if ltb m.hi r.hi then r.hi else m.hi;
    } in
    let (own, rest) = hull-Within n rs in
    let wm : Within m n = (ground arith, ground arith) in
    let wr : Within r n = (ground arith, ground arith) in
    (
      (omega (arith, wm.0, own.0), omega (arith, wm.1, own.1)),
      λ s h. elim (Memᴰ.cases_cons h) [
        | inl e ↦
            subst (λ x. Within x (hull n rs)) (sym e)
              (omega (arith, wr.0, own.0), omega (arith, wr.1, own.1))
        | inr k ↦ rest s k
      ],
    )

hull-IsInt64 :
    (m : IndexRange) (rs : List IndexRange)
    → IsInt64 m
    → ((r : IndexRange) → Memᴰ r rs → IsInt64 r)
    → IsInt64 (hull m rs)
unfolding hull
hull-IsInt64 m [] h k = h
hull-IsInt64 m (r ∷ rs) h k =
    hull-IsInt64
      (record {
        lo = if ltb r.lo m.lo then r.lo else m.lo;
        hi = if ltb m.hi r.hi then r.hi else m.hi;
      })
      rs (let kr = k r (Memᴰ.head refl) in ground arith) (λ s n. k s (Memᴰ.tail n))

module _ (m : IndexRange) where
  -- Index `j` of the table, which stands for `j + m.lo`, is marked by a range from `i` on.
  mark_only :
      (n i : ℕ) (covered c : List Bool) (j : ℕ)
      → mark m n i covered ≡ some c
      → get_or c j false ≡ true
      → (get_or covered j false ≡ true) ⊎ ((i ≤ j + m.lo) × (j + m.lo < i + n))
  unfolding mark
  mark_only zero i covered c j e h =
      inl (subst (λ x. get_or x j false ≡ true) (sym (some-injective _ _ e)) h)
  mark_only (suc n) i covered c j e h = elim (Bool-cases (leb m.lo i && ltb i m.hi)) [
    | inr out ↦ cc (rw out at e)
    | inl in_m ↦ elim (mark_only n (suc i) (set covered (i - m.lo) true) c j (rw in_m at e) h) [
      | inr p ↦ inr (omega (arith, p.0), omega (arith, p.1))
      | inl p ↦ elim (ℕ_discrete (i - m.lo) j) [
        | yes same ↦
            let low : m.lo ≤ i = ground arith in
            inr (omega (arith, low, same), omega (arith, low, same))
        | no ne ↦ inl (rw (get_or-set_ne covered (i - m.lo) j true false ne) at p)
      ]
    ]
  ]

  length-mark :
      (n i : ℕ) (covered c : List Bool) → mark m n i covered ≡ some c → length c ≡ length covered
  unfolding mark
  length-mark zero i covered c e = ap length (sym (some-injective _ _ e))
  length-mark (suc n) i covered c e = elim (Bool-cases (leb m.lo i && ltb i m.hi)) [
    | inr out ↦ cc (rw out at e)
    | inl in_m ↦
        length-mark n (suc i) (set covered (i - m.lo) true) c (rw in_m at e)
        ∙ length-set covered (i - m.lo) true
  ]

  mark_all_only :
      (rs : List IndexRange) (covered c : List Bool) (j : ℕ)
      → mark_all m rs covered ≡ some c
      → get_or c j false ≡ true
      → (get_or covered j false ≡ true) ⊎ (any (in_range (j + m.lo)) rs ≡ true)
  unfolding mark_all
  mark_all_only [] covered c j e h =
      inl (subst (λ x. get_or x j false ≡ true) (sym (some-injective _ _ e)) h)
  mark_all_only (r ∷ rs) covered c j e h = elim (Option-cases (mark m (r.hi - r.lo) r.lo covered)) [
    | inl q ↦ cc (rw (q, mark_all) at e)
    | inr (d, q) ↦ elim (mark_all_only rs d c j (rw (q, mark_all) at e) h) [
      | inr p ↦ inr (ground arith)
      | inl p ↦ elim (mark_only (r.hi - r.lo) r.lo covered d j q p) [
        | inl k ↦ inl k
        | inr k ↦ let here : in_range (j + m.lo) r ≡ true = ground arith in inr (ground arith)
      ]
    ]
  ]

  length-mark_all :
      (rs : List IndexRange) (covered c : List Bool)
      → mark_all m rs covered ≡ some c
      → length c ≡ length covered
  unfolding mark_all
  length-mark_all [] covered c e = ap length (sym (some-injective _ _ e))
  length-mark_all (r ∷ rs) covered c e = elim (Option-cases (mark m (r.hi - r.lo) r.lo covered)) [
    | inl q ↦ cc (rw (q, mark_all) at e)
    | inr (d, q) ↦
        length-mark_all rs d c (rw (q, mark_all) at e) ∙ length-mark (r.hi - r.lo) r.lo covered d q
  ]

get_or-all :
    (c : List Bool) (j : ℕ) → all (λ b. b) c ≡ true → j < length c → get_or c j false ≡ true
get_or-all [] j h lt = absurd (omega arith)
get_or-all (b ∷ c) zero h lt = ground arith
get_or-all (b ∷ c) (suc j) h lt = get_or-all c j (ground arith) (omega arith)

get_or-replicate : (n j : ℕ) → get_or (replicate n false) j false ≡ false
get_or-replicate zero j = refl
get_or-replicate (suc n) zero = refl
get_or-replicate (suc n) (suc j) = get_or-replicate n j

length-replicate : (n : ℕ) → length (replicate n false) ≡ n
length-replicate zero = refl
length-replicate (suc n) = ap suc (length-replicate n)

-- The parts of a successful merge: the hull, and a full table.
merged :
    (r : IndexRange) (rs : List IndexRange) (m : IndexRange)
    → merge_ranges (r ∷ rs) ≡ some m
    → (m ≡ hull r rs)
      × (c : List Bool) × (mark_all m (r ∷ rs) (replicate ((m.hi + 2 ^ 64 - m.lo) % 2 ^ 64) false)
          ≡ some c)
      × (all (λ b. b) c ≡ true)
unfolding merge_ranges
merged r rs m e = by_table _ refl e
  where
    by_table :
        (o : Option (List Bool))
        → mark_all
            (hull r rs)
            (r ∷ rs)
            (replicate (((hull r rs).hi + 2 ^ 64 - (hull r rs).lo) % 2 ^ 64) false)
          ≡ o
        → (elim o [ none ↦ none | some c ↦ if all (λ b. b) c then some (hull r rs) else none ])
          ≡ some m
        → (m ≡ hull r rs)
          × (c : List Bool) × (mark_all m
                (r ∷ rs)
                (replicate ((m.hi + 2 ^ 64 - m.lo) % 2 ^ 64) false)
              ≡ some c)
          × (all (λ b. b) c ≡ true)
    by_table none q k = cc
    by_table (some c) q k = elim (Bool-cases (all (λ b. b) c)) [
      | inr hole ↦ cc (rw hole at k)
      | inl full ↦
          let same : hull r rs ≡ m = some-injective _ _ (rw full at k) in
          (
            sym same,
            c,
            subst
                (λ x.
                  mark_all x (r ∷ rs) (replicate ((x.hi + 2 ^ 64 - x.lo) % 2 ^ 64) false) ≡ some c)
                same q,
            full,
          )
    ]

-- Where mergeRanges returns a range, an index is in that range exactly when it is in one of the
-- given ranges, whose upper ends are int64 values.
pub merge_ranges_covers :
    (rs : List IndexRange) (m : IndexRange)
    → ((r : IndexRange) → Memᴰ r rs → IsInt64 r)
    → merge_ranges rs ≡ some m
    → (i : ℕ) → any (in_range i) rs ≡ in_range i m
merge_ranges_covers [] m h e i = unfold merge_ranges in cc
merge_ranges_covers (r ∷ rs) m h e i =
    let (same, c, table, full) = merged r rs m e in
    let (own, rest) = hull-Within r rs in
    let top : m.hi < 2 ^ 64 =
      subst IsInt64 (sym same)
        (hull-IsInt64 r rs (h r (Memᴰ.head refl)) (λ s k. h s (Memᴰ.tail k))) in
    elim (Bool-cases (any (in_range i) (r ∷ rs))) [
      | inl some_r ↦
          let (s, k, hit) = any-Memᴰ (in_range i) (r ∷ rs) some_r in
          let within : Within s m = subst (Within s) (sym same) (elim (Memᴰ.cases_cons k) [
            | inl q ↦ subst (λ x. Within x (hull r rs)) (sym q) own
            | inr n ↦ rest s n
          ]) in
          some_r ∙ sym (ground (arith, within.0, within.1))
      | inr no_r ↦ elim (Bool-cases (in_range i m)) [
        | inr out ↦ no_r ∙ sym out
        | inl in_m ↦
            let low : m.lo ≤ i = ground arith in
            let high : i < m.hi = ground arith in
            let size : (m.hi + 2 ^ 64 - m.lo) % 2 ^ 64 ≡ m.hi - m.lo = omega arith in
            let room : i - m.lo < length c = omega (
              arith,
              length-mark_all m (r ∷ rs) _ c table,
              length-replicate ((m.hi + 2 ^ 64 - m.lo) % 2 ^ 64),
              size,
            ) in
            elim (mark_all_only m (r ∷ rs) _ c (i - m.lo) table
              (get_or-all c (i - m.lo) full room)) [
                | inl q ↦ cc (get_or-replicate ((m.hi + 2 ^ 64 - m.lo) % 2 ^ 64) (i - m.lo))
                | inr q ↦
                    let back : i - m.lo + m.lo ≡ i = omega arith in
                    subst (λ x. any (in_range x) (r ∷ rs) ≡ true) back q ∙ sym in_m
              ]
      ]
    ]
