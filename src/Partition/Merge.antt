-- ===== src/Partition/Merge.antt =====
-- The ranges that one function writes as a single range without holes, or none.
use safetylint.Base.{
  ℕ, zero, suc, ◌+◌, ◌-◌, ◌%◌, ◌^◌, Bool, true, false, ◌&&◌, List, [], ◌∷◌, Option, none, some, ltb,
  leb, all, set, replicate, if◌then◌else◌,
}
use safetylint.Partition.Slice.{IndexRange}

-- the first loop of `mergeRanges`
unfoldable pub hull : IndexRange → List IndexRange → IndexRange
hull m [] = m
hull m (r ∷ rs) =
    hull
      (record {
        lo = if ltb (IndexRange.lo r) (IndexRange.lo m) then IndexRange.lo r else IndexRange.lo m;
        hi = if ltb (IndexRange.hi m) (IndexRange.hi r) then IndexRange.hi r else IndexRange.hi m;
      })
      rs

-- `n` rounds of the loop from `i` on, which mark the indexes of a range as covered
unfoldable pub mark : IndexRange → ℕ → ℕ → List Bool → Option (List Bool)
mark m zero i covered = some covered
mark m (suc n) i covered =
    let rest = mark m n (suc i) (set covered (i - IndexRange.lo m) true) in
    if leb (IndexRange.lo m) i && ltb i (IndexRange.hi m) then rest else none

unfoldable pub mark_all : IndexRange → List IndexRange → List Bool → Option (List Bool)
unfolding mark
mark_all m [] covered = some covered
mark_all m (r ∷ rs) covered =
    elim (mark m (IndexRange.hi r - IndexRange.lo r) (IndexRange.lo r) covered) [
      | none ↦ none
      | some c ↦ mark_all m rs c
    ]

unfoldable pub merge_ranges : List IndexRange → Option IndexRange
unfolding hull mark_all
merge_ranges [] = none
merge_ranges (r ∷ rs) =
    let m = hull r rs in
    elim (mark_all m (r ∷ rs) (replicate ((m.hi + 2 ^ 64 - m.lo) % 2 ^ 64) false)) [
      | none ↦ none
      | some covered ↦ if all (λ b. b) covered then some m else none
    ]

unfoldable pub ranges_overlap : IndexRange → IndexRange → Bool
ranges_overlap a b = ltb a.lo b.hi && ltb b.lo a.hi
