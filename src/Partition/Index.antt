-- ===== src/Partition/Index.antt =====
-- The range of a single element: one index, or nothing where Go's `idx + 1` wraps around.
use safetylint.Base.{
  ℕ, ◌+◌, ◌%◌, ◌^◌, ◌<◌, ◌≡◌, refl, ap, ◌∙◌, arith, true, false, Option, none, some, ◌==◌, ◌-◌, ◌⊎◌,
  if◌then◌else◌, inl, inr, Bool-cases,
}
use safetylint.Ssa.{Program}
use safetylint.Access.{Access, const_index_store}
use safetylint.Partition.{write_range_of, index_range}
use safetylint.Partition.Slice.{IndexRange, int64, slice_of_access, const_slice_bounds}
use safetylint.Partition.Covered.{in_range}

module _ (P : Program) where
  no_slice :
      (acc : Access P)
      → slice_of_access P acc ≡ none
      → write_range_of P acc ≡ index_range P (const_index_store P acc)
  unfolding write_range_of
  no_slice acc e = by_slice _ e
    where
      by_slice :
          (o : Option P.Value)
          → o ≡ none
          → (elim o [
            | some sl ↦ const_slice_bounds P sl
            | none ↦ index_range P (const_index_store P acc)
          ])
            ≡ index_range P (const_index_store P acc)
      by_slice none q = refl
      by_slice (some sl) q = cc

  -- The range of a store to an element with a constant index, through no slice expression, holds
  -- that index alone, except for the greatest int64, where idx + 1 wraps around and the range
  -- holds no index.
  pub write_range_of_element :
      (acc : Access P) (i : ℕ)
      → slice_of_access P acc ≡ none
      → const_index_store P acc ≡ some i
      → i < 2 ^ 63
      → (r : IndexRange) × (write_range_of P acc ≡ some r)
        × ((j : ℕ)
            → j < 2 ^ 63
            → in_range (int64 j) r ≡ (if i == 2 ^ 63 - 1 then false else i == j))
  write_range_of_element acc i e q small = (
    record { lo = int64 i; hi = (int64 i + 1) % 2 ^ 64 },
    no_slice acc e ∙ ap (index_range P) q,
    λ j k. by_end j k (Bool-cases (i == 2 ^ 63 - 1)),
  )
    where
      by_end :
          (j : ℕ)
          → j < 2 ^ 63
          → ((i == 2 ^ 63 - 1) ≡ true) ⊎ ((i == 2 ^ 63 - 1) ≡ false)
          → in_range (int64 j) (record { lo = int64 i; hi = (int64 i + 1) % 2 ^ 64 })
            ≡ (if i == 2 ^ 63 - 1 then false else i == j)
      by_end j k (inl last) =
          let e : (int64 i + 1) % 2 ^ 64 ≡ 0 =
            (let l : i ≡ 2 ^ 63 - 1 = ground arith in omega arith) in
          ground arith
      by_end j k (inr inside) =
          let e : (int64 i + 1) % 2 ^ 64 ≡ int64 i + 1 =
            (let l : i < 2 ^ 63 - 1 = ground arith in omega arith) in
          ground arith
