-- ===== src/Partition.antt =====
-- Concurrent writers of disjoint parts of a slice or an array (internal/nosharing/objectguard.go):
-- constant indexes, and ranges with constant bounds.
pub mod Slice
pub mod Merge
pub mod Covered
pub mod Writers
pub mod Disjoint
pub mod Parts
pub mod Ranges
pub mod Index
use safetylint.Base.{
  ℕ, suc, ◌+◌, ◌%◌, ◌^◌, Bool, true, false, not, ◌&&◌, ◌||◌, List, [], ◌∷◌, ◌++◌, Option, none,
  some, any, is_some, ltb, decides, if◌then◌else◌, ◌==◌,
}
use safetylint.Ssa.{Program}
use safetylint.Strip.{strip_to_object}
use safetylint.Structural.{DataAccess}
use safetylint.Access.{
  Access, is_slice_header_load, is_slice_header_store, is_slice_or_array_root, const_index_store,
}
use safetylint.Partition.Slice.{IndexRange, int64, slice_of_access, const_slice_bounds}
use safetylint.Partition.Merge.{merge_ranges, ranges_overlap}

module _ (P : Program) where
  open P use {Value, Func, Instr, func_discrete, instr_parent, map_order}

  abbrev pub is_parent : Func → Option Func → Bool
  is_parent fn none = false
  is_parent fn (some f) = decides (func_discrete f fn)

  module _ {X : Type 0} (part : Access P → Option X) where
    -- Does the function write a part? `indexFns` and `rangeFns`
    unfoldable pub is_writer : List (Access P) → Func → Bool
    is_writer accs fn =
        any (λ acc. is_some (part acc) && is_parent fn (instr_parent (DataAccess.instr acc))) accs

    -- `byFn[fn] = append(byFn[fn], x)`
    unfoldable pub put_part : Func → X → List (Func × List X) → List (Func × List X)
    put_part fn x [] = (fn, x ∷ []) ∷ []
    put_part fn x ((f, xs) ∷ rest) =
        if decides (func_discrete f fn)
        then (f, xs ++ x ∷ []) ∷ rest
        else (f, xs) ∷ put_part fn x rest

    -- a header is stored outside of the writers: before there are any
    unfoldable pub stored_in_setup : List (Access P) → Option Func → Bool
    unfolding is_writer
    stored_in_setup accs none = false
    stored_in_setup accs (some fn) = not (is_writer accs fn)

    unfoldable pub put_write :
        Access P → Option Func → Option X → List (Func × List X) → Option (List (Func × List X))
    unfolding put_part
    put_write acc (some fn) (some x) by_fn = if acc.write then some (put_part fn x by_fn) else none
    put_write acc _ _ by_fn = none

    -- the second loop: the parts that each function writes, or `none` where it returns false
    unfoldable pub parts_by_fn :
        List (Access P) → List (Access P) → List (Func × List X) → Option (List (Func × List X))
    unfolding stored_in_setup put_write is_slice_header_load is_slice_header_store
    parts_by_fn accs [] by_fn = some by_fn
    parts_by_fn accs (acc ∷ rest) by_fn =
        if is_slice_header_load P acc
        then parts_by_fn accs rest by_fn
        else if is_slice_header_store P acc
        then (if stored_in_setup accs (instr_parent (DataAccess.instr acc))
            then parts_by_fn accs rest by_fn
            else none)
        else elim (put_write acc (instr_parent (DataAccess.instr acc)) (part acc) by_fn) [
          | none ↦ none
          | some by_fn' ↦ parts_by_fn accs rest by_fn'
        ]

  -- `for j := i + 1; j < len(fns); j++` in `for i := 0; …`
  unfoldable pub pairwise : {X : Type 0} → (X → X → Bool) → List X → Bool
  pairwise r [] = true
  pairwise r (x ∷ xs) = not (any (λ y. not (r x y)) xs) && pairwise r xs

  unfoldable pub same_index : ℕ → ℕ → Bool
  same_index i j = i == j

  unfoldable pub indexes_apart : Func × List ℕ → Func × List ℕ → Bool
  unfolding same_index
  indexes_apart (f, xs) (g, ys) = not (any (λ x. any (same_index x) ys) xs)

  -- `isSliceOrArrayRoot(stripToObject(acc.addr)) || isSliceOrArrayRoot(acc.addr)`
  unfoldable pub touches_slice : Access P → Bool
  unfolding strip_to_object is_slice_or_array_root
  touches_slice acc =
      is_slice_or_array_root P (strip_to_object P (DataAccess.addr acc))
      || is_slice_or_array_root P (DataAccess.addr acc)

  unfoldable pub const_index_partition_ok : Value → List (Access P) → Bool
  unfolding parts_by_fn pairwise indexes_apart touches_slice is_slice_or_array_root
      const_index_store
  const_index_partition_ok root accs =
      if is_slice_or_array_root P root || any touches_slice accs
      then elim (parts_by_fn (const_index_store P) accs accs []) [
        | none ↦ false
        | some [] ↦ false
        | some (p ∷ ps) ↦ pairwise indexes_apart (map_order (Func × List ℕ) (p ∷ ps))
      ]
      else false

  -- an element is the range of one index; Go's `+` wraps around
  abbrev pub index_range : Option ℕ → Option IndexRange
  index_range none = none
  index_range (some i) = some (record { lo = int64 i; hi = (int64 i + 1) % 2 ^ 64 })

  unfoldable pub write_range_of : Access P → Option IndexRange
  unfolding slice_of_access const_slice_bounds const_index_store
  write_range_of acc = elim (slice_of_access P acc) [
    | some sl ↦ const_slice_bounds P sl
    | none ↦ index_range (const_index_store P acc)
  ]

  unfoldable pub merge_all : List (Func × List IndexRange) → Option (List (Func × IndexRange))
  unfolding merge_ranges
  merge_all [] = some []
  merge_all ((f, rs) ∷ rest) = elim (merge_ranges rs) [
    | none ↦ none
    | some m ↦ elim (merge_all rest) [ none ↦ none | some ms ↦ some ((f, m) ∷ ms) ]
  ]

  unfoldable pub ranges_apart : Func × IndexRange → Func × IndexRange → Bool
  unfolding ranges_overlap
  ranges_apart (f, a) (g, b) = not (ranges_overlap a b)

  unfoldable pub merged_apart : Option (List (Func × IndexRange)) → Bool
  unfolding pairwise ranges_apart
  merged_apart none = false
  merged_apart (some ms) = pairwise ranges_apart (map_order (Func × IndexRange) ms)

  unfoldable pub range_partition_ok : Value → List (Access P) → Bool
  unfolding parts_by_fn merge_all merged_apart touches_slice is_slice_or_array_root write_range_of
      slice_of_access
  range_partition_ok root accs =
      if is_slice_or_array_root P root
        || any (λ acc. touches_slice acc || is_some (slice_of_access P acc)) accs
      then elim (parts_by_fn write_range_of accs accs []) [
        | none ↦ false
        | some [] ↦ false
        | some (p ∷ ps) ↦ merged_apart (merge_all (map_order (Func × List IndexRange) (p ∷ ps)))
      ]
      else false
