-- ===== src/Samples/Parts.antt =====
-- Two functions that write elements 0 and 1 of one slice, and an access that needs no guard.
use safetylint.Base.{
  ℕ, zero, suc, ◌≡◌, ◌≢◌, ◌<◌, refl, arith, true, false, [], ◌∷◌, Option, none, some, List, inl,
  inr, sym, subst, Memᴰ, ◌^◌, ◌-◌, any, ℕ_discrete, if◌then◌else◌, ◌==◌, ◌&&◌,
}
use mathlib.Core.List.Memᴰ
use mathlib.Core.Option.{some-injective}
use safetylint.Ssa.{Program, TyView, ValueView, InstrView, store, index_addr, parameter, other, ret}
use safetylint.MustHold.Tables.{Results}
use safetylint.Structural.{DataAccess}
use safetylint.Access.{const_index_store}
use safetylint.Partition.{const_index_partition_ok, range_partition_ok, write_range_of}
use safetylint.Partition.Slice.{IndexRange, int64, slice_of_access}
use safetylint.Partition.Merge.{merge_ranges}
use safetylint.Partition.Covered.{merge_ranges_covers, in_range, IsInt64}
use safetylint.Partition.Disjoint.{MeetsAll, IsElement, const_index_partition_sound}
use safetylint.Partition.Ranges.{range_partition_sound}
use safetylint.Partition.Index.{write_range_of_element}
use safetylint.Samples.{sample}

-- `xs[0] = …` in function 0 and `xs[1] = …` in function 1: the slice is value 0
abbrev part_values : ℕ → ValueView ℕ ℕ
part_values zero = parameter
part_values (suc zero) = index_addr 0 3
part_values (suc (suc zero)) = index_addr 0 4
part_values _ = ValueView.other

abbrev part_types : ℕ → TyView ℕ ℕ
part_types (suc zero) = TyView.slice 0
part_types _ = other

abbrev part_instrs : ℕ → InstrView ℕ ℕ
part_instrs zero = store 1 9
part_instrs (suc zero) = store 2 9
part_instrs _ = ret

abbrev part_consts : ℕ → Option ℕ
part_consts (suc (suc (suc zero))) = some 0
part_consts (suc (suc (suc (suc zero)))) = some 1
part_consts _ = none

abbrev parts : Program
parts = record sample {
  view = part_values;
  ty_view = part_types;
  underlying = λ t. t;
  type_of = λ v. if v == 0 then 1 else 2;
  instr_view = part_instrs;
  instr_parent = λ i. some i;
  const_int = part_consts;
}

abbrev first_write : DataAccess ℕ ℕ
first_write = record { instr = 0; addr = 1; write = true }

abbrev second_write : DataAccess ℕ ℕ
second_write = record { instr = 1; addr = 2; write = true }

abbrev both : List (DataAccess ℕ ℕ)
both = first_write ∷ second_write ∷ []

parts-MeetsAll : MeetsAll parts
parts-MeetsAll = λ A xs x m. m

const_ok : const_index_partition_ok parts 0 both ≡ true
unfolding const_index_partition_ok ℕ_discrete
const_ok = refl

range_ok : range_partition_ok parts 0 both ≡ true
unfolding range_partition_ok ℕ_discrete
range_ok = refl

first-IsElement : IsElement parts first_write
unfolding const_index_partition_ok
first-IsElement = (refl, refl)

second-IsElement : IsElement parts second_write
unfolding const_index_partition_ok
second-IsElement = (refl, refl)

apart : parts.instr_parent 0 ≢ parts.instr_parent 1
apart e = omega (arith, some-injective 0 1 e)

const_small : (v n : ℕ) → part_consts v ≡ some n → n < 2 ^ 63
const_small zero n e = cc
const_small (suc zero) n e = cc
const_small (suc (suc zero)) n e = cc
const_small (suc (suc (suc zero))) n e = omega (arith, some-injective 0 n e)
const_small (suc (suc (suc (suc zero)))) n e = omega (arith, some-injective 1 n e)
const_small (suc (suc (suc (suc (suc v))))) n e = cc

const_index_partition_sound_example :
    (i : ℕ) × (j : ℕ) × (true ≡ true)
    × (true ≡ true)
    × (const_index_store parts first_write ≡ some i)
    × (const_index_store parts second_write ≡ some j)
    × (i ≢ j)
const_index_partition_sound_example =
    const_index_partition_sound parts parts-MeetsAll 0 both first_write second_write const_ok
      (Memᴰ.head refl) (Memᴰ.tail (Memᴰ.head refl)) first-IsElement second-IsElement apart

range_partition_sound_example :
    (r : IndexRange) × (s : IndexRange) × (true ≡ true)
    × (true ≡ true)
    × (write_range_of parts first_write ≡ some r)
    × (write_range_of parts second_write ≡ some s)
    × ((i : ℕ) → in_range i r && in_range i s ≡ false)
range_partition_sound_example =
    range_partition_sound parts parts-MeetsAll const_small 0 both first_write second_write range_ok
      (Memᴰ.head refl) (Memᴰ.tail (Memᴰ.head refl)) first-IsElement second-IsElement apart

no_slice_here : slice_of_access parts first_write ≡ none
unfolding slice_of_access ℕ_discrete
no_slice_here = refl

index_zero : const_index_store parts first_write ≡ some 0
unfolding const_index_store
index_zero = refl

write_range_of_element_example :
    (r : IndexRange) × (write_range_of parts first_write ≡ some r)
    × ((j : ℕ) → j < 2 ^ 63 → in_range (int64 j) r ≡ (if 0 == 2 ^ 63 - 1 then false else 0 == j))
write_range_of_element_example =
    write_range_of_element parts first_write 0 no_slice_here index_zero (ground arith)

abbrev low : IndexRange
low = record { lo = int64 0; hi = int64 2 }

abbrev high : IndexRange
high = record { lo = int64 2; hi = int64 3 }

merged : merge_ranges (high ∷ low ∷ []) ≡ some (record { lo = int64 0; hi = int64 3 })
unfolding merge_ranges
merged = refl

small_range : (r : IndexRange) → Memᴰ r (high ∷ low ∷ []) → IsInt64 r
small_range r m = elim (Memᴰ.cases_cons m) [
  | inl e ↦ subst IsInt64 (sym e) (ground arith)
  | inr n ↦ elim (Memᴰ.cases_cons n) [
    | inl e ↦ subst IsInt64 (sym e) (ground arith)
    | inr k ↦ absurd (Memᴰ.not-nil k)
  ]
]

merge_ranges_covers_example :
    any (in_range (int64 1)) (high ∷ low ∷ [])
    ≡ in_range (int64 1) (record { lo = int64 0; hi = int64 3 })
merge_ranges_covers_example =
    merge_ranges_covers (high ∷ low ∷ []) (record { lo = int64 0; hi = int64 3 }) small_range merged
      (int64 1)

abbrev never_held : ℕ → Results parts
never_held fn i = none
