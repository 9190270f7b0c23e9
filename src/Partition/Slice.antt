-- ===== src/Partition/Slice.antt =====
-- The slice expression that an access goes through, and its constant bounds.
use safetylint.Base.{
  ℕ, zero, suc, ◌+◌, ◌^◌, Bool, true, false, List, [], ◌∷◌, Option, none, some, str_eq, ltb,
  decides, if◌then◌else◌, ◌==◌,
}
use safetylint.Ssa.{
  Program, CallCommon, ValueView, mul, store, call, defer, slice, index_addr, un_op, is_invoke,
  builtin,
}
use safetylint.Strip.{strip_to_object}
use safetylint.Guard.Method.{first}
use safetylint.Access.{Access, is_src_first_slice_copy, first_slice_arg_index}

-- `indexRange`. An int64 is the number that it has plus 2 ^ 63, so that the order is that of ℕ.
pub record IndexRange : Type 0 where
  pub lo : ℕ
  pub hi : ℕ

abbrev pub int64 : ℕ → ℕ
int64 n = n + 2 ^ 63

module _ (P : Program) where
  open P use {Value, Func, Instr, view, instr_view, const_int, value_discrete, referrers, depth}

  abbrev pub as_slice : ValueView Value Func → Bool
  as_slice (slice x lo hi) = true
  as_slice _ = false

  -- the loop of `uniqueSliceStore`, with the slice found so far
  unfoldable pub unique_from : Value → Option Value → List Instr → Option Value
  unfolding strip_to_object
  unique_from cell found [] = found
  unique_from cell found (i ∷ is) =
      let rest = λ (o : Option Value). unique_from cell o is in
      elim (instr_view i) [
        | store addr val ↦
            if decides (value_discrete (strip_to_object P addr) cell)
            then (if as_slice (view val)
                then elim found [
                  | none ↦ rest (some val)
                  | some sl ↦ if decides (value_discrete sl val) then rest (some val) else none
                ]
                else none)
            else rest found
        | _ ↦ rest found
      ]

  unfoldable pub unique_slice_store : Value → Option Value
  unfolding unique_from strip_to_object
  unique_slice_store addr =
      unique_from (strip_to_object P addr) none (referrers (strip_to_object P addr))

  abbrev pub or_else : Option Value → Option Value → Option Value
  or_else (some v) o = some v
  or_else none o = o

  -- `sliceDef`
  unfoldable pub slice_def_from : ℕ → Value → Option Value
  unfolding unique_slice_store
  slice_def_from zero v = unique_slice_store v
  slice_def_from (suc f) v = elim (view v) [
    | slice x lo hi ↦ some v
    | un_op t x ↦ elim t [
      | mul ↦ or_else (slice_def_from f x) (unique_slice_store x)
      | _ ↦ unique_slice_store v
    ]
    | _ ↦ unique_slice_store v
  ]

  -- `sliceOfValue` is the same: the first test of `sliceDef` is its own.
  unfoldable pub slice_def : Value → Option Value
  unfolding slice_def_from
  slice_def v = slice_def_from (suc (depth v)) v

  -- the loop of `peelPadCopyDest` over the arguments, from the one with index `i` on
  unfoldable pub pad_dest : Option ℕ → ℕ → List Value → Option Value
  unfolding slice_def
  pad_dest src i [] = none
  pad_dest src i (arg ∷ args) =
      let rest = pad_dest src (suc i) args in
      if (elim src [ none ↦ false | some j ↦ i == j ]) then rest else or_else (slice_def arg) rest

  -- the destination of the builtin `copy`
  unfoldable pub copy_dest : CallCommon Value Func → Option Value
  unfolding slice_def
  copy_dest c = if is_invoke c then none else elim (view c.value) [
    | builtin name ↦
        if str_eq name "copy"
        then elim (first c.args) [ none ↦ none | some arg ↦ slice_def arg ]
        else none
    | _ ↦ none
  ]

  unfoldable pub call_dest : CallCommon Value Func → Option Value
  unfolding pad_dest copy_dest is_src_first_slice_copy first_slice_arg_index
  call_dest c =
      or_else
        (elim c.static_callee [
          | none ↦ none
          | some cal ↦
              if is_src_first_slice_copy P cal
              then pad_dest (first_slice_arg_index P c) 0 c.args
              else none
        ])
        (copy_dest c)

  unfoldable pub peel_pad_copy_dest : Access P → Option Value
  unfolding call_dest slice_def
  peel_pad_copy_dest acc =
      if as_slice (view acc.addr) then some acc.addr else elim (instr_view acc.instr) [
        | call v c ↦ or_else (call_dest c) (slice_def acc.addr)
        | defer c ↦ or_else (call_dest c) (slice_def acc.addr)
        | _ ↦ none
      ]

  -- the loop of `sliceOfAccess`
  unfoldable pub slice_from : ℕ → Value → Option Value
  unfolding slice_def
  slice_from zero cur = slice_def cur
  slice_from (suc f) cur = elim (view cur) [
    | slice x lo hi ↦ some cur
    | index_addr x i ↦
        let up = slice_from f x in if as_slice (view x) then some x else or_else (slice_def x) up
    | un_op t x ↦ elim t [ mul ↦ slice_from f x | _ ↦ none ]
    | _ ↦ slice_def cur
  ]

  unfoldable pub slice_of_access : Access P → Option Value
  unfolding peel_pad_copy_dest slice_from
  slice_of_access acc =
      if as_slice (view acc.addr)
      then some acc.addr
      else or_else (peel_pad_copy_dest acc) (elim (instr_view acc.instr) [
        | store addr val ↦ slice_from (suc (depth addr)) addr
        | _ ↦ slice_from (suc (depth acc.addr)) acc.addr
      ])

  abbrev pub const_int_or_zero : Option Value → Option ℕ
  const_int_or_zero none = some 0
  const_int_or_zero (some v) = const_int v

  abbrev pub bounds : Option ℕ → Option ℕ → Option IndexRange
  bounds (some lo) (some hi) =
      if ltb lo hi then some (record { lo = int64 lo; hi = int64 hi }) else none
  bounds _ _ = none

  unfoldable pub const_slice_bounds : Value → Option IndexRange
  const_slice_bounds sl = elim (view sl) [
    | slice x lo hi ↦ bounds (const_int_or_zero lo) (elim hi [ none ↦ none | some v ↦ const_int v ])
    | _ ↦ none
  ]
