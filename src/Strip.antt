-- ===== src/Strip.antt =====
-- Walks along address computations (internal/nosharing/mutexguard.go and fields.go). Each loop
-- `for v != nil { switch x := v.(type) … }` steps to an operand or stops; the depth of the value is
-- fuel enough, since every step goes to an operand.
pub mod Ends
pub mod Covers
use safetylint.Base.{
  ℕ, zero, suc, Bool, true, false, not, ◌&&◌, ◌||◌, Option, none, some, is_some, ◌∷◌, [], decides,
  if◌then◌else◌,
}
use safetylint.Ssa.{
  Program, Token, ValueView, mul, field_addr, index_addr, un_op, change_type, change_interface,
  make_interface, convert, slice, field,
}
use safetylint.Types.{is_named_sync_type, struct_of, type_is_indirect, is_chan_type}

-- `if x.Op == token.MUL { v = x.X; continue }; return v`
abbrev pub load_operand : {Value : Type 0} → Token → Value → Option Value
load_operand mul x = some x
load_operand _ x = none

module _ {Value Func : Type 0} where
  -- the switch of `stripToObject`
  unfoldable pub strip_next : ValueView Value Func → Option Value
  strip_next (field_addr x f) = some x
  strip_next (index_addr x i) = some x
  strip_next (un_op t x) = load_operand t x
  strip_next (change_type x) = some x
  strip_next (convert x) = some x
  strip_next (slice x lo hi) = some x
  strip_next _ = none

  -- the switch of `mutexContainer`
  unfoldable pub container_next : ValueView Value Func → Option Value
  container_next (un_op t x) = load_operand t x
  container_next (change_type x) = some x
  container_next (convert x) = some x
  container_next _ = none

  -- the switch of `peelToMutexRecv`
  unfoldable pub recv_next : ValueView Value Func → Option Value
  recv_next (un_op t x) = load_operand t x
  recv_next (change_type x) = some x
  recv_next (change_interface x) = some x
  recv_next (make_interface x) = some x
  recv_next (convert x) = some x
  recv_next _ = none

  -- what the loops of `fieldIndexOfAddr` and `fieldAddrOf` step over
  unfoldable pub to_field_next : ValueView Value Func → Option Value
  to_field_next (un_op t x) = load_operand t x
  to_field_next (index_addr x i) = some x
  to_field_next (slice x lo hi) = some x
  to_field_next _ = none

  abbrev pub field_of : ValueView Value Func → Option ℕ
  field_of (field_addr x f) = some f
  field_of _ = none

  abbrev pub is_field_addr : ValueView Value Func → Bool
  is_field_addr (field_addr x f) = true
  is_field_addr _ = false

module _ (P : Program) where
  open P use {Value, Func, view, type_of, depth, value_discrete}

  unfoldable pub walk : (ValueView Value Func → Option Value) → ℕ → Value → Value
  walk next zero v = v
  walk next (suc f) v = elim (next (view v)) [ none ↦ v | some w ↦ walk next f w ]

  unfoldable pub strip_to_object : Value → Value
  unfolding walk strip_next
  strip_to_object v = walk strip_next (depth v) v

  unfoldable pub mutex_container : Value → Value
  unfolding walk container_next
  mutex_container v = walk container_next (depth v) v

  unfoldable pub peel_to_mutex_recv : Value → Value
  unfolding walk recv_next
  peel_to_mutex_recv v = walk recv_next (depth v) v

  -- `fieldIndexOfAddr`: the innermost field of an address, if it has one
  unfoldable pub field_index_of_addr : Value → Option ℕ
  unfolding walk to_field_next
  field_index_of_addr addr = field_of (view (walk to_field_next (depth addr) addr))

  -- `fieldAddrOf`
  unfoldable pub field_addr_of : Value → Option Value
  unfolding walk to_field_next
  field_addr_of addr =
      let v = walk to_field_next (depth addr) addr in
      if is_field_addr (view v) then some v else none

  -- the loop of `baseCoversAddr`, which compares the stripped operand at each field or element
  unfoldable pub covers_from : ℕ → Value → Value → Bool
  unfolding strip_to_object
  covers_from zero base cur = decides (value_discrete (strip_to_object cur) base)
  covers_from (suc f) base cur = elim (view cur) [
    | field_addr x i ↦
        let rest = covers_from f base x in
        if decides (value_discrete (strip_to_object x) base) then true else rest
    | index_addr x i ↦
        let rest = covers_from f base x in
        if decides (value_discrete (strip_to_object x) base) then true else rest
    | un_op t x ↦ elim t [ mul ↦ covers_from f base x | _ ↦ false ]
    | _ ↦ decides (value_discrete (strip_to_object cur) base)
  ]

  unfoldable pub base_covers_addr : Value → Value → Bool
  unfolding strip_to_object covers_from
  base_covers_addr base addr =
      if decides (value_discrete (strip_to_object addr) base)
      then true
      else covers_from (depth addr) base addr

  unfoldable pub same_guard_object : Value → Value → Bool
  unfolding strip_to_object
  same_guard_object base addr =
      decides (value_discrete (strip_to_object base) (strip_to_object addr))

  unfoldable pub is_mutex_field_addr : Value → Bool
  unfolding is_named_sync_type
  is_mutex_field_addr v =
      is_field_addr (view v) && is_named_sync_type P (type_of v) ("Mutex" ∷ "RWMutex" ∷ [])

  -- `isValueCopyArg`: a field extract, or the load of a value that is no pointer, map, slice,
  -- channel or interface
  unfoldable pub is_value_copy_arg : Value → Bool
  unfolding type_is_indirect
  is_value_copy_arg v = elim (view v) [
    | field ↦ true
    | un_op t x ↦ elim t [ mul ↦ not (type_is_indirect P (type_of v)) | _ ↦ false ]
    | _ ↦ false
  ]

  unfoldable pub is_receiver_pointer_load : Value → Token → Bool
  unfolding struct_of type_is_indirect
  is_receiver_pointer_load u t = elim t [
    | mul ↦ is_some (struct_of P (type_of u)) && type_is_indirect P (type_of u)
    | _ ↦ false
  ]
