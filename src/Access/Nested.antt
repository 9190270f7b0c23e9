-- ===== src/Access/Nested.antt =====
-- Accesses to a nested field that has its own synchronization (internal/nosharing/nested.go).
use safetylint.Base.{
  ℕ, zero, suc, Bool, true, false, not, ◌&&◌, ◌||◌, [], ◌∷◌, Option, none, some, one_of, any,
  is_some, decides, if◌then◌else◌,
}
use safetylint.Ssa.{
  Program, StructField, TyView, mul, store, field_addr, index_addr, un_op, slice, named,
}
use safetylint.Types.{pointee_type, is_named_sync_type, is_chan_type, type_is_indirect, struct_of}
use safetylint.Strip.{field_addr_of}
use safetylint.MustHold.Tables.{Results}
use safetylint.Structural.{structural_guards, has_tied_mutex}
use safetylint.Access.{Access}

module _ (P : Program) where
  open P use {
    Ty, Struct, Value, Func, Instr, view, instr_view, type_of, ty_view, fields, method_names, depth,
    value_discrete,
  }

  -- the address of a field that is a struct and no pointer
  unfoldable pub is_nested_value : Value → Bool
  unfolding struct_of type_is_indirect pointee_type
  is_nested_value v =
      is_some (struct_of P (type_of v)) && not (type_is_indirect P (pointee_type P (type_of v)))

  -- the loop of `nestedValueFieldAddr`; the last field met is the outermost
  unfoldable pub nested_from : ℕ → Option Value → Value → Option Value
  unfolding is_nested_value
  nested_from zero nest cur = nest
  nested_from (suc f) nest cur = elim (view cur) [
    | field_addr x i ↦ nested_from f (if is_nested_value cur then some cur else nest) x
    | un_op t x ↦ elim t [ mul ↦ nested_from f nest x | _ ↦ nest ]
    | index_addr x i ↦ nested_from f nest x
    | slice x lo hi ↦ nested_from f nest x
    | _ ↦ nest
  ]

  unfoldable pub nested_value_field_addr : Value → Option Value
  unfolding nested_from
  nested_value_field_addr addr = nested_from (suc (depth addr)) none addr

  abbrev pub is_value : Value → Option Value → Bool
  is_value v none = false
  is_value v (some w) = decides (value_discrete w v)

  unfoldable pub is_whole_nested_field_store : Access P → Value → Bool
  unfolding field_addr_of
  is_whole_nested_field_store acc nest = elim (instr_view acc.instr) [
    | store addr val ↦ is_value nest (some addr) || is_value nest (field_addr_of P addr)
    | _ ↦ false
  ]

  abbrev is_mu_field : StructField Ty → Bool
  is_mu_field f =
      is_named_sync_type P (StructField.ty f) ("Mutex" ∷ [])
      && one_of (StructField.name f) ("mu" ∷ "Mu" ∷ [])

  abbrev is_done_field : StructField Ty → Bool
  is_done_field f =
      is_chan_type P (StructField.ty f) && one_of (StructField.name f) ("done" ∷ "Done" ∷ [])

  abbrev is_named : TyView Ty Struct → Bool
  is_named (named p n) = true
  is_named _ = false

  -- methods Set and Val, and fields mu and done
  unfoldable pub is_promise_shape : Ty → Bool
  unfolding pointee_type struct_of is_named_sync_type is_chan_type
  is_promise_shape t =
      if is_named (ty_view (pointee_type P t))
      then elim (struct_of P (pointee_type P t)) [
        | none ↦ false
        | some st ↦
            any is_mu_field (fields st)
            && any is_done_field (fields st)
            && any (λ m. one_of m ("Set" ∷ [])) (method_names (pointee_type P t))
            && any (λ m. one_of m ("Val" ∷ [])) (method_names (pointee_type P t))
      ]
      else false

  module _ (analyse : Func → Results P) where
    unfoldable pub is_nested_share_safe_access : Access P → Bool
    unfolding nested_value_field_addr is_whole_nested_field_store is_promise_shape pointee_type
        structural_guards has_tied_mutex
    is_nested_share_safe_access acc = elim (nested_value_field_addr acc.addr) [
      | none ↦ false
      | some nest ↦
          if is_whole_nested_field_store acc nest
          then false
          else if is_promise_shape (pointee_type P (type_of nest))
          then true
          else has_tied_mutex P analyse (structural_guards P nest false) (acc ∷ [])
    ]
