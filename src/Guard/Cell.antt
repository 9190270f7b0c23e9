-- ===== src/Guard/Cell.antt =====
-- `freeStandingMutexCell`: the package variable or local cell that a free-standing mutex is, also
-- through the bindings of closures.
use safetylint.Base.{
  ℕ, zero, suc, Bool, List, [], ◌∷◌, ◌++◌, Option, none, some, decides, if◌then◌else◌,
}
use safetylint.Ssa.{Program, alloc, global, free_var, make_closure}
use safetylint.Types.{is_named_sync_type}
use safetylint.Strip.{strip_to_object}

-- `var found ssa.Value`: nothing yet, one cell, or two different ones (`return nil`)
pub data Found (Value : Type 0) : Type 0 where
  unset clash : Found Value
  found : Value → Found Value

abbrev pub found_cell : {Value : Type 0} → Found Value → Option Value
found_cell (found v) = some v
found_cell _ = none

module _ (P : Program) where
  open P use {
    Value, Func, Instr, view, type_of, value_discrete, func_discrete, instr_view, blocks, instrs,
    free_vars, parent_func, nesting,
  }

  unfoldable pub is_mutex_cell : Value → Bool
  unfolding is_named_sync_type
  is_mutex_cell v = is_named_sync_type P (type_of v) ("Mutex" ∷ "RWMutex" ∷ [])

  -- one more cell that a binding leads to
  unfoldable pub join_cell : Found Value → Option Value → Found Value
  join_cell acc none = acc
  join_cell unset (some c) = found c
  join_cell clash (some c) = clash
  join_cell (found d) (some c) = if decides (value_discrete d c) then found d else clash

  module _ (resolve : Value → Option Value) (cell : Value) where
    -- `for i, bind := range mc.Bindings`, beside the closure's free variables
    unfoldable pub join_bindings : List Value → List Value → Found Value → Found Value
    unfolding join_cell strip_to_object
    join_bindings [] vars acc = acc
    join_bindings (b ∷ bs) [] acc = acc
    join_bindings (b ∷ bs) (x ∷ xs) acc = join_bindings bs xs (
        if decides (value_discrete x cell)
        then join_cell acc (resolve (strip_to_object P b))
        else acc)

    -- the closures of `parent` that the enclosing function makes
    unfoldable pub join_instrs : Func → List Instr → Found Value → Found Value
    unfolding join_bindings
    join_instrs parent [] acc = acc
    join_instrs parent (i ∷ is) acc = join_instrs parent is (elim (instr_view i) [
      | make_closure fn bindings ↦ elim fn [
        | none ↦ acc
        | some cf ↦
            if decides (func_discrete cf parent)
            then join_bindings bindings (free_vars cf) acc
            else acc
      ]
      | _ ↦ acc
    ])

  abbrev pub all_instrs : List P.Block → List Instr
  all_instrs [] = []
  all_instrs (b ∷ bs) = instrs b ++ all_instrs bs

  unfoldable pub cell_in : ℕ → Value → Option Value
  unfolding is_mutex_cell join_instrs
  cell_in zero v = none
  cell_in (suc f) v = elim (view v) [
    | global ↦ if is_mutex_cell v then some v else none
    | alloc ↦ if is_mutex_cell v then some v else none
    | free_var parent ↦
        if is_mutex_cell v
        then elim (parent_func parent) [
          | none ↦ none
          | some enc ↦ found_cell (join_instrs (cell_in f) v parent (all_instrs (blocks enc)) unset)
        ]
        else none
    | _ ↦ none
  ]

  -- A free variable is resolved in the enclosing function, so its nesting is fuel enough.
  unfoldable pub free_standing_mutex_cell : Value → Option Value
  unfolding cell_in
  free_standing_mutex_cell v = elim (view v) [
    | free_var parent ↦ cell_in (suc (suc (nesting parent))) v
    | _ ↦ cell_in 1 v
  ]
