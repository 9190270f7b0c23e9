-- ===== src/Guarded.antt =====
-- Is every access to an object protected? Free-standing mutexes, and one mutex for each field
-- (internal/nosharing: objectguard.go and fields.go).
pub mod Cells
pub mod Groups
pub mod Fields
pub mod Cascade
pub mod Exclude
use safetylint.Base.{
  ℕ, zero, suc, Bool, true, false, not, ◌&&◌, ◌||◌, List, [], ◌∷◌, ◌++◌, Option, none, some, any,
  all, reject, decides, if◌then◌else◌, ◌==◌,
}
use safetylint.Ssa.{Program, alloc_cell}
use safetylint.Types.{is_named_sync_type}
use safetylint.Hold.{get, mode_ok}
use safetylint.Strip.{strip_to_object}
use safetylint.Guard.{GuardKey}
use safetylint.MustHold.Step.{key}
use safetylint.MustHold.Tables.{Results}
use safetylint.Structural.{StructuralGuard, DataAccess, same_key, structural_guards, has_tied_mutex}
use safetylint.Access.{
  Access, accesses_have_write, is_object_init_store, only_setup_writes, atomics_only_accesses,
  field_index_of,
}
use safetylint.Access.Drop.{prepare_guard_accesses}
use safetylint.Partition.{const_index_partition_ok, range_partition_ok}

module _ (P : Program) where
  open P use {
    Value, Func, Instr, Block, Struct, Pkg, value_discrete, instr_view, instr_parent, instrs,
    blocks, type_of, func_pkg, member_globals, map_order,
  }

  abbrev pub value_in : Value → List Value → Bool
  value_in v xs = any (λ w. decides (value_discrete w v)) xs

  -- the closure `add` of `freeStandingMutexCells`
  unfoldable pub add_cell : Bool → Value → List Value → List Value
  unfolding is_named_sync_type
  add_cell rw v out =
      if value_in v out
      then out
      else if is_named_sync_type P (type_of v) ((if rw then "RWMutex" else "Mutex") ∷ [])
      then out ++ v ∷ []
      else out

  unfoldable pub add_cells : Bool → List Value → List Value → List Value
  unfolding add_cell
  add_cells rw [] out = out
  add_cells rw (v ∷ vs) out = add_cells rw vs (add_cell rw v out)

  unfoldable pub add_allocs : Bool → List Instr → List Value → List Value
  unfolding add_cell
  add_allocs rw [] out = out
  add_allocs rw (i ∷ is) out =
      add_allocs rw is (elim (instr_view i) [ alloc_cell v ↦ add_cell rw v out | _ ↦ out ])

  unfoldable pub add_block_allocs : Bool → List Block → List Value → List Value
  unfolding add_allocs
  add_block_allocs rw [] out = out
  add_block_allocs rw (b ∷ bs) out = add_block_allocs rw bs (add_allocs rw (instrs b) out)

  unfoldable pub func_globals : Func → List Value
  func_globals fn = elim (func_pkg fn) [
    | none ↦ []
    | some pkg ↦ map_order Value (member_globals pkg)
  ]

  unfoldable pub add_func_cells : Bool → List Func → List Value → List Value
  unfolding add_cells add_block_allocs func_globals
  add_func_cells rw [] out = out
  add_func_cells rw (fn ∷ fns) out =
      add_func_cells rw fns (add_block_allocs rw (blocks fn) (add_cells rw (func_globals fn) out))

  unfoldable pub free_standing_mutex_cells : List Func → Bool → List Value
  unfolding add_func_cells
  free_standing_mutex_cells funcs rw = add_func_cells rw (map_order Func funcs) []

  -- `guardKey{base: cell, field: -1}`
  abbrev pub cell_key : Value → GuardKey Value
  cell_key cell = record { base = cell; field = none }

  -- one more candidate of `fieldPartitionedGuards`
  unfoldable pub add_candidates :
      List (StructuralGuard Struct) → List (StructuralGuard Struct) → List (StructuralGuard Struct)
  unfolding same_key
  add_candidates [] out = out
  add_candidates (c ∷ cs) out = add_candidates cs (
      if any
        (λ g.
          same_key P (StructuralGuard.struct_type g) (StructuralGuard.field g)
            (StructuralGuard.struct_type c) (StructuralGuard.field c))
        out
      then out
      else out ++ c ∷ [])

  -- the loop of `dataAccessRoots`
  unfoldable pub roots_from : List (Access P) → List Value → List Value
  unfolding strip_to_object
  roots_from [] out = out
  roots_from (acc ∷ accs) out =
      let o = strip_to_object P acc.addr in
      roots_from accs (if value_in o out then out else out ++ o ∷ [])

  unfoldable pub data_access_roots : List (Access P) → Value → List Value
  unfolding roots_from
  data_access_roots accs root = roots_from accs (root ∷ [])

  unfoldable pub add_root_candidates :
      List Value → List (StructuralGuard Struct) → List (StructuralGuard Struct)
  unfolding add_candidates structural_guards
  add_root_candidates [] out = out
  add_root_candidates (r ∷ rs) out = add_root_candidates rs (
      add_candidates (structural_guards P r true)
        (add_candidates (structural_guards P r false) out))

  -- the guards of the root, then those of every object that the accesses touch
  unfoldable pub field_candidates : Value → List (Access P) → List (StructuralGuard Struct)
  unfolding add_root_candidates data_access_roots
  field_candidates root accs = add_root_candidates (root ∷ data_access_roots accs root) []

  -- `groups[k] = append(groups[k], acc)`
  unfoldable pub put_group : ℕ → Access P → List (ℕ × List (Access P)) → List (ℕ × List (Access P))
  put_group k acc [] = (k, acc ∷ []) ∷ []
  put_group k acc ((j, accs) ∷ rest) =
      if j == k then (j, accs ++ acc ∷ []) ∷ rest else (j, accs) ∷ put_group k acc rest

  -- the accesses of every field; `none` where a whole object is written
  unfoldable pub field_groups :
      List (Access P) → List (ℕ × List (Access P)) → Option (List (ℕ × List (Access P)))
  unfolding put_group field_index_of is_object_init_store
  field_groups [] groups = some groups
  field_groups (acc ∷ rest) groups = elim (field_index_of P acc) [
    | some k ↦ field_groups rest (put_group k acc groups)
    | none ↦
        if acc.write && not (is_object_init_store P acc) then none else field_groups rest groups
  ]

  module _ (analyse : Func → Results P) where
    -- `held[acc.instr][key]` in the results of a function
    unfoldable pub mode_at : Func → Instr → Value → ℕ
    unfolding get
    mode_at fn i cell = elim (analyse fn i) [
      | none ↦ 0
      | some held ↦ get (key P) held (cell_key cell)
    ]

    -- the cell is held at the access, in any mode
    unfoldable pub is_held_at : Value → Access P → Bool
    unfolding mode_at
    is_held_at cell acc = elim (instr_parent acc.instr) [
      | none ↦ false
      | some fn ↦ not (mode_at fn acc.instr cell == 0)
    ]

    -- the cell is held at the access, in the mode that it needs
    unfoldable pub cell_ok : Bool → Value → Access P → Bool
    unfolding mode_at mode_ok
    cell_ok rw cell acc = elim (instr_parent acc.instr) [
      | none ↦ false
      | some fn ↦ mode_ok (mode_at fn acc.instr cell) acc.write rw
    ]

    unfoldable pub free_standing_mutex_guards : List (Access P) → List Func → Bool → Bool
    unfolding free_standing_mutex_cells is_held_at cell_ok
    free_standing_mutex_guards accs funcs rw =
        any (λ cell. all (cell_ok rw cell) accs)
          (reject (λ cell. not (any (is_held_at cell) accs)) (free_standing_mutex_cells funcs rw))

    unfoldable pub rw_mutex_guards : Value → List (Access P) → List Func → Bool
    unfolding structural_guards has_tied_mutex free_standing_mutex_guards
    rw_mutex_guards root accs funcs =
        has_tied_mutex P analyse (structural_guards P root true) accs
        || free_standing_mutex_guards accs funcs true

    unfoldable pub field_group_guarded :
        List (StructuralGuard Struct) → List Func → List (Access P) → Bool
    unfolding accesses_have_write has_tied_mutex free_standing_mutex_guards atomics_only_accesses
    field_group_guarded cands funcs group =
        not (accesses_have_write P group)
        || has_tied_mutex P analyse cands group
        || free_standing_mutex_guards group funcs false
        || free_standing_mutex_guards group funcs true
        || atomics_only_accesses P group

    -- what follows the grouping in `fieldPartitionedGuards`
    unfoldable pub groups_guarded :
        Value → List (Access P) → List Func → Option (List (ℕ × List (Access P))) → Bool
    unfolding accesses_have_write only_setup_writes field_candidates field_group_guarded
    groups_guarded root accs funcs none = false
    groups_guarded root accs funcs (some []) =
        not (accesses_have_write P accs) || only_setup_writes P accs
    groups_guarded root accs funcs (some (g ∷ gs)) = not (
        any (λ p. not (field_group_guarded (field_candidates root accs) funcs p.1))
          (map_order (ℕ × List (Access P)) (g ∷ gs)))

    unfoldable pub field_partitioned_guards : Value → List (Access P) → List Func → Bool
    unfolding groups_guarded field_groups
    field_partitioned_guards root [] funcs = true
    field_partitioned_guards root (acc ∷ accs) funcs =
        groups_guarded root (acc ∷ accs) funcs (field_groups (acc ∷ accs) [])

    -- `affine` is `affineRangePartitionOK`
    module _ (affine : Value → List (Access P) → Bool) where
      -- the cascade of `accessesGuarded` on the accesses that are left
      unfoldable pub cascade : Value → List (Access P) → List Func → Bool
      unfolding structural_guards has_tied_mutex free_standing_mutex_guards rw_mutex_guards
          atomics_only_accesses const_index_partition_ok range_partition_ok field_partitioned_guards
      cascade root [] funcs = true
      cascade root (acc ∷ rest) funcs =
          has_tied_mutex P analyse (structural_guards P root false) (acc ∷ rest)
          || free_standing_mutex_guards (acc ∷ rest) funcs false
          || rw_mutex_guards root (acc ∷ rest) funcs
          || atomics_only_accesses P (acc ∷ rest)
          || const_index_partition_ok P root (acc ∷ rest)
          || range_partition_ok P root (acc ∷ rest)
          || affine root (acc ∷ rest)
          || field_partitioned_guards root (acc ∷ rest) funcs

      unfoldable pub accesses_guarded : Value → List (Access P) → List Func → Bool
      unfolding cascade prepare_guard_accesses
      accesses_guarded root accs funcs = cascade root (prepare_guard_accesses P analyse accs) funcs
