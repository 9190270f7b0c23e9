-- ===== src/Access/Drop.antt =====
-- The accesses that need no guard are dropped before the guards are tried
-- (internal/nosharing: fields.go and nested.go).
use safetylint.Base.{
  ℕ, Bool, true, false, not, ◌&&◌, ◌||◌, List, Option, none, some, String, str_eq, any, is_some,
  reject, has_prefix, ◌==◌, if◌then◌else◌,
}
use safetylint.Ssa.{Program}
use safetylint.MustHold.Tables.{Results}
use safetylint.Structural.{DataAccess}
use safetylint.Access.{
  Access, is_object_init_store, is_share_safe_field_store, field_index_of, is_chan_field_access,
}
use safetylint.Access.Nested.{is_nested_share_safe_access}

unfoldable pub is_init_func_name : String → Bool
is_init_func_name name = str_eq name "init" || has_prefix "init#" name

module _ (P : Program) where
  open P use {Value, Func, Instr, instr_parent, func_name}

  abbrev in_init_func : Access P → Bool
  in_init_func acc = elim (instr_parent (DataAccess.instr acc)) [
    | none ↦ false
    | some fn ↦ is_init_func_name (func_name fn)
  ]

  unfoldable pub drop_init_func_accesses : List (Access P) → List (Access P)
  unfolding is_init_func_name
  drop_init_func_accesses accs = reject in_init_func accs

  unfoldable pub drop_setup_accesses : List (Access P) → List (Access P)
  unfolding is_object_init_store
  drop_setup_accesses accs = reject (is_object_init_store P) accs

  unfoldable pub drop_chan_field_reads : List (Access P) → List (Access P)
  unfolding is_chan_field_access
  drop_chan_field_reads accs =
      reject (λ acc. not (DataAccess.write acc) && is_chan_field_access P acc) accs

  module _ (analyse : Func → Results P) where
    unfoldable pub drop_nested_share_safe_accesses : List (Access P) → List (Access P)
    unfolding is_nested_share_safe_access
    drop_nested_share_safe_accesses accs = reject (is_nested_share_safe_access P analyse) accs

    -- a write that the first loop of `dropFrozenFieldReads` counts
    unfoldable pub is_mutation : Access P → Bool
    unfolding is_object_init_store is_share_safe_field_store is_nested_share_safe_access
    is_mutation acc =
        DataAccess.write acc
        && not (
            is_object_init_store P acc
            || is_share_safe_field_store P acc
            || is_nested_share_safe_access P analyse acc)

    abbrev same_field : Option ℕ → Option ℕ → Bool
    same_field (some i) (some j) = i == j
    same_field _ _ = false

    -- `written[k]`
    unfoldable pub is_written : List (Access P) → ℕ → Bool
    unfolding is_mutation field_index_of
    is_written accs k =
        any (λ acc. is_mutation acc && same_field (field_index_of P acc) (some k)) accs

    unfoldable pub has_whole_write : List (Access P) → Bool
    unfolding is_mutation field_index_of
    has_whole_write accs = any (λ acc. is_mutation acc && not (is_some (field_index_of P acc))) accs

    -- a read that the second loop drops
    unfoldable pub is_frozen_read : List (Access P) → Access P → Bool
    unfolding is_written is_chan_field_access field_index_of
    is_frozen_read accs acc =
        if DataAccess.write acc
        then false
        else if is_chan_field_access P acc
        then true
        else elim (field_index_of P acc) [ none ↦ true | some k ↦ not (is_written accs k) ]

    unfoldable pub drop_frozen_field_reads : List (Access P) → List (Access P)
    unfolding has_whole_write is_frozen_read
    drop_frozen_field_reads accs =
        if has_whole_write accs then accs else reject (is_frozen_read accs) accs

    unfoldable pub prepare_guard_accesses : List (Access P) → List (Access P)
    unfolding drop_setup_accesses drop_nested_share_safe_accesses drop_frozen_field_reads
        drop_chan_field_reads
    prepare_guard_accesses accs =
        drop_chan_field_reads
          (drop_frozen_field_reads (drop_nested_share_safe_accesses (drop_setup_accesses accs)))
