-- ===== src/Access/Kept.antt =====
-- The four passes of `prepareGuardAccesses` as one test on each access.
use safetylint.Base.{Bool, not, ◌&&◌, ◌||◌, List}
use safetylint.Ssa.{Program}
use safetylint.MustHold.Tables.{Results}
use safetylint.Access.{Access, is_object_init_store, is_chan_field_access}
use safetylint.Access.Nested.{is_nested_share_safe_access}
use safetylint.Access.Drop.{
  drop_setup_accesses, drop_nested_share_safe_accesses, has_whole_write, is_frozen_read,
}

module _ (P : Program) (analyse : P.Func → Results P) where
  -- Set-up stores, nested fields with their own guard, loads of channel fields, and, unless there is
  -- a write to a whole object, reads of fields that are not written.
  abbrev pub needs_no_guard : List (Access P) → Access P → Bool
  needs_no_guard accs acc =
      is_object_init_store P acc
      || is_nested_share_safe_access P analyse acc
      || not (has_whole_write P analyse accs) && is_frozen_read P analyse accs acc
      || not acc.write && is_chan_field_access P acc

  abbrev kept : List (Access P) → List (Access P)
  kept accs = drop_nested_share_safe_accesses P analyse (drop_setup_accesses P accs)
