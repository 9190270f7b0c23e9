-- ===== src/Guarded/Cascade.antt =====
-- What stands behind an answer yes of `accessesGuarded`.
use safetylint.Base.{
  ◌≡◌, refl, arith, Bool, true, false, List, [], ◌∷◌, none, Memᴰ, Bool-cases, inl, inr, ℕ,
}
use safetylint.Ssa.{Program, IsWellFounded}
use safetylint.MustHold.Tables.{Results}
use safetylint.Structural.{structural_guards, has_tied_mutex}
use safetylint.Access.{Access, atomics_only_accesses, is_object_init_store, field_index_of}
use safetylint.Access.Drop.{prepare_guard_accesses}
use safetylint.Partition.{const_index_partition_ok, range_partition_ok}
use safetylint.Partition.Disjoint.{MeetsAll}
use safetylint.Guarded.{
  free_standing_mutex_guards, rw_mutex_guards, field_candidates, cascade, accesses_guarded,
}
use safetylint.Guarded.Fields.{
  Reason, tied-Reason, cell-Reason, atomics-Reason, field_partitioned_guards_sound, OfField,
}

module _ (P : Program) (analyse : P.Func → Results P) where
  open P use {Value, Func}

  -- One reason for all the accesses, disjoint parts, or a reason for each field.
  pub data Verdict (affine : Value → List (Access P) → Bool) (root : Value) (funcs : List Func)
      (accs : List (Access P)) : Type 0 where
    one_guard :
        (kind : Bool)
        → Reason P analyse funcs (structural_guards P root kind) (λ acc. Memᴰ acc accs)
        → Verdict affine root funcs accs
    indexes : const_index_partition_ok P root accs ≡ true → Verdict affine root funcs accs
    ranges : range_partition_ok P root accs ≡ true → Verdict affine root funcs accs
    affine_bounds : affine root accs ≡ true → Verdict affine root funcs accs
    by_fields :
        ((k : ℕ) → Reason P analyse funcs (field_candidates P root accs) (OfField P analyse accs k))
        → ((acc : Access P)
            → Memᴰ acc accs
            → field_index_of P acc ≡ none
            → acc.write ≡ true
            → is_object_init_store P acc ≡ true)
        → Verdict affine root funcs accs
    untouched : accs ≡ [] → Verdict affine root funcs accs

  module _ (wf : IsWellFounded P) (meets : MeetsAll P)
      (affine : Value → List (Access P) → Bool) where
    cascade-Verdict :
        (root : Value) (funcs : List Func) (accs : List (Access P))
        → cascade P analyse affine root accs funcs ≡ true
        → Verdict affine root funcs accs
    unfolding cascade rw_mutex_guards
    cascade-Verdict root funcs [] h = untouched refl
    cascade-Verdict root funcs (a ∷ rest) h =
        let accs = a ∷ rest in
        elim (Bool-cases (has_tied_mutex P analyse (structural_guards P root false) (a ∷ rest))) [
          | inl e ↦ one_guard false (tied-Reason P analyse wf funcs _ accs e)
          | inr n1 ↦
              elim (Bool-cases (free_standing_mutex_guards P analyse (a ∷ rest) funcs false)) [
                | inl e ↦ one_guard false (cell-Reason P analyse wf funcs _ accs false e)
                | inr n2 ↦ elim (Bool-cases (rw_mutex_guards P analyse root (a ∷ rest) funcs)) [
                  | inl e ↦ by_rw accs e
                  | inr n3 ↦ elim (Bool-cases (atomics_only_accesses P (a ∷ rest))) [
                    | inl e ↦ one_guard false (atomics-Reason P analyse wf funcs _ accs e)
                    | inr n4 ↦ elim (Bool-cases (const_index_partition_ok P root (a ∷ rest))) [
                      | inl e ↦ indexes e
                      | inr n5 ↦ elim (Bool-cases (range_partition_ok P root (a ∷ rest))) [
                        | inl e ↦ ranges e
                        | inr n6 ↦ elim (Bool-cases (affine root (a ∷ rest))) [
                          | inl e ↦ affine_bounds e
                          | inr n7 ↦
                              let (k, whole) =
                                field_partitioned_guards_sound P analyse wf meets root accs funcs
                                  (ground arith) in
                              by_fields k whole
                        ]
                      ]
                    ]
                  ]
                ]
              ]
        ]
      where
        by_rw :
            (accs : List (Access P))
            → rw_mutex_guards P analyse root accs funcs ≡ true
            → Verdict affine root funcs accs
        by_rw accs e =
            elim (Bool-cases (has_tied_mutex P analyse (structural_guards P root true) accs)) [
              | inl t ↦ one_guard true (tied-Reason P analyse wf funcs _ accs t)
              | inr t ↦ one_guard true (cell-Reason P analyse wf funcs _ accs true (ground arith))
            ]

    -- Where accessesGuarded accepts, one of these holds of the accesses that prepareGuardAccesses
    -- leaves: there are none; none is a write; one structural guard is held at each of them, on
    -- the object that it touches, in the mode that it needs; one free-standing mutex is held at
    -- each; none is a plain write beside atomic operations and set-up stores; they pass the
    -- partition by constant indexes, by ranges or by affine bounds; or such a reason other than a
    -- partition exists for each field, and no whole object is written but in set-up. Operands are
    -- defined before their uses, and a loop over a Go map meets every key.
    pub accesses_guarded_sound :
        (root : Value) (funcs : List Func) (accs : List (Access P))
        → accesses_guarded P analyse affine root accs funcs ≡ true
        → Verdict affine root funcs (prepare_guard_accesses P analyse accs)
    unfolding accesses_guarded
    accesses_guarded_sound root funcs accs h =
        cascade-Verdict root funcs (prepare_guard_accesses P analyse accs) h
