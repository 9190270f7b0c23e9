-- ===== src/Guarded/Fields.antt =====
-- What `fieldPartitionedGuards` guarantees of the accesses to each field.
use safetylint.Base.{
  ◌≡◌, refl, arith, Bool, true, false, not, List, [], ◌∷◌, none, some, Memᴰ, any, ℕ, Option-cases,
  Bool-cases, Memᴰ-any, inl, inr,
}
use mathlib.Core.List.Memᴰ
use safetylint.Ssa.{Program, IsWellFounded}
use safetylint.MustHold.Tables.{Results}
use safetylint.Structural.{StructuralGuard, DataAccess, has_tied_mutex, find_tied_mutex}
use safetylint.Structural.Tied.{IsProtected, find_tied_mutex_sound}
use safetylint.Access.{
  Access, accesses_have_write, is_object_init_store, atomics_only_accesses, plain_write,
  field_index_of,
}
use safetylint.Partition.Disjoint.{MeetsAll}
use safetylint.Guarded.{
  field_groups, field_group_guarded, groups_guarded, field_candidates, free_standing_mutex_cells,
  free_standing_mutex_guards, field_partitioned_guards,
}
use safetylint.Guarded.Cells.{IsCellHeld, free_standing_mutex_guards_sound}
use safetylint.Guarded.Groups.{
  Groups, group_of, field_groups-group, field_groups-whole, group_of-Memᴰ,
}

module _ (P : Program) (analyse : P.Func → Results P) where
  open P use {Value, Func, Struct, map_order}

  -- Why the accesses `Q` to one object or field need no further guard.
  pub data Reason (funcs : List Func) (cands : List (StructuralGuard Struct))
      (Q : Access P → Type 0) : Type 0 where
    read_only : ((acc : Access P) → Q acc → acc.write ≡ false) → Reason funcs cands Q
    tied :
        (c : StructuralGuard Struct)
        → Memᴰ c cands
        → ((acc : Access P) → Q acc → IsProtected P analyse acc c)
        → Reason funcs cands Q
    free_standing :
        (kind : Bool) (cell : Value)
        → Memᴰ cell (free_standing_mutex_cells P funcs kind)
        → ((acc : Access P) → Q acc → IsCellHeld P analyse kind cell acc)
        → Reason funcs cands Q
    atomics : ((acc : Access P) → Q acc → plain_write P acc ≡ false) → Reason funcs cands Q

  abbrev pub OfField : List (Access P) → ℕ → Access P → Type 0
  OfField accs k acc = Memᴰ acc accs × (field_index_of P acc ≡ some k)

  not-any :
      (p : Access P → Bool) (accs : List (Access P)) (acc : Access P)
      → any p accs ≡ false
      → Memᴰ acc accs
      → p acc ≡ false
  not-any p accs acc h m = let k = Memᴰ-any p accs acc m in ground arith

  module _ (wf : IsWellFounded P) where
    pub tied-Reason :
        (funcs : List Func) (cands : List (StructuralGuard Struct)) (accs : List (Access P))
        → has_tied_mutex P analyse cands accs ≡ true
        → Reason funcs cands (λ acc. Memᴰ acc accs)
    unfolding has_tied_mutex
    tied-Reason funcs cands accs h = elim (Option-cases (find_tied_mutex P analyse cands accs)) [
      | inl e ↦ cc (rw e at h)
      | inr (c, e) ↦ let (m, k) = find_tied_mutex_sound P wf analyse cands accs c e in tied c m k
    ]

    pub cell-Reason :
        (funcs : List Func) (cands : List (StructuralGuard Struct)) (accs : List (Access P))
        (kind : Bool)
        → free_standing_mutex_guards P analyse accs funcs kind ≡ true
        → Reason funcs cands (λ acc. Memᴰ acc accs)
    cell-Reason funcs cands accs kind h =
        let (cell, m, k) = free_standing_mutex_guards_sound P analyse accs funcs kind h in
        free_standing kind cell m k

    pub atomics-Reason :
        (funcs : List Func) (cands : List (StructuralGuard Struct)) (accs : List (Access P))
        → atomics_only_accesses P accs ≡ true
        → Reason funcs cands (λ acc. Memᴰ acc accs)
    unfolding atomics_only_accesses
    atomics-Reason funcs cands accs h =
        atomics (λ acc m. not-any (plain_write P) accs acc (ground arith) m)

    group-Reason :
        (funcs : List Func) (cands : List (StructuralGuard Struct)) (accs : List (Access P))
        → field_group_guarded P analyse cands funcs accs ≡ true
        → Reason funcs cands (λ acc. Memᴰ acc accs)
    unfolding field_group_guarded accesses_have_write
    group-Reason funcs cands accs h = elim (Bool-cases (any (λ acc. DataAccess.write acc) accs)) [
      | inr e ↦ read_only (λ acc m. not-any (λ a. DataAccess.write a) accs acc e m)
      | inl w ↦ elim (Bool-cases (has_tied_mutex P analyse cands accs)) [
        | inl e ↦ tied-Reason funcs cands accs e
        | inr t ↦ elim (Bool-cases (free_standing_mutex_guards P analyse accs funcs false)) [
          | inl e ↦ cell-Reason funcs cands accs false e
          | inr f ↦ elim (Bool-cases (free_standing_mutex_guards P analyse accs funcs true)) [
            | inl e ↦ cell-Reason funcs cands accs true e
            | inr g ↦ atomics-Reason funcs cands accs (ground arith)
          ]
        ]
      ]
    ]

    -- A reason for more accesses is one for fewer.
    pub fewer :
        (funcs : List Func) (cands : List (StructuralGuard Struct)) (Q R : Access P → Type 0)
        → ((acc : Access P) → R acc → Q acc)
        → Reason funcs cands Q
        → Reason funcs cands R
    fewer funcs cands Q R h (read_only k) = read_only (λ acc r. k acc (h acc r))
    fewer funcs cands Q R h (tied c m k) = tied c m (λ acc r. k acc (h acc r))
    fewer funcs cands Q R h (free_standing kind cell m k) =
        free_standing kind cell m (λ acc r. k acc (h acc r))
    fewer funcs cands Q R h (atomics k) = atomics (λ acc r. k acc (h acc r))

    module _ (meets : MeetsAll P) where
      groups_guarded-Reason :
          (root : Value) (accs : List (Access P)) (funcs : List Func) (gs : Groups P) (k : ℕ)
          → field_groups P accs [] ≡ some gs
          → groups_guarded P analyse root accs funcs (some gs) ≡ true
          → Reason funcs (field_candidates P root accs) (OfField accs k)
      unfolding groups_guarded
      groups_guarded-Reason root accs funcs gs k e h = by_group (group_of P k gs) refl
        where
          down : (acc : Access P) → OfField accs k acc → Memᴰ acc (group_of P k gs)
          down acc m = field_groups-group P accs [] gs k acc e (inr m)

          guarded :
              (hs : Groups P) (g : List (Access P))
              → groups_guarded P analyse root accs funcs (some hs) ≡ true
              → Memᴰ {A = ℕ × List (Access P)} (k, g) hs
              → field_group_guarded P analyse (field_candidates P root accs) funcs g ≡ true
          guarded [] g q m = absurd (Memᴰ.not-nil m)
          guarded (p ∷ hs) g q m =
              let k' =
                Memᴰ-any
                  (λ z.
                    not (field_group_guarded P analyse (field_candidates P root accs) funcs z.1))
                  (map_order (ℕ × List (Access P)) (p ∷ hs)) (k, g) (meets _ _ _ m) in
              ground arith

          by_group :
              (g : List (Access P))
              → group_of P k gs ≡ g
              → Reason funcs (field_candidates P root accs) (OfField accs k)
          by_group [] q = read_only (λ acc m. absurd (Memᴰ.not-nil (rw q at (down acc m))))
          by_group (x ∷ xs) q =
              let m = group_of-Memᴰ P k gs x (rw q (Memᴰ.head refl)) in
              fewer funcs (field_candidates P root accs) (λ acc. Memᴰ acc (group_of P k gs))
                (OfField accs k) down
                (group-Reason funcs (field_candidates P root accs) (group_of P k gs)
                  (guarded gs (group_of P k gs) h m))

      -- Where fieldPartitionedGuards accepts, the accesses to each field are all reads, or all
      -- hold one of the structural guards found on their objects, or all hold one free-standing
      -- mutex, in the modes that they need, or are no plain writes beside atomic operations and
      -- set-up stores; and a write to no field is a set-up store. Operands are defined before
      -- their uses, and a loop over a Go map meets every key.
      pub field_partitioned_guards_sound :
          (root : Value) (accs : List (Access P)) (funcs : List Func)
          → field_partitioned_guards P analyse root accs funcs ≡ true
          → ((k : ℕ) → Reason funcs (field_candidates P root accs) (OfField accs k))
            × ((acc : Access P)
                → Memᴰ acc accs
                → field_index_of P acc ≡ none
                → acc.write ≡ true
                → is_object_init_store P acc ≡ true)
      unfolding field_partitioned_guards
      field_partitioned_guards_sound root [] funcs h = (
        λ k. read_only (λ acc m. absurd (Memᴰ.not-nil m.0)),
        λ acc m n w. absurd (Memᴰ.not-nil m),
      )
      field_partitioned_guards_sound root (a ∷ accs) funcs h =
          elim (Option-cases (field_groups P (a ∷ accs) [])) [
            | inl e ↦ cc (rw (e, groups_guarded) at h)
            | inr (gs, e) ↦ (
              λ k. groups_guarded-Reason root (a ∷ accs) funcs gs k e (rw e at h),
              λ acc m n w. let q = field_groups-whole P (a ∷ accs) [] gs acc e m n in ground arith,
            )
          ]
