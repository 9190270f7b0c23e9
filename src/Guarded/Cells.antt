-- ===== src/Guarded/Cells.antt =====
-- What a free-standing mutex guarantees that `freeStandingMutexGuards` accepts.
use safetylint.Base.{
  ◌≡◌, arith, Bool, true, false, not, List, some, Memᴰ, any, all, Option-cases, any-Memᴰ, Memᴰ-all,
  Memᴰ-reject, inl, inr,
}
use safetylint.Ssa.{Program}
use safetylint.Hold.{get, mode_ok}
use safetylint.MustHold.Step.{key, Held}
use safetylint.MustHold.Tables.{Results}
use safetylint.Access.{Access}
use safetylint.Guarded.{
  cell_key, mode_at, is_held_at, cell_ok, free_standing_mutex_cells, free_standing_mutex_guards,
}

module _ (P : Program) (analyse : P.Func → Results P) where
  open P use {Value, Func, instr_parent}

  -- The results have a hold set for the access, with the cell in a mode that the access needs.
  pub record IsCellHeld (kind : Bool) (cell : Value) (acc : Access P) : Type 0 where
    pub parent : Func
    pub held : Held P
    pub has_parent : instr_parent acc.instr ≡ some parent
    pub has_held : analyse parent acc.instr ≡ some held
    pub is_enough : mode_ok (get (key P) held (cell_key P cell)) acc.write kind ≡ true

  no_mode : (write kind : Bool) → mode_ok 0 write kind ≡ false
  unfolding mode_ok
  no_mode write kind = ground arith

  cell_ok-IsCellHeld :
      (kind : Bool) (cell : Value) (acc : Access P)
      → cell_ok P analyse kind cell acc ≡ true
      → IsCellHeld kind cell acc
  unfolding cell_ok mode_at
  cell_ok-IsCellHeld kind cell acc h = elim (Option-cases (instr_parent acc.instr)) [
    | inl e ↦ cc (rw (e, cell_ok) at h)
    | inr (fn, e) ↦ elim (Option-cases (analyse fn acc.instr)) [
      | inl q ↦ cc (rw (e, q, cell_ok, mode_at) at h, no_mode acc.write kind)
      | inr (held, q) ↦ record {
        parent = fn;
        held = held;
        has_parent = e;
        has_held = q;
        is_enough = rw (e, q, cell_ok, mode_at) at h;
      }
    ]
  ]

  -- A free-standing mutex that is accepted is one of the candidates, and is held at every access in
  -- the mode that the access needs.
  pub free_standing_mutex_guards_sound :
      (accs : List (Access P)) (funcs : List Func) (kind : Bool)
      → free_standing_mutex_guards P analyse accs funcs kind ≡ true
      → (cell : Value) × Memᴰ cell (free_standing_mutex_cells P funcs kind)
        × ((acc : Access P) → Memᴰ acc accs → IsCellHeld kind cell acc)
  unfolding free_standing_mutex_guards
  free_standing_mutex_guards_sound accs funcs kind h =
      let (cell, m, k) = any-Memᴰ (λ cell. all (cell_ok P analyse kind cell) accs) _ h in
      (
        cell,
        ((Memᴰ-reject (λ c. not (any (is_held_at P analyse c) accs)) _ cell).0 m).0,
        λ acc n.
            cell_ok-IsCellHeld kind cell acc (Memᴰ-all (cell_ok P analyse kind cell) accs acc n k),
      )
