-- ===== src/Strip/Covers.antt =====
-- `baseCoversAddr` walks up the parents of an address and compares the object of each. All of them
-- have the object of the address itself, so the walk adds nothing to its first test.
use safetylint.Base.{ℕ, zero, suc, ◌≡◌, ◌↔◌, refl, arith, Bool, true, some, decides, ◌∙◌}
use safetylint.Ssa.{Program, ValueView, mul, field_addr, index_addr, un_op, IsWellFounded}
use safetylint.Strip.{strip_next, strip_to_object, covers_from, base_covers_addr, same_guard_object}
use safetylint.Strip.Ends.{strip_step, strip_idem}

module _ (P : Program) (wf : IsWellFounded P) where
  open P use {Value, Func, view, depth, value_discrete}

  -- Is `base` the object of the address?
  abbrev is_object : Value → Value → Bool
  is_object base v = decides (value_discrete (strip_to_object P v) base)

  step_object :
      (base v w : Value) → strip_next (view v) ≡ some w → is_object base v ≡ is_object base w
  step_object base v w e = rw (strip_step P wf v w e)

  -- An address that the walk accepts has `base` for its object.
  covers_from_sound :
      (n : ℕ) (base v : Value) → covers_from P n base v ≡ true → is_object base v ≡ true
  unfolding covers_from
  covers_from_sound zero base v h = h
  covers_from_sound (suc n) base v h = at_view (view v) refl (λ w. covers_from_sound n base w) h
    where
      at_view :
          (u : ValueView Value Func)
          → view v ≡ u
          → ((w : Value) → covers_from P n base w ≡ true → is_object base w ≡ true)
          → covers_from P (suc n) base v ≡ true
          → is_object base v ≡ true
      at_view (field_addr x i) p ih q =
          step_object base v x (rw p (unfold strip_next in refl))
          ∙ ground (arith, ih x, rw (p, covers_from) at q)
      at_view (index_addr x i) p ih q =
          step_object base v x (rw p (unfold strip_next in refl))
          ∙ ground (arith, ih x, rw (p, covers_from) at q)
      at_view (un_op mul x) p ih q =
          step_object base v x (rw p (unfold strip_next in refl)) ∙ ih x (rw (p, covers_from) at q)
      at_view (un_op _ x) p ih q = cc (rw (p, covers_from) at q)
      at_view _ p ih q = rw (p, covers_from) at q

  -- baseCoversAddr(base, addr) holds exactly when base is the object that addr strips to, in a
  -- program whose operands are defined before their uses.
  pub base_covers_addr_iff :
      (base addr : Value) → (base_covers_addr P base addr ≡ true) ↔ (strip_to_object P addr ≡ base)
  unfolding base_covers_addr
  base_covers_addr_iff base addr =
      (λ h. ground (arith, covers_from_sound (depth addr) base addr), λ e. ground arith)

  -- A base that covers an address by baseCoversAddr also guards the same object by
  -- sameGuardObject, in a program whose operands are defined before their uses.
  pub same_guard_object_of_covers :
      (base addr : Value)
      → base_covers_addr P base addr ≡ true
      → same_guard_object P base addr ≡ true
  unfolding same_guard_object
  same_guard_object_of_covers base addr h =
      ground (arith, (base_covers_addr_iff base addr).0 h, strip_idem P wf addr)
