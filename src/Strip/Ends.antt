-- ===== src/Strip/Ends.antt =====
-- The walks end where their loops return: no further step is possible there, and more fuel than the
-- depth of the value changes nothing.
use safetylint.Base.{
  ℕ, zero, suc, ◌≤◌, ◌<◌, ◌≡◌, refl, arith, Option, none, some, Option-cases, inl, inr, sym, ap,
  ◌∙◌,
}
use safetylint.Ssa.{
  Program, Token, ValueView, mul, field_addr, index_addr, un_op, change_type, change_interface,
  make_interface, convert, slice, operand, IsWellFounded,
}
use safetylint.Strip.{
  load_operand, strip_next, container_next, recv_next, to_field_next, walk, strip_to_object,
}

-- A switch that steps to the operand or stops.
abbrev pub Follows : {Value Func : Type 0} → (ValueView Value Func → Option Value) → Type 0
Follows {Value} {Func} next =
    (u : ValueView Value Func) (w : Value) → next u ≡ some w → operand u ≡ some w

load_follows : {Value : Type 0} (t : Token) (x w : Value) → load_operand t x ≡ some w → x ≡ w
load_follows mul x w h = cc
load_follows _ x w h = cc

module _ {Value Func : Type 0} where
  pub strip-Follows : Follows (strip_next {Value = Value} {Func = Func})
  unfolding strip_next
  strip-Follows (field_addr x f) w h = h
  strip-Follows (un_op t x) w h = ap some (load_follows t x w h)
  strip-Follows (index_addr x i) w h = h
  strip-Follows (change_type x) w h = h
  strip-Follows (convert x) w h = h
  strip-Follows (slice x lo hi) w h = h
  strip-Follows _ w h = cc

  pub container-Follows : Follows (container_next {Value = Value} {Func = Func})
  unfolding container_next
  container-Follows (un_op t x) w h = ap some (load_follows t x w h)
  container-Follows (change_type x) w h = h
  container-Follows (convert x) w h = h
  container-Follows _ w h = cc

  pub recv-Follows : Follows (recv_next {Value = Value} {Func = Func})
  unfolding recv_next
  recv-Follows (un_op t x) w h = ap some (load_follows t x w h)
  recv-Follows (change_type x) w h = h
  recv-Follows (change_interface x) w h = h
  recv-Follows (make_interface x) w h = h
  recv-Follows (convert x) w h = h
  recv-Follows _ w h = cc

  pub to_field-Follows : Follows (to_field_next {Value = Value} {Func = Func})
  unfolding to_field_next
  to_field-Follows (un_op t x) w h = ap some (load_follows t x w h)
  to_field-Follows (index_addr x i) w h = h
  to_field-Follows (slice x lo hi) w h = h
  to_field-Follows _ w h = cc

module _ (P : Program) (wf : IsWellFounded P) where
  open P use {Value, Func, view, depth}

  step_down :
      (next : ValueView Value Func → Option Value) (v w : Value)
      → Follows next
      → next (view v) ≡ some w
      → depth w < depth v
  step_down next v w follows e = wf.operand_lt v w (follows (view v) w e)

  pub walk_ends :
      (next : ValueView Value Func → Option Value)
      → Follows next
      → (n : ℕ) (v : Value) → depth v ≤ n
      → next (view (walk P next n v)) ≡ none
  unfolding walk
  walk_ends next follows zero v h = elim (Option-cases (next (view v))) [
    | inl stop ↦ stop
    | inr (w, e) ↦ absurd (omega (arith, step_down next v w follows e))
  ]
  walk_ends next follows (suc n) v h = elim (Option-cases (next (view v))) [
    | inl stop ↦ rw (stop, walk) stop
    | inr (w, e) ↦
        rw (e, walk) (walk_ends next follows n w (omega (arith, step_down next v w follows e)))
  ]

  -- Where no step is possible the walk stays.
  pub walk_stays :
      (next : ValueView Value Func → Option Value) (n : ℕ) (v : Value)
      → next (view v) ≡ none
      → walk P next n v ≡ v
  unfolding walk
  walk_stays next zero v h = refl
  walk_stays next (suc n) v h = rw (h, walk)

  walk_step :
      (next : ValueView Value Func → Option Value) (n : ℕ) (v w : Value)
      → next (view v) ≡ some w
      → walk P next (suc n) v ≡ walk P next n w
  unfolding walk
  walk_step next n v w h = rw (h, walk)

  pub walk_fuel :
      (next : ValueView Value Func → Option Value)
      → Follows next
      → (m n : ℕ) (v : Value) → depth v ≤ m
      → depth v ≤ n
      → walk P next m v ≡ walk P next n v
  unfolding walk
  walk_fuel next follows zero n v hm hn = elim (Option-cases (next (view v))) [
    | inl stop ↦ sym (walk_stays next n v stop)
    | inr (w, e) ↦ absurd (omega (arith, step_down next v w follows e))
  ]
  walk_fuel next follows (suc m) zero v hm hn = elim (Option-cases (next (view v))) [
    | inl stop ↦ walk_stays next (suc m) v stop
    | inr (w, e) ↦ absurd (omega (arith, step_down next v w follows e))
  ]
  walk_fuel next follows (suc m) (suc n) v hm hn = elim (Option-cases (next (view v))) [
    | inl stop ↦ walk_stays next (suc m) v stop ∙ sym (walk_stays next (suc n) v stop)
    | inr (w, e) ↦
        walk_step next m v w e
        ∙ walk_fuel next follows m n w (omega (arith, step_down next v w follows e))
            (omega (arith, step_down next v w follows e))
        ∙ sym (walk_step next n v w e)
  ]

  -- stripToObject ends at a value that its switch returns, and more fuel makes no difference, in a
  -- program whose operands are defined before their uses.
  pub strip_to_object_ends :
      (v : Value)
      → (strip_next (view (strip_to_object P v)) ≡ none)
        × ((n : ℕ) → depth v ≤ n → walk P strip_next n v ≡ strip_to_object P v)
  unfolding strip_to_object
  strip_to_object_ends v = (
    walk_ends strip_next strip-Follows (depth v) v (omega arith),
    λ n h. walk_fuel strip_next strip-Follows n (depth v) v h (omega arith),
  )

  pub strip_idem : (v : Value) → strip_to_object P (strip_to_object P v) ≡ strip_to_object P v
  strip_idem v = strip_stays (strip_to_object P v) (strip_to_object_ends v).0
    where
      strip_stays : (w : Value) → strip_next (view w) ≡ none → strip_to_object P w ≡ w
      strip_stays w h = unfold strip_to_object in walk_stays strip_next (depth w) w h

  -- A step of the walk keeps the object.
  pub strip_step :
      (v w : Value) → strip_next (view v) ≡ some w → strip_to_object P v ≡ strip_to_object P w
  unfolding strip_to_object
  strip_step v w e =
      walk_fuel strip_next strip-Follows (depth v) (suc (depth v)) v (omega arith) (omega arith)
      ∙ walk_step strip_next (depth v) v w e
      ∙ walk_fuel strip_next strip-Follows (depth v) (depth w) w
          (omega (arith, step_down strip_next v w strip-Follows e)) (omega arith)
