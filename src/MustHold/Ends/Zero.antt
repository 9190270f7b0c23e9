-- ===== src/MustHold/Ends/Zero.antt =====
-- A guard that a function neither locks nor unlocks is acquired nowhere in it.
use safetylint.Base.{
  ◌≡◌, refl, arith, subst, sym, Bool, true, false, List, [], ◌∷◌, Option, none, some, Memᴰ, decides,
  inl, inr, if◌then◌else◌, Bool-cases,
}
use mathlib.Core.List.Memᴰ
use mathlib.Core.Option.{some-injective}
use safetylint.Ssa.{Program, CallCommon, InstrView, call, defer}
use safetylint.Hold.{get, put, clone_guard_set, IsWf, hold_write}
use safetylint.Hold.Laws.{get-put, get-delete_if, get-clone}
use safetylint.Guard.{GuardKey, lock_unlock_guard}
use safetylint.Guard.Method.{mutex_method_name}
use safetylint.MayUnlock.{has_body, is_sync_call, is_builtin_call}
use safetylint.Calls.{is_async_callback_callee}
use safetylint.MustHold.Step.{
  key, Held, kill_unknown_call, apply_guard_op, releases_in, apply_static_call, apply_call_hold,
  transfer_hold, run_instrs,
}
use safetylint.MustHold.Step.Keywise.{transfer_hold-Acts}
use safetylint.MustHold.Step.Modes.{apply_guard_op_modes, kill_unknown_call_modes}
use safetylint.MustHold.Tables.{add_guard, universe_from}

module _ (P : Program) (k : GuardKey P.Value) where
  open P use {Value, Func, Instr, Block, instr_view, instrs, succs, depth}

  abbrev pub IsOther : GuardKey Value → Type 0
  IsOther g = decides (key P g k) ≡ false

  abbrev pub OtherCall : CallCommon Value Func → Type 0
  OtherCall c = (g : GuardKey Value) → lock_unlock_guard P c ≡ some g → IsOther g

  abbrev pub lock_call_of : InstrView Value Func → Option (CallCommon Value Func)
  lock_call_of (call v c) = some c
  lock_call_of (defer c) = some c
  lock_call_of _ = none

  -- The instruction locks and unlocks other guards only.
  abbrev pub Untouched : Instr → Type 0
  Untouched i = (c : CallCommon Value Func) → lock_call_of (instr_view i) ≡ some c → OtherCall c

  static_zero :
      (h : Held P) (c : CallCommon Value Func) (cal : Func)
      → get (key P) h k ≡ 0
      → get (key P) (apply_static_call P h c cal) k ≡ 0
  unfolding apply_static_call
  static_zero h c cal z = elim (Bool-cases (has_body P cal)) [
    | inl body ↦
        rw (body, apply_static_call) (ground (arith, get-delete_if (key P) (releases_in P cal) h k))
    | inr none_here ↦ elim (Bool-cases (is_sync_call P cal c)) [
      | inl sync ↦ rw (none_here, sync, apply_static_call) z
      | inr other ↦ elim (Bool-cases (is_async_callback_callee P cal)) [
        | inl spawn ↦ rw (none_here, other, spawn, apply_static_call) z
        | inr unknown ↦
            rw (none_here, other, unknown, apply_static_call)
              (ground (arith, kill_unknown_call_modes P h c k))
      ]
    ]
  ]

  call_zero :
      (h : Held P) (c : CallCommon Value Func) (d : Bool)
      → OtherCall c
      → get (key P) h k ≡ 0
      → get (key P) (apply_call_hold P h c d) k ≡ 0
  unfolding apply_call_hold
  call_zero h c d other z = by_guard (lock_unlock_guard P c) other
    where
      by_callee :
          (o : Option Func)
          → get
              (key P)
              (elim o [ some cal ↦ apply_static_call P h c cal | none ↦ kill_unknown_call P h c ])
              k
            ≡ 0
      by_callee (some cal) = static_zero h c cal z
      by_callee none = ground (arith, kill_unknown_call_modes P h c k)

      by_tests :
          (d b : Bool) (x : Held P)
          → get (key P) x k ≡ 0
          → get (key P) (if d then h else if b then h else x) k ≡ 0
      by_tests true b x e = z
      by_tests false true x e = z
      by_tests false false x e = e

      by_guard :
          (o : Option (GuardKey Value))
          → ((g : GuardKey Value) → o ≡ some g → IsOther g)
          → get
              (key P)
              (elim o [
                | some g ↦ apply_guard_op P h g (mutex_method_name P c) d
                | none ↦ if d then h else if is_builtin_call P c then h else elim c.static_callee [
                  | some cal ↦ apply_static_call P h c cal
                  | none ↦ kill_unknown_call P h c
                ]
              ])
              k
            ≡ 0
      by_guard (some g) q =
          ground (arith, apply_guard_op_modes P h g k (mutex_method_name P c) d, q g refl)
      by_guard none q = by_tests d (is_builtin_call P c) _ (by_callee c.static_callee)

  transfer_zero :
      (h : Held P) (i : Instr)
      → Untouched i
      → IsWf (key P) h
      → get (key P) h k ≡ 0
      → get (key P) (transfer_hold P h i) k ≡ 0
  unfolding transfer_hold
  transfer_zero h i u w z = by_view (instr_view i) u
    where
      cloned : get (key P) (clone_guard_set (key P) h) k ≡ 0
      cloned = omega (arith, get-clone (key P) h k w)

      by_view :
          (v : InstrView Value Func)
          → ((c : CallCommon Value Func) → lock_call_of v ≡ some c → OtherCall c)
          → get
              (key P)
              (elim v [
                | call x c ↦ apply_call_hold P (clone_guard_set (key P) h) c false
                | defer c ↦ apply_call_hold P (clone_guard_set (key P) h) c true
                | _ ↦ clone_guard_set (key P) h
              ])
              k
            ≡ 0
      by_view (call x c) q = call_zero (clone_guard_set (key P) h) c false (q c refl) cloned
      by_view (defer c) q = call_zero (clone_guard_set (key P) h) c true (q c refl) cloned
      by_view _ q = cloned

  pub run_instrs_zero :
      (is : List Instr) (h : Held P)
      → ((i : Instr) → Memᴰ i is → Untouched i)
      → IsWf (key P) h
      → get (key P) h k ≡ 0
      → get (key P) (run_instrs P is h) k ≡ 0
  unfolding run_instrs
  run_instrs_zero [] h u w z = z
  run_instrs_zero (i ∷ is) h u w z =
      run_instrs_zero is (transfer_hold P h i) (λ j m. u j (Memᴰ.tail m))
        ((transfer_hold-Acts P i).keeps h w) (transfer_zero h i (u i (Memᴰ.head refl)) w z)

  -- A guard outside the map of all guards is touched by no instruction.
  pub universe_zero :
      (is : List Instr) (u : Held P)
      → get (key P) (universe_from P is u) k ≡ 0
      → (get (key P) u k ≡ 0) × ((i : Instr) → Memᴰ i is → Untouched i)
  unfolding universe_from add_guard
  universe_zero [] u z = (z, λ i m. absurd (Memᴰ.not-nil m))
  universe_zero (i ∷ is) u z =
      let (here, later) = universe_zero is _ z in
      let (before, this) = by_view (instr_view i) here in
      (
        before,
        λ j m. elim (Memᴰ.cases_cons m) [
          | inl e ↦ subst Untouched (sym e) this
          | inr n ↦ later j n
        ],
      )
    where
      by_guard :
          (o : Option (GuardKey Value))
          → get (key P) (elim o [ none ↦ u | some g ↦ put (key P) u g hold_write ]) k ≡ 0
          → (get (key P) u k ≡ 0) × ((g : GuardKey Value) → o ≡ some g → IsOther g)
      by_guard none e = (e, λ g q. cc)
      by_guard (some g) e =
          let law = get-put (key P) u g k hold_write in
          let other : IsOther g = ground arith in
          (ground arith, λ g' q. subst IsOther (some-injective _ _ q) other)

      by_view :
          (v : InstrView Value Func)
          → get
              (key P)
              (elim v [ call x c ↦ add_guard P u c | defer c ↦ add_guard P u c | _ ↦ u ])
              k
            ≡ 0
          → (get (key P) u k ≡ 0)
            × ((c : CallCommon Value Func) → lock_call_of v ≡ some c → OtherCall c)
      by_view (call x c) e =
          let (b, o) = by_guard (lock_unlock_guard P c) e in
          (b, λ c' q. subst OtherCall (some-injective _ _ q) o)
      by_view (defer c) e =
          let (b, o) = by_guard (lock_unlock_guard P c) e in
          (b, λ c' q. subst OtherCall (some-injective _ _ q) o)
      by_view _ e = (e, λ c q. cc)
