-- ===== src/MayUnlock/Sound.antt =====
-- Where calleeMayUnlock says no, no function that the callee reaches has a call that may release the
-- guard.
use safetylint.Base.{
  suc, ◌≡◌, refl, sym, ap, subst, arith, Bool, true, false, not, ◌&&◌, ◌||◌, List, [], ◌∷◌, Option,
  none, some, Memᴰ, Bool-cases, inl, inr, if◌then◌else◌, any, length, one_of, String, is_some,
}
use mathlib.Core.Option.{some-injective}
use safetylint.Ssa.{Program, CallCommon, is_invoke}
use safetylint.Calls.{call_common_of, is_async_callback_callee}
use safetylint.Guard.{GuardKey, lock_unlock_guard}
use safetylint.Guard.Method.{mutex_method_name}
use safetylint.MayUnlock.{
  keeps, visited_has, harmless, releasing, enters, static_sort, call_sort, callee_may_unlock,
  is_builtin_call, guard_call_unlocks, releases_guard, has_body, is_sync_call, arg_escapes,
}
use safetylint.MayUnlock.Grown.{In, Calm, CalmBlocks, may_unlock_from-Grown}

-- A function leads to the functions with a body that it calls by name, or by a goroutine or when
-- it returns, but for the functions that only start a callback; a lock operation is no such call.
pub data Reaches (P : Program) (fn : P.Func) : P.Func → Type 0 where
  here : Reaches P fn fn
  next :
      {f : P.Func} (cal : P.Func) (b : P.Block) (i : P.Instr) (c : CallCommon P.Value P.Func)
      → Reaches P fn f
      → Memᴰ b (P.blocks f)
      → Memᴰ i (P.instrs b)
      → call_common_of (P.instr_view i) ≡ some c
      → is_builtin_call P c ≡ false
      → lock_unlock_guard P c ≡ none
      → is_invoke c ≡ false
      → c.static_callee ≡ some cal
      → is_async_callback_callee P cal ≡ false
      → has_body P cal ≡ true
      → Reaches P fn cal

-- Why a call releases no guard of its own: it calls a builtin function; it is a lock operation on a
-- guard that is known, but no unlock of this one; or it calls a function by name that starts a callback, has a body, is an
-- operation of package sync, or is not given the base of the guard.
pub data ReleasesNothing (P : Program) (g : GuardKey P.Value) (c : CallCommon P.Value P.Func)
    : Type 0 where
  builtin : is_builtin_call P c ≡ true → ReleasesNothing P g c
  other_guard :
      (u : GuardKey P.Value)
      → lock_unlock_guard P c ≡ some u
      → one_of (mutex_method_name P c) ("Unlock" ∷ "RUnlock" ∷ []) && releases_guard P u g ≡ false
      → ReleasesNothing P g c
  by_name :
      (cal : P.Func)
      → lock_unlock_guard P c ≡ none
      → is_invoke c ≡ false
      → c.static_callee ≡ some cal
      → is_async_callback_callee P cal
          || has_body P cal
          || is_sync_call P cal c
          || not (any (arg_escapes P g) c.args)
        ≡ true
      → ReleasesNothing P g c

module _ (P : Program) (g : GuardKey P.Value) where
  open P use {Value, Func, Instr, Block, instr_view, instrs, blocks}

  static_sort-body :
      (c : CallCommon Value Func) (cal : Func)
      → is_async_callback_callee P cal ≡ false
      → has_body P cal ≡ true
      → static_sort P g c cal ≡ enters cal
  unfolding static_sort
  static_sort-body c cal a h = rw (a, h) refl

  entering :
      (c : CallCommon Value Func) (cal : Func)
      → is_builtin_call P c ≡ false
      → lock_unlock_guard P c ≡ none
      → is_invoke c ≡ false
      → c.static_callee ≡ some cal
      → is_async_callback_callee P cal ≡ false
      → has_body P cal ≡ true
      → call_sort P g c ≡ enters cal
  unfolding call_sort
  entering c cal b l i s a h =
      by_tests (is_builtin_call P c) (is_some (lock_unlock_guard P c))
        (guard_call_unlocks P g (mutex_method_name P c) (lock_unlock_guard P c)) (is_invoke c)
        c.static_callee b (ap is_some l) i s
    where
      by_tests :
          (b s u i : Bool) (o : Option Func)
          → b ≡ false
          → s ≡ false
          → i ≡ false
          → o ≡ some cal
          → (if b
              then harmless
              else if s
              then (if u then releasing else harmless)
              else if i
              then releasing
              else elim o [ none ↦ releasing | some k ↦ static_sort P g c k ])
            ≡ enters cal
      by_tests true s u i o p q r v = cc
      by_tests false true u i o p q r v = cc
      by_tests false false u true o p q r v = cc
      by_tests false false u false none p q r v = cc
      by_tests false false u false (some k) p q r v =
          subst (λ x. static_sort P g c x ≡ enters cal) (sym (some-injective _ _ v))
            (static_sort-body c cal a h)

  static-Calm :
      (c : CallCommon Value Func) (ws : List Func) (cal : Func)
      → Calm P g ws (static_sort P g c cal)
      → is_async_callback_callee P cal
          || has_body P cal
          || is_sync_call P cal c
          || not (any (arg_escapes P g) c.args)
        ≡ true
  unfolding static_sort
  static-Calm c ws cal h = elim (Bool-cases (is_async_callback_callee P cal)) [
    | inl a ↦ rw a refl
    | inr a ↦ elim (Bool-cases (has_body P cal)) [
      | inl b ↦ rw (a, b) refl
      | inr b ↦ elim (Bool-cases (is_sync_call P cal c)) [
        | inl s ↦ rw (a, b, s) refl
        | inr s ↦ elim (Bool-cases (any (arg_escapes P g) c.args)) [
          | inl e ↦ absurd (rw (a, b, s, e) at h)
          | inr e ↦ rw (a, b, s, e) refl
        ]
      ]
    ]
  ]

  not_unlocked :
      (name : String) (u : GuardKey Value)
      → guard_call_unlocks P g name (some u) ≡ false
      → one_of name ("Unlock" ∷ "RUnlock" ∷ []) && releases_guard P u g ≡ false
  unfolding guard_call_unlocks
  not_unlocked name u h = ground arith

  Calm-ReleasesNothing :
      (c : CallCommon Value Func) (ws : List Func)
      → Calm P g ws (call_sort P g c)
      → ReleasesNothing P g c
  unfolding call_sort
  Calm-ReleasesNothing c ws h =
      by_tests (is_builtin_call P c) refl (lock_unlock_guard P c) refl (is_invoke c) refl
        c.static_callee refl h
    where
      by_lock :
          (u : GuardKey Value)
          → lock_unlock_guard P c ≡ some u
          → (k : Bool) → guard_call_unlocks P g (mutex_method_name P c) (some u) ≡ k
          → Calm P g ws (if k then releasing else harmless)
          → ReleasesNothing P g c
      by_lock u l true k m = absurd m
      by_lock u l false k m = other_guard u l (not_unlocked (mutex_method_name P c) u k)

      by_tests :
          (b : Bool)
          → is_builtin_call P c ≡ b
          → (o : Option (GuardKey Value)) → lock_unlock_guard P c ≡ o
          → (i : Bool) → is_invoke c ≡ i
          → (s : Option Func) → c.static_callee ≡ s
          → Calm P g ws (
              if b
              then harmless
              else if is_some o
              then (if guard_call_unlocks P g (mutex_method_name P c) o
                  then releasing
                  else harmless)
              else if i
              then releasing
              else elim s [ none ↦ releasing | some k ↦ static_sort P g c k ])
          → ReleasesNothing P g c
      by_tests true e o l i v s q m = builtin e
      by_tests false e (some u) l i v s q m =
          by_lock u l (guard_call_unlocks P g (mutex_method_name P c) (some u)) refl m
      by_tests false e none l true v s q m = absurd m
      by_tests false e none l false v none q m = absurd m
      by_tests false e none l false v (some cal) q m = by_name cal l v q (static-Calm c ws cal m)

  reached-CalmBlocks :
      (ws : List Func)
      → ((f : Func) → In P g ws f → CalmBlocks P g ws (blocks f))
      → {fn f : Func} → In P g ws fn
      → Reaches P fn f
      → In P g ws f
  reached-CalmBlocks ws calm m here = m
  reached-CalmBlocks ws calm m (next {f} cal b i c r mb mi q nb l v s a h) =
      subst (Calm P g ws) (entering c cal nb l v s a h)
        (calm f (reached-CalmBlocks ws calm m r) b mb i mi c q)

  -- Where calleeMayUnlock finds no release of a guard by a function, every call in every function
  -- that it reaches is harmless: it calls a builtin function, is a lock operation on a known guard
  -- but no unlock of this one, or calls by name a function that only starts a callback, that has a
  -- body, and is then reached itself, that is an operation of package sync, which an unlock of a
  -- mutex without a name is too, or that is not given the base of the guard. A function reaches those
  -- that it calls, defers or starts as goroutines by name, where they have a body and are no lock
  -- operations and no starts of callbacks.
  pub callee_may_unlock_sound :
      (fn : Func) (vs : List Func)
      → callee_may_unlock P fn g ≡ keeps vs
      → (f : Func) → Reaches P fn f
      → (b : Block) (i : Instr) (c : CallCommon Value Func) → Memᴰ b (blocks f)
      → Memᴰ i (instrs b)
      → call_common_of (instr_view i) ≡ some c
      → ReleasesNothing P g c
  unfolding callee_may_unlock
  callee_may_unlock_sound fn vs e f r b i c mb mi q =
      let (grown, m) = may_unlock_from-Grown P g (suc (length P.all_funcs)) fn [] vs e in
      let calm : (x : Func) → In P g vs x → CalmBlocks P g vs (blocks x) =
        λ x n. grown.new x n (unfold visited_has in refl) in
      Calm-ReleasesNothing c vs (calm f (reached-CalmBlocks vs calm m r) b mb i mi c q)
