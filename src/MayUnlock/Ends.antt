-- ===== src/MayUnlock/Ends.antt =====
-- The search for unlocks ends: it enters each function of the program once.
use safetylint.Base.{
  ℕ, zero, suc, ◌≡◌, ◌≢◌, ◌≤◌, ◌<◌, refl, ap, subst, arith, Bool, true, false, List, [], ◌∷◌,
  Option, none, some, Memᴰ, Bool-cases, inl, inr, decides-true, if◌then◌else◌, any, reject,
  reject_lt, reject-bound, length, is_some,
}
use safetylint.Ssa.{Program, CallCommon, is_invoke}
use safetylint.Calls.{call_common_of, is_async_callback_callee}
use safetylint.Guard.{GuardKey, lock_unlock_guard}
use safetylint.Guard.Method.{mutex_method_name}
use safetylint.MayUnlock.{
  Verdict, unlocks, out_of_fuel, keeps, visited_has, CallSort, harmless, releasing, enters,
  static_sort, call_sort, scan_call, scan_instr, scan_instrs, scan_blocks, may_unlock_from,
  callee_may_unlock, is_builtin_call, guard_call_unlocks, has_body, is_sync_call, arg_escapes,
}

module _ (P : Program) where
  open P use {Value, Func, Instr, Block, instr_view, instrs, blocks, func_discrete, all_funcs}

  static_sort-enters :
      (g : GuardKey Value) (c : CallCommon Value Func) (cal f : Func)
      → static_sort P g c cal ≡ enters f
      → cal ≡ f
  unfolding static_sort
  static_sort-enters g c cal f h = elim (Bool-cases (is_async_callback_callee P cal)) [
    | inl a ↦ cc (rw a at h)
    | inr a ↦ elim (Bool-cases (has_body P cal)) [
      | inl b ↦ cc (rw (a, b) at h)
      | inr b ↦ elim (Bool-cases (is_sync_call P cal c)) [
        | inl s ↦ cc (rw (a, b, s) at h)
        | inr s ↦ elim (Bool-cases (any (arg_escapes P g) c.args)) [
          | inl e ↦ cc (rw (a, b, s, e) at h)
          | inr e ↦ cc (rw (a, b, s, e) at h)
        ]
      ]
    ]
  ]

  -- A callee that is entered is the static callee.
  call_sort-enters :
      (g : GuardKey Value) (c : CallCommon Value Func) (f : Func)
      → call_sort P g c ≡ enters f
      → c.static_callee ≡ some f
  unfolding call_sort
  call_sort-enters g c f h =
      by_tests (is_builtin_call P c) (is_some (lock_unlock_guard P c))
        (guard_call_unlocks P g (mutex_method_name P c) (lock_unlock_guard P c)) (is_invoke c)
        c.static_callee h
    where
      by_tests :
          (b s u i : Bool) (o : Option Func)
          → (if b
              then harmless
              else if s
              then (if u then releasing else harmless)
              else if i
              then releasing
              else elim o [ none ↦ releasing | some cal ↦ static_sort P g c cal ])
            ≡ enters f
          → o ≡ some f
      by_tests true s u i o k = cc
      by_tests false true true i o k = cc
      by_tests false true false i o k = cc
      by_tests false false u true o k = cc
      by_tests false false u false none k = cc
      by_tests false false u false (some cal) k = ap some (static_sort-enters g c cal f k)

  -- how many functions have not been visited
  abbrev missing : List Func → ℕ
  missing vs = length (reject (λ f. visited_has P vs f) all_funcs)

  -- The search did not run out of fuel, and forgets no function that it visited.
  abbrev Fine : List Func → Verdict Func → Type 0
  Fine vs unlocks = Unit {0}
  Fine vs out_of_fuel = ⊥
  Fine vs (keeps ws) = missing ws ≤ missing vs

  -- The static callees are functions of the program.
  abbrev pub CalleesKnown : Type 0
  CalleesKnown =
      (i : Instr) (c : CallCommon Value Func) (f : Func)
      → call_common_of (instr_view i) ≡ some c
      → c.static_callee ≡ some f
      → Memᴰ f all_funcs

  Fine-weaken :
      (us vs : List Func) (v : Verdict Func) → missing vs ≤ missing us → Fine vs v → Fine us v
  Fine-weaken us vs unlocks h k = tt
  Fine-weaken us vs out_of_fuel h k = k
  Fine-weaken us vs (keeps ws) h k = omega (arith, h, k)

  module _ (known : CalleesKnown) (g : GuardKey Value) (enter : Func → List Func → Verdict Func)
      (n : ℕ)
      (fine : (f : Func) (vs : List Func)
        → Memᴰ f all_funcs
        → missing vs ≤ n
        → Fine vs (enter f vs)) where
    scan_instr-Fine :
        (i : Instr) (vs : List Func) → missing vs ≤ n → Fine vs (scan_instr P g enter i vs)
    unfolding scan_instr scan_call
    scan_instr-Fine i vs h = by_call (call_common_of (instr_view i)) refl
      where
        by_sort :
            (c : CallCommon Value Func)
            → call_common_of (instr_view i) ≡ some c
            → (s : CallSort P) → call_sort P g c ≡ s
            → Fine vs (scan_call P g enter s vs)
        by_sort c e harmless q = omega arith
        by_sort c e releasing q = tt
        by_sort c e (enters f) q = fine f vs (known i c f e (call_sort-enters g c f q)) h

        by_call :
            (o : Option (CallCommon Value Func))
            → call_common_of (instr_view i) ≡ o
            → Fine vs
                (elim o [ none ↦ keeps vs | some c ↦ scan_call P g enter (call_sort P g c) vs ])
        by_call none e = omega arith
        by_call (some c) e = by_sort c e _ refl

    then-Fine :
        (vs : List Func) (v : Verdict Func) (next : List Func → Verdict Func)
        → missing vs ≤ n
        → Fine vs v
        → ((ws : List Func) → missing ws ≤ n → Fine ws (next ws))
        → Fine vs (elim v [ keeps ws ↦ next ws | unlocks ↦ unlocks | out_of_fuel ↦ out_of_fuel ])
    then-Fine vs unlocks next h k l = tt
    then-Fine vs out_of_fuel next h k l = k
    then-Fine vs (keeps ws) next h k l = Fine-weaken vs ws (next ws) k (l ws (omega (arith, h, k)))

    scan_instrs-Fine :
        (is : List Instr) (vs : List Func) → missing vs ≤ n → Fine vs (scan_instrs P g enter is vs)
    unfolding scan_instrs
    scan_instrs-Fine [] vs h = omega arith
    scan_instrs-Fine (i ∷ is) vs h =
        then-Fine vs (scan_instr P g enter i vs) (scan_instrs P g enter is) h
          (scan_instr-Fine i vs h) (λ ws k. scan_instrs-Fine is ws k)

    scan_blocks-Fine :
        (bs : List Block) (vs : List Func) → missing vs ≤ n → Fine vs (scan_blocks P g enter bs vs)
    unfolding scan_blocks
    scan_blocks-Fine [] vs h = omega arith
    scan_blocks-Fine (b ∷ bs) vs h =
        then-Fine vs (scan_instrs P g enter (instrs b) vs) (scan_blocks P g enter bs) h
          (scan_instrs-Fine (instrs b) vs h) (λ ws k. scan_blocks-Fine bs ws k)

  missing_lt :
      (fn : Func) (vs : List Func)
      → Memᴰ fn all_funcs
      → visited_has P vs fn ≡ false
      → missing (fn ∷ vs) < missing vs
  unfolding visited_has
  missing_lt fn vs m e =
      reject_lt (λ f. visited_has P (fn ∷ vs) f) (λ f. visited_has P vs f) all_funcs fn
        (λ f h. ground arith) m e
        (let same = decides-true (func_discrete fn fn) refl in ground arith)

  module _ (known : CalleesKnown) (g : GuardKey Value) where
    may_unlock_from-Fine :
        (f : ℕ) (fn : Func) (vs : List Func)
        → Memᴰ fn all_funcs
        → missing vs < f
        → Fine vs (may_unlock_from P g f fn vs)
    unfolding may_unlock_from
    may_unlock_from-Fine zero fn vs m h = absurd (omega arith)
    may_unlock_from-Fine (suc f) fn vs m h = elim (Bool-cases (visited_has P vs fn)) [
      | inl e ↦ rw e (omega arith)
      | inr e ↦
          let less = missing_lt fn vs m e in
          rw e (
            Fine-weaken vs (fn ∷ vs) (scan_blocks P g (may_unlock_from P g f) (blocks fn) (fn ∷ vs))
              (omega (arith, less))
              (scan_blocks-Fine known g (may_unlock_from P g f) (missing (fn ∷ vs))
                (λ cal ws k l. may_unlock_from-Fine f cal ws k (omega (arith, less, l))) (blocks fn)
                (fn ∷ vs) (omega arith)))
    ]

    -- The search of calleeMayUnlock through the call graph ends within its fuel, for every
    -- function of a program whose static callees are functions of the program.
    pub callee_may_unlock_ends :
        (fn : Func) → Memᴰ fn all_funcs → callee_may_unlock P fn g ≢ out_of_fuel
    unfolding callee_may_unlock
    callee_may_unlock_ends fn m e = subst (Fine []) e (
        may_unlock_from-Fine (suc (length all_funcs)) fn [] m
          (omega (arith, reject-bound (λ f. visited_has P [] f) all_funcs)))
