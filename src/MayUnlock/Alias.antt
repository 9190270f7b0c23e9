-- ===== src/MayUnlock/Alias.antt =====
-- An unlock whose guard `lockUnlockGuard` cannot name counts as harmless: `isMutexGuardCall` is false
-- on such a call, so the source's answer for an unlock through an alias is never reached.
use safetylint.Base.{
  ◌≡◌, refl, Bool-cases, if◌then◌else◌, Bool, true, false, List, [], ◌∷◌, Option, none, some, Memᴰ,
  inl, inr, length,
}
use safetylint.Ssa.{Program, CallCommon, is_invoke}
use safetylint.Guard.{GuardKey, lock_unlock_guard}
use safetylint.Guard.Method.{is_sync_mutex_method}
use safetylint.Calls.{call_common_of, is_async_callback_callee}
use safetylint.MayUnlock.{
  Verdict, keeps, call_sort, static_sort, harmless, is_sync_call, has_body, scan_call, CallSort,
  scan_instr, scan_instrs, scan_blocks, may_unlock_from, callee_may_unlock, visited_has,
}

module _ (P : Program) where
  open P use {Value, Func, Instr, Block, instrs, blocks, instr_view, all_funcs}

  -- A call of a method of sync.Mutex with no body here, on a mutex that has no guard.
  pub record IsAliased (c : CallCommon Value Func) : Type 0 where
    pub callee : Func
    pub is_static : c.static_callee ≡ some callee
    pub not_invoke : is_invoke c ≡ false
    pub no_body : has_body P callee ≡ false
    pub is_method : is_sync_mutex_method P callee ≡ true
    pub unresolved : lock_unlock_guard P c ≡ none

  static_harmless :
      (g : GuardKey Value) (c : CallCommon Value Func) (cal : Func)
      → has_body P cal ≡ false
      → is_sync_mutex_method P cal ≡ true
      → static_sort P g c cal ≡ harmless
  unfolding static_sort is_sync_call
  static_harmless g c cal nb m = elim (Bool-cases (is_async_callback_callee P cal)) [
    | inl spawn ↦ rw spawn refl
    | inr call ↦ rw (call, nb, m) refl
  ]

  builtin_or : (b : Bool) (x : CallSort P) → x ≡ harmless → (if b then harmless else x) ≡ harmless
  builtin_or true x e = refl
  builtin_or false x e = e

  aliased_harmless :
      (g : GuardKey Value) (c : CallCommon Value Func) → IsAliased c → call_sort P g c ≡ harmless
  unfolding call_sort
  aliased_harmless g c a =
      rw
        (
          a.unresolved,
          a.not_invoke,
          a.is_static,
          static_harmless g c a.callee a.no_body a.is_method,
        )
        (builtin_or _ harmless refl)

  -- Every call in the instruction is such a call.
  abbrev pub OnlyAliased : Instr → Type 0
  OnlyAliased i = (c : CallCommon Value Func) → call_common_of (instr_view i) ≡ some c → IsAliased c

  module _ (g : GuardKey Value) (enter : Func → List Func → Verdict Func) where
    instr_keeps :
        (i : Instr) (vs : List Func) → OnlyAliased i → scan_instr P g enter i vs ≡ keeps vs
    unfolding scan_instr scan_call
    instr_keeps i vs h = by_call (call_common_of (instr_view i)) refl
      where
        by_call :
            (o : Option (CallCommon Value Func))
            → call_common_of (instr_view i) ≡ o
            → (elim o [ none ↦ keeps vs | some c ↦ scan_call P g enter (call_sort P g c) vs ])
              ≡ keeps vs
        by_call none e = refl
        by_call (some c) e = rw (aliased_harmless g c (h c e)) refl

    instrs_keep :
        (is : List Instr) (vs : List Func)
        → ((i : Instr) → Memᴰ i is → OnlyAliased i)
        → scan_instrs P g enter is vs ≡ keeps vs
    unfolding scan_instrs
    instrs_keep [] vs h = refl
    instrs_keep (i ∷ is) vs h =
        rw (instr_keeps i vs (h i (Memᴰ.head refl)), scan_instrs)
          (instrs_keep is vs (λ j m. h j (Memᴰ.tail m)))

    blocks_keep :
        (bs : List Block) (vs : List Func)
        → ((b : Block) (i : Instr) → Memᴰ b bs → Memᴰ i (instrs b) → OnlyAliased i)
        → scan_blocks P g enter bs vs ≡ keeps vs
    unfolding scan_blocks
    blocks_keep [] vs h = refl
    blocks_keep (b ∷ bs) vs h =
        rw (instrs_keep (instrs b) vs (λ i m. h b i (Memᴰ.head refl) m), scan_blocks)
          (blocks_keep bs vs (λ c i n m. h c i (Memᴰ.tail n) m))

  -- A function whose calls all unlock a mutex that the analysis cannot name is judged to unlock no
  -- guard at all: each call is a static call of a sync.Mutex method that has no body, and
  -- lockUnlockGuard finds no guard for it.
  pub aliased_unlock_kept :
      (g : GuardKey Value) (fn : Func)
      → ((b : Block) (i : Instr) → Memᴰ b (blocks fn) → Memᴰ i (instrs b) → OnlyAliased i)
      → callee_may_unlock P fn g ≡ keeps (fn ∷ [])
  unfolding callee_may_unlock may_unlock_from visited_has
  aliased_unlock_kept g fn h =
      blocks_keep g (may_unlock_from P g (length all_funcs)) (blocks fn) (fn ∷ []) h
