-- ===== src/MayUnlock.antt =====
-- `calleeMayUnlock` (internal/nosharing/mutexguard.go): may a function, or one that it calls,
-- release the guard? The search through the call graph shares one set of visited functions; that
-- set no longer matters once the answer is yes.
pub mod Alias
pub mod Ends
mod Grown
pub mod Sound
use safetylint.Base.{
  ℕ, zero, suc, Bool, true, false, not, ◌&&◌, ◌||◌, List, [], ◌∷◌, Option, none, some, String,
  str_eq, one_of, any, is_some, decides, if◌then◌else◌, length, ℕ_discrete, ◌==◌,
}
use safetylint.Ssa.{Program, CallCommon, builtin, is_invoke}
use safetylint.Types.{struct_of}
use safetylint.Strip.{strip_to_object}
use safetylint.Guard.{GuardKey, lock_unlock_guard}
use safetylint.Guard.Method.{
  mutex_recv, mutex_method_name, is_sync_mutex_method, is_rw_mutex_method,
}
use safetylint.Calls.{
  call_common_of, is_async_callback_callee, is_whitelisted_sync_method, may_contain_pointers,
}

pub data Verdict (Func : Type 0) : Type 0 where
  unlocks out_of_fuel : Verdict Func
  -- no release found; the functions visited so far
  keeps : List Func → Verdict Func

module _ (P : Program) where
  open P use {
    Value, Func, Instr, Block, Struct, view, type_of, value_discrete, func_discrete, instr_view,
    blocks, instrs, struct_string, all_funcs,
  }

  unfoldable pub visited_has : List Func → Func → Bool
  visited_has vs fn = any (λ v. decides (func_discrete v fn)) vs

  abbrev pub is_builtin_call : CallCommon Value Func → Bool
  is_builtin_call c = not (is_invoke c) && (elim (view c.value) [ builtin name ↦ true | _ ↦ false ])

  abbrev pub same_index : Option ℕ → Option ℕ → Bool
  same_index none none = true
  same_index (some i) (some j) = i == j
  same_index _ _ = false

  abbrev pub same_struct : Option Struct → Option Struct → Bool
  same_struct (some s) (some t) = str_eq (struct_string s) (struct_string t)
  same_struct _ _ = false

  -- Does an unlock of `ug` release `g`: the same guard, or one field of the same struct type?
  unfoldable pub releases_guard : GuardKey Value → GuardKey Value → Bool
  unfolding struct_of
  releases_guard ug g =
      decides (value_discrete ug.base g.base) && same_index ug.field g.field
      || is_some g.field
        && same_index ug.field g.field
        && same_struct (struct_of P (type_of ug.base)) (struct_of P (type_of g.base))

  -- a lock call inside the callee
  unfoldable pub guard_call_unlocks : GuardKey Value → String → Option (GuardKey Value) → Bool
  unfolding releases_guard
  guard_call_unlocks g name ug =
      if one_of name ("Unlock" ∷ "RUnlock" ∷ [])
      then elim ug [ none ↦ true | some u ↦ releases_guard u g ]
      else false

  -- a callee with no body is dangerous if it is given the guard's base
  unfoldable pub arg_escapes : GuardKey Value → Value → Bool
  unfolding may_contain_pointers strip_to_object
  arg_escapes g arg =
      may_contain_pointers P (type_of arg)
      && decides (value_discrete (strip_to_object P arg) g.base)

  unfoldable pub is_sync_call : Func → CallCommon Value Func → Bool
  unfolding is_sync_mutex_method is_rw_mutex_method is_whitelisted_sync_method mutex_recv
  is_sync_call cal c =
      is_sync_mutex_method P cal
      || is_rw_mutex_method P cal
      || is_whitelisted_sync_method P cal (mutex_recv c)

  abbrev pub has_body : Func → Bool
  has_body fn = elim (blocks fn) [ [] ↦ false | _ ∷ _ ↦ true ]

  -- what one call in the body of a function says, but for the callees with a body
  pub data CallSort : Type 0 where
    harmless releasing : CallSort
    enters : Func → CallSort

  unfoldable pub static_sort : GuardKey Value → CallCommon Value Func → Func → CallSort
  unfolding is_async_callback_callee is_sync_call arg_escapes
  static_sort g c cal =
      if is_async_callback_callee P cal
      then harmless
      else if has_body cal
      then enters cal
      else if is_sync_call cal c
      then harmless
      else if any (arg_escapes g) c.args
      then releasing
      else harmless

  unfoldable pub call_sort : GuardKey Value → CallCommon Value Func → CallSort
  unfolding lock_unlock_guard guard_call_unlocks mutex_method_name static_sort
  call_sort g c =
      if is_builtin_call c
      then harmless
      else if is_some (lock_unlock_guard P c)
      then (if guard_call_unlocks g (mutex_method_name P c) (lock_unlock_guard P c)
          then releasing
          else harmless)
      else if is_invoke c
      then releasing
      else elim c.static_callee [ none ↦ releasing | some cal ↦ static_sort g c cal ]

  module _ (g : GuardKey Value) (enter : Func → List Func → Verdict Func) where
    unfoldable pub scan_call : CallSort → List Func → Verdict Func
    scan_call harmless vs = keeps vs
    scan_call releasing vs = unlocks
    scan_call (enters cal) vs = enter cal vs

    unfoldable pub scan_instr : Instr → List Func → Verdict Func
    unfolding scan_call call_sort
    scan_instr i vs = elim (call_common_of (instr_view i)) [
      | none ↦ keeps vs
      | some c ↦ scan_call (call_sort g c) vs
    ]

    unfoldable pub scan_instrs : List Instr → List Func → Verdict Func
    unfolding scan_instr
    scan_instrs [] vs = keeps vs
    scan_instrs (i ∷ is) vs = elim (scan_instr i vs) [
      | keeps ws ↦ scan_instrs is ws
      | unlocks ↦ unlocks
      | out_of_fuel ↦ out_of_fuel
    ]

    unfoldable pub scan_blocks : List Block → List Func → Verdict Func
    unfolding scan_instrs
    scan_blocks [] vs = keeps vs
    scan_blocks (b ∷ bs) vs = elim (scan_instrs (instrs b) vs) [
      | keeps ws ↦ scan_blocks bs ws
      | unlocks ↦ unlocks
      | out_of_fuel ↦ out_of_fuel
    ]

  unfoldable pub may_unlock_from : GuardKey Value → ℕ → Func → List Func → Verdict Func
  unfolding visited_has scan_blocks
  may_unlock_from g zero fn vs = out_of_fuel
  may_unlock_from g (suc f) fn vs =
      let body = scan_blocks g (may_unlock_from g f) (blocks fn) (fn ∷ vs) in
      if visited_has vs fn then keeps vs else body

  -- One more than the functions there are is fuel enough: every call enters a new one.
  unfoldable pub callee_may_unlock : Func → GuardKey Value → Verdict Func
  unfolding may_unlock_from
  callee_may_unlock fn g = may_unlock_from g (suc (length all_funcs)) fn []

  abbrev pub is_keeps : Verdict Func → Bool
  is_keeps (keeps vs) = true
  is_keeps _ = false
