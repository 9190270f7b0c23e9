-- ===== src/MustHold/Inherit.antt =====
-- The guards that a function starts with: those of an unlocking wrapper, or those that its callers
-- hold (`wrapperEntryHold`, `inheritedEntryHold`), and with them the whole of `analyzeMustHold`.
pub mod Met
pub mod Callers
pub mod Capped
pub mod Common
pub mod Ends
use safetylint.Base.{
  ℕ, zero, suc, ◌+◌, Bool, true, false, not, ◌&&◌, ◌||◌, List, [], ◌∷◌, ◌++◌, Option, none, some,
  String, one_of, str_eq, any, is_some, decides, if◌then◌else◌, length,
}
use safetylint.Ssa.{Program, CallCommon, call}
use safetylint.Hold.{HoldSet, hold_read, hold_write, clone_guard_set, intersect_guards}
use safetylint.Guard.{GuardKey}
use safetylint.Guard.Method.{first}
use safetylint.Guard.Wrapper.{WrapperField, mutex_wrapper_field}
use safetylint.Flow.{Tables}
use safetylint.MustHold.Step.{key, Held}
use safetylint.MustHold.Tables.{Results, hold_tables, all_instrs}

-- where a scan of the callers stands: the source returns nil, an analysis ran out of fuel, or this
-- much is common to the calls so far, if there was one
pub data Scan (H : Type 0) : Type 0 where
  no_hold out_of_fuel : Scan H
  so_far : Option H → Scan H

module _ (P : Program) where
  open P use {
    Value, Func, Block, Instr, Pkg, instr_view, instrs, blocks, params, recv, func_name, func_pkg,
    func_exported, func_discrete, anon_funcs, member_funcs, all_funcs, map_order,
  }

  unfoldable pub wrapper_entry_hold : Func → Option (Held P)
  unfolding mutex_wrapper_field
  wrapper_entry_hold fn =
      if is_some (recv fn) && one_of (func_name fn) ("Unlock" ∷ "RUnlock" ∷ [])
      then elim (first (params fn)) [
        | none ↦ none
        | some this ↦ elim (mutex_wrapper_field P fn (func_name fn)) [
          | none ↦ none
          | some fk ↦ some (
              (
                record { base = this; field = some (WrapperField.field fk) },
                if str_eq (func_name fn) "RUnlock" then hold_read else hold_write,
              )
              ∷ [])
        ]
      ]
      else none

  abbrev pub func_in : Func → List Func → Bool
  func_in fn fs = any (λ f. decides (func_discrete f fn)) fs

  unfoldable pub add_each : (Func → List Func → List Func) → List Func → List Func → List Func
  add_each enter [] out = out
  add_each enter (f ∷ fs) out = add_each enter fs (enter f out)

  -- the closure `add` of `packageFunctions`; each call adds a new function, so one more than there
  -- are is fuel enough
  unfoldable pub add_func : ℕ → Func → List Func → List Func
  unfolding add_each
  add_func zero f out = out
  add_func (suc n) f out =
      if func_in f out then out else add_each (add_func n) (anon_funcs f) (out ++ f ∷ [])

  unfoldable pub package_functions : Pkg → List Func
  unfolding add_each add_func
  package_functions pkg =
      add_each (add_func (suc (length all_funcs))) (map_order Func (member_funcs pkg)) []

  -- a plain call of the function
  unfoldable pub calls_func : Func → Instr → Bool
  calls_func fn i = elim (instr_view i) [
    | call v c ↦ elim (CallCommon.static_callee c) [
      | none ↦ false
      | some cal ↦ decides (func_discrete cal fn)
    ]
    | _ ↦ false
  ]

  abbrev pub is_nil : Held P → Bool
  is_nil [] = true
  is_nil (g ∷ held) = false

  -- one more call, before which `held` is held
  unfoldable pub meet_held : Option (Held P) → Option (Held P) → Scan (Held P)
  unfolding clone_guard_set intersect_guards
  meet_held acc none = no_hold
  meet_held none (some held) =
      if is_nil held then no_hold else so_far (some (clone_guard_set (key P) held))
  meet_held (some common) (some held) =
      if is_nil held
      then no_hold
      else let met = intersect_guards (key P) common held in
        if is_nil met then no_hold else so_far (some met)

  module _ (analyse : Func → Option (Results P)) (fn : Func) where
    -- the call at an instruction of a caller, with what is common so far
    unfoldable pub scan_call : Func → Instr → Option (Held P) → Scan (Held P)
    unfolding meet_held
    scan_call caller i acc = elim (analyse caller) [
      | none ↦ out_of_fuel
      | some results ↦ meet_held acc (results i)
    ]

    unfoldable pub scan_caller : Func → List Instr → Option (Held P) → Scan (Held P)
    unfolding scan_call calls_func
    scan_caller caller [] acc = so_far acc
    scan_caller caller (i ∷ is) acc =
        if calls_func fn i
        then elim (scan_call caller i acc) [
          | no_hold ↦ no_hold
          | out_of_fuel ↦ out_of_fuel
          | so_far acc' ↦ scan_caller caller is acc'
        ]
        else scan_caller caller is acc

    unfoldable pub scan_callers : List Func → Option (Held P) → Scan (Held P)
    unfolding scan_caller
    scan_callers [] acc = so_far acc
    scan_callers (caller ∷ callers) acc =
        if decides (func_discrete caller fn)
        then scan_callers callers acc
        else elim (scan_caller caller (all_instrs P (blocks caller)) acc) [
          | no_hold ↦ no_hold
          | out_of_fuel ↦ out_of_fuel
          | so_far acc' ↦ scan_callers callers acc'
        ]

    -- what `inheritedEntryHold` returns for a scan; the outer `none` is an analysis without fuel
    abbrev pub scanned : Scan (Held P) → Option (Option (Held P))
    scanned no_hold = some none
    scanned out_of_fuel = none
    scanned (so_far none) = some none
    scanned (so_far (some common)) = if is_nil common then some none else some (some common)

    -- `visiting` is `inheritHoldVisiting`
    unfoldable pub inherited_entry_hold : List Func → Option (Option (Held P))
    unfolding scan_callers package_functions
    inherited_entry_hold visiting = elim (func_pkg fn) [
      | none ↦ some none
      | some pkg ↦ elim (blocks fn) [
        | [] ↦ some none
        | b ∷ bs ↦
            if func_exported fn || func_in fn visiting
            then some none
            else scanned (scan_callers (package_functions pkg) none)
      ]
    ]

    -- what the entry of the function starts with
    unfoldable pub entry_hold : List Func → Option (Held P)
    unfolding wrapper_entry_hold inherited_entry_hold
    entry_hold visiting = elim (wrapper_entry_hold fn) [
      | some held ↦ some held
      | none ↦ elim (inherited_entry_hold visiting) [
        | none ↦ none
        | some none ↦ some []
        | some (some held) ↦ some held
      ]
    ]

    abbrev pub noted_of : Option (Tables (Held P) (Results P)) → Option (Results P)
    noted_of none = none
    noted_of (some t) = some t.noted

    -- `analyzeMustHold`, with the results of the functions that call this one
    unfoldable pub results_of : List Func → Option (Results P)
    unfolding entry_hold hold_tables
    results_of visiting = elim (blocks fn) [
      | [] ↦ some (λ i. none)
      | entry ∷ bs ↦ elim (entry_hold visiting) [
        | none ↦ none
        | some init ↦ noted_of (hold_tables P entry (entry ∷ bs) init)
      ]
    ]

  -- The callers are analysed while the function is marked as visited.
  unfoldable pub must_hold_from : ℕ → List Func → Func → Option (Results P)
  unfolding results_of
  must_hold_from zero visiting fn = none
  must_hold_from (suc f) visiting fn = results_of (must_hold_from f (fn ∷ visiting)) fn visiting

  unfoldable pub analyze_must_hold : Func → Option (Results P)
  unfolding must_hold_from
  analyze_must_hold fn = must_hold_from (suc (suc (length all_funcs))) [] fn
