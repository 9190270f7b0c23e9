-- ===== src/MustHold/Inherit/Common.antt =====
-- A function inherits only what all of its callers hold.
use safetylint.Base.{
  ◌≡◌, ◌≢◌, refl, subst, true, ◌||◌, List, [], ◌∷◌, Option, none, some, Memᴰ, Bool-cases, inl, inr,
  if◌then◌else◌, ℕ,
}
use safetylint.Ssa.{Program}
use safetylint.Hold.{AtMost}
use safetylint.MustHold.Step.{key, Held}
use safetylint.MustHold.Tables.{Results, all_instrs}
use safetylint.MustHold.Inherit.{
  Scan, no_hold, out_of_fuel, so_far, calls_func, is_nil, scan_callers, scanned, package_functions,
  func_in, inherited_entry_hold,
}
use safetylint.MustHold.Inherit.{must_hold_from}
use safetylint.MustHold.Inherit.Met.{OptCapped}
use safetylint.MustHold.Inherit.Callers.{scan_callers-covers}
use safetylint.MustHold.Inherit.Capped.{must_hold_from-OptCapped}

module _ (P : Program) where
  open P use {
    Value, recv, params, func_name, Func, Instr, Pkg, blocks, func_pkg, func_exported,
    func_discrete,
  }

  module _ (analyse : Func → Option (Results P)) (fn : Func)
      (results_wf : (caller : Func) (r : Results P) (i : Instr)
        → analyse caller ≡ some r
        → OptCapped P (r i)) where
    -- what a function inherits is common to the calls
    inherited-common :
        (visiting : List Func) (common : Held P) (pkg : Pkg) (caller : Func) (i : Instr)
        → inherited_entry_hold P analyse fn visiting ≡ some (some common)
        → func_pkg fn ≡ some pkg
        → Memᴰ caller (package_functions P pkg)
        → caller ≢ fn
        → Memᴰ i (all_instrs P (blocks caller))
        → calls_func P fn i ≡ true
        → (results : Results P) × (held : Held P) × (analyse caller ≡ some results)
          × (results i ≡ some held)
          × AtMost (key P) common held
    unfolding inherited_entry_hold
    inherited-common visiting common pkg caller i h p m ne mi c =
        by_blocks (blocks fn) (rw (p, inherited_entry_hold) at h)
      where
        by_scan :
            (o : Scan (Held P))
            → scan_callers P analyse fn (package_functions P pkg) none ≡ o
            → scanned P analyse fn o ≡ some (some common)
            → (results : Results P) × (held : Held P) × (analyse caller ≡ some results)
              × (results i ≡ some held)
              × AtMost (key P) common held
        by_scan no_hold q k = cc
        by_scan out_of_fuel q k = cc
        by_scan (so_far none) q k = cc
        by_scan (so_far (some all)) q k = elim (Bool-cases (is_nil P all)) [
          | inl e ↦ cc (rw e at k)
          | inr e ↦
              let same : all ≡ common = cc (rw e at k) in
              let covered =
                (scan_callers-covers P analyse fn results_wf (package_functions P pkg) none
                  (some all) q tt).0 in
              let at_call = covered caller m ne i mi c in
              (
                at_call.results,
                at_call.held,
                at_call.is_analysed,
                at_call.is_held,
                subst (λ z. AtMost (key P) z at_call.held) same at_call.below,
              )
        ]

        by_blocks :
            (bs : List P.Block)
            → (elim bs [
              | [] ↦ some none
              | b ∷ rest ↦
                  if func_exported fn || func_in P fn visiting
                  then some none
                  else scanned P analyse fn
                      (scan_callers P analyse fn (package_functions P pkg) none)
            ])
              ≡ some (some common)
            → (results : Results P) × (held : Held P) × (analyse caller ≡ some results)
              × (results i ≡ some held)
              × AtMost (key P) common held
        by_blocks [] k = cc
        by_blocks (b ∷ rest) k = elim (Bool-cases (func_exported fn || func_in P fn visiting)) [
          | inl e ↦ cc (rw e at k)
          | inr e ↦ by_scan _ refl (rw e at k)
        ]

  -- What inheritedEntryHold returns for a function claims no more than what the results of
  -- analyzeMustHold have just before each plain call of it in the other functions of its package;
  -- the callers are analysed while the function is marked as visited.
  pub inherited_entry_hold_sound :
      (f : ℕ) (visiting : List Func) (fn : Func) (common : Held P) (pkg : Pkg) (caller : Func)
      (i : Instr)
      → inherited_entry_hold P (must_hold_from P f (fn ∷ visiting)) fn visiting ≡ some (some common)
      → func_pkg fn ≡ some pkg
      → Memᴰ caller (package_functions P pkg)
      → caller ≢ fn
      → Memᴰ i (all_instrs P (blocks caller))
      → calls_func P fn i ≡ true
      → (results : Results P) × (held : Held P) × (must_hold_from P f (fn ∷ visiting) caller
          ≡ some results)
        × (results i ≡ some held)
        × AtMost (key P) common held
  inherited_entry_hold_sound f visiting fn common pkg caller i h p m ne mi c =
      inherited-common (must_hold_from P f (fn ∷ visiting)) fn
        (λ other r j. must_hold_from-OptCapped P f (fn ∷ visiting) other r j) visiting common pkg
        caller i h p m ne mi c
