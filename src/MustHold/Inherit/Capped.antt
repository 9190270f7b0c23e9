-- ===== src/MustHold/Inherit/Capped.antt =====
-- The guards that a function starts with, and the results of every analysis, are well-formed maps
-- with modes up to the exclusive one.
use safetylint.Base.{
  ◌≡◌, refl, ap, ◌∙◌, subst, arith, Bool, true, false, ◌&&◌, ◌||◌, List, [], ◌∷◌, Option, none,
  some, Bool-cases, inl, inr, if◌then◌else◌, ℕ, zero, suc, is_some, one_of, str_eq,
}
use mathlib.Core.Option.{some-injective}
use safetylint.Ssa.{Program}
use safetylint.Hold.{get, has, hold_read, hold_write}
use safetylint.Flow.{Tables}
use safetylint.Guard.{GuardKey}
use safetylint.Guard.Method.{first}
use safetylint.Guard.Wrapper.{WrapperField, mutex_wrapper_field}
use safetylint.MustHold.Step.{Held}
use safetylint.MustHold.Tables.{Results}
use safetylint.MustHold.Inherit.{
  Scan, no_hold, out_of_fuel, so_far, is_nil, scan_callers, scanned, package_functions, func_in,
  inherited_entry_hold,
}
use safetylint.MustHold.Tables.{hold_tables}
use safetylint.MustHold.Inherit.{
  must_hold_from, results_of, entry_hold, wrapper_entry_hold, noted_of,
}
use safetylint.MustHold.Tables.Notes.{noted-IsCapped, IsCapped, nil-IsCapped}
use safetylint.MustHold.Inherit.Met.{OptCapped}
use safetylint.MustHold.Inherit.Callers.{scan_callers-covers}

module _ (P : Program) where
  open P use {
    Value, recv, params, func_name, Func, Instr, Pkg, blocks, func_pkg, func_exported,
    func_discrete,
  }

  module _ (analyse : Func → Option (Results P)) (fn : Func)
      (results_wf : (caller : Func) (r : Results P) (i : Instr)
        → analyse caller ≡ some r
        → OptCapped P (r i)) where
    inherited-IsCapped :
        (visiting : List Func) (common : Held P)
        → inherited_entry_hold P analyse fn visiting ≡ some (some common)
        → IsCapped P common
    unfolding inherited_entry_hold
    inherited-IsCapped visiting common h = by_pkg (func_pkg fn) (blocks fn) h
      where
        by_scan :
            (pkg : Pkg) (o : Scan (Held P))
            → scan_callers P analyse fn (package_functions P pkg) none ≡ o
            → scanned P analyse fn o ≡ some (some common)
            → IsCapped P common
        by_scan pkg no_hold q k = cc
        by_scan pkg out_of_fuel q k = cc
        by_scan pkg (so_far none) q k = cc
        by_scan pkg (so_far (some all)) q k = elim (Bool-cases (is_nil P all)) [
          | inl e ↦ cc (rw e at k)
          | inr e ↦
              let same : all ≡ common = cc (rw e at k) in
              let (covers, low, wf) =
                scan_callers-covers P analyse fn results_wf (package_functions P pkg) none
                  (some all) q tt in
              subst (IsCapped P) same wf
        ]

        by_pkg :
            (o : Option Pkg) (bs : List P.Block)
            → (elim o [
              | none ↦ some none
              | some pkg ↦ elim bs [
                | [] ↦ some none
                | b ∷ rest ↦
                    if func_exported fn || func_in P fn visiting
                    then some none
                    else scanned P analyse fn
                        (scan_callers P analyse fn (package_functions P pkg) none)
              ]
            ])
              ≡ some (some common)
            → IsCapped P common
        by_pkg none bs k = cc
        by_pkg (some pkg) [] k = cc
        by_pkg (some pkg) (b ∷ rest) k =
            elim (Bool-cases (func_exported fn || func_in P fn visiting)) [
              | inl e ↦ cc (rw e at k)
              | inr e ↦ by_scan pkg _ refl (rw e at k)
            ]

  single-IsCapped :
      (g : GuardKey Value) (b : Bool) → IsCapped P ((g, if b then hold_read else hold_write) ∷ [])
  unfolding has get
  single-IsCapped g true = ((refl, ground arith, tt), λ k. ground arith)
  single-IsCapped g false = ((refl, ground arith, tt), λ k. ground arith)

  wrapper-IsCapped :
      (fn : Func) (held : Held P) → wrapper_entry_hold P fn ≡ some held → IsCapped P held
  unfolding wrapper_entry_hold has
  wrapper-IsCapped fn held h =
      by_parts (is_some (recv fn) && one_of (func_name fn) ("Unlock" ∷ "RUnlock" ∷ []))
        (first (params fn)) (mutex_wrapper_field P fn (func_name fn)) h
    where
      by_parts :
          (b : Bool) (this : Option Value) (fk : Option WrapperField)
          → (if b
              then elim this [
                | none ↦ none
                | some v ↦ elim fk [
                  | none ↦ none
                  | some w ↦ some (
                      (
                        record { base = v; field = some (WrapperField.field w) },
                        if str_eq (func_name fn) "RUnlock" then hold_read else hold_write,
                      )
                      ∷ [])
                ]
              ]
              else none)
            ≡ some held
          → IsCapped P held
      by_parts false this fk k = cc
      by_parts true none fk k = cc
      by_parts true (some v) none k = cc
      by_parts true (some v) (some w) k = subst (IsCapped P) (some-injective _ _ k) (
          single-IsCapped (record { base = v; field = some (WrapperField.field w) })
            (str_eq (func_name fn) "RUnlock"))

  pub entry-IsCapped :
      (analyse : Func → Option (Results P)) (fn : Func)
      → ((caller : Func) (r : Results P) (i : Instr) → analyse caller ≡ some r → OptCapped P (r i))
      → (visiting : List Func) (init : Held P) → entry_hold P analyse fn visiting ≡ some init
      → IsCapped P init
  unfolding entry_hold
  entry-IsCapped analyse fn results_wf visiting init h =
      by_parts (wrapper_entry_hold P fn) refl (inherited_entry_hold P analyse fn visiting) refl h
    where
      by_parts :
          (w : Option (Held P))
          → wrapper_entry_hold P fn ≡ w
          → (o : Option (Option (Held P))) → inherited_entry_hold P analyse fn visiting ≡ o
          → (elim w [
            | some held ↦ some held
            | none ↦ elim o [ none ↦ none | some none ↦ some [] | some (some held) ↦ some held ]
          ])
            ≡ some init
          → IsCapped P init
      by_parts (some held) e o q k = wrapper-IsCapped fn init (e ∙ k)
      by_parts none e none q k = cc
      by_parts none e (some none) q k = subst (IsCapped P) (some-injective _ _ k) (nil-IsCapped P)
      by_parts none e (some (some held)) q k =
          inherited-IsCapped analyse fn results_wf visiting init (q ∙ ap some k)

  results_of-OptCapped :
      (analyse : Func → Option (Results P)) (fn : Func)
      → ((caller : Func) (r : Results P) (i : Instr) → analyse caller ≡ some r → OptCapped P (r i))
      → (visiting : List Func) (r : Results P) (i : Instr)
      → results_of P analyse fn visiting ≡ some r
      → OptCapped P (r i)
  unfolding results_of
  results_of-OptCapped analyse fn results_wf visiting r i h =
      by_blocks (blocks fn) (entry_hold P analyse fn visiting) refl h
    where
      at_instr :
          (entry : P.Block) (bs : List P.Block) (init : Held P)
          → IsCapped P init
          → (o : Option (Tables (Held P) (Results P))) → hold_tables P entry bs init ≡ o
          → noted_of P analyse fn o ≡ some r
          → (h : Option (Held P)) → r i ≡ h
          → OptCapped P h
      at_instr entry bs init w none e k h q = cc
      at_instr entry bs init w (some t) e k none q = tt
      at_instr entry bs init w (some t) e k (some held) q =
          noted-IsCapped P entry bs init w t e i held (ap (λ z. z i) (some-injective _ _ k) ∙ q)

      by_blocks :
          (bs : List P.Block) (o : Option (Held P))
          → entry_hold P analyse fn visiting ≡ o
          → (elim bs [
            | [] ↦ some (λ i. none)
            | entry ∷ rest ↦ elim o [
              | none ↦ none
              | some init ↦ noted_of P analyse fn (hold_tables P entry (entry ∷ rest) init)
            ]
          ])
            ≡ some r
          → OptCapped P (r i)
      by_blocks [] o e k = subst (λ z. OptCapped P (z i)) (some-injective _ _ k) tt
      by_blocks (entry ∷ rest) none e k = cc
      by_blocks (entry ∷ rest) (some init) e k =
          at_instr entry (entry ∷ rest) init (entry-IsCapped analyse fn results_wf visiting init e)
            _ refl k (r i) refl

  -- The results of every analysis are well-formed maps.
  pub must_hold_from-OptCapped :
      (f : ℕ) (visiting : List Func) (fn : Func) (r : Results P) (i : Instr)
      → must_hold_from P f visiting fn ≡ some r
      → OptCapped P (r i)
  unfolding must_hold_from
  must_hold_from-OptCapped zero visiting fn r i h = cc
  must_hold_from-OptCapped (suc f) visiting fn r i h =
      results_of-OptCapped (must_hold_from P f (fn ∷ visiting)) fn
        (λ caller s j. must_hold_from-OptCapped f (fn ∷ visiting) caller s j) visiting r i h
