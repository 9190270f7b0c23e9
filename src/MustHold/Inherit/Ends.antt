-- ===== src/MustHold/Inherit/Ends.antt =====
-- The analysis of a function and of all that call it ends.
use safetylint.Base.{
  ℕ, zero, suc, ◌≡◌, ◌≢◌, ◌<◌, refl, arith, false, ◌||◌, List, [], ◌∷◌, Option, none, some, Memᴰ,
  Bool-cases, inl, inr, decides-true, decides-false, if◌then◌else◌, reject, reject_lt, reject-bound,
  length,
}
use safetylint.Ssa.{Program, IsNumbered}
use safetylint.Hold.{intersect_guards}
use safetylint.MustHold.Step.{key, Held}
use safetylint.MustHold.Tables.{Results, all_instrs, hold_tables}
use safetylint.MustHold.Ends.{hold_tables_ends}
use safetylint.MustHold.Inherit.{
  Scan, no_hold, out_of_fuel, so_far, calls_func, meet_held, is_nil, scan_call, scan_caller,
  scan_callers, scanned, package_functions, func_in, inherited_entry_hold, wrapper_entry_hold,
  entry_hold, noted_of, results_of, must_hold_from, analyze_must_hold,
}
use safetylint.MustHold.Inherit.Met.{OptCapped}
use safetylint.MustHold.Inherit.Capped.{entry-IsCapped, must_hold_from-OptCapped}

module _ (P : Program) where
  open P use {Func, Instr, Block, Pkg, blocks, func_pkg, func_exported, func_discrete, all_funcs}

  meet_held-fuel : (acc o : Option (Held P)) → meet_held P acc o ≢ out_of_fuel
  unfolding meet_held
  meet_held-fuel acc none e = cc
  meet_held-fuel none (some held) e = elim (Bool-cases (is_nil P held)) [
    | inl q ↦ cc (rw q at e)
    | inr q ↦ cc (rw q at e)
  ]
  meet_held-fuel (some common) (some held) e = elim (Bool-cases (is_nil P held)) [
    | inl q ↦ cc (rw q at e)
    | inr q ↦ elim (Bool-cases (is_nil P (intersect_guards (key P) common held))) [
      | inl k ↦ cc (rw (q, k) at e)
      | inr k ↦ cc (rw (q, k) at e)
    ]
  ]

  module _ (analyse : Func → Option (Results P)) (fn : Func) where
    scan_call-fuel :
        (caller : Func) (i : Instr) (acc : Option (Held P)) (r : Results P)
        → analyse caller ≡ some r
        → scan_call P analyse fn caller i acc ≢ out_of_fuel
    unfolding scan_call
    scan_call-fuel caller i acc r e h = meet_held-fuel acc (r i) (rw (e, scan_call) at h)

    scan_caller-fuel :
        (caller : Func) (r : Results P)
        → analyse caller ≡ some r
        → (is : List Instr) (acc : Option (Held P))
        → scan_caller P analyse fn caller is acc ≢ out_of_fuel
    unfolding scan_caller
    scan_caller-fuel caller r e [] acc h = cc
    scan_caller-fuel caller r e (i ∷ is) acc h = elim (Bool-cases (calls_func P fn i)) [
      | inr q ↦ scan_caller-fuel caller r e is acc (rw q at h)
      | inl q ↦
          by_call (λ mid. scan_caller-fuel caller r e is mid) (scan_call P analyse fn caller i acc)
            refl (rw q at h)
    ]
      where
        by_call :
            ((mid : Option (Held P)) → scan_caller P analyse fn caller is mid ≢ out_of_fuel)
            → (o : Scan (Held P)) → scan_call P analyse fn caller i acc ≡ o
            → (elim o [
              | no_hold ↦ no_hold
              | out_of_fuel ↦ out_of_fuel
              | so_far acc' ↦ scan_caller P analyse fn caller is acc'
            ])
              ≡ out_of_fuel
            → ⊥
        by_call again no_hold q k = cc
        by_call again out_of_fuel q k = scan_call-fuel caller i acc r e q
        by_call again (so_far mid) q k = again mid k

    scan_callers-fuel :
        (callers : List Func) (acc : Option (Held P))
        → ((caller : Func) → Memᴰ caller callers → (r : Results P) × (analyse caller ≡ some r))
        → scan_callers P analyse fn callers acc ≢ out_of_fuel
    unfolding scan_callers
    scan_callers-fuel [] acc all h = cc
    scan_callers-fuel (caller ∷ callers) acc all h = elim (func_discrete caller fn) [
      | yes e ↦
          scan_callers-fuel callers acc (λ c m. all c (Memᴰ.tail m))
            (rw (decides-true (func_discrete caller fn) e) at h)
      | no ne ↦
          by_caller (λ mid. scan_callers-fuel callers mid (λ c m. all c (Memᴰ.tail m)))
            (scan_caller P analyse fn caller (all_instrs P (blocks caller)) acc) refl
            (rw (decides-false (func_discrete caller fn) ne) at h)
    ]
      where
        by_caller :
            ((mid : Option (Held P)) → scan_callers P analyse fn callers mid ≢ out_of_fuel)
            → (o : Scan (Held P))
            → scan_caller P analyse fn caller (all_instrs P (blocks caller)) acc ≡ o
            → (elim o [
              | no_hold ↦ no_hold
              | out_of_fuel ↦ out_of_fuel
              | so_far acc' ↦ scan_callers P analyse fn callers acc'
            ])
              ≡ out_of_fuel
            → ⊥
        by_caller again no_hold q k = cc
        by_caller again out_of_fuel q k =
            let (r, e) = all caller (Memᴰ.head refl) in
            scan_caller-fuel caller r e (all_instrs P (blocks caller)) acc q
        by_caller again (so_far mid) q k = again mid k

    -- The callers matter only where the function is not under way.
    abbrev Callers : List Func → Type 0
    Callers visiting =
        func_in P fn visiting ≡ false
        → (pkg : Pkg) → func_pkg fn ≡ some pkg
        → (caller : Func) → Memᴰ caller (package_functions P pkg)
        → (r : Results P) × (analyse caller ≡ some r)

    inherited-ends :
        (visiting : List Func)
        → Callers visiting
        → (o : Option (Held P)) × (inherited_entry_hold P analyse fn visiting ≡ some o)
    unfolding inherited_entry_hold
    inherited-ends visiting all = by_pkg (func_pkg fn) refl (blocks fn)
      where
        by_scan :
            (s : Scan (Held P))
            → s ≢ out_of_fuel
            → (o : Option (Held P)) × (scanned P analyse fn s ≡ some o)
        by_scan no_hold n = (none, refl)
        by_scan out_of_fuel n = absurd (n refl)
        by_scan (so_far none) n = (none, refl)
        by_scan (so_far (some common)) n = elim (Bool-cases (is_nil P common)) [
          | inl e ↦ (none, rw e refl)
          | inr e ↦ (some common, rw e refl)
        ]

        by_pkg :
            (p : Option Pkg)
            → func_pkg fn ≡ p
            → (bs : List Block)
            → (o : Option (Held P)) × ((elim p [
              | none ↦ some none
              | some pkg ↦ elim bs [
                | [] ↦ some none
                | b ∷ rest ↦
                    if func_exported fn || func_in P fn visiting
                    then some none
                    else scanned P analyse fn
                        (scan_callers P analyse fn (package_functions P pkg) none)
              ]
            ])
                ≡ some o)
        by_pkg none e bs = (none, refl)
        by_pkg (some pkg) e [] = (none, refl)
        by_pkg (some pkg) e (b ∷ rest) =
            elim (Bool-cases (func_exported fn || func_in P fn visiting)) [
              | inl q ↦ (none, rw q refl)
              | inr q ↦
                  let (o, k) =
                    by_scan (scan_callers P analyse fn (package_functions P pkg) none) (
                      scan_callers-fuel (package_functions P pkg) none
                        (all (ground arith) pkg e)) in
                  (o, rw q k)
            ]

    entry-ends :
        (visiting : List Func)
        → Callers visiting
        → (init : Held P) × (entry_hold P analyse fn visiting ≡ some init)
    unfolding entry_hold
    entry-ends visiting all =
        let (o, e) = inherited-ends visiting all in
        by_parts (wrapper_entry_hold P fn) o (inherited_entry_hold P analyse fn visiting) e
      where
        by_parts :
            (w : Option (Held P)) (o : Option (Held P)) (i : Option (Option (Held P)))
            → i ≡ some o
            → (init : Held P) × ((elim w [
              | some held ↦ some held
              | none ↦ elim i [ none ↦ none | some none ↦ some [] | some (some held) ↦ some held ]
            ])
                ≡ some init)
        by_parts (some held) o i e = (held, refl)
        by_parts none o none e = cc
        by_parts none o (some none) e = ([], refl)
        by_parts none o (some (some held)) e = (held, refl)

    results_of-ends :
        IsNumbered P (blocks fn)
        → ((caller : Func) (r : Results P) (i : Instr)
            → analyse caller ≡ some r
            → OptCapped P (r i))
        → (visiting : List Func) → Callers visiting
        → (r : Results P) × (results_of P analyse fn visiting ≡ some r)
    unfolding results_of
    results_of-ends numbered capped visiting all =
        let (init, e) = entry-ends visiting all in by_blocks (blocks fn) numbered init e
      where
        by_blocks :
            (bs : List Block)
            → IsNumbered P bs
            → (init : Held P) → entry_hold P analyse fn visiting ≡ some init
            → (r : Results P) × ((elim bs [
              | [] ↦ some (λ i. none)
              | entry ∷ rest ↦ elim (entry_hold P analyse fn visiting) [
                | none ↦ none
                | some init ↦ noted_of P analyse fn (hold_tables P entry (entry ∷ rest) init)
              ]
            ])
                ≡ some r)
        by_blocks [] n init e = (λ i. none, refl)
        by_blocks (entry ∷ rest) n init e =
            let c = entry-IsCapped P analyse fn capped visiting init e in
            let (t, q) = hold_tables_ends P entry (entry ∷ rest) init n c.0 c.1 in
            (t.noted, rw (e, q) refl)

  -- how many functions are not under way
  abbrev missing : List Func → ℕ
  missing visiting = length (reject (λ g. func_in P g visiting) all_funcs)

  missing_lt :
      (fn : Func) (visiting : List Func)
      → Memᴰ fn all_funcs
      → func_in P fn visiting ≡ false
      → missing (fn ∷ visiting) < missing visiting
  missing_lt fn visiting m e =
      reject_lt (λ g. func_in P g (fn ∷ visiting)) (λ g. func_in P g visiting) all_funcs fn
        (λ g h. ground arith) m e
        (let same = decides-true (func_discrete fn fn) refl in ground arith)

  -- Every function's blocks are numbered by their places, and the functions of a package are among
  -- those of the program.
  pub record IsClosed : Type 0 where
    pub numbered : (fn : Func) → IsNumbered P (blocks fn)
    pub in_program : (pkg : Pkg) (f : Func) → Memᴰ f (package_functions P pkg) → Memᴰ f all_funcs

  module _ (closed : IsClosed) where
    -- Fuel for every function that is not under way is enough.
    must_hold_from-ends :
        (f : ℕ) (visiting : List Func) (fn : Func)
        → Memᴰ fn all_funcs
        → missing visiting < f
        → (r : Results P) × (must_hold_from P f visiting fn ≡ some r)
    unfolding must_hold_from
    must_hold_from-ends zero visiting fn m h = absurd (omega arith)
    must_hold_from-ends (suc f) visiting fn m h =
        results_of-ends (must_hold_from P f (fn ∷ visiting)) fn (closed.numbered fn)
          (λ caller r i. must_hold_from-OptCapped P f (fn ∷ visiting) caller r i) visiting
          (λ out pkg e caller n.
            must_hold_from-ends f (fn ∷ visiting) caller (closed.in_program pkg caller n)
              (omega (arith, missing_lt fn visiting m out)))

    -- analyzeMustHold ends for every function of a program, through all the analyses of its
    -- callers and of their callers: the blocks of each function are numbered by their places, and
    -- the functions of a package are among those of the program.
    pub analyze_must_hold_ends :
        (fn : Func) → Memᴰ fn all_funcs → (r : Results P) × (analyze_must_hold P fn ≡ some r)
    unfolding analyze_must_hold
    analyze_must_hold_ends fn m =
        must_hold_from-ends (suc (suc (length all_funcs))) [] fn m
          (omega (arith, reject-bound (λ g. func_in P g []) all_funcs))
