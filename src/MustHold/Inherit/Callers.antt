-- ===== src/MustHold/Inherit/Callers.antt =====
-- What a scan of the callers ends with is no more than is held before any call.
use safetylint.Base.{
  ◌≡◌, ◌≢◌, refl, sym, ap, ◌∙◌, subst, true, List, [], ◌∷◌, Option, some, Memᴰ, Bool-cases,
  Option-cases, inl, inr, decides-true, decides-false,
}
use mathlib.Core.List.Memᴰ
use safetylint.Ssa.{Program}
use safetylint.MustHold.Step.{Held}
use safetylint.MustHold.Tables.{Results, all_instrs}
use safetylint.MustHold.Inherit.{
  Scan, no_hold, out_of_fuel, so_far, calls_func, scan_call, scan_caller, scan_callers,
}
use safetylint.MustHold.Inherit.Met.{OptCapped, Lower, Lower-refl, Lower-trans, meet_held-Met}

module _ (P : Program) where
  open P use {Func, Instr, Pkg, blocks, func_pkg, func_exported, func_discrete}

  module _ (analyse : Func → Option (Results P)) (fn : Func)
      (results_wf : (caller : Func) (r : Results P) (i : Instr)
        → analyse caller ≡ some r
        → OptCapped P (r i)) where
    -- A call's caller was analysed, and the hold before the call is no less than what is common.
    pub record IsCovered (caller : Func) (i : Instr) (acc : Option (Held P)) : Type 0 where
      pub results : Results P
      pub held : Held P
      pub is_analysed : analyse caller ≡ some results
      pub is_held : results i ≡ some held
      pub below : Lower P acc (some held)

    Lower-IsCovered :
        (caller : Func) (i : Instr) (a b : Option (Held P))
        → Lower P b a
        → IsCovered caller i a
        → IsCovered caller i b
    Lower-IsCovered caller i a b h c = record {
      results = c.results;
      held = c.held;
      is_analysed = c.is_analysed;
      is_held = c.is_held;
      below = Lower-trans P b a (some c.held) h c.below;
    }

    scan_call-covers :
        (caller : Func) (i : Instr) (acc next : Option (Held P))
        → scan_call P analyse fn caller i acc ≡ so_far next
        → OptCapped P acc
        → IsCovered caller i next × Lower P next acc × OptCapped P next
    unfolding scan_call
    scan_call-covers caller i acc next h wa = elim (Option-cases (analyse caller)) [
      | inl e ↦ cc (rw (e, scan_call) at h)
      | inr (r, e) ↦
          let met =
            meet_held-Met P acc (r i) next (rw (e, scan_call) at h) wa (results_wf caller r i e) in
          (
            record {
              results = r;
              held = met.held;
              is_analysed = e;
              is_held = met.is_held;
              below = subst (λ z. Lower P z (some met.held)) (sym met.is_next) met.below;
            },
            met.lower,
            subst (OptCapped P) (sym met.is_next) met.next_capped,
          )
    ]

    -- Every call among the instructions is covered by what is common behind them.
    abbrev Covers : Func → List Instr → Option (Held P) → Option (Held P) → Type 0
    Covers caller is acc next =
        ((i : Instr) → Memᴰ i is → calls_func P fn i ≡ true → IsCovered caller i next)
        × Lower P next acc
        × OptCapped P next

    scan_first-Covers :
        (caller : Func) (i : Instr) (is : List Instr) (acc next : Option (Held P))
        → ((mid : Option (Held P))
            → scan_caller P analyse fn caller is mid ≡ so_far next
            → OptCapped P mid
            → Covers caller is mid next)
        → OptCapped P acc
        → (o : Scan (Held P)) → scan_call P analyse fn caller i acc ≡ o
        → (elim o [
          | no_hold ↦ no_hold
          | out_of_fuel ↦ out_of_fuel
          | so_far acc' ↦ scan_caller P analyse fn caller is acc'
        ])
          ≡ so_far next
        → Covers caller (i ∷ is) acc next
    scan_first-Covers caller i is acc next again wa no_hold q k = cc
    scan_first-Covers caller i is acc next again wa out_of_fuel q k = cc
    scan_first-Covers caller i is acc next again wa (so_far mid) q k =
        let (here, low, wm) = scan_call-covers caller i acc mid q wa in
        let (all, low', wf) = again mid k wm in
        (
          λ j m c. elim (Memᴰ.cases_cons m) [
            | inl same ↦
                subst (λ z. IsCovered caller z next) (sym same)
                  (Lower-IsCovered caller i mid next low' here)
            | inr n ↦ all j n c
          ],
          Lower-trans P next mid acc low' low,
          wf,
        )

    scan_caller-Covers :
        (caller : Func) (is : List Instr) (acc next : Option (Held P))
        → scan_caller P analyse fn caller is acc ≡ so_far next
        → OptCapped P acc
        → Covers caller is acc next
    unfolding scan_caller
    scan_caller-Covers caller [] acc next h wa =
        let e : acc ≡ next = cc in
        (
          λ i m. absurd (Memᴰ.not-nil m),
          subst (λ z. Lower P z acc) e (Lower-refl P acc),
          subst (OptCapped P) e wa,
        )
    scan_caller-Covers caller (i ∷ is) acc next h wa = elim (Bool-cases (calls_func P fn i)) [
      | inr e ↦
          let (all, low, wf) = scan_caller-Covers caller is acc next (rw e at h) wa in
          (
            λ j m c. elim (Memᴰ.cases_cons m) [
              | inl q ↦ cc (e, ap (calls_func P fn) q, c)
              | inr n ↦ all j n c
            ],
            low,
            wf,
          )
      | inl e ↦
          scan_first-Covers caller i is acc next (λ mid. scan_caller-Covers caller is mid next) wa
            (scan_call P analyse fn caller i acc) refl (rw e at h)
    ]

    -- Every call in one of the callers is covered.
    abbrev CoversAll : List Func → Option (Held P) → Option (Held P) → Type 0
    CoversAll callers acc next =
        ((caller : Func)
          → Memᴰ caller callers
          → caller ≢ fn
          → (i : Instr) → Memᴰ i (all_instrs P (blocks caller))
          → calls_func P fn i ≡ true
          → IsCovered caller i next)
        × Lower P next acc
        × OptCapped P next

    scan_more-covers :
        (caller : Func) (callers : List Func) (acc next : Option (Held P))
        → ((mid : Option (Held P))
            → scan_callers P analyse fn callers mid ≡ so_far next
            → OptCapped P mid
            → CoversAll callers mid next)
        → OptCapped P acc
        → (o : Scan (Held P))
        → scan_caller P analyse fn caller (all_instrs P (blocks caller)) acc ≡ o
        → (elim o [
          | no_hold ↦ no_hold
          | out_of_fuel ↦ out_of_fuel
          | so_far acc' ↦ scan_callers P analyse fn callers acc'
        ])
          ≡ so_far next
        → CoversAll (caller ∷ callers) acc next
    scan_more-covers caller callers acc next again wa no_hold q k = cc
    scan_more-covers caller callers acc next again wa out_of_fuel q k = cc
    scan_more-covers caller callers acc next again wa (so_far mid) q k =
        let (here, low, wm) =
          scan_caller-Covers caller (all_instrs P (blocks caller)) acc mid q wa in
        let (all, low', wf) = again mid k wm in
        (
          λ other m ne i mi c. elim (Memᴰ.cases_cons m) [
            | inl same ↦
                subst (λ z. IsCovered z i next) (sym same)
                  (Lower-IsCovered caller i mid next low'
                    (here i (subst (λ z. Memᴰ i (all_instrs P (blocks z))) same mi) c))
            | inr n ↦ all other n ne i mi c
          ],
          Lower-trans P next mid acc low' low,
          wf,
        )

    pub scan_callers-covers :
        (callers : List Func) (acc next : Option (Held P))
        → scan_callers P analyse fn callers acc ≡ so_far next
        → OptCapped P acc
        → CoversAll callers acc next
    unfolding scan_callers
    scan_callers-covers [] acc next h wa =
        let e : acc ≡ next = cc in
        (
          λ caller m. absurd (Memᴰ.not-nil m),
          subst (λ z. Lower P z acc) e (Lower-refl P acc),
          subst (OptCapped P) e wa,
        )
    scan_callers-covers (caller ∷ callers) acc next h wa = elim (func_discrete caller fn) [
      | yes e ↦
          let (all, low, wf) =
            scan_callers-covers callers acc next
              (rw (decides-true (func_discrete caller fn) e) at h) wa in
          (
            λ other m ne. elim (Memᴰ.cases_cons m) [
              | inl q ↦ absurd (ne (q ∙ e))
              | inr n ↦ all other n ne
            ],
            low,
            wf,
          )
      | no ne ↦
          scan_more-covers caller callers acc next (λ mid. scan_callers-covers callers mid next) wa
            (scan_caller P analyse fn caller (all_instrs P (blocks caller)) acc) refl
            (rw (decides-false (func_discrete caller fn) ne) at h)
    ]
