-- ===== src/MayUnlock/Grown.antt =====
-- What the search of calleeMayUnlock knows of the functions that it has visited: none of their calls
-- releases the guard, and the functions that they enter are visited too.
use safetylint.Base.{
  ℕ, zero, suc, ◌≡◌, refl, sym, subst, ◌∙◌, arith, true, false, List, [], ◌∷◌, Option, none, some,
  Memᴰ, Bool-cases, inl, inr, decides-true, decides-false,
}
use mathlib.Core.List.Memᴰ
use mathlib.Core.Option.{some-injective}
use safetylint.Ssa.{Program, CallCommon}
use safetylint.Calls.{call_common_of}
use safetylint.Guard.{GuardKey}
use safetylint.MayUnlock.{
  Verdict, unlocks, out_of_fuel, keeps, visited_has, CallSort, harmless, releasing, enters,
  call_sort, scan_call, scan_instr, scan_instrs, scan_blocks, may_unlock_from,
}

module _ (P : Program) (g : GuardKey P.Value) where
  open P use {Value, Func, Instr, Block, instr_view, instrs, blocks, func_discrete, all_funcs}

  abbrev pub In : List Func → Func → Type 0
  In vs f = visited_has P vs f ≡ true

  -- The call releases nothing, and the function that it enters is visited.
  abbrev pub Calm : List Func → CallSort P → Type 0
  Calm ws harmless = Unit {0}
  Calm ws releasing = ⊥
  Calm ws (enters f) = In ws f

  abbrev pub CalmInstr : List Func → Instr → Type 0
  CalmInstr ws i =
      (c : CallCommon Value Func)
      → call_common_of (instr_view i) ≡ some c
      → Calm ws (call_sort P g c)

  abbrev pub CalmBlocks : List Func → List Block → Type 0
  CalmBlocks ws bs = (b : Block) → Memᴰ b bs → (i : Instr) → Memᴰ i (instrs b) → CalmInstr ws i

  -- More functions are visited, and the new ones are calm.
  pub record Grown (vs ws : List Func) : Type 0 where
    pub old : (f : Func) → In vs f → In ws f
    pub new : (f : Func) → In ws f → visited_has P vs f ≡ false → CalmBlocks ws (blocks f)

  Calm-more :
      (us ws : List Func)
      → ((f : Func) → In us f → In ws f)
      → (s : CallSort P) → Calm us s
      → Calm ws s
  Calm-more us ws more harmless c = tt
  Calm-more us ws more releasing c = c
  Calm-more us ws more (enters f) c = more f c

  Grown-self : (vs : List Func) → Grown vs vs
  Grown-self vs = record { old = λ f m. m; new = λ f m n. absurd (differ (sym m ∙ n)) }
    where
      differ : true ≡ false → ⊥
      differ e = cc

  Grown-then : (us vs ws : List Func) → Grown us vs → Grown vs ws → Grown us ws
  Grown-then us vs ws a b = record {
    old = λ f m. b.old f (a.old f m);
    new = λ f m n. elim (Bool-cases (visited_has P vs f)) [
      | inl e ↦ λ c mc i mi k q. Calm-more vs ws b.old _ (a.new f e n c mc i mi k q)
      | inr e ↦ b.new f m e
    ];
  }

  kept :
      (v : Verdict Func) (next : List Func → Verdict Func) (ws : List Func)
      → (elim v [ keeps us ↦ next us | unlocks ↦ unlocks | out_of_fuel ↦ out_of_fuel ]) ≡ keeps ws
      → (us : List Func) × (v ≡ keeps us) × (next us ≡ keeps ws)
  kept (keeps us) next ws e = (us, refl, e)
  kept unlocks next ws e = cc
  kept out_of_fuel next ws e = cc

  keeps_same : (us ws : List Func) → keeps us ≡ keeps ws → us ≡ ws
  keeps_same us ws e = cc

  module _ (enter : Func → List Func → Verdict Func)
      (good : (f : Func) (vs ws : List Func) → enter f vs ≡ keeps ws → Grown vs ws × In ws f) where
    scan_call-Grown :
        (s : CallSort P) (vs ws : List Func)
        → scan_call P g enter s vs ≡ keeps ws
        → Grown vs ws × Calm ws s
    unfolding scan_call
    scan_call-Grown harmless vs ws e = (subst (Grown vs) (keeps_same vs ws e) (Grown-self vs), tt)
    scan_call-Grown releasing vs ws e = cc
    scan_call-Grown (enters f) vs ws e = good f vs ws e

    scan_instr-Grown :
        (i : Instr) (vs ws : List Func)
        → scan_instr P g enter i vs ≡ keeps ws
        → Grown vs ws × CalmInstr ws i
    unfolding scan_instr
    scan_instr-Grown i vs ws = by_call (call_common_of (instr_view i))
      where
        by_call :
            (o : Option (CallCommon Value Func))
            → (elim o [ none ↦ keeps vs | some c ↦ scan_call P g enter (call_sort P g c) vs ])
              ≡ keeps ws
            → Grown vs ws × ((c : CallCommon Value Func) → o ≡ some c → Calm ws (call_sort P g c))
        by_call none e = (subst (Grown vs) (keeps_same vs ws e) (Grown-self vs), λ c q. cc)
        by_call (some k) e =
            let (grown, calm) = scan_call-Grown (call_sort P g k) vs ws e in
            (grown, λ c q. subst (λ x. Calm ws (call_sort P g x)) (some-injective _ _ q) calm)

    scan_instrs-Grown :
        (is : List Instr) (vs ws : List Func)
        → scan_instrs P g enter is vs ≡ keeps ws
        → Grown vs ws × ((i : Instr) → Memᴰ i is → CalmInstr ws i)
    unfolding scan_instrs
    scan_instrs-Grown [] vs ws e =
        (subst (Grown vs) (keeps_same vs ws e) (Grown-self vs), λ i m. absurd (Memᴰ.not-nil m))
    scan_instrs-Grown (j ∷ is) vs ws e =
        let (us, at_j, rest) = kept (scan_instr P g enter j vs) (scan_instrs P g enter is) ws e in
        let (grown, calm) = scan_instr-Grown j vs us at_j in
        let (more, calms) = scan_instrs-Grown is us ws rest in
        (
          Grown-then vs us ws grown more,
          λ i m. elim (Memᴰ.cases_cons m) [
            | inl same ↦ λ c q.
                Calm-more us ws more.old _
                  (calm c (subst (λ x. call_common_of (instr_view x) ≡ some c) same q))
            | inr n ↦ calms i n
          ],
        )

    scan_blocks-Grown :
        (bs : List Block) (vs ws : List Func)
        → scan_blocks P g enter bs vs ≡ keeps ws
        → Grown vs ws × CalmBlocks ws bs
    unfolding scan_blocks
    scan_blocks-Grown [] vs ws e =
        (subst (Grown vs) (keeps_same vs ws e) (Grown-self vs), λ b m. absurd (Memᴰ.not-nil m))
    scan_blocks-Grown (a ∷ bs) vs ws e =
        let (us, at_a, rest) =
          kept (scan_instrs P g enter (instrs a) vs) (scan_blocks P g enter bs) ws e in
        let (grown, calm) = scan_instrs-Grown (instrs a) vs us at_a in
        let (more, calms) = scan_blocks-Grown bs us ws rest in
        (
          Grown-then vs us ws grown more,
          λ b m. elim (Memᴰ.cases_cons m) [
            | inl same ↦ λ i n c q.
                Calm-more us ws more.old _ (calm i (subst (λ x. Memᴰ i (instrs x)) same n) c q)
            | inr n ↦ calms b n
          ],
        )

  entered :
      (fn : Func) (vs ws : List Func)
      → Grown (fn ∷ vs) ws
      → CalmBlocks ws (blocks fn)
      → Grown vs ws × In ws fn
  unfolding visited_has
  entered fn vs ws grown calm = (
    record {
      old = λ f m. grown.old f (ground arith);
      new = λ f m n. elim (func_discrete fn f) [
        | yes same ↦ subst (λ x. CalmBlocks ws (blocks x)) same calm
        | no other ↦
            grown.new f m (let off = decides-false (func_discrete fn f) other in ground arith)
      ];
    },
    grown.old fn (let on = decides-true (func_discrete fn fn) refl in ground arith),
  )

  pub may_unlock_from-Grown :
      (n : ℕ) (fn : Func) (vs ws : List Func)
      → may_unlock_from P g n fn vs ≡ keeps ws
      → Grown vs ws × In ws fn
  unfolding may_unlock_from
  may_unlock_from-Grown zero fn vs ws e = cc
  may_unlock_from-Grown (suc n) fn vs ws e = elim (Bool-cases (visited_has P vs fn)) [
    | inl seen ↦
        let same = keeps_same vs ws (rw seen at e) in
        (subst (Grown vs) same (Grown-self vs), subst (λ x. In x fn) same seen)
    | inr fresh ↦
        let (grown, calm) =
          scan_blocks-Grown (may_unlock_from P g n) (may_unlock_from-Grown n) (blocks fn) (fn ∷ vs)
            ws (rw fresh at e) in
        entered fn vs ws grown calm
  ]
