-- ===== src/MustHold/Ends.antt =====
-- The fixed point of `analyzeMustHold` ends within its fuel.
pub mod Zero
pub mod Entry
pub mod Level
pub mod Universe
use safetylint.Base.{
  ℕ, zero, suc, ◌≡◌, ◌≤◌, ◌<◌, ◌+◌, ◌*◌, refl, sym, subst, ap, arith, Bool, true, false, List, [],
  ◌∷◌, ◌++◌, Option, none, some, Memᴰ, get_or, replicate, length, length-set, decides,
  if◌then◌else◌, inl, inr,
}
use mathlib.Core.List.Memᴰ
use safetylint.Ssa.{Program, IsNumbered, CallCommon, InstrView, call, defer}
use safetylint.Hold.{get, put, clone_guard_set, guard_set_equal, IsWf, hold_write}
use safetylint.Hold.Laws.{get-put, get-clone, clone-IsWf}
use safetylint.Hold.Equal.{guard_set_equal_iff}
use safetylint.Hold.Acts.{Acts}
use safetylint.Flow.{Tables}
use safetylint.Flow.Ends.{IsMonotone, IsDescending, flow_ends_within}
use safetylint.Guard.{GuardKey, lock_unlock_guard}
use safetylint.MustHold.Step.{key, Held, run_instrs, block_out}
use safetylint.MustHold.Step.Keywise.{block_out-Acts}
use safetylint.MustHold.Edge.{TryAcq, edge_hold, tries_from}
use safetylint.MustHold.Edge.Keywise.{AllModes, tries_from_modes, edge_hold-Acts}
use safetylint.MustHold.Tables.{
  Results, add_guard, universe_from, block_in, note_block, all_instrs, universe, tries_in,
  top_tables, hold_fuel, hold_tables,
}
use safetylint.MustHold.Tables.Meet.{TableWf, block_in-IsWf}
use safetylint.MustHold.Tables.Wf.{universe_from-IsWf}
use safetylint.MustHold.Ends.Zero.{universe_zero, run_instrs_zero, Untouched}
use safetylint.MustHold.Ends.Entry.{tries_from-OtherTries, edge_zero, block_in_bound, block_in_mono}
use safetylint.MustHold.Ends.Universe.{
  Acts-key, Acts-cap, Exclusive, universe-Exclusive, in_all_instrs,
}
use safetylint.MustHold.Ends.Level.{IsGood, IsBelow, level, level_le, level_lt, level_bound}

module _ (P : Program) where
  open P use {Value, Func, Instr, Block, instrs, preds, index, instr_view}

  module _ (entry : Block) (bs : List Block) (init : Held P) (numbered : IsNumbered P bs)
      (wf_init : IsWf (key P) init)
      (cap_init : (k : GuardKey Value) → get (key P) init k ≤ hold_write) where
    abbrev all_guards : Held P
    all_guards = universe P bs

    modes : AllModes P (tries_in P bs)
    modes = tries_from_modes P (all_instrs P bs)

    untouched :
        (k : GuardKey Value)
        → get (key P) all_guards k ≡ 0
        → (i : Instr) → Memᴰ i (all_instrs P bs)
        → Untouched P k i
    untouched k z = (universe_zero P k (all_instrs P bs) [] z).1

    abbrev Good : Held P → Type 0
    Good = IsGood (key P) all_guards init

    abbrev Below : Held P → Held P → Type 0
    Below = IsBelow (key P) all_guards init

    abbrev start_of : List (Held P) → Block → Held P
    start_of = block_in P (tries_in P bs) entry init

    start-IsGood :
        (outs : List (Held P)) (b : Block)
        → ((i : ℕ) → Good (get_or outs i []))
        → Good (start_of outs b)
    start-IsGood outs b g = record {
      wf = block_in-IsWf P (tries_in P bs) modes entry init wf_init outs (λ i. (g i).wf) b;
      cap = λ k.
          block_in_bound P k (tries_in P bs) modes entry init wf_init outs (λ i. (g i).wf) b
            hold_write (cap_init k)
            (λ p m.
              Acts-cap (key P) _ _ k (edge_hold-Acts P (tries_in P bs) p b modes) (g (index p)).wf
                ((g (index p)).cap k));
      known = λ k u z.
          let le =
            block_in_bound P k (tries_in P bs) modes entry init wf_init outs (λ i. (g i).wf) b 0
              (omega (arith, z))
              (λ p m. omega (
                arith,
                edge_zero P k (tries_in P bs) p b (get_or outs (index p) [])
                    (tries_from-OtherTries P k (all_instrs P bs) (untouched k u)) (g (index p)).wf
                    ((g (index p)).known k u z),
              )) in
          omega (arith, le);
    }

    run-IsGood : (b : Block) (x : Held P) → Memᴰ b bs → Good x → Good (block_out P b x)
    run-IsGood b x m g = record {
      wf = (block_out-Acts P b).keeps x g.wf;
      cap = λ k. Acts-cap (key P) _ x k (block_out-Acts P b) g.wf (g.cap k);
      known = λ k u z.
          unfold block_out in
          run_instrs_zero P k (instrs b) (clone_guard_set (key P) x)
            (λ i n. untouched k u i (in_all_instrs P bs b i m n)) (clone-IsWf (key P) x g.wf)
            (omega (arith, get-clone (key P) x k g.wf, g.known k u z));
    }

    start-IsBelow :
        (us vs : List (Held P)) (b : Block)
        → ((i : ℕ) → Good (get_or us i []))
        → ((i : ℕ) → Good (get_or vs i []))
        → ((c : Block) → Memᴰ c bs → Below (get_or us (index c) []) (get_or vs (index c) []))
        → Memᴰ b bs
        → Below (start_of us b) (start_of vs b)
    start-IsBelow us vs b gu gv le m = record {
      loses = λ k u.
          block_in_mono P k (tries_in P bs) modes entry init wf_init us vs (λ i. (gu i).wf)
            (λ i. (gv i).wf) b
            (λ p n.
              Acts-key (key P) _ _ _ k (edge_hold-Acts P (tries_in P bs) p b modes)
                (gu (index p)).wf (gv (index p)).wf ((le p (numbered.preds_in b p m n)).loses k u));
      gains = λ k u.
          block_in_mono P k (tries_in P bs) modes entry init wf_init vs us (λ i. (gv i).wf)
            (λ i. (gu i).wf) b
            (λ p n.
              Acts-key (key P) _ _ _ k (edge_hold-Acts P (tries_in P bs) p b modes)
                (gv (index p)).wf (gu (index p)).wf ((le p (numbered.preds_in b p m n)).gains k u));
    }

    monotone :
        IsMonotone index
          (guard_set_equal (key P))
          []
          start_of
          (block_out P)
          (note_block P)
          bs
          Below
          Good
          (level (key P) all_guards init)
    monotone = record {
      unique = numbered.unique;
      le_self = λ x. record { loses = λ k u. omega arith; gains = λ k u. omega arith };
      le_after = λ x y z a b. record {
        loses = λ k u. omega (arith, a.loses k u, b.loses k u);
        gains = λ k u. omega (arith, a.gains k u, b.gains k u);
      };
      same_self = λ x g. (guard_set_equal_iff (key P) x x g.wf g.wf).1 (λ k. refl);
      level_lt = λ x y gx gy b h. level_lt (key P) all_guards init x y gx gy b h;
      level_le = λ x y gx gy b. level_le (key P) all_guards init x y gx gy b;
      entry_good = λ outs b g m. start-IsGood outs b g;
      run_good = run-IsGood;
      entry_mono = start-IsBelow;
      run_mono = λ b x y gx gy le. record {
        loses = λ k u. Acts-key (key P) _ x y k (block_out-Acts P b) gx.wf gy.wf (le.loses k u);
        gains = λ k u. Acts-key (key P) _ y x k (block_out-Acts P b) gy.wf gx.wf (le.gains k u);
      };
    }

    abbrev top : Held P
    top = clone_guard_set (key P) all_guards

    IsWf-all : IsWf (key P) all_guards
    IsWf-all = universe_from-IsWf P (all_instrs P bs) [] tt

    exclusive : Exclusive P all_guards
    unfolding get
    exclusive = universe-Exclusive P (all_instrs P bs) [] (λ k p. absurd (omega arith))

    top-IsGood : Good top
    top-IsGood = record {
      wf = clone-IsWf (key P) all_guards IsWf-all;
      cap = λ k.
          let same = get-clone (key P) all_guards k IsWf-all in
          let full = exclusive k in ground (arith, same, full);
      known = λ k u z. omega (arith, get-clone (key P) all_guards k IsWf-all, u);
    }

    nothing-IsGood : Good []
    unfolding get
    nothing-IsGood = record { wf = tt; cap = λ k. omega arith; known = λ k u z. refl }

    replicate-IsGood : (n i : ℕ) → Good (get_or (replicate n top) i [])
    replicate-IsGood zero i = nothing-IsGood
    replicate-IsGood (suc n) zero = top-IsGood
    replicate-IsGood (suc n) (suc i) = replicate-IsGood n i

    get_or-replicate : (n i : ℕ) → i < n → get_or (replicate n top) i [] ≡ top
    get_or-replicate zero i h = absurd (omega arith)
    get_or-replicate (suc n) zero h = refl
    get_or-replicate (suc n) (suc i) h = get_or-replicate n i (omega arith)

    length-replicate : (n : ℕ) → length (replicate n top) ≡ n
    length-replicate zero = refl
    length-replicate (suc n) = ap suc (length-replicate n)

    Below-top : (x : Held P) → Good x → Below x top
    Below-top x g = record {
      loses = λ k u. omega (arith, get-clone (key P) all_guards k IsWf-all, exclusive k u, g.cap k);
      gains = λ k u. omega (arith, get-clone (key P) all_guards k IsWf-all, u);
    }

    descending :
        IsDescending index
          (guard_set_equal (key P))
          []
          start_of
          (block_out P)
          (note_block P)
          bs
          Below
          Good
          (level (key P) all_guards init)
          (top_tables P entry bs init)
    descending = record {
      ins_room = λ b m. omega (
        arith,
        length-set (replicate (length bs) top) (index entry) init,
        length-replicate (length bs),
        numbered.in_range b m,
      );
      outs_room = λ b m. omega (arith, length-replicate (length bs), numbered.in_range b m);
      good = replicate-IsGood (length bs);
      descends = λ b m.
          subst (Below _) (sym (get_or-replicate (length bs) (index b) (numbered.in_range b m)))
            (Below-top _ (run-IsGood b _ m (start-IsGood _ b (replicate-IsGood (length bs)))));
    }

    -- The fixed point of the analysis ends within its fuel, for every function whose blocks are
    -- numbered by their places and have their predecessors among them, and for every well-formed
    -- map of initial guards with modes up to the exclusive one.
    pub hold_tables_ends :
        (t : Tables (Held P) (Results P)) × (hold_tables P entry bs init ≡ some t)
    unfolding hold_tables
    hold_tables_ends =
        flow_ends_within index (guard_set_equal (key P)) [] start_of (block_out P) (note_block P) bs
          Below Good (level (key P) all_guards init) monotone (hold_fuel P bs init)
          (2 * length (all_guards ++ init)) (top_tables P entry bs init) descending
          (λ b m. level_bound (key P) all_guards init _ (replicate-IsGood (length bs) (index b)))
          (omega arith)
