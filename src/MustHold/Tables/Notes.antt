-- ===== src/MustHold/Tables/Notes.antt =====
-- The hold sets that the analysis notes are well-formed maps, with modes up to the exclusive one.
use safetylint.Base.{
  ℕ, ◌≡◌, ◌≤◌, subst, arith, List, [], ◌∷◌, some, Bool-cases, inl, inr, decides, if◌then◌else◌,
  true, false, length, set, get_or, get_or-set_all, get_or-replicate_all,
}
use mathlib.Core.Option.{some-injective}
use safetylint.Ssa.{Program}
use safetylint.Hold.{clone_guard_set, guard_set_equal, IsWf, get, hold_write}
use safetylint.Hold.Laws.{clone-IsWf, get-clone}
use safetylint.Hold.Acts.{Acts}
use safetylint.Guard.{GuardKey}
use safetylint.Sweep.Rule.{until_stable_inv}
use safetylint.Flow.{Tables, visit, same_out}
use safetylint.MustHold.Step.{key, Held, block_out, transfer_hold}
use safetylint.MustHold.Step.Keywise.{transfer_hold-Acts, block_out-Acts}
use safetylint.MustHold.Edge.Keywise.{tries_from_modes, AllModes, edge_hold-Acts}
use safetylint.MustHold.Tables.{
  Results, block_in, note_instrs, note_block, hold_tables, hold_fuel, top_tables, tries_in,
  all_instrs, universe,
}
use safetylint.MustHold.Tables.Meet.{block_in-IsWf}
use safetylint.MustHold.Tables.Wf.{universe_from-IsWf}
use safetylint.MustHold.Ends.Entry.{block_in_bound}
use safetylint.MustHold.Ends.Universe.{Acts-cap, universe-Exclusive}

module _ (P : Program) where
  open P use {Value, Instr, Block, instrs, index, instr_discrete}

  abbrev pub IsCapped : Held P → Type 0
  IsCapped x = IsWf (key P) x × ((k : GuardKey Value) → get (key P) x k ≤ hold_write)

  pub clone-IsCapped : (x : Held P) → IsCapped x → IsCapped (clone_guard_set (key P) x)
  clone-IsCapped x c =
      (clone-IsWf (key P) x c.0, λ k. omega (arith, get-clone (key P) x k c.0, c.1 k))

  step-IsCapped :
      (f : Held P → Held P) → Acts (key P) f → (x : Held P) → IsCapped x → IsCapped (f x)
  step-IsCapped f a x c = (a.keeps x c.0, λ k. Acts-cap (key P) f x k a c.0 (c.1 k))

  pub nil-IsCapped : IsCapped []
  unfolding get
  nil-IsCapped = (tt, λ k. omega arith)

  abbrev NotesCapped : Results P → Type 0
  NotesCapped r = (i : Instr) (h : Held P) → r i ≡ some h → IsCapped h

  note_instrs-NotesCapped :
      (is : List Instr) (held : Held P) (r : Results P)
      → IsCapped held
      → NotesCapped r
      → NotesCapped (note_instrs P is held r)
  unfolding note_instrs
  note_instrs-NotesCapped [] held r w n = n
  note_instrs-NotesCapped (i ∷ is) held r w n =
      note_instrs-NotesCapped is (transfer_hold P held i)
        (λ j. if decides (instr_discrete i j) then some (clone_guard_set (key P) held) else r j)
        (step-IsCapped (λ h. transfer_hold P h i) (transfer_hold-Acts P i) held w)
        (λ j h e. elim (Bool-cases (decides (instr_discrete i j))) [
          | inl q ↦ subst IsCapped (some-injective _ _ (rw q at e)) (clone-IsCapped held w)
          | inr q ↦ n j h (rw q at e)
        ])

  module _ (entry : Block) (bs : List Block) (init : Held P) (capped : IsCapped init) where
    modes : AllModes P (tries_in P bs)
    modes = tries_from_modes P (all_instrs P bs)

    abbrev start_of : List (Held P) → Block → Held P
    start_of = block_in P (tries_in P bs) entry init

    abbrev OutsCapped : List (Held P) → Type 0
    OutsCapped outs = (i : ℕ) → IsCapped (get_or outs i [])

    start-IsCapped :
        (outs : List (Held P)) (b : Block) → OutsCapped outs → IsCapped (start_of outs b)
    start-IsCapped outs b g = (
      block_in-IsWf P (tries_in P bs) modes entry init capped.0 outs (λ i. (g i).0) b,
      λ k.
          block_in_bound P k (tries_in P bs) modes entry init capped.0 outs (λ i. (g i).0) b
            hold_write (capped.1 k)
            (λ p m.
              Acts-cap (key P) _ _ k (edge_hold-Acts P (tries_in P bs) p b modes) (g (index p)).0
                ((g (index p)).1 k)),
    )

    abbrev AllCapped : Tables (Held P) (Results P) → Type 0
    AllCapped t = OutsCapped t.outs × NotesCapped t.noted

    visit-AllCapped :
        (b : Block) (t : Tables (Held P) (Results P))
        → AllCapped t
        → AllCapped
            (visit index (guard_set_equal (key P)) [] start_of (block_out P) (note_block P) b t).0
    unfolding visit note_block
    visit-AllCapped b t w =
        let wb = start-IsCapped t.outs b w.0 in
        (
          elim (same_out index (guard_set_equal (key P)) [] start_of (block_out P) (note_block P) t
                b)
              as (λ k.
                OutsCapped (
                  if k then t.outs else set t.outs (index b) (block_out P b (start_of t.outs b)))) [
                    | true ↦ w.0
                    | false ↦
                        get_or-set_all IsCapped t.outs (index b) _ [] w.0
                          (step-IsCapped _ (block_out-Acts P b) _ wb)
                  ],
          note_instrs-NotesCapped (instrs b) _ t.noted (clone-IsCapped _ wb) w.1,
        )

    all-IsCapped : IsCapped (universe P bs)
    unfolding get
    all-IsCapped = (
      universe_from-IsWf P (all_instrs P bs) [] tt,
      λ k.
          let full = universe-Exclusive P (all_instrs P bs) [] (λ j p. absurd (omega arith)) k in
          ground (arith, full),
    )

    pub noted-IsCapped :
        (t : Tables (Held P) (Results P))
        → hold_tables P entry bs init ≡ some t
        → NotesCapped t.noted
    unfolding hold_tables
    noted-IsCapped t ends =
        (until_stable_inv
          (visit index (guard_set_equal (key P)) [] start_of (block_out P) (note_block P))
          (λ b. Unit {0}) AllCapped (λ b s q h. visit-AllCapped b s h) bs (hold_fuel P bs init)
          (top_tables P entry bs init) t (λ b m. tt)
          (
            get_or-replicate_all IsCapped (length bs) _ [] (clone-IsCapped _ all-IsCapped)
                nil-IsCapped,
            λ i h e. cc,
          )
          ends).1
