-- ===== src/Guarded/Exclude.antt =====
-- Two accesses that a free-standing mutex guards stand on ways on which that mutex is locked.
use safetylint.Base.{
  ◌≡◌, ◌≤◌, ◌<◌, sym, ap, ◌∙◌, arith, Bool, true, List, [], ◌∷◌, ◌++◌, some, Memᴰ, ℕ, map,
}
use mathlib.Core.Option.{some-injective}
use safetylint.Ssa.{Program}
use safetylint.Hold.{get, mode_ok, hold_read, hold_write, IsWf}
use safetylint.Flow.{Tables}
use safetylint.MustHold.Step.{key, Held}
use safetylint.MustHold.Tables.{Results, hold_tables}
use safetylint.MustHold.Sound.{StandsOnce}
use safetylint.MustHold.Since.{HeldSince}
use safetylint.MustHold.Ways.{Way, Events, ran, event_gives, event_drops}
use safetylint.MustHold.Trace.{must_hold_since}
use safetylint.Access.{Access}
use safetylint.Guarded.{cell_key, free_standing_mutex_cells, free_standing_mutex_guards}
use safetylint.Guarded.Cells.{IsCellHeld, free_standing_mutex_guards_sound}

module _ (P : Program) (analyse : P.Func → Results P) where
  open P use {Value, Func, Block, Instr, instr_parent, blocks, instrs, preds}

  -- Control takes a way from the entry of the access's function to its instruction, and `analyse`
  -- has the results of `analyzeMustHold` for that function with those initial guards.
  pub record IsReached (acc : Access P) : Type 0 where
    pub parent : Func
    pub entry : Block
    pub init : Held P
    pub tables : Tables (Held P) (Results P)
    pub block : Block
    pub to_block : Events P (blocks parent)
    pub before : List Instr
    pub behind : List Instr
    pub has_parent : instr_parent acc.instr ≡ some parent
    pub ends : hold_tables P entry (blocks parent) init ≡ some tables
    pub has_results : analyse parent ≡ tables.noted
    pub init-IsWf : IsWf (key P) init
    pub no_preds : preds entry ≡ []
    pub way : Way P (blocks parent) entry block to_block
    pub is_block : Memᴰ block (blocks parent)
    pub place : instrs block ≡ before ++ acc.instr ∷ behind
    pub once : StandsOnce P entry (blocks parent) init block before acc.instr

  -- On the way to the access the cell was locked in the mode, or it was held from the start, and it
  -- was not given up since.
  abbrev pub HeldOnWay : {acc : Access P} → IsReached acc → ℕ → Value → Type 0
  HeldOnWay r mode cell =
      HeldSince (event_gives P (blocks r.parent) (cell_key P cell))
        (event_drops P (blocks r.parent) (cell_key P cell)) mode (r.to_block ++ map ran r.before)
        (get (key P) r.init (cell_key P cell))

  enough_to_write : (m : ℕ) (kind : Bool) → mode_ok m true kind ≡ true → hold_write ≤ m
  unfolding mode_ok
  enough_to_write m kind h = ground arith

  enough_to_read : (m : ℕ) (write kind : Bool) → mode_ok m write kind ≡ true → hold_read ≤ m
  unfolding mode_ok
  enough_to_read m write kind h = ground arith

  -- What the results say of a cell holds on the way to the access.
  reached-HeldOnWay :
      (acc : Access P) (kind : Bool) (cell : Value) (mode : ℕ)
      → 0 < mode
      → mode ≤ hold_write
      → (r : IsReached acc) (c : IsCellHeld P analyse kind cell acc)
      → mode ≤ get (key P) c.held (cell_key P cell)
      → HeldOnWay r mode cell
  reached-HeldOnWay acc kind cell mode pos le r c h =
      let parents : c.parent ≡ r.parent = some-injective _ _ (sym c.has_parent ∙ r.has_parent) in
      let noted : r.tables.noted acc.instr ≡ some c.held =
        sym (ap (λ t. t acc.instr) r.has_results)
        ∙ ap (λ f. analyse f acc.instr) (sym parents)
        ∙ c.has_held in
      must_hold_since P (blocks r.parent) mode pos le (cell_key P cell) r.entry r.init r.tables
        r.ends r.init-IsWf r.no_preds r.block r.to_block r.before r.behind acc.instr r.way
        r.is_block r.place r.once c.held noted h

  -- Of two accesses that freeStandingMutexGuards accepts, the first a write, there is one mutex
  -- among the candidates for which the following holds of the ways that control takes from the
  -- entries of their functions to the two accesses. On the way to the first the mutex was locked
  -- exclusively and not given up since, or it was held exclusively by the initial guards of the
  -- analysis and not given up at all; on the way to the second likewise, in some mode. The results
  -- that the test reads are those of analyzeMustHold with well-formed initial guards, for functions
  -- whose entry has no predecessor and whose blocks hold the accesses' instructions once.
  pub free_standing_mutex_guards_exclude :
      (accs : List (Access P)) (funcs : List Func) (kind : Bool) (a b : Access P)
      → free_standing_mutex_guards P analyse accs funcs kind ≡ true
      → Memᴰ a accs
      → Memᴰ b accs
      → a.write ≡ true
      → (at_a : IsReached a) (at_b : IsReached b)
      → (cell : Value) × Memᴰ cell (free_standing_mutex_cells P funcs kind)
        × HeldOnWay at_a hold_write cell
        × HeldOnWay at_b hold_read cell
  free_standing_mutex_guards_exclude accs funcs kind a b h m n w at_a at_b =
      let (cell, c, all) = free_standing_mutex_guards_sound P analyse accs funcs kind h in
      let ha = all a m in
      let hb = all b n in
      let full =
        enough_to_write (get (key P) ha.held (cell_key P cell)) kind (rw w at ha.is_enough) in
      let some_hold =
        enough_to_read (get (key P) hb.held (cell_key P cell)) b.write kind hb.is_enough in
      (
        cell,
        c,
        reached-HeldOnWay a kind cell hold_write (omega arith) (omega arith) at_a ha full,
        reached-HeldOnWay b kind cell hold_read (omega arith) (omega arith) at_b hb some_hold,
      )
