-- ===== src/MustHold/Trace.antt =====
-- What the analysis claims against the ways that control can take through a function.
use safetylint.Base.{
  ℕ, ◌≤◌, ◌<◌, ◌≡◌, sym, ap, ◌∙◌, arith, Bool, true, false, List, [], ◌∷◌, ◌++◌, Memᴰ, Option, none,
  some, decides, if◌then◌else◌, map, max,
}
use mathlib.Core.Option.{some-injective}
use safetylint.Ssa.{Program}
use safetylint.Hold.{get, clone_guard_set, strengthen_hold, IsWf, hold_write}
use safetylint.Hold.Laws.{get-clone, get-strengthen}
use safetylint.Guard.{GuardKey}
use safetylint.Flow.{Tables}
use safetylint.MustHold.Ways.{
  Event, Events, Way, entered, ran, passed, act, tested, is_next, won_by, won, mode_of, event_gives,
  event_drops, act-IsWf, after-ran, Way-Arrives,
}
use safetylint.MustHold.Since.{
  Turn, Turn-keep, Turn-raise, HeldSince, held_iff_since, after, after-append,
}
use safetylint.MustHold.Step.{key, Held}
use safetylint.MustHold.Step.Turns.{transfer-Turn}
use safetylint.MustHold.Edge.{TryAcq, on_branch, edge_hold, branch_cond}
use safetylint.MustHold.Tables.{Results, hold_tables, tries_in}
use safetylint.MustHold.Sound.{StandsOnce, must_hold_sound}

module _ (P : Program) (bs : List P.Block) where
  open P use {Value, Instr, Block, instrs, preds, succs}

  module _ (mode : ℕ) (pos : 0 < mode) (le : mode ≤ hold_write) (k : GuardKey Value) where
    edge-Turn :
        (p b : Block) (h : Held P)
        → IsWf (key P) h
        → Turn mode
            (mode_of P bs k (won P bs p b))
            false
            (get (key P) h k)
            (get (key P) (edge_hold P (tries_in P bs) p b h) k)
    unfolding edge_hold on_branch
    edge-Turn p b h w = by_cond (branch_cond P (instrs p))
      where
        same : get (key P) (clone_guard_set (key P) h) k ≡ get (key P) h k
        same = get-clone (key P) h k w

        raised :
            (acq : TryAcq Value)
            → Turn mode (mode_of P bs k (some acq)) false (get (key P) h k) (
                get
                  (key P)
                  (strengthen_hold (key P) (clone_guard_set (key P) h) acq.guard acq.mode)
                  k)
        raised acq =
            by_key (decides (key P acq.guard k))
              (get-strengthen (key P) (clone_guard_set (key P) h) acq.guard k acq.mode)
          where
            by_key :
                {n : ℕ} (d : Bool)
                → n ≡ (
                    if d
                    then max acq.mode (get (key P) (clone_guard_set (key P) h) k)
                    else get (key P) (clone_guard_set (key P) h) k)
                → Turn mode (if d then acq.mode else 0) false (get (key P) h k) n
            by_key true e = Turn-raise mode pos _ _ acq.mode (e ∙ ap (max acq.mode) same)
            by_key false e = Turn-keep mode pos _ _ (e ∙ same)

        by_side :
            (acq : TryAcq Value) (side : Bool)
            → Turn mode (mode_of P bs k (if side then some acq else none)) false (get (key P) h k) (
                get
                  (key P)
                  (if side
                    then strengthen_hold (key P) (clone_guard_set (key P) h) acq.guard acq.mode
                    else clone_guard_set (key P) h)
                  k)
        by_side acq true = raised acq
        by_side acq false = Turn-keep mode pos _ _ same

        by_acq :
            (o : Option (TryAcq Value × Bool))
            → Turn mode
                (mode_of P bs k (won_by P bs p b o))
                false
                (get (key P) h k)
                (get (key P) (on_branch P p b o (clone_guard_set (key P) h)) k)
        by_acq none = Turn-keep mode pos _ _ same
        by_acq (some (acq, pos)) = by_side acq (is_next P bs p b pos)

        by_cond :
            (c : Option Value)
            → Turn mode
                (mode_of P bs k
                  (elim c [ none ↦ none | some cond ↦ won_by P bs p b (tested P bs cond) ]))
                false
                (get (key P) h k)
                (get
                  (key P)
                  (elim c [
                    | none ↦ clone_guard_set (key P) h
                    | some cond ↦ on_branch P p b (tested P bs cond) (clone_guard_set (key P) h)
                  ])
                  k)
        by_cond none = Turn-keep mode pos _ _ same
        by_cond (some cond) = by_acq (tested P bs cond)

    act-Turn :
        (e : Event Block Instr) (h : Held P)
        → IsWf (key P) h
        → Turn mode
            (event_gives P bs k e)
            (event_drops P bs k e)
            (get (key P) h k)
            (get (key P) (act P bs e h) k)
    act-Turn (entered b) h w = Turn-keep mode pos _ _ (get-clone (key P) h k w)
    act-Turn (ran i) h w = transfer-Turn P k mode pos le i h w
    act-Turn (passed p b) h w = edge-Turn p b h w

    -- What an event-by-event run of the analysis holds at the end of a trace.
    held_on :
        (es : Events P bs) (init : Held P)
        → IsWf (key P) init
        → mode ≤ get (key P) (after (act P bs) es init) k
        → HeldSince (event_gives P bs k) (event_drops P bs k) mode es (get (key P) init k)
    held_on es init w =
        (held_iff_since (event_gives P bs k) (event_drops P bs k) (act P bs) (λ h. get (key P) h k)
          (IsWf (key P)) (act-IsWf P bs) mode act-Turn es init w).0

    -- Where the analysis of a function ends and its entry for an instruction has a guard, the
    -- following holds of every way that control takes from the entry of the function to the
    -- instruction. An event on the way locks the guard, in the mode of the entry or a stronger one,
    -- and no later event gives it up; or the guard is among the initial guards in such a mode, and no
    -- event gives it up. An event locks by a call of Lock or RLock that is not deferred, or on the
    -- edge where a TryLock or TryRLock is known to have succeeded. An instruction gives a guard up
    -- that unlocks it, that calls a function that may unlock it, or that calls unknown code to which
    -- the guard is given or that can name it. The initial guards are a well-formed map, the entry
    -- has no predecessor, and the blocks hold the instruction once.
    pub must_hold_since :
        (entry : Block) (init : Held P) (t : Tables (Held P) (Results P))
        → hold_tables P entry bs init ≡ some t
        → IsWf (key P) init
        → preds entry ≡ []
        → (b : Block) (es : Events P bs) (pre post : List Instr) (i : Instr) → Way P bs entry b es
        → Memᴰ b bs
        → instrs b ≡ pre ++ i ∷ post
        → StandsOnce P entry bs init b pre i
        → (held : Held P) → t.noted i ≡ some held
        → mode ≤ get (key P) held k
        → HeldSince
            (event_gives P bs k)
            (event_drops P bs k)
            mode
            (es ++ map ran pre)
            (get (key P) init k)
    must_hold_since entry init t ends w none_before b es pre post i way m place once held noted h =
        let (claimed, found, below) =
          must_hold_sound P entry bs init t ends w none_before b (after (act P bs) es init) pre post
            i (Way-Arrives P bs entry init way) m place once in
        let same =
          after-append (act P bs) es (map ran pre) init
          ∙ after-ran P bs pre (after (act P bs) es init) in
        let one : claimed ≡ held = some-injective _ _ (sym found ∙ noted) in
        let claim : mode ≤ get (key P) claimed k = rw one h in
        held_on (es ++ map ran pre) init w (rw same (omega (arith, below k, claim)))
