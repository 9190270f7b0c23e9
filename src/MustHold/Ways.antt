-- ===== src/MustHold/Ways.antt =====
-- The ways that control can take through a function, as series of events.
use safetylint.Base.{
  ℕ, suc, ◌≡◌, refl, sym, subst, ap, ◌∙◌, Bool, true, false, List, [], ◌∷◌, ◌++◌, Memᴰ, Option,
  none, some, decides, if◌then◌else◌, map,
}
use safetylint.Ssa.{Program}
use safetylint.Hold.{clone_guard_set, IsWf}
use safetylint.Hold.Laws.{clone-IsWf}
use safetylint.Guard.{GuardKey}
use safetylint.Guard.Method.{first}
use safetylint.Flow.Paths.{start as at_start, step as by_step}
use safetylint.MustHold.Since.{after, after-append}
use safetylint.MustHold.Step.{key, Held, transfer_hold, run_instrs, block_out}
use safetylint.MustHold.Step.Keywise.{transfer_hold-Acts}
use safetylint.MustHold.Step.Effects.{gives, drops}
use safetylint.MustHold.Step.Last.{run_instrs-after}
use safetylint.MustHold.Edge.{TryAcq, edge_hold, branch_cond, try_lock_cond, is_block, second}
use safetylint.MustHold.Edge.Keywise.{edge_hold-Acts, tries_from_modes}
use safetylint.MustHold.Tables.{tries_in, all_instrs}
use safetylint.MustHold.Sound.{Arrives}

-- Control enters a block, runs an instruction, or passes from a block to a next one.
pub data Event (B I : Type 0) : Type 0 where
  entered : B → Event B I
  ran : I → Event B I
  passed : B → B → Event B I

module _ (P : Program) (bs : List P.Block) where
  open P use {Value, Instr, Block, instrs, preds, succs}

  abbrev pub Events : Type 0
  Events = List (Event Block Instr)

  -- The events on a way from the entry to the start of a block.
  pub data Way (entry : Block) : Block → Events → Type 0 where
    start : Way entry entry []
    step :
        {p : Block} {es : Events} (b : Block)
        → Way entry p es
        → Memᴰ p bs
        → Memᴰ b bs
        → Memᴰ p (preds b)
        → Way entry b (es ++ entered p ∷ (map ran (instrs p) ++ passed p b ∷ []))

  abbrev pub act : Event Block Instr → Held P → Held P
  act (entered b) h = clone_guard_set (key P) h
  act (ran i) h = transfer_hold P h i
  act (passed p b) h = edge_hold P (tries_in P bs) p b h

  -- The result of a TryLock that the condition tests, and for which value of the condition.
  abbrev pub tested : Value → Option (TryAcq Value × Bool)
  tested cond = try_lock_cond P (tries_in P bs) (suc (P.depth cond)) true cond

  -- Is this the block that the branch at the end of `p` goes to on true, or on false?
  abbrev pub is_next : Block → Block → Bool → Bool
  is_next p b on_true =
      if on_true then is_block P (first (succs p)) b else is_block P (second P (succs p)) b

  -- The result of a TryLock that is known to be true on the edge.
  abbrev pub won_by : Block → Block → Option (TryAcq Value × Bool) → Option (TryAcq Value)
  won_by p b none = none
  won_by p b (some (acq, pos)) = if is_next p b pos then some acq else none

  abbrev pub won : Block → Block → Option (TryAcq Value)
  won p b = elim (branch_cond P (instrs p)) [ none ↦ none | some cond ↦ won_by p b (tested cond) ]

  abbrev pub mode_of : GuardKey Value → Option (TryAcq Value) → ℕ
  mode_of k none = 0
  mode_of k (some acq) = if decides (key P acq.guard k) then acq.mode else 0

  -- The mode in which an event locks the guard, and whether it gives the guard up.
  abbrev pub event_gives : GuardKey Value → Event Block Instr → ℕ
  event_gives k (entered b) = 0
  event_gives k (ran i) = gives P k i
  event_gives k (passed p b) = mode_of k (won p b)

  abbrev pub event_drops : GuardKey Value → Event Block Instr → Bool
  event_drops k (ran i) = drops P k i
  event_drops k _ = false

  pub act-IsWf : (e : Event Block Instr) (h : Held P) → IsWf (key P) h → IsWf (key P) (act e h)
  act-IsWf (entered b) = clone-IsWf (key P)
  act-IsWf (ran i) = (transfer_hold-Acts P i).keeps
  act-IsWf (passed p b) =
      (edge_hold-Acts P (tries_in P bs) p b (tries_from_modes P (all_instrs P bs))).keeps

  pub after-ran : (is : List Instr) (h : Held P) → after act (map ran is) h ≡ run_instrs P is h
  after-ran is h = rw (run_instrs-after P is h) (same is h)
    where
      same :
          (is : List Instr) (h : Held P)
          → after act (map ran is) h ≡ after (λ i x. transfer_hold P x i) is h
      same [] h = refl
      same (i ∷ is) h = same is (transfer_hold P h i)

  after-step :
      (p b : Block) (es : Events) (h : Held P)
      → after act (es ++ entered p ∷ (map ran (instrs p) ++ passed p b ∷ [])) h
        ≡ edge_hold P (tries_in P bs) p b (block_out P p (after act es h))
  unfolding block_out
  after-step p b es h =
      let at_block = clone_guard_set (key P) (after act es h) in
      after-append act es _ h
      ∙ after-append act (map ran (instrs p)) (passed p b ∷ []) at_block
      ∙ ap (edge_hold P (tries_in P bs) p b) (after-ran (instrs p) at_block)

  -- A way leads to what the analysis holds on it.
  pub Way-Arrives :
      (entry : Block) (init : Held P) {b : Block} {es : Events}
      → Way entry b es
      → Arrives P entry bs init b (after act es init)
  Way-Arrives entry init start = at_start
  Way-Arrives entry init (step {p} {es} b w mp mb e) =
      subst (Arrives P entry bs init b) (sym (after-step p b es init))
        (by_step b (Way-Arrives entry init w) mp mb e)
