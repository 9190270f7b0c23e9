-- ===== src/MustHold/Tables.antt =====
-- The fixed point of `analyzeMustHold` (internal/nosharing/mutexguard.go) for given guards at entry.
pub mod Meet
pub mod Wf
pub mod Noted
pub mod Notes
use safetylint.Base.{
  ℕ, suc, ◌+◌, ◌*◌, List, [], ◌∷◌, ◌++◌, Option, none, some, decides, if◌then◌else◌, length, get_or,
  replicate, set,
}
use safetylint.Ssa.{Program, CallCommon, call, defer}
use safetylint.Hold.{put, clone_guard_set, intersect_guards, guard_set_equal, hold_write}
use safetylint.Guard.{lock_unlock_guard}
use safetylint.Sweep.{until_stable}
use safetylint.Flow.{Tables, visit}
use safetylint.MustHold.Step.{key, Held, transfer_hold, block_out}
use safetylint.MustHold.Edge.{TryAcq, tries_from, edge_hold}

module _ (P : Program) where
  open P use {
    Value, Func, Instr, Block, view, value_discrete, block_discrete, instr_discrete, instr_view,
    blocks, instrs, preds, succs, index, exported,
  }

  unfoldable pub add_guard : Held P → CallCommon Value Func → Held P
  unfolding lock_unlock_guard put
  add_guard u c = elim (lock_unlock_guard P c) [ none ↦ u | some g ↦ put (key P) u g hold_write ]

  -- `discoverGuardsInFunc`: every guard that the function locks or unlocks, at exclusive strength
  unfoldable pub universe_from : List Instr → Held P → Held P
  unfolding add_guard
  universe_from [] u = u
  universe_from (i ∷ is) u =
      universe_from is
        (elim (instr_view i) [ call v c ↦ add_guard u c | defer c ↦ add_guard u c | _ ↦ u ])

  module _ (tries : List (Value × TryAcq Value)) (entry : Block) (init : Held P) where
    unfoldable pub meet_preds : List (Held P) → Block → Held P → List Block → Held P
    unfolding edge_hold intersect_guards
    meet_preds outs b acc [] = acc
    meet_preds outs b acc (p ∷ ps) =
        meet_preds outs b
          (intersect_guards (key P) acc (edge_hold P tries p b (get_or outs (index p) []))) ps

    -- What holds at the start of a block by the ends of its predecessors. Only the entry reads its
    -- old entry of `blockIn`, which stays `init`: it is rewritten by its own clone alone.
    unfoldable pub block_in : List (Held P) → Block → Held P
    unfolding meet_preds edge_hold clone_guard_set
    block_in outs b = elim (preds b) [
      | [] ↦ if decides (block_discrete b entry) then clone_guard_set (key P) init else []
      | p ∷ ps ↦ meet_preds outs b (edge_hold P tries p b (get_or outs (index p) [])) ps
    ]

  -- `map[ssa.Instruction]holdSet`
  abbrev pub Results : Type 0
  Results = Instr → Option (Held P)

  unfoldable pub note_instrs : List Instr → Held P → Results → Results
  unfolding transfer_hold clone_guard_set
  note_instrs [] held r = r
  note_instrs (i ∷ is) held r =
      note_instrs is (transfer_hold P held i)
        (λ j. if decides (instr_discrete i j) then some (clone_guard_set (key P) held) else r j)

  unfoldable pub note_block : Block → Held P → Results → Results
  unfolding note_instrs clone_guard_set
  note_block b held r = note_instrs (instrs b) (clone_guard_set (key P) held) r

  abbrev pub all_instrs : List Block → List Instr
  all_instrs [] = []
  all_instrs (b ∷ bs) = instrs b ++ all_instrs bs

  abbrev pub universe : List Block → Held P
  universe bs = universe_from (all_instrs bs) []

  abbrev pub tries_in : List Block → List (Value × TryAcq Value)
  tries_in bs = tries_from P (all_instrs bs)

  -- Everything is held everywhere, but at the entry, where `init` is.
  abbrev pub top_tables : Block → List Block → Held P → Tables (Held P) Results
  top_tables entry bs init = record {
    ins = set (replicate (length bs) (clone_guard_set (key P) (universe bs))) (index entry) init;
    outs = replicate (length bs) (clone_guard_set (key P) (universe bs));
    noted = λ i. none;
  }

  -- Rounds enough: each lowers an entry of the tables, or lets one follow its predecessors.
  abbrev pub hold_fuel : List Block → Held P → ℕ
  hold_fuel bs init =
      suc (suc (length bs) * (length bs * (2 * length (universe bs ++ init))) + length bs)

  -- the loop of `analyzeMustHold` for a function that starts with `init` held
  unfoldable pub hold_tables : Block → List Block → Held P → Option (Tables (Held P) Results)
  unfolding until_stable visit block_in block_out note_block guard_set_equal tries_from
      universe_from clone_guard_set
  hold_tables entry bs init =
      until_stable
        (visit index (guard_set_equal (key P)) [] (block_in (tries_in bs) entry init) (block_out P)
          note_block)
        bs (hold_fuel bs init) (top_tables entry bs init)
