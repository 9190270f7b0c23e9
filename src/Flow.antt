-- ===== src/Flow.antt =====
-- The tables of a data-flow analysis over basic blocks, as analyzeMustHold and wrapperMustPerform of
-- mutexguard.go keep them: one entry for the start and one for the end of every block, by
-- `b.Index`, and what a visit writes down on its way.
pub mod Stable
pub mod Ends
pub mod Paths
use safetylint.Base.{ℕ, Bool, not, ◌&&◌, List, if◌then◌else◌, get_or, set}

pub record Tables (X R : Type 0) : Type 0 where
  pub ins : List X
  pub outs : List X
  pub noted : R

module _ {B X R : Type 0} (index : B → ℕ) (same : X → X → Bool) (default : X)
    (entry : List X → B → X) (run : B → X → X) (note : B → X → R → R) where
  unfoldable pub same_in : Tables X R → B → Bool
  same_in t b = same (entry t.outs b) (get_or t.ins (index b) default)

  unfoldable pub same_out : Tables X R → B → Bool
  same_out t b = same (run b (entry t.outs b)) (get_or t.outs (index b) default)

  -- One visit: what holds at the start of the block by the ends of its predecessors, the block run
  -- on it, and both tables brought up to date where they differ.
  unfoldable pub visit : B → Tables X R → Tables X R × Bool
  unfolding same_in same_out
  visit b t = (
    record {
      ins = if same_in t b then t.ins else set t.ins (index b) (entry t.outs b);
      outs = if same_out t b then t.outs else set t.outs (index b) (run b (entry t.outs b));
      noted = note b (entry t.outs b) t.noted;
    },
    not (same_in t b && same_out t b),
  )
