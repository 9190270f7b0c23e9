-- ===== src/Sweep.antt =====
-- `changed := true; for changed { changed = false; for _, b := range blocks { … } }`, the loop by
-- which mutexguard.go finds its fixed points. One visit of a block returns the new state and whether
-- it changed anything. `none` means that the fuel ran out.
pub mod Rule
use safetylint.Base.{
  ℕ, zero, suc, Bool, true, false, ◌||◌, List, [], ◌∷◌, Option, none, some, if◌then◌else◌,
}

module _ {B S : Type 0} (visit : B → S → S × Bool) where
  unfoldable pub sweep : List B → S → S × Bool
  sweep [] s = (s, false)
  sweep (b ∷ bs) s = let (t, here) = visit b s in let (u, later) = sweep bs t in (u, here || later)

  unfoldable pub until_stable : List B → ℕ → S → Option S
  unfolding sweep
  until_stable bs zero s = none
  until_stable bs (suc fuel) s =
      let (t, changed) = sweep bs s in
      let rest = until_stable bs fuel t in if changed then rest else some t
