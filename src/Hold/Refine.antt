-- ===== src/Hold/Refine.antt =====
-- Hold sets refine functions from guards to modes, with 0 for a guard that is not held.
use safetylint.Base.{
  ℕ, ◌≡◌, ◌<◌, sym, Bool, min, max, ap, decides, decides-true, decides-false, if◌then◌else◌,
}
use safetylint.Hold.{
  HoldSet, get, put, delete, delete_if, clone_guard_set, intersect_guards, strengthen_hold, IsWf,
}
use safetylint.Hold.Laws.{
  get-put, get-delete, get-delete_if, get-clone, get-intersect, get-strengthen, put-IsWf,
  delete-IsWf, delete_if-IsWf, clone-IsWf, intersect-IsWf, strengthen-IsWf,
}

module _ {K : Type 0} (dec : Discrete K) where
  -- The abstract state: the mode of every guard.
  abbrev pub Modes : Type 0
  Modes = K → ℕ

  abbrev pub update : K → ℕ → Modes → Modes
  update k v m j = if decides (dec k j) then v else m j

  -- An operation keeps maps well formed, and acts on their modes as the abstract one does.
  pub record Refines (f : HoldSet K → HoldSet K) (abstract_f : Modes → Modes) : Type 0 where
    pub keeps : (s : HoldSet K) → IsWf dec s → IsWf dec (f s)
    pub reads : (s : HoldSet K) → IsWf dec s → (j : K) → get dec (f s) j ≡ abstract_f (get dec s) j

  -- The operations on hold sets refine those on functions from guards to modes, with 0 for no
  -- hold: they keep maps well formed, and act on the modes of a well-formed map as an update, a
  -- reset, a reset of all guards that pass a test, the identity, a minimum with another map and an
  -- update with a maximum; the mode that is put is not 0.
  pub hold_set-Refines :
      (k : K) (v : ℕ) (dead : K → Bool) (t : HoldSet K)
      → 0 < v
      → Refines (λ s. put dec s k v) (update k v)
        × Refines (λ s. delete dec s k) (update k 0)
        × Refines (λ s. delete_if dec dead s) (λ m j. if dead j then 0 else m j)
        × Refines (λ s. clone_guard_set dec s) (λ m. m)
        × Refines (λ s. intersect_guards dec s t) (λ m j. min (m j) (get dec t j))
        × Refines (λ s. strengthen_hold dec s k v) (λ m. update k (max v (m k)) m)
  hold_set-Refines k v dead t pos = (
    record { keeps = λ s w. put-IsWf dec s k v pos w; reads = λ s w j. get-put dec s k j v },
    record { keeps = λ s w. delete-IsWf dec s k w; reads = λ s w j. get-delete dec s k j },
    record {
      keeps = λ s w. delete_if-IsWf dec dead s w;
      reads = λ s w j. get-delete_if dec dead s j;
    },
    record { keeps = λ s w. clone-IsWf dec s w; reads = λ s w j. get-clone dec s j w },
    record { keeps = λ s w. intersect-IsWf dec s t w; reads = λ s w j. get-intersect dec s t j w },
    record { keeps = λ s w. strengthen-IsWf dec s k v pos w; reads = λ s w j. strengthened s j },
  )
    where
      strengthened :
          (s : HoldSet K) (j : K)
          → get dec (strengthen_hold dec s k v) j ≡ update k (max v (get dec s k)) (get dec s) j
      strengthened s j = elim (dec k j) [
        | yes e ↦
            let now = get-strengthen dec s k j v in
            let same : get dec s j ≡ get dec s k = ap (get dec s) (sym e) in
            rw (decides-true (dec k j) e) (rw (decides-true (dec k j) e, same) at now)
        | no ne ↦
            let now = get-strengthen dec s k j v in
            rw (decides-false (dec k j) ne) (rw (decides-false (dec k j) ne) at now)
      ]
