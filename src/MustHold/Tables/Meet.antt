-- ===== src/MustHold/Tables/Meet.antt =====
-- What holds at the start of a block is what every incoming edge agrees on.
use safetylint.Base.{
  ℕ, ◌≤◌, ◌≡◌, refl, arith, List, [], ◌∷◌, Memᴰ, get_or, inl, inr, decides, if◌then◌else◌,
}
use mathlib.Core.List.Memᴰ
use safetylint.Ssa.{Program}
use safetylint.Hold.{get, intersect_guards, clone_guard_set, IsWf, AtMost}
use safetylint.Hold.Laws.{get-intersect, intersect-IsWf, clone-IsWf, get-clone}
use safetylint.MustHold.Step.{key, Held}
use safetylint.MustHold.Edge.{TryAcq, edge_hold}
use safetylint.MustHold.Edge.Keywise.{AllModes, edge_hold-Acts}
use safetylint.MustHold.Tables.{meet_preds, block_in}

-- Every entry of a table is well formed, also where it is read out of range.
abbrev pub TableWf : (P : Program) → List (Held P) → Type 0
TableWf P outs = (i : ℕ) → IsWf (key P) (get_or outs i [])

module _ (P : Program) (tries : List (P.Value × TryAcq P.Value)) (modes : AllModes P tries)
    (entry : P.Block) (init : Held P) (wf_init : IsWf (key P) init) (outs : List (Held P))
    (wf : TableWf P outs) where
  open P use {Block, preds, index, block_discrete}

  abbrev pub over : Block → Block → Held P
  over p b = edge_hold P tries p b (get_or outs (index p) [])

  pub over-IsWf : (p b : Block) → IsWf (key P) (over p b)
  over-IsWf p b = (edge_hold-Acts P tries p b modes).keeps _ (wf (index p))

  meet_preds-IsWf :
      (b : Block) (acc : Held P) (ps : List Block)
      → IsWf (key P) acc
      → IsWf (key P) (meet_preds P tries entry init outs b acc ps)
  unfolding meet_preds
  meet_preds-IsWf b acc [] w = w
  meet_preds-IsWf b acc (p ∷ ps) w =
      meet_preds-IsWf b (intersect_guards (key P) acc (over p b)) ps
        (intersect-IsWf (key P) acc (over p b) w)

  intersect_le :
      (a c : Held P)
      → IsWf (key P) a
      → AtMost (key P) (intersect_guards (key P) a c) a
        × AtMost (key P) (intersect_guards (key P) a c) c
  intersect_le a c w = (
    λ k. omega (arith, get-intersect (key P) a c k w),
    λ k. omega (arith, get-intersect (key P) a c k w),
  )

  meet_preds_acc :
      (b : Block) (acc : Held P) (ps : List Block)
      → IsWf (key P) acc
      → AtMost (key P) (meet_preds P tries entry init outs b acc ps) acc
  unfolding meet_preds
  meet_preds_acc b acc [] w k = omega arith
  meet_preds_acc b acc (p ∷ ps) w k = omega (
    arith,
    meet_preds_acc b (intersect_guards (key P) acc (over p b)) ps
        (intersect-IsWf (key P) acc (over p b) w) k,
    (intersect_le acc (over p b) w).0 k,
  )

  meet_preds_le :
      (b p : Block) (acc : Held P) (ps : List Block)
      → Memᴰ p ps
      → IsWf (key P) acc
      → AtMost (key P) (meet_preds P tries entry init outs b acc ps) (over p b)
  unfolding meet_preds
  meet_preds_le b p acc [] m w k = absurd (Memᴰ.not-nil m)
  meet_preds_le b p acc (q ∷ ps) m w k =
      let acc' = intersect_guards (key P) acc (over q b) in
      let wf' = intersect-IsWf (key P) acc (over q b) w in
      let ih = λ (n : Memᴰ p ps). meet_preds_le b p acc' ps n wf' k in
      elim (Memᴰ.cases_cons m) [
        | inl e ↦
            rw e
              (omega (arith, meet_preds_acc b acc' ps wf' k, (intersect_le acc (over q b) w).1 k))
        | inr n ↦ ih n
      ]

  pub block_in-IsWf : (b : Block) → IsWf (key P) (block_in P tries entry init outs b)
  unfolding block_in
  block_in-IsWf b = by_preds (preds b)
    where
      by_preds :
          (ps : List Block)
          → IsWf (key P) (elim ps [
            | [] ↦ if decides (block_discrete b entry) then clone_guard_set (key P) init else []
            | p ∷ ps ↦ meet_preds P tries entry init outs b (over p b) ps
          ])
      by_preds [] =
          elim (block_discrete b entry)
            as (λ d. IsWf (key P) (if decides d then clone_guard_set (key P) init else [])) [
              | yes e ↦ clone-IsWf (key P) init wf_init
              | no n ↦ tt
            ]
      by_preds (p ∷ ps) = meet_preds-IsWf b (over p b) ps (over-IsWf p b)

  -- At the start of a block no more is claimed than flows over any of its incoming edges.
  pub block_in_le :
      (b p : Block)
      → Memᴰ p (preds b)
      → AtMost (key P) (block_in P tries entry init outs b) (over p b)
  unfolding block_in
  block_in_le b p m = by_preds (preds b) m
    where
      by_preds :
          (ps : List Block)
          → Memᴰ p ps
          → AtMost
              (key P)
              (elim ps [
                | [] ↦ if decides (block_discrete b entry) then clone_guard_set (key P) init else []
                | p ∷ ps ↦ meet_preds P tries entry init outs b (over p b) ps
              ])
              (over p b)
      by_preds [] m = absurd (Memᴰ.not-nil m)
      by_preds (q ∷ ps) m = elim (Memᴰ.cases_cons m) [
        | inl e ↦ rw e (meet_preds_acc b (over q b) ps (over-IsWf q b))
        | inr n ↦ meet_preds_le b p (over q b) ps n (over-IsWf q b)
      ]

  -- The entry, which has no predecessors, starts with `init`.
  pub block_in_entry :
      preds entry ≡ [] → AtMost (key P) (block_in P tries entry init outs entry) init
  unfolding block_in
  block_in_entry e k =
      rw (e, block_in)
        (elim (block_discrete entry entry)
          as (λ d.
            get (key P) (if decides d then clone_guard_set (key P) init else []) k
            ≤ get (key P) init k) [
              | yes same ↦ omega (arith, get-clone (key P) init k wf_init)
              | no n ↦ absurd (n refl)
            ])
