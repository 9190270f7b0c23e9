-- ===== src/MustHold/Sound.antt =====
-- The must-hold analysis is sound: before an instruction it claims no guard, and no mode, beyond
-- what is held there by whichever path control took from the entry.
use safetylint.Base.{
  ◌≡◌, sym, subst, arith, List, [], ◌∷◌, ◌++◌, some, Memᴰ, get_or, set, length, true, false,
  if◌then◌else◌,
}
use safetylint.Ssa.{Program}
use safetylint.Hold.{clone_guard_set, guard_set_equal, IsWf, AtMost}
use safetylint.Hold.Laws.{get-clone, clone-IsWf}
use safetylint.Hold.Equal.{guard_set_equal_iff}
use safetylint.Hold.Acts.{Acts, Acts-monotone}
use safetylint.Sweep.Rule.{until_stable_inv}
use safetylint.Flow.{Tables, visit, same_out}
use safetylint.Flow.Stable.{IsSettled, until_stable-IsSettled}
use safetylint.Flow.Paths.{Reach, Reach-Below}
use safetylint.MustHold.Step.{key, Held, run_instrs, block_out}
use safetylint.MustHold.Step.Keywise.{run_instrs-Acts, block_out-Acts}
use safetylint.MustHold.Edge.{edge_hold}
use safetylint.MustHold.Edge.Keywise.{tries_from_modes, edge_hold-Acts, AllModes}
use safetylint.MustHold.Tables.{
  Results, block_in, note_block, hold_tables, hold_fuel, top_tables, tries_in, all_instrs,
}
use safetylint.MustHold.Tables.Meet.{TableWf, block_in-IsWf, block_in_le, block_in_entry}
use safetylint.MustHold.Tables.Wf.{table_set-IsWf, replicate-IsWf, universe_from-IsWf}
use safetylint.MustHold.Tables.Noted.{NotedAt, written_noted}

module _ (P : Program) (entry : P.Block) (bs : List P.Block) (init : Held P) where
  open P use {Instr, Block, instrs, preds, index}

  -- Control reaches a block along the edges from the entry, where `init` is held, and holds the
  -- given guards there.
  abbrev pub Arrives : Block → Held P → Type 0
  Arrives = Reach bs preds (block_out P) (λ p b h. edge_hold P (tries_in P bs) p b h) entry init

  -- The blocks of a function hold each of their instructions once.
  abbrev pub StandsOnce : Block → List Instr → Instr → Type 0
  StandsOnce b pre i =
      (c : Block) (pre' post' : List Instr)
      → Memᴰ c bs
      → instrs c ≡ pre' ++ i ∷ post'
      → (c ≡ b) × (pre' ≡ pre)

  modes : AllModes P (tries_in P bs)
  modes = tries_from_modes P (all_instrs P bs)

  module _ (wf_init : IsWf (key P) init) where
    abbrev start_of : List (Held P) → Block → Held P
    start_of = block_in P (tries_in P bs) entry init

    visit_IsWf :
        (b : Block) (t : Tables (Held P) (Results P))
        → TableWf P t.outs
        → TableWf P
            (visit index
              (guard_set_equal (key P))
              []
              start_of
              (block_out P)
              (note_block P)
              b
              t).0.outs
    unfolding visit
    visit_IsWf b t w =
        elim (same_out index (guard_set_equal (key P)) [] start_of (block_out P) (note_block P) t b)
          as (λ k.
            TableWf P
              (if k then t.outs else set t.outs (index b) (block_out P b (start_of t.outs b)))) [
                | true ↦ w
                | false ↦ table_set-IsWf P t.outs (index b) _ w (
                    (block_out-Acts P b).keeps _
                      (block_in-IsWf P (tries_in P bs) modes entry init wf_init t.outs w b))
              ]

    module _ (t : Tables (Held P) (Results P)) (ends : hold_tables P entry bs init ≡ some t) where
      outs_wf : TableWf P t.outs
      unfolding hold_tables
      outs_wf =
          until_stable_inv
            (visit index (guard_set_equal (key P)) [] start_of (block_out P) (note_block P))
            (λ b. Unit {0}) (λ s. TableWf P s.outs) (λ b s q h. visit_IsWf b s h) bs
            (hold_fuel P bs init) (top_tables P entry bs init) t (λ b m. tt)
            (replicate-IsWf P (length bs) _
              (clone-IsWf (key P) _ (universe_from-IsWf P (all_instrs P bs) [] tt)))
            ends

      settled :
          IsSettled index (guard_set_equal (key P)) [] start_of (block_out P) (note_block P) bs t
      unfolding hold_tables
      settled =
          until_stable-IsSettled index (guard_set_equal (key P)) [] start_of (block_out P)
            (note_block P) bs (hold_fuel P bs init) (top_tables P entry bs init) t ends

      abbrev begins : Block → Held P
      begins = start_of t.outs

      begins-IsWf : (b : Block) → IsWf (key P) (begins b)
      begins-IsWf = block_in-IsWf P (tries_in P bs) modes entry init wf_init t.outs outs_wf

      -- Two well-formed maps, in order.
      abbrev Below : Held P → Held P → Type 0
      Below x y = IsWf (key P) x × IsWf (key P) y × AtMost (key P) x y

      Below-after : (x y z : Held P) → Below x y → Below y z → Below x z
      Below-after x y z h k = (h.0, k.1, λ g. omega (arith, h.2 g, k.2 g))

      Below-Acts :
          (f : Held P → Held P) → Acts (key P) f → (x y : Held P) → Below x y → Below (f x) (f y)
      Below-Acts f a x y h =
          (a.keeps x h.0, a.keeps y h.1, Acts-monotone (key P) f a x y h.0 h.1 h.2)

      end-Below :
          (p : Block) → Memᴰ p bs → Below (get_or t.outs (index p) []) (block_out P p (begins p))
      end-Below p m =
          let wf_end = (block_out-Acts P p).keeps _ (begins-IsWf p) in
          let same =
            (guard_set_equal_iff (key P) (block_out P p (begins p)) (get_or t.outs (index p) [])
                wf_end (outs_wf (index p))).0
              (settled.ends p m) in
          (outs_wf (index p), wf_end, λ g. omega (arith, same g))

      -- At the start of a block the analysis claims no more than any path holds.
      Arrives-Below : preds entry ≡ [] → {b : Block} {h : Held P} → Arrives b h → Below (begins b) h
      Arrives-Below e r =
          Reach-Below bs preds (block_out P) (λ p b x. edge_hold P (tries_in P bs) p b x) entry init
            Below begins (λ p. get_or t.outs (index p) []) Below-after
            (
              begins-IsWf entry,
              wf_init,
              block_in_entry P (tries_in P bs) modes entry init wf_init t.outs outs_wf e,
            )
            (λ p b mb mp. (
              begins-IsWf b,
              (edge_hold-Acts P (tries_in P bs) p b modes).keeps _ (outs_wf (index p)),
              block_in_le P (tries_in P bs) modes entry init wf_init t.outs outs_wf b p mp,
            ))
            end-Below (λ p. Below-Acts (block_out P p) (block_out-Acts P p))
            (λ p b. Below-Acts _ (edge_hold-Acts P (tries_in P bs) p b modes)) r

      run-Below :
          (pre : List Instr) (x h : Held P)
          → Below x h
          → AtMost
              (key P)
              (clone_guard_set (key P) (run_instrs P pre (clone_guard_set (key P) x)))
              (run_instrs P pre h)
      run-Below pre x h q g =
          let runs = run_instrs-Acts P pre in
          let wf_x = clone-IsWf (key P) x q.0 in
          let le : AtMost (key P) (clone_guard_set (key P) x) h =
            λ k. omega (arith, get-clone (key P) x k q.0, q.2 k) in
          omega (
            arith,
            get-clone (key P) (run_instrs P pre (clone_guard_set (key P) x)) g (runs.keeps _ wf_x),
            Acts-monotone (key P) (run_instrs P pre) runs _ h wf_x q.1 le g,
          )

      noted-Below :
          (b : Block) (h : Held P) (pre : List Instr) (i : Instr)
          → Below (begins b) h
          → StandsOnce b pre i
          → (r : Results P) → NotedAt P bs begins i r
          → (held : Held P) × (r i ≡ some held) × AtMost (key P) held (run_instrs P pre h)
      noted-Below b h pre i q once r n =
          let (same_block, same_pre) =
            once n.block n.noted.pre n.noted.post n.member n.noted.place in
          (
            clone_guard_set (key P)
                (run_instrs P n.noted.pre (clone_guard_set (key P) (begins n.block))),
            n.noted.value,
            rw (same_block, same_pre) (run-Below pre (begins b) h q),
          )

-- Where the analysis of a function ends, it has an entry for every instruction of the blocks, and
-- that entry claims no guard, and no stronger mode, than what is held just before the instruction
-- by whichever path control took from the entry, where the initial guards were held. The initial
-- guards are a well-formed map, the entry has no predecessor, and the blocks hold the instruction
-- once.
pub must_hold_sound :
    (P : Program) (entry : P.Block) (bs : List P.Block) (init : Held P)
    (t : Tables (Held P) (Results P))
    → hold_tables P entry bs init ≡ some t
    → IsWf (key P) init
    → P.preds entry ≡ []
    → (b : P.Block) (h : Held P) (pre post : List P.Instr) (i : P.Instr)
    → Arrives P entry bs init b h
    → Memᴰ b bs
    → P.instrs b ≡ pre ++ i ∷ post
    → StandsOnce P entry bs init b pre i
    → (held : Held P) × (t.noted i ≡ some held) × AtMost (key P) held (run_instrs P pre h)
must_hold_sound P entry bs init t ends wf_init no_preds b h pre post i arrives m place once =
    let done = settled P entry bs init wf_init t ends in
    let below = Arrives-Below P entry bs init wf_init t ends no_preds arrives in
    noted-Below P entry bs init wf_init t ends b h pre i below once t.noted (
      subst (NotedAt P bs (begins P entry bs init wf_init t ends) i) (sym done.written) (
        written_noted P (start_of P entry bs init wf_init) t.outs i b bs pre post done.before m
          place))
