-- ===== src/MustHold/Ends/Entry.antt =====
-- What holds at the start of a block, guard by guard: bounds, and order between two tables.
use safetylint.Base.{
  ℕ, suc, ◌≡◌, ◌≤◌, refl, arith, Bool, true, false, List, [], ◌∷◌, Option, none, some, Memᴰ,
  decides, get_or, if◌then◌else◌,
}
use safetylint.Ssa.{Program, CallCommon, InstrView, call}
use safetylint.Hold.{get, strengthen_hold, clone_guard_set, intersect_guards, IsWf}
use safetylint.Hold.Laws.{get-clone, get-strengthen, get-intersect, intersect-IsWf}
use safetylint.Guard.{GuardKey, lock_unlock_guard}
use safetylint.Guard.Method.{mutex_method_name, first}
use safetylint.MustHold.Step.{key, Held}
use safetylint.MustHold.Edge.{
  TryAcq, on_branch, edge_hold, branch_cond, try_lock_cond, is_block, second, tries_from, try_mode,
  acquired, add_try,
}
use safetylint.MustHold.Edge.Keywise.{
  AllTries, CondOk, try_lock_cond-CondOk, AllModes, edge_hold-Acts,
}
use safetylint.MustHold.Tables.{block_in, meet_preds}
use safetylint.MustHold.Tables.Meet.{TableWf, block_in_le}
use safetylint.MustHold.Ends.Zero.{IsOther, Untouched, OtherCall, lock_call_of}

module _ (P : Program) (k : GuardKey P.Value) where
  open P use {
    Value, Func, Instr, Block, instr_view, instrs, succs, depth, preds, index, block_discrete,
  }

  abbrev pub OtherTries : List (Value × TryAcq Value) → Type 0
  OtherTries = AllTries P (λ acq. IsOther P k acq.guard)

  pub tries_from-OtherTries :
      (is : List Instr) → ((i : Instr) → Memᴰ i is → Untouched P k i) → OtherTries (tries_from P is)
  unfolding tries_from
  tries_from-OtherTries [] u = tt
  tries_from-OtherTries (i ∷ is) u =
      by_view (instr_view i) (u i (Memᴰ.head refl))
        (tries_from-OtherTries is (λ j m. u j (Memᴰ.tail m)))
    where
      by_parts :
          (v : Value) (m : Option ℕ) (o : Option (GuardKey Value))
          → ((g : GuardKey Value) → o ≡ some g → IsOther P k g)
          → OtherTries (tries_from P is)
          → OtherTries (add_try P v (acquired P m o) (tries_from P is))
      by_parts v none none q h = h
      by_parts v none (some g) q h = h
      by_parts v (some m) none q h = h
      by_parts v (some m) (some g) q h = (q g refl, h)

      by_view :
          (w : InstrView Value Func)
          → ((c : CallCommon Value Func) → lock_call_of P k w ≡ some c → OtherCall P k c)
          → OtherTries (tries_from P is)
          → OtherTries (elim w [
            | call v c ↦
                add_try P v
                  (acquired P (try_mode (mutex_method_name P c)) (lock_unlock_guard P c))
                  (tries_from P is)
            | _ ↦ tries_from P is
          ])
      by_view (call v c) q h =
          by_parts v (try_mode (mutex_method_name P c)) (lock_unlock_guard P c) (q c refl) h
      by_view _ q h = h

  pub edge_zero :
      (tries : List (Value × TryAcq Value)) (p b : Block) (h : Held P)
      → OtherTries tries
      → IsWf (key P) h
      → get (key P) h k ≡ 0
      → get (key P) (edge_hold P tries p b h) k ≡ 0
  unfolding edge_hold
  edge_zero tries p b h other w z = by_cond (branch_cond P (instrs p))
    where
      cloned : get (key P) (clone_guard_set (key P) h) k ≡ 0
      cloned = omega (arith, get-clone (key P) h k w)

      by_acq :
          (o : Option (TryAcq Value × Bool))
          → CondOk P (λ acq. IsOther P k acq.guard) o
          → get (key P) (on_branch P p b o (clone_guard_set (key P) h)) k ≡ 0
      by_acq none q = unfold on_branch in cloned
      by_acq (some (acq, pos)) q =
          unfold on_branch in
          by_test
            (if pos then is_block P (first (succs p)) b else is_block P (second P (succs p)) b)
        where
          by_test :
              (t : Bool)
              → get
                  (key P)
                  (if t
                    then strengthen_hold (key P) (clone_guard_set (key P) h) acq.guard acq.mode
                    else clone_guard_set (key P) h)
                  k
                ≡ 0
          by_test true = ground (
            arith,
            get-strengthen (key P) (clone_guard_set (key P) h) acq.guard k acq.mode,
            cloned,
            q,
          )
          by_test false = cloned

      by_cond :
          (c : Option Value)
          → get
              (key P)
              (elim c [
                | none ↦ clone_guard_set (key P) h
                | some cond ↦
                    on_branch P p b
                      (try_lock_cond P tries (suc (depth cond)) true cond)
                      (clone_guard_set (key P) h)
              ])
              k
            ≡ 0
      by_cond none = cloned
      by_cond (some cond) = by_acq _ (
          try_lock_cond-CondOk P (λ acq. IsOther P k acq.guard) tries (suc (depth cond)) true cond
            other)

  module _ (tries : List (Value × TryAcq Value)) (modes : AllModes P tries) (entry : Block)
      (init : Held P) (wf_init : IsWf (key P) init) where
    abbrev flow_in : List (Held P) → Block → Block → Held P
    flow_in outs p b = edge_hold P tries p b (get_or outs (index p) [])

    -- A bound on `init` and on every incoming edge.
    pub block_in_bound :
        (outs : List (Held P)) (wf : TableWf P outs) (b : Block) (n : ℕ)
        → get (key P) init k ≤ n
        → ((p : Block) → Memᴰ p (preds b) → get (key P) (flow_in outs p b) k ≤ n)
        → get (key P) (block_in P tries entry init outs b) k ≤ n
    unfolding block_in
    block_in_bound outs wf b n i h =
        by_preds (preds b) h
          (λ p m. unfold block_in in block_in_le P tries modes entry init wf_init outs wf b p m k)
      where
        by_preds :
            (ps : List Block)
            → ((p : Block) → Memᴰ p ps → get (key P) (flow_in outs p b) k ≤ n)
            → ((p : Block)
                → Memᴰ p ps
                → get
                    (key P)
                    (elim ps [
                      | [] ↦
                          if decides (block_discrete b entry)
                          then clone_guard_set (key P) init
                          else []
                      | p ∷ ps ↦ meet_preds P tries entry init outs b (flow_in outs p b) ps
                    ])
                    k
                  ≤ get (key P) (flow_in outs p b) k)
            → get
                (key P)
                (elim ps [
                  | [] ↦
                      if decides (block_discrete b entry) then clone_guard_set (key P) init else []
                  | p ∷ ps ↦ meet_preds P tries entry init outs b (flow_in outs p b) ps
                ])
                k
              ≤ n
        by_preds [] h le =
            elim (block_discrete b entry)
              as (λ d. get (key P) (if decides d then clone_guard_set (key P) init else []) k ≤ n) [
                | yes e ↦ omega (arith, get-clone (key P) init k wf_init)
                | no ne ↦ unfold get in omega arith
              ]
        by_preds (p ∷ ps) h le = omega (arith, h p (Memᴰ.head refl), le p (Memᴰ.head refl))

    meet_preds_mono :
        (us vs : List (Held P)) (b : Block) (x y : Held P) (ps : List Block)
        → IsWf (key P) x
        → IsWf (key P) y
        → get (key P) x k ≤ get (key P) y k
        → ((p : Block)
            → Memᴰ p ps
            → get (key P) (flow_in us p b) k ≤ get (key P) (flow_in vs p b) k)
        → get (key P) (meet_preds P tries entry init us b x ps) k
          ≤ get (key P) (meet_preds P tries entry init vs b y ps) k
    unfolding meet_preds
    meet_preds_mono us vs b x y [] wx wy le h = le
    meet_preds_mono us vs b x y (p ∷ ps) wx wy le h =
        meet_preds_mono us vs b (intersect_guards (key P) x (flow_in us p b))
          (intersect_guards (key P) y (flow_in vs p b)) ps
          (intersect-IsWf (key P) x (flow_in us p b) wx)
          (intersect-IsWf (key P) y (flow_in vs p b) wy)
          (omega (
            arith,
            get-intersect (key P) x (flow_in us p b) k wx,
            get-intersect (key P) y (flow_in vs p b) k wy,
            h p (Memᴰ.head refl),
          ))
          (λ q m. h q (Memᴰ.tail m))

    pub block_in_mono :
        (us vs : List (Held P)) (wu : TableWf P us) (wv : TableWf P vs) (b : Block)
        → ((p : Block)
            → Memᴰ p (preds b)
            → get (key P) (flow_in us p b) k ≤ get (key P) (flow_in vs p b) k)
        → get (key P) (block_in P tries entry init us b) k
          ≤ get (key P) (block_in P tries entry init vs b) k
    unfolding block_in
    block_in_mono us vs wu wv b h = by_preds (preds b) h
      where
        by_preds :
            (ps : List Block)
            → ((p : Block)
                → Memᴰ p ps
                → get (key P) (flow_in us p b) k ≤ get (key P) (flow_in vs p b) k)
            → get
                (key P)
                (elim ps [
                  | [] ↦
                      if decides (block_discrete b entry) then clone_guard_set (key P) init else []
                  | p ∷ ps ↦ meet_preds P tries entry init us b (flow_in us p b) ps
                ])
                k
              ≤ get
                  (key P)
                  (elim ps [
                    | [] ↦
                        if decides (block_discrete b entry)
                        then clone_guard_set (key P) init
                        else []
                    | p ∷ ps ↦ meet_preds P tries entry init vs b (flow_in vs p b) ps
                  ])
                  k
        by_preds [] h = omega arith
        by_preds (p ∷ ps) h =
            meet_preds_mono us vs b (flow_in us p b) (flow_in vs p b) ps
              ((edge_hold-Acts P tries p b modes).keeps _ (wu (index p)))
              ((edge_hold-Acts P tries p b modes).keeps _ (wv (index p))) (h p (Memᴰ.head refl))
              (λ q m. h q (Memᴰ.tail m))
