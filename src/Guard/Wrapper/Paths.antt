-- ===== src/Guard/Wrapper/Paths.antt =====
-- What the wrapper analysis proves of a method: whichever path control takes from its entry, the
-- operation has been performed before it returns.
use safetylint.Base.{
  ◌≡◌, ◌≢◌, refl, arith, Bool, true, false, ◌||◌, List, [], ◌∷◌, ◌++◌, none, some, Memᴰ, any,
  get_or, Option-cases, inl, inr,
}
use mathlib.Core.List.Memᴰ
use safetylint.Ssa.{Program, InstrView, ret}
use safetylint.Flow.{Tables}
use safetylint.Flow.Stable.{IsSettled, until_stable-IsSettled}
use safetylint.Flow.Paths.{Reach, Reach-Below}
use safetylint.Guard.Wrapper.{
  preds_seen, seen_at_entry, seen_at_end, seen_tables, first_seen, seen_fuel, returns_after,
  all_returns_after, wrapper_must_perform, same_bool, is_some_true,
}

-- One answer implies the other.
abbrev pub Implies : Bool → Bool → Type 0
Implies x y = x ≡ true → y ≡ true

module _ (P : Program) (hit : P.Instr → Bool) (bs : List P.Block) where
  open P use {Block, Instr, instr_view, instrs, preds, index}

  abbrev hits : Block → Bool
  hits b = any hit (instrs b)

  -- Control reaches a block from the entry `b₀`, and the flag says whether the operation was met.
  abbrev pub Arrives : Block → Block → Bool → Type 0
  Arrives b₀ = Reach bs preds (λ b x. x || hits b) (λ p b x. x) b₀ false

  preds_seen_all :
      (outs : List Bool) (ps : List Block) (p : Block)
      → Memᴰ p ps
      → Implies (preds_seen P hits outs ps) (get_or outs (index p) false)
  unfolding preds_seen
  preds_seen_all outs [] p m h = absurd (Memᴰ.not-nil m)
  preds_seen_all outs (q ∷ ps) p m h = elim (Memᴰ.cases_cons m) [
    | inl e ↦ rw e (ground arith)
    | inr n ↦ preds_seen_all outs ps p n (ground arith)
  ]

  entry_seen :
      (outs : List Bool) (b p : Block)
      → Memᴰ p (preds b)
      → Implies (seen_at_entry P hits outs b) (get_or outs (index p) false)
  unfolding seen_at_entry
  entry_seen outs b p m h = by_preds (preds b) refl
    where
      by_preds : (ps : List Block) → preds b ≡ ps → get_or outs (index p) false ≡ true
      by_preds [] e = absurd (Memᴰ.not-nil (rw e at m))
      by_preds (q ∷ ps) e = preds_seen_all outs (q ∷ ps) p (rw e at m) (rw (e, seen_at_entry) at h)

  same_bool_eq : (x y : Bool) → same_bool x y ≡ true → x ≡ y
  same_bool_eq x y h = ground arith

  module _ (t : Tables Bool (Unit {0})) (settled : seen_tables P hits bs ≡ some t) where
    tables-IsSettled :
        IsSettled index same_bool false
          (seen_at_entry P hits)
          (seen_at_end P hits)
          (λ b x r. r)
          bs
          t
    unfolding seen_tables
    tables-IsSettled =
        until_stable-IsSettled index same_bool false (seen_at_entry P hits) (seen_at_end P hits)
          (λ b x r. r) bs (seen_fuel P hits bs) (first_seen P hits bs) t settled

    -- At the start of a block `seenIn` claims no more than what a path to it has performed.
    seen-Arrives :
        {b₀ : Block}
        → preds b₀ ≡ []
        → {b : Block} {x : Bool} → Arrives b₀ b x
        → Implies (seen_at_entry P hits t.outs b) x
    seen-Arrives {b₀} e r =
        Reach-Below bs preds (λ b x. x || hits b) (λ p b x. x) b₀ false Implies
          (seen_at_entry P hits t.outs) (λ p. get_or t.outs (index p) false)
          (λ x y z f g h. g (f h)) (not_at_start b₀ e) (λ p b mb mp h. entry_seen t.outs b p mp h)
          (λ p mp h. end_seen p (tables-IsSettled.ends p mp) h) (λ p x y f h. ground (arith, f))
          (λ p b x y f. f) r
      where
        not_at_start : (b : Block) → preds b ≡ [] → Implies (seen_at_entry P hits t.outs b) false
        not_at_start b e h = unfold seen_at_entry in rw (e, seen_at_entry) at h

        end_seen :
            (p : Block)
            → same_bool
                (seen_at_end P hits p (seen_at_entry P hits t.outs p))
                (get_or t.outs (index p) false)
              ≡ true
            → get_or t.outs (index p) false ≡ true
            → seen_at_entry P hits t.outs p || hits p ≡ true
        end_seen p s h = unfold seen_at_end in ground arith

  returns_after_tail :
      (seen : Bool) (j : Instr) (is : List Instr)
      → returns_after P hit (seen || hit j) is ≡ none
      → returns_after P hit seen (j ∷ is) ≡ none
  returns_after_tail seen j is e = by_view (instr_view j) refl
    where
      by_view :
          (u : InstrView P.Value P.Func)
          → instr_view j ≡ u
          → returns_after P hit seen (j ∷ is) ≡ none
      by_view ret v = unfold returns_after in rw (v, returns_after) (rw e (ground arith))
      by_view _ v = unfold returns_after in rw (v, returns_after) e

  returns_after_ret :
      (j : Instr) (is : List Instr) → instr_view j ≡ ret → returns_after P hit false (j ∷ is) ≡ none
  unfolding returns_after
  returns_after_ret j is v = rw (v, returns_after)

  -- A return that the last loop passes comes after the operation.
  returns_after_hit :
      (seen : Bool) (pre post : List Instr) (i : Instr)
      → instr_view i ≡ ret
      → returns_after P hit seen (pre ++ i ∷ post) ≢ none
      → seen || any hit pre ≡ true
  returns_after_hit true [] post i v h = refl
  returns_after_hit false [] post i v h = absurd (h (returns_after_ret i post v))
  returns_after_hit seen (j ∷ pre) post i v h =
      let ih =
        returns_after_hit (seen || hit j) pre post i v
          (λ e. h (returns_after_tail seen j (pre ++ i ∷ post) e)) in
      ground arith

  all_returns_head :
      (ins : List Bool) (c : Block) (cs : List Block)
      → returns_after P hit (get_or ins (index c) false) (instrs c) ≡ none
      → all_returns_after P hit ins (c ∷ cs) ≡ none
  unfolding all_returns_after
  all_returns_head ins c cs e = rw (e, all_returns_after)

  all_returns_tail :
      (ins : List Bool) (c : Block) (cs : List Block)
      → all_returns_after P hit ins cs ≡ none
      → all_returns_after P hit ins (c ∷ cs) ≡ none
  unfolding all_returns_after
  all_returns_tail ins c cs e = ground arith

  all_returns_block :
      (ins : List Bool) (cs : List Block) (b : Block)
      → Memᴰ b cs
      → is_some_true (all_returns_after P hit ins cs) ≡ true
      → returns_after P hit (get_or ins (index b) false) (instrs b) ≢ none
  all_returns_block ins cs b m h = block cs m (λ e. cc (rw e at h))
    where
      block :
          (cs : List Block)
          → Memᴰ b cs
          → all_returns_after P hit ins cs ≢ none
          → returns_after P hit (get_or ins (index b) false) (instrs b) ≢ none
      block [] m k = absurd (Memᴰ.not-nil m)
      block (c ∷ cs) m k = elim (Memᴰ.cases_cons m) [
        | inl e ↦ rw e (λ q. k (all_returns_head ins c cs q))
        | inr n ↦ block cs n (λ q. k (all_returns_tail ins c cs q))
      ]

  -- Where the analysis accepts a method, the operation has been performed before every return, by
  -- whichever path control came from the entry, which has no predecessor, to the block of the
  -- return.
  pub wrapper_must_perform_sound :
      {b₀ : Block}
      → preds b₀ ≡ []
      → wrapper_must_perform P bs hit ≡ true
      → {b : Block} {x : Bool} → Arrives b₀ b x
      → Memᴰ b bs
      → (pre post : List Instr) (i : Instr) → instrs b ≡ pre ++ i ∷ post
      → instr_view i ≡ ret
      → x || any hit pre ≡ true
  unfolding wrapper_must_perform
  wrapper_must_perform_sound e h {b} {x} r m pre post i s v =
      elim (Option-cases (seen_tables P hits bs)) [
        | inl none_found ↦ cc (rw (none_found, wrapper_must_perform) at h)
        | inr (t, found) ↦
            let passed = all_returns_block t.ins bs b m (rw (found, wrapper_must_perform) at h) in
            let met =
              returns_after_hit (get_or t.ins (index b) false) pre post i v (rw s at passed) in
            let start = (tables-IsSettled t found).begins b m in
            let claim = seen-Arrives t found e r in
            let eq =
              same_bool_eq (seen_at_entry P hits t.outs b) (get_or t.ins (index b) false) start in
            ground arith
      ]
