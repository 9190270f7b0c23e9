-- ===== src/MustHold/Tables/Noted.antt =====
-- What the analysis writes down for an instruction of the blocks: the guards that hold after the
-- instructions before it, at a place where it stands.
use safetylint.Base.{
  ◌≡◌, refl, sym, subst, ◌∙◌, ap, arith, List, [], ◌∷◌, ◌++◌, Option, some, Memᴰ, ◌⊎◌, inl, inr,
  decides, if◌then◌else◌,
}
use mathlib.Core.List.Memᴰ
use safetylint.Ssa.{Program}
use safetylint.Hold.{clone_guard_set}
use safetylint.Flow.Stable.{notes}
use safetylint.MustHold.Step.{key, Held, transfer_hold, run_instrs}
use safetylint.MustHold.Tables.{Results, note_instrs, note_block}

module _ (P : Program) where
  open P use {Instr, Block, instrs, instr_discrete, index}

  -- The instruction stands in the list, and `r` holds what is held there when the list starts
  -- with `h`.
  pub record NotedIn (i : Instr) (is : List Instr) (h : Held P) (r : Results P) : Type 0 where
    pub pre : List Instr
    pub post : List Instr
    pub place : is ≡ pre ++ i ∷ post
    pub value : r i ≡ some (clone_guard_set (key P) (run_instrs P pre h))

  NotedIn-cons :
      (i j : Instr) (is : List Instr) (h : Held P) (r : Results P)
      → NotedIn i is (transfer_hold P h j) r
      → NotedIn i (j ∷ is) h r
  unfolding run_instrs
  NotedIn-cons i j is h r n = record {
    pre = j ∷ n.pre;
    post = n.post;
    place = ap (◌∷◌ j) n.place;
    value = n.value;
  }

  here_or_kept :
      (i j : Instr) (h : Held P) (r : Results P) (o : Option (Held P))
      → o ≡ (if decides (instr_discrete j i) then some (clone_guard_set (key P) h) else r i)
      → (o ≡ r i) ⊎ ((j ≡ i) × (o ≡ some (clone_guard_set (key P) h)))
  here_or_kept i j h r o e = elim (instr_discrete j i) [
    | yes p ↦ inr (p, ground arith)
    | no n ↦ inl (ground arith)
  ]

  NotedIn-moved :
      (i : Instr) (is : List Instr) (h : Held P) (r s : Results P)
      → NotedIn i is h r
      → s i ≡ r i
      → NotedIn i is h s
  NotedIn-moved i is h r s n e = record {
    pre = n.pre;
    post = n.post;
    place = n.place;
    value = e ∙ n.value;
  }

  -- A list of instructions leaves the entry of an instruction as it was, or notes it.
  note_instrs_cases :
      (i : Instr) (is : List Instr) (h : Held P) (r : Results P)
      → (note_instrs P is h r i ≡ r i) ⊎ NotedIn i is h (note_instrs P is h r)
  unfolding note_instrs run_instrs
  note_instrs_cases i [] h r = inl refl
  note_instrs_cases i (j ∷ is) h r =
      let r' : Results P =
        λ k. if decides (instr_discrete j k) then some (clone_guard_set (key P) h) else r k in
      elim (note_instrs_cases i is (transfer_hold P h j) r') [
        | inr n ↦ inr (NotedIn-cons i j is h _ n)
        | inl kept ↦ elim (here_or_kept i j h r _ kept) [
          | inl old ↦ inl old
          | inr (p, new) ↦
              inr (record { pre = []; post = is; place = ap (λ x. x ∷ is) p; value = new })
        ]
      ]

  -- An instruction of the list is noted.
  note_instrs_noted :
      (i : Instr) (pre post : List Instr) (h : Held P) (r : Results P)
      → NotedIn i (pre ++ i ∷ post) h (note_instrs P (pre ++ i ∷ post) h r)
  unfolding note_instrs run_instrs
  note_instrs_noted i [] post h r =
      let r' : Results P =
        λ k. if decides (instr_discrete i k) then some (clone_guard_set (key P) h) else r k in
      elim (note_instrs_cases i post (transfer_hold P h i) r') [
        | inr n ↦ NotedIn-cons i i post h _ n
        | inl kept ↦ elim (here_or_kept i i h r _ kept) [
          | inl old ↦ record {
            pre = [];
            post = post;
            place = refl;
            value = kept ∙ self (instr_discrete i i);
          }
          | inr (p, new) ↦ record { pre = []; post = post; place = refl; value = new }
        ]
      ]
    where
      self :
          (d : Dec (i ≡ i))
          → (if decides d then some (clone_guard_set (key P) h) else r i)
            ≡ some (clone_guard_set (key P) h)
      self (yes p) = refl
      self (no n) = absurd (n refl)
  note_instrs_noted i (j ∷ pre) post h r =
      NotedIn-cons i j (pre ++ i ∷ post) h _ (note_instrs_noted i pre post (transfer_hold P h j) _)

  noted_of_place :
      (i : Instr) (is pre post : List Instr) (h : Held P) (r : Results P)
      → is ≡ pre ++ i ∷ post
      → NotedIn i is h (note_instrs P is h r)
  noted_of_place i is pre post h r e =
      subst (λ js. NotedIn i js h (note_instrs P js h r)) (sym e) (note_instrs_noted i pre post h r)

  -- Over the blocks: the instruction is noted at a place in one of them.
  pub record NotedAt (bs : List Block) (start : Block → Held P) (i : Instr) (r : Results P)
      : Type 0 where
    pub block : Block
    pub member : Memᴰ block bs
    pub noted : NotedIn i (instrs block) (clone_guard_set (key P) (start block)) r

  module _ (entry : List (Held P) → Block → Held P) (outs : List (Held P)) where
    abbrev written : List Block → Results P → Results P
    written bs r = notes entry (note_block P) outs bs r

    abbrev At : List Block → Instr → Results P → Type 0
    At bs i r = NotedAt bs (entry outs) i r

    At-cons :
        (c : Block) (bs : List Block) (i : Instr) (r : Results P) → At bs i r → At (c ∷ bs) i r
    At-cons c bs i r n = record { block = n.block; member = Memᴰ.tail n.member; noted = n.noted }

    written_cases :
        (i : Instr) (bs : List Block) (r : Results P)
        → (written bs r i ≡ r i) ⊎ At bs i (written bs r)
    unfolding note_block
    written_cases i [] r = inl refl
    written_cases i (b ∷ bs) r = elim (written_cases i bs (note_block P b (entry outs b) r)) [
      | inr n ↦ inr (At-cons b bs i _ n)
      | inl kept ↦
          elim (note_instrs_cases i (instrs b) (clone_guard_set (key P) (entry outs b)) r) [
            | inl old ↦ inl (kept ∙ old)
            | inr n ↦ inr (record {
              block = b;
              member = Memᴰ.head refl;
              noted = NotedIn-moved i _ _ _ _ n kept;
            })
          ]
    ]

    pub written_noted :
        (i : Instr) (b : Block) (bs : List Block) (pre post : List Instr) (r : Results P)
        → Memᴰ b bs
        → instrs b ≡ pre ++ i ∷ post
        → At bs i (written bs r)
    unfolding note_block
    written_noted i b [] pre post r m e = absurd (Memᴰ.not-nil m)
    written_noted i b (c ∷ bs) pre post r m e =
        let r' = note_block P c (entry outs c) r in
        elim (Memᴰ.cases_cons m) [
          | inr n ↦ At-cons c bs i _ (written_noted i b bs pre post r' n e)
          | inl same ↦ elim (written_cases i bs r') [
            | inr n ↦ At-cons c bs i _ n
            | inl kept ↦ record {
              block = c;
              member = Memᴰ.head refl;
              noted =
                  NotedIn-moved i (instrs c) _ _ _
                    (noted_of_place i (instrs c) pre post _ r (ap instrs (sym same) ∙ e)) kept;
            }
          ]
        ]
