-- ===== src/Flow/Stable.antt =====
-- A sweep that changes nothing leaves tables that agree with every block, and has written down what
-- follows from them.
use safetylint.Base.{ℕ, ◌≡◌, arith, Bool, true, false, List, [], ◌∷◌, inl, inr, Memᴰ, some, get_or}
use mathlib.Core.List.Memᴰ
use safetylint.Sweep.{sweep, until_stable}
use safetylint.Sweep.Rule.{until_stable_keeps}
use safetylint.Flow.{Tables, visit, same_in, same_out}

-- what the visits of a list of blocks write down over fixed tables
abbrev pub notes :
    {B X R : Type 0} (entry : List X → B → X) (note : B → X → R → R) → List X → List B → R → R
notes entry note outs [] r = r
notes entry note outs (b ∷ bs) r = notes entry note outs bs (note b (entry outs b) r)

module _ {B X R : Type 0} (index : B → ℕ) (same : X → X → Bool) (default : X)
    (entry : List X → B → X) (run : B → X → X) (note : B → X → R → R) where
  pub record IsStable (bs : List B) (t u : Tables X R) : Type 0 where
    pub ins_kept : u.ins ≡ t.ins
    pub outs_kept : u.outs ≡ t.outs
    pub agree : (b : B) → Memᴰ b bs → same_out index same default entry run note t b ≡ true
    pub agree_in : (b : B) → Memᴰ b bs → same_in index same default entry run note t b ≡ true
    pub written : u.noted ≡ notes entry note t.outs bs t.noted

  parts :
      (b : B) (bs : List B) (t u : Tables X R)
      → sweep (visit index same default entry run note) (b ∷ bs) t ≡ (u, false)
      → ((visit index same default entry run note b t).1 ≡ false)
        × (sweep
              (visit index same default entry run note)
              bs
              (visit index same default entry run note b t).0
            ≡ (u, false))
  unfolding sweep
  parts b bs t u h = ground arith

  visit_stable :
      (b : B) (t : Tables X R)
      → (visit index same default entry run note b t).1 ≡ false
      → ((visit index same default entry run note b t).0
          ≡ record t { noted = note b (entry t.outs b) t.noted })
        × (same_out index same default entry run note t b ≡ true)
        × (same_in index same default entry run note t b ≡ true)
  unfolding visit
  visit_stable b t h = ground arith

  IsStable-cons :
      (b : B) (bs : List B) (t u : Tables X R)
      → same_out index same default entry run note t b ≡ true
      → same_in index same default entry run note t b ≡ true
      → IsStable bs (record t { noted = note b (entry t.outs b) t.noted }) u
      → IsStable (b ∷ bs) t u
  unfolding same_out same_in
  IsStable-cons b bs t u h g k = record {
    ins_kept = k.ins_kept;
    outs_kept = k.outs_kept;
    agree = λ c m. elim (Memᴰ.cases_cons m) [ inl e ↦ rw e h | inr n ↦ k.agree c n ];
    agree_in = λ c m. elim (Memᴰ.cases_cons m) [ inl e ↦ rw e g | inr n ↦ k.agree_in c n ];
    written = k.written;
  }

  pub sweep-IsStable :
      (bs : List B) (t u : Tables X R)
      → sweep (visit index same default entry run note) bs t ≡ (u, false)
      → IsStable bs t u
  unfolding sweep
  sweep-IsStable [] t u h = record {
    ins_kept = cc;
    outs_kept = cc;
    agree = λ b m. absurd (Memᴰ.not-nil m);
    agree_in = λ b m. absurd (Memᴰ.not-nil m);
    written = cc;
  }
  sweep-IsStable (b ∷ bs) t u h =
      let (here, later) = parts b bs t u h in
      let (e, agreed, begun) = visit_stable b t here in
      IsStable-cons b bs t u agreed begun (sweep-IsStable bs _ u (rw e at later))

  -- The tables that the loop ends with agree with every block, and what is written down is what
  -- these tables imply.
  pub record IsSettled (bs : List B) (t : Tables X R) : Type 0 where
    pub begins : (b : B) → Memᴰ b bs → same (entry t.outs b) (get_or t.ins (index b) default) ≡ true
    pub ends :
        (b : B) → Memᴰ b bs → same (run b (entry t.outs b)) (get_or t.outs (index b) default) ≡ true
    pub before : R
    pub written : t.noted ≡ notes entry note t.outs bs before

  IsSettled-of_stable : (bs : List B) (t u : Tables X R) → IsStable bs t u → IsSettled bs u
  unfolding same_out same_in
  IsSettled-of_stable bs t u k = record {
    begins = λ b m. rw (k.ins_kept, k.outs_kept) (k.agree_in b m);
    ends = λ b m. rw k.outs_kept (k.agree b m);
    before = t.noted;
    written = rw k.outs_kept k.written;
  }

  pub until_stable-IsSettled :
      (bs : List B) (fuel : ℕ) (s t : Tables X R)
      → until_stable (visit index same default entry run note) bs fuel s ≡ some t
      → IsSettled bs t
  until_stable-IsSettled bs fuel s t e =
      let (u, _, last) =
        until_stable_keeps (visit index same default entry run note) (λ b. Unit {0}) (λ u. Unit {0})
          (λ b u q i. tt) bs fuel s t (λ b m. tt) tt e in
      IsSettled-of_stable bs u t (sweep-IsStable bs u t last)
