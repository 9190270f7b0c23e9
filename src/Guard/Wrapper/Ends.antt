-- ===== src/Guard/Wrapper/Ends.antt =====
-- The fixed point of `wrapperMustPerform` ends within its fuel. The first sweep visits the entry
-- first and so brings its end up to date; from then on every change lowers an entry of the tables.
use safetylint.Base.{
  ℕ, zero, suc, ◌+◌, ◌*◌, ◌≤◌, ◌<◌, ◌≡◌, ◌≢◌, refl, subst, ap, arith, Bool, true, false, ◌||◌, List,
  [], ◌∷◌, some, Memᴰ, get_or, set, replicate, length, if◌then◌else◌, length-set, get_or-set_self,
  get_or-set_ne, ℕ_discrete,
}
use safetylint.Ssa.{Program, IsNumbered}
use safetylint.Sweep.{sweep}
use safetylint.Sweep.Rule.{sweep_keeps, until_stable_later}
use safetylint.Flow.{Tables, visit, same_out}
use safetylint.Flow.Ends.{IsMonotone, IsDescending, flow_ends_within, visit_keeps}
use safetylint.Guard.Wrapper.{
  preds_seen, seen_at_entry, seen_at_end, seen_tables, first_seen, same_bool,
}

module _ (P : Program) (hits : P.Block → Bool) where
  open P use {Block, preds, index}

  abbrev Lower : Bool → Bool → Type 0
  Lower x y = x ≡ true → y ≡ true

  abbrev level : Bool → ℕ
  level x = if x then 1 else 0

  preds_seen-Lower :
      (us vs : List Bool) (ps : List Block)
      → ((p : Block) → Memᴰ p ps → Lower (get_or us (index p) false) (get_or vs (index p) false))
      → Lower (preds_seen P hits us ps) (preds_seen P hits vs ps)
  unfolding preds_seen
  preds_seen-Lower us vs [] h e = refl
  preds_seen-Lower us vs (p ∷ ps) h e =
      ground (arith, h p (Memᴰ.head refl), preds_seen-Lower us vs ps (λ q m. h q (Memᴰ.tail m)))

  entry-Lower :
      (us vs : List Bool) (b : Block)
      → ((p : Block)
          → Memᴰ p (preds b)
          → Lower (get_or us (index p) false) (get_or vs (index p) false))
      → Lower (seen_at_entry P hits us b) (seen_at_entry P hits vs b)
  unfolding seen_at_entry
  entry-Lower us vs b h = by_preds (preds b) h
    where
      by_preds :
          (ps : List Block)
          → ((p : Block)
              → Memᴰ p ps
              → Lower (get_or us (index p) false) (get_or vs (index p) false))
          → Lower
              (elim ps [ [] ↦ false | p ∷ ps ↦ preds_seen P hits us (p ∷ ps) ])
              (elim ps [ [] ↦ false | p ∷ ps ↦ preds_seen P hits vs (p ∷ ps) ])
      by_preds [] h e = e
      by_preds (p ∷ ps) h e = preds_seen-Lower us vs (p ∷ ps) h e

  module _ (bs : List Block) (numbered : IsNumbered P bs) where
    abbrev Good : Bool → Type 0
    Good x = Unit {0}

    monotone :
        IsMonotone index same_bool false
          (seen_at_entry P hits)
          (seen_at_end P hits)
          (λ b x (r : Unit {0}). r)
          bs
          Lower
          Good
          level
    unfolding seen_at_end
    monotone = record {
      unique = numbered.unique;
      le_self = λ x h. h;
      le_after = λ x y z f g h. g (f h);
      same_self = λ x g. ground arith;
      level_lt = λ x y g k h e. ground (arith, h);
      level_le = λ x y g k h. ground (arith, h);
      entry_good = λ outs b g m. tt;
      run_good = λ b x m g. tt;
      entry_mono = λ us vs b g k h m. entry-Lower us vs b (λ p n. h p (numbered.preds_in b p m n));
      run_mono = λ b x y g k h e. ground (arith, h);
    }

    get_or-replicate : (n i : ℕ) → i < n → get_or (replicate n true) i false ≡ true
    get_or-replicate zero i h = absurd (omega arith)
    get_or-replicate (suc n) zero h = refl
    get_or-replicate (suc n) (suc i) h = get_or-replicate n i (omega arith)

    length-replicate : (n : ℕ) (x : Bool) → length (replicate n x) ≡ n
    length-replicate zero x = refl
    length-replicate (suc n) x = ap suc (length-replicate n x)

    entry_none : (outs : List Bool) (b : Block) → preds b ≡ [] → seen_at_entry P hits outs b ≡ false
    unfolding seen_at_entry
    entry_none outs b e = rw (e, seen_at_entry) refl

    module _ (b₀ : Block) (member : Memᴰ b₀ bs) (no_preds : preds b₀ ≡ []) where
      abbrev start_outs : List Bool
      start_outs = set (replicate (length bs) true) (index b₀) false

      abbrev start : Tables Bool (Unit {0})
      start = record { ins = replicate (length bs) false; outs = start_outs; noted = tt }

      abbrev visited : Tables Bool (Unit {0})
      visited =
          (visit index same_bool false (seen_at_entry P hits) (seen_at_end P hits) (λ b x r. r) b₀
            start).0

      at_self : get_or visited.outs (index b₀) false ≡ hits b₀
      unfolding visit same_out seen_at_end
      at_self =
          let none_yet = entry_none start_outs b₀ no_preds in
          let room : index b₀ < length start_outs = omega (
            arith,
            length-set (replicate (length bs) true) (index b₀) false,
            length-replicate (length bs) true,
            numbered.in_range b₀ member,
          ) in
          ground (
            arith,
            none_yet,
            get_or-set_self start_outs (index b₀) (seen_at_entry P hits start_outs b₀ || hits b₀)
                false room,
          )

      at_other :
          (b : Block) → Memᴰ b bs → index b₀ ≢ index b → get_or visited.outs (index b) false ≡ true
      unfolding visit
      at_other b m ne =
          let old =
            get_or-set_ne (replicate (length bs) true) (index b₀) (index b) false false ne in
          let full = get_or-replicate (length bs) (index b) (numbered.in_range b m) in
          ground (
            arith,
            old,
            full,
            get_or-set_ne start_outs (index b₀) (index b)
                (seen_at_end P hits b₀ (seen_at_entry P hits start_outs b₀)) false ne,
          )

      descends :
          (b : Block)
          → Memᴰ b bs
          → Lower
              (seen_at_end P hits b (seen_at_entry P hits visited.outs b))
              (get_or visited.outs (index b) false)
      unfolding seen_at_end
      descends b m = elim (ℕ_discrete (index b₀) (index b)) [
        | yes e ↦
            subst
              (λ c.
                Lower (seen_at_entry P hits visited.outs c || hits c)
                  (get_or visited.outs (index c) false))
              (numbered.unique b₀ b member m e)
              (λ h. ground (arith, entry_none visited.outs b₀ no_preds, at_self))
        | no ne ↦ λ h. at_other b m ne
      ]

      ins_room : (b : Block) → Memᴰ b bs → index b < length visited.ins
      unfolding visit
      ins_room b m = ground (
        arith,
        length-replicate (length bs) false,
        numbered.in_range b m,
        length-set (replicate (length bs) false) (index b₀) (seen_at_entry P hits start_outs b₀),
      )

      outs_room : (b : Block) → Memᴰ b bs → index b < length visited.outs
      unfolding visit
      outs_room b m = ground (
        arith,
        length-replicate (length bs) true,
        numbered.in_range b m,
        length-set (replicate (length bs) true) (index b₀) false,
        length-set start_outs (index b₀)
            (seen_at_end P hits b₀ (seen_at_entry P hits start_outs b₀)),
      )

      visited-IsDescending :
          IsDescending index same_bool false
            (seen_at_entry P hits)
            (seen_at_end P hits)
            (λ b x (r : Unit {0}). r)
            bs
            Lower
            Good
            level
            visited
      visited-IsDescending = record {
        ins_room = ins_room;
        outs_room = outs_room;
        good = λ i. tt;
        descends = descends;
      }

  enough : (n f : ℕ) → f ≡ suc (suc n * n + n) → suc n * (n * 1) + n < f
  enough n f e = grind (arith, times_one n)
    where
      times_one : (n : ℕ) → n * 1 ≡ n
      times_one n = omega arith

  level_le_one : (x : Bool) → level x ≤ 1
  level_le_one x = ground arith

  -- The fixed point of wrapperMustPerform ends within its fuel, for every method whose blocks are
  -- numbered by their places, have their predecessors among them, and start with an entry that has
  -- none.
  pub seen_tables_ends :
      (b₀ : Block) (rest : List Block)
      → IsNumbered P (b₀ ∷ rest)
      → preds b₀ ≡ []
      → (t : Tables Bool (Unit {0})) × (seen_tables P hits (b₀ ∷ rest) ≡ some t)
  unfolding seen_tables first_seen sweep
  seen_tables_ends b₀ rest numbered e =
      let bs = b₀ ∷ rest in
      let step =
        visit index same_bool false (seen_at_entry P hits) (seen_at_end P hits)
          (λ b x (r : Unit {0}). r) in
      let mono = monotone bs numbered in
      let first = start bs numbered b₀ (Memᴰ.head refl) e in
      let after = visited bs numbered b₀ (Memᴰ.head refl) e in
      let done =
        sweep_keeps step (λ b. Memᴰ b bs)
          (IsDescending index same_bool false (seen_at_entry P hits) (seen_at_end P hits)
            (λ b x (r : Unit {0}). r) bs Lower (Good bs numbered) level)
          (λ b s m d.
            visit_keeps index same_bool false (seen_at_entry P hits) (seen_at_end P hits)
              (λ b x (r : Unit {0}). r) bs Lower (Good bs numbered) level mono b s m d)
          rest after (λ b m. Memᴰ.tail m)
          (visited-IsDescending bs numbered b₀ (Memᴰ.head refl) e) in
      until_stable_later step bs (suc (suc (length bs) * length bs + length bs)) first (
        flow_ends_within index same_bool false (seen_at_entry P hits) (seen_at_end P hits)
          (λ b x (r : Unit {0}). r) bs Lower (Good bs numbered) level mono
          (suc (suc (length bs) * length bs + length bs)) 1 (sweep step rest after).0 done
          (λ b m. level_le_one _) (enough (length bs) _ refl))
