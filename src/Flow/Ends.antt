-- ===== src/Flow/Ends.antt =====
-- The fixed-point loop over the tables ends: every change lowers a measure. `Le` is an order that the
-- analysis descends, `level` counts how far it can, and `Good` holds of every entry of the tables.
use safetylint.Base.{
  ℕ, zero, suc, [], ◌∷◌, ◌+◌, ◌*◌, ◌≤◌, ◌<◌, ◌≡◌, ◌≢◌, refl, subst, arith, Bool, true, false, List,
  some, Bool-cases, inl, inr, Memᴰ, length, get_or, set, sum, sum_lt, sum-le-length,
  get_or-set_self, get_or-set_ne, get_or-set_all, length-set, if◌then◌else◌, ℕ_discrete,
}
use safetylint.Sweep.{until_stable}
use safetylint.Sweep.Rule.{until_stable_ends}
use safetylint.Flow.{Tables, visit, same_in, same_out}

module _ {B X R : Type 0} (index : B → ℕ) (same : X → X → Bool) (default : X)
    (entry : List X → B → X) (run : B → X → X) (note : B → X → R → R) (bs : List B)
    (Le : X → X → Type 0) (Good : X → Type 0) (level : X → ℕ) where
  abbrev at : List X → B → X
  at xs b = get_or xs (index b) default

  pub record IsMonotone : Type 0 where
    pub unique : (b c : B) → Memᴰ b bs → Memᴰ c bs → index b ≡ index c → b ≡ c
    pub le_self : (x : X) → Le x x
    pub le_after : (x y z : X) → Le x y → Le y z → Le x z
    pub same_self : (x : X) → Good x → same x x ≡ true
    pub level_lt : (x y : X) → Good x → Good y → Le x y → same x y ≡ false → level x < level y
    pub level_le : (x y : X) → Good x → Good y → Le x y → level x ≤ level y
    pub entry_good :
        (outs : List X) (b : B)
        → ((i : ℕ) → Good (get_or outs i default))
        → Memᴰ b bs
        → Good (entry outs b)
    pub run_good : (b : B) (x : X) → Memᴰ b bs → Good x → Good (run b x)
    pub entry_mono :
        (us vs : List X) (b : B)
        → ((i : ℕ) → Good (get_or us i default))
        → ((i : ℕ) → Good (get_or vs i default))
        → ((c : B) → Memᴰ c bs → Le (at us c) (at vs c))
        → Memᴰ b bs
        → Le (entry us b) (entry vs b)
    pub run_mono : (b : B) (x y : X) → Good x → Good y → Le x y → Le (run b x) (run b y)

  -- The tables cover the blocks, and no block would raise its own end.
  pub record IsDescending (t : Tables X R) : Type 0 where
    pub ins_room : (b : B) → Memᴰ b bs → index b < length t.ins
    pub outs_room : (b : B) → Memᴰ b bs → index b < length t.outs
    pub good : (i : ℕ) → Good (get_or t.outs i default)
    pub descends : (b : B) → Memᴰ b bs → Le (run b (entry t.outs b)) (at t.outs b)

  module _ (mono : IsMonotone) where
    open mono use {
      unique, le_self, le_after, same_self, level_lt, level_le, entry_good, run_good, entry_mono,
      run_mono,
    }

    module _ (t : Tables X R) (d : IsDescending t) (b : B) (mb : Memᴰ b bs) where
      open d use {ins_room, outs_room, good, descends}

      abbrev end : X
      end = run b (entry t.outs b)

      abbrev lowered : List X
      lowered = set t.outs (index b) end

      end-Good : Good end
      end-Good = run_good b _ mb (entry_good t.outs b good mb)

      lowered-Good : (i : ℕ) → Good (get_or lowered i default)
      lowered-Good = get_or-set_all Good t.outs (index b) end default good end-Good

      at-lowered_self : at lowered b ≡ end
      at-lowered_self = get_or-set_self t.outs (index b) end default (outs_room b mb)

      at-lowered_ne : (c : B) → index b ≢ index c → at lowered c ≡ at t.outs c
      at-lowered_ne c h = get_or-set_ne t.outs (index b) (index c) end default h

      lowered_below :
          (c : B)
          → Memᴰ c bs
          → Good (at lowered c) × Good (at t.outs c) × Le (at lowered c) (at t.outs c)
      lowered_below c m = elim (ℕ_discrete (index b) (index c)) [
        | yes e ↦
            subst (λ x. Good (at lowered x) × Good (at t.outs x) × Le (at lowered x) (at t.outs x))
              (unique b c mb m e) (rw at-lowered_self (end-Good, good (index b), descends b mb))
        | no ne ↦ rw (at-lowered_ne c ne) (good (index c), good (index c), le_self _)
      ]

      entry_below : (c : B) → Memᴰ c bs → Le (run c (entry lowered c)) (run c (entry t.outs c))
      entry_below c m =
          run_mono c _ _ (entry_good lowered c lowered-Good m) (entry_good t.outs c good m)
            (entry_mono lowered t.outs c lowered-Good good (λ a n. (lowered_below a n).2) m)

      lowered_descends : (c : B) → Memᴰ c bs → Le (run c (entry lowered c)) (at lowered c)
      lowered_descends c m = elim (ℕ_discrete (index b) (index c)) [
        | yes e ↦
            subst (λ x. Le (run x (entry lowered x)) (at lowered x)) (unique b c mb m e)
              (rw at-lowered_self (entry_below b mb))
        | no ne ↦ rw (at-lowered_ne c ne) (le_after _ _ _ (entry_below c m) (descends c m))
      ]

    pub visit_keeps :
        (b : B) (t : Tables X R)
        → Memᴰ b bs
        → IsDescending t
        → IsDescending (visit index same default entry run note b t).0
    unfolding visit
    visit_keeps b t m d = elim (Bool-cases (same_out index same default entry run note t b)) [
      | inl kept ↦ rw kept (record {
        ins_room = λ c n. room_kept t.ins c (index b) _ _ (d.ins_room c n);
        outs_room = d.outs_room;
        good = d.good;
        descends = d.descends;
      })
      | inr lower ↦ rw lower (record {
        ins_room = λ c n. room_kept t.ins c (index b) _ _ (d.ins_room c n);
        outs_room = λ c n. rw (length-set t.outs (index b) (end t d b m)) (d.outs_room c n);
        good = λ i. lowered-Good t d b m i;
        descends = λ c n. lowered_descends t d b m c n;
      })
    ]
      where
        room_kept :
            (xs : List X) (c : B) (i : ℕ) (x : X) (k : Bool)
            → index c < length xs
            → index c < length (if k then xs else set xs i x)
        room_kept xs c i x k h = ground (arith, length-set xs i x)

    abbrev differs : Tables X R → B → ℕ
    differs t c = if same_in index same default entry run note t c then 0 else 1

    abbrev levels : List X → ℕ
    levels outs = sum (λ c. level (at outs c)) bs

    abbrev measure : Tables X R → ℕ
    measure t = suc (length bs) * levels t.outs + sum (differs t) bs

    gap : (n s s' m m' : ℕ) → s' < s → m' ≤ n → suc n * s' + m' < suc n * s + m
    gap n s s' m m' h k = grind arith

    module _ (t : Tables X R) (d : IsDescending t) (b : B) (mb : Memᴰ b bs) where
      levels_lt :
          same_out index same default entry run note t b ≡ false
          → levels (lowered t d b mb) < levels t.outs
      unfolding same_out
      levels_lt h =
          sum_lt (λ c. level (at (lowered t d b mb) c)) (λ c. level (at t.outs c)) bs b mb
            (λ c m. let (g, g', le) = lowered_below t d b mb c m in level_le _ _ g g' le)
            (rw (at-lowered_self t d b mb)
              (level_lt _ _ (end-Good t d b mb) (d.good (index b)) (d.descends b mb) h))

      abbrev corrected : R → Tables X R
      corrected noted = record {
        ins = set t.ins (index b) (entry t.outs b);
        outs = t.outs;
        noted = noted;
      }

      corrected_self : (noted : R) → differs (corrected noted) b ≡ 0
      unfolding same_in
      corrected_self noted =
          rw (get_or-set_self t.ins (index b) (entry t.outs b) default (d.ins_room b mb))
            (rw (same_self (entry t.outs b) (entry_good t.outs b d.good mb)))

      corrected_ne :
          (noted : R) (c : B) → index b ≢ index c → differs (corrected noted) c ≡ differs t c
      unfolding same_in
      corrected_ne noted c h =
          rw (get_or-set_ne t.ins (index b) (index c) (entry t.outs b) default h)

      corrected_le : (noted : R) (c : B) → Memᴰ c bs → differs (corrected noted) c ≤ differs t c
      corrected_le noted c m = elim (ℕ_discrete (index b) (index c)) [
        | yes e ↦
            subst (λ x. differs (corrected noted) x ≤ differs t x) (unique b c mb m e)
              (omega (arith, corrected_self noted))
        | no ne ↦ omega (arith, corrected_ne noted c ne)
      ]

      differs_lt :
          (noted : R)
          → same_in index same default entry run note t b ≡ false
          → sum (differs (corrected noted)) bs < sum (differs t) bs
      differs_lt noted h =
          sum_lt (differs (corrected noted)) (differs t) bs b mb (corrected_le noted)
            (let one : differs t b ≡ 1 = rw h in omega (arith, corrected_self noted))

    differs_le : (t : Tables X R) (c : B) → differs t c ≤ 1
    differs_le t c = ground arith

    visit_less :
        (b : B) (t : Tables X R)
        → Memᴰ b bs
        → IsDescending t
        → (visit index same default entry run note b t).1 ≡ true
        → measure (visit index same default entry run note b t).0 < measure t
    unfolding visit
    visit_less b t m d h = elim (Bool-cases (same_out index same default entry run note t b)) [
      | inl kept ↦ elim (Bool-cases (same_in index same default entry run note t b)) [
        | inl also ↦ cc
        | inr new ↦ rw (kept, new) (omega (arith, differs_lt t d b m _ new))
      ]
      | inr lower ↦ rw lower (
          gap (length bs) _ _ _ _ (levels_lt t d b m lower) (
            sum-le-length _ bs (
              differs_le (record {
                ins =
                    if same_in index same default entry run note t b
                    then t.ins
                    else set t.ins (index b) (entry t.outs b);
                outs = lowered t d b m;
                noted = note b (entry t.outs b) t.noted;
              }))))
    ]

    measure_noted : (t : Tables X R) (noted : R) → measure (record t { noted = noted }) ≡ measure t
    unfolding same_in
    measure_noted t noted = refl

    visit_same :
        (b : B) (t : Tables X R)
        → Memᴰ b bs
        → IsDescending t
        → (visit index same default entry run note b t).1 ≡ false
        → measure (visit index same default entry run note b t).0 ≡ measure t
    unfolding visit
    visit_same b t m d h = elim (Bool-cases (same_out index same default entry run note t b)) [
      | inl kept ↦ elim (Bool-cases (same_in index same default entry run note t b)) [
        | inl also ↦ rw (kept, also) (measure_noted t (note b (entry t.outs b) t.noted))
        | inr new ↦ cc
      ]
      | inr lower ↦ absurd (ground arith)
    ]

    -- With more fuel than the measure of the tables, the loop over the blocks ends.
    pub flow_ends :
        (fuel : ℕ) (t : Tables X R)
        → IsDescending t
        → measure t < fuel
        → (u : Tables X R) × (until_stable (visit index same default entry run note) bs fuel t
            ≡ some u)
    flow_ends fuel t d h =
        until_stable_ends (visit index same default entry run note) (λ b. Memᴰ b bs) IsDescending
          visit_keeps measure visit_same visit_less bs fuel t (λ b m. m) d h

    sum-le-product :
        (f : B → ℕ) (c : ℕ) (xs : List B)
        → ((b : B) → Memᴰ b xs → f b ≤ c)
        → sum f xs ≤ length xs * c
    sum-le-product f c [] h = omega arith
    sum-le-product f c (b ∷ xs) h =
        grind (arith, h b (Memᴰ.head refl), sum-le-product f c xs (λ a m. h a (Memᴰ.tail m)))

    times_le : (n a b : ℕ) → a ≤ b → n * a ≤ n * b
    times_le zero a b h = omega arith
    times_le (suc n) a b h = grind (arith, times_le n a b h)

    -- Fuel for a bound on the levels is enough.
    pub flow_ends_within :
        (fuel c : ℕ) (t : Tables X R)
        → IsDescending t
        → ((b : B) → Memᴰ b bs → level (at t.outs b) ≤ c)
        → suc (length bs) * (length bs * c) + length bs < fuel
        → (u : Tables X R) × (until_stable (visit index same default entry run note) bs fuel t
            ≡ some u)
    flow_ends_within fuel c t d h lt = flow_ends fuel t d (
        omega (
          arith,
          times_le (suc (length bs)) (levels t.outs) (length bs * c)
              (sum-le-product (λ b. level (at t.outs b)) c bs h),
          sum-le-length (differs t) bs (differs_le t),
          lt,
        ))
