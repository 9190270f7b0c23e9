-- ===== src/Samples/Runs.antt =====
-- The analyses run on the sample program.
use safetylint.Base.{
  ℕ, ◌≡◌, ◌≢◌, ◌≤◌, ◌↔◌, refl, arith, Bool, true, false, List, [], ◌∷◌, none, some, Memᴰ,
  ℕ_discrete, min, max, ◌==◌, if◌then◌else◌, any, ◌||◌, ◌<◌, inl, inr, zero, suc,
}
use mathlib.Core.List.Memᴰ
use safetylint.Ssa.{IsNumbered, pointer}
use safetylint.Samples.{sample, sample-IsWellFounded, lock_call}
use safetylint.Hold.{
  put, delete, delete_if, clone_guard_set, strengthen_hold, HoldSet, agrees, get, has,
  guard_set_equal, intersect_guards, hold_write, IsWf, AtMost,
}
use safetylint.Hold.Refine.{Refines, update, hold_set-Refines}
use safetylint.Hold.Equal.{guard_set_equal_iff}
use safetylint.Strip.{strip_to_object, base_covers_addr, walk, strip_next, same_guard_object}
use safetylint.Strip.Ends.{strip_to_object_ends}
use safetylint.Strip.Covers.{base_covers_addr_iff, same_guard_object_of_covers}
use safetylint.Types.{peel_pointers}
use safetylint.Types.Peel.{peel_pointers_done}
use safetylint.Guard.{GuardKey, GuardKey-discrete, lock_unlock_guard}
use safetylint.Guard.Wrapper.{performs, seen_tables, wrapper_must_perform}
use safetylint.Guard.Wrapper.Ends.{seen_tables_ends}
use safetylint.Guard.Wrapper.Paths.{wrapper_must_perform_sound}
use safetylint.Flow.{Tables}
use safetylint.Flow.Paths.{Reach, start, step}
use safetylint.MustHold.Step.{Held, key, block_out, run_instrs}
use safetylint.MustHold.Edge.{edge_hold}
use safetylint.MustHold.Tables.{Results, hold_tables, top_tables}
use safetylint.MustHold.Ends.{hold_tables_ends}
use safetylint.MustHold.Sound.{must_hold_sound, Arrives, StandsOnce}

-- the guard `s.mu`
abbrev mu : GuardKey ℕ
mu = record { base = 0; field = some 0 }

sample-lock : lock_unlock_guard sample lock_call ≡ some mu
unfolding lock_unlock_guard
sample-lock = refl

sample-strip : strip_to_object sample 1 ≡ 0
unfolding strip_to_object
sample-strip = refl

abbrev two_guards : HoldSet ℕ
two_guards = (1, 1) ∷ (2, 2) ∷ []

abbrev other_order : HoldSet ℕ
other_order = (2, 2) ∷ (1, 1) ∷ []

two_guards-IsWf : IsWf ℕ_discrete two_guards
unfolding has ℕ_discrete
two_guards-IsWf = ground arith

other_order-IsWf : IsWf ℕ_discrete other_order
unfolding has ℕ_discrete
other_order-IsWf = ground arith

guard_set_equal_iff_example :
    (guard_set_equal ℕ_discrete two_guards other_order ≡ true)
    ↔ ((k : ℕ) → get ℕ_discrete two_guards k ≡ get ℕ_discrete other_order k)
guard_set_equal_iff_example =
    guard_set_equal_iff ℕ_discrete two_guards other_order two_guards-IsWf other_order-IsWf

strip_to_object_ends_example :
    (strip_next (sample.view (strip_to_object sample 1)) ≡ none)
    × ((n : ℕ) → sample.depth 1 ≤ n → walk sample strip_next n 1 ≡ strip_to_object sample 1)
strip_to_object_ends_example = strip_to_object_ends sample sample-IsWellFounded 1

base_covers_addr_iff_example : (base_covers_addr sample 0 1 ≡ true) ↔ (strip_to_object sample 1 ≡ 0)
base_covers_addr_iff_example = base_covers_addr_iff sample sample-IsWellFounded 0 1

abbrev locks : ℕ → Bool
locks = performs sample 0 "Lock" (record { field = 0; is_rw = false })

accepted : wrapper_must_perform sample (0 ∷ 1 ∷ []) locks ≡ true
unfolding wrapper_must_perform performs ℕ_discrete
accepted = refl

abbrev both : List ℕ
both = 0 ∷ 1 ∷ []

-- the flag on the way from block 0 into block 1
abbrev met : Bool
met = false || any locks (0 ∷ [])

wrapper_arrives :
    Reach both sample.preds (λ b x. x || any locks (sample.instrs b)) (λ p b x. x) 0 false 1 met
wrapper_arrives = step 1 start (Memᴰ.head refl) (Memᴰ.tail (Memᴰ.head refl)) (Memᴰ.head refl)

wrapper_must_perform_sound_example : met || any locks [] ≡ true
wrapper_must_perform_sound_example =
    wrapper_must_perform_sound sample locks both {b₀ = 0} refl accepted {b = 1} {x = met}
      wrapper_arrives (Memᴰ.tail (Memᴰ.head refl)) [] [] 1 refl refl

abbrev tables : Tables (Held sample) (Results sample)
tables = elim (hold_tables sample 0 both []) [ none ↦ top_tables sample 0 both [] | some t ↦ t ]

tables_found : hold_tables sample 0 both [] ≡ some tables
unfolding hold_tables ℕ_discrete GuardKey-discrete agrees get
tables_found = refl

-- The mutex is held at the return.
held_at_return : tables.noted 1 ≡ some ((mu, hold_write) ∷ [])
unfolding hold_tables ℕ_discrete GuardKey-discrete agrees get
held_at_return = refl

arrives : Arrives sample 0 both [] 1 (run_instrs sample (0 ∷ []) [])
unfolding edge_hold block_out run_instrs
arrives = step 1 start (Memᴰ.head refl) (Memᴰ.tail (Memᴰ.head refl)) (Memᴰ.head refl)

return_once : StandsOnce sample 0 both [] 1 [] 1
return_once c [] post m e = (ground arith, refl)
return_once c (x ∷ []) post m e = cc
return_once c (x ∷ y ∷ pre) post m e = cc

must_hold_sound_example :
    (held : Held sample) × (tables.noted 1 ≡ some held)
    × AtMost (key sample) held (run_instrs sample [] (run_instrs sample (0 ∷ []) []))
must_hold_sound_example =
    must_hold_sound sample 0 both [] tables tables_found tt refl 1 (run_instrs sample (0 ∷ []) [])
      [] [] 1 arrives (Memᴰ.tail (Memᴰ.head refl)) refl return_once

covers_s : base_covers_addr sample 0 1 ≡ true
unfolding base_covers_addr ℕ_discrete
covers_s = refl

same_guard_object_of_covers_example : same_guard_object sample 0 1 ≡ true
same_guard_object_of_covers_example =
    same_guard_object_of_covers sample sample-IsWellFounded 0 1 covers_s

peel_pointers_done_example : sample.ty_view (peel_pointers sample 3 3) ≢ pointer 2
peel_pointers_done_example = peel_pointers_done sample sample-IsWellFounded 3 3 (omega arith) 2

in_range : (b : ℕ) → Memᴰ b both → b < 2
in_range b m = elim (Memᴰ.cases_cons m) [
  | inl e ↦ omega (arith, e)
  | inr n ↦ elim (Memᴰ.cases_cons n) [ inl e ↦ omega (arith, e) | inr o ↦ absurd (Memᴰ.not-nil o) ]
]

preds_in : (b p : ℕ) → Memᴰ p (sample.preds b) → Memᴰ p both
preds_in zero p m = absurd (Memᴰ.not-nil m)
preds_in (suc zero) p m = elim (Memᴰ.cases_cons m) [
  | inl e ↦ Memᴰ.head e
  | inr n ↦ absurd (Memᴰ.not-nil n)
]
preds_in (suc (suc b)) p m = absurd (Memᴰ.not-nil m)

both-IsNumbered : IsNumbered sample both
both-IsNumbered = record {
  unique = λ b c m n e. e;
  in_range = in_range;
  preds_in = λ b p m n. preds_in b p n;
}

nothing_held : (k : GuardKey ℕ) → get (key sample) [] k ≤ hold_write
unfolding get
nothing_held k = omega arith

hold_tables_ends_example :
    (t : Tables (Held sample) (Results sample)) × (hold_tables sample 0 both [] ≡ some t)
hold_tables_ends_example = hold_tables_ends sample 0 both [] both-IsNumbered tt nothing_held

seen_tables_ends_example :
    (t : Tables Bool (Unit {0})) × (seen_tables sample (λ b. any locks (sample.instrs b)) both
      ≡ some t)
seen_tables_ends_example =
    seen_tables_ends sample (λ b. any locks (sample.instrs b)) 0 (1 ∷ []) both-IsNumbered refl

hold_set-Refines_example :
    Refines ℕ_discrete (λ s. put ℕ_discrete s 2 1) (update ℕ_discrete 2 1)
    × Refines ℕ_discrete (λ s. delete ℕ_discrete s 2) (update ℕ_discrete 2 0)
    × Refines ℕ_discrete
        (λ s. delete_if ℕ_discrete (λ j. j == 1) s)
        (λ m j. if j == 1 then 0 else m j)
    × Refines ℕ_discrete (λ s. clone_guard_set ℕ_discrete s) (λ m. m)
    × Refines ℕ_discrete
        (λ s. intersect_guards ℕ_discrete s two_guards)
        (λ m j. min (m j) (get ℕ_discrete two_guards j))
    × Refines ℕ_discrete
        (λ s. strengthen_hold ℕ_discrete s 2 1)
        (λ m. update ℕ_discrete 2 (max 1 (m 2)) m)
hold_set-Refines_example = hold_set-Refines ℕ_discrete 2 1 (λ j. j == 1) two_guards (ground arith)
