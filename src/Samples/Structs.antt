-- ===== src/Samples/Structs.antt =====
-- The guards in struct types, on the sample program and on one with
-- `type A struct { *B }; type B struct { *A }` in its place.
use safetylint.Base.{
  List, ◌<◌, ◌∙◌, sym, subst, inl, inr, ℕ, zero, suc, ◌≡◌, refl, arith, true, false, [], ◌∷◌, none,
  some, Memᴰ, ℕ_discrete, if◌then◌else◌, ◌==◌,
}
use safetylint.Ssa.{Program, StructField, TyView, pointer, named, struct, other}
use safetylint.Types.{struct_of}
use safetylint.Hold.{hold_write}
use safetylint.MustHold.Tables.{Results}
use safetylint.Structural.{
  StructuralGuard, DataAccess, find_tied_mutex, find_structural_guards_kind, structural_guards,
  add_embedded_mutexes,
}
use safetylint.Structural.Tied.{find_tied_mutex_sound, IsProtected}
use safetylint.Structural.Keys.{find_structural-IsDistinct, IsDistinct}
use safetylint.Structural.Cycle.{Embeds, add_embedded_mutexes_loops}
use safetylint.Structural.Ends.{IsBounded, structural_guards_ends}
use mathlib.Core.List.Memᴰ
use mathlib.Core.Option.{some-injective}
use safetylint.Samples.{sample, sample-IsWellFounded}

-- the field `mu` of `S`
abbrev mu_field : StructuralGuard ℕ
mu_field = record { struct_type = 0; field = 0; rw = false }

-- a write to `s`
abbrev write_s : DataAccess ℕ ℕ
write_s = record { instr = 1; addr = 0; write = true }

-- `s.mu` is held everywhere
abbrev always_held : ℕ → Results sample
always_held fn i = some ((record { base = 0; field = some 0 }, hold_write) ∷ [])

found : find_structural_guards_kind sample 1 0 false ≡ some (mu_field ∷ [])
unfolding find_structural_guards_kind ℕ_discrete
found = refl

tied : find_tied_mutex sample always_held (mu_field ∷ []) (write_s ∷ []) ≡ some mu_field
unfolding find_tied_mutex ℕ_discrete
tied = refl

find_tied_mutex_sound_example :
    Memᴰ mu_field (mu_field ∷ [])
    × ((acc : DataAccess ℕ ℕ)
        → Memᴰ acc (write_s ∷ [])
        → IsProtected sample always_held acc mu_field)
find_tied_mutex_sound_example =
    find_tied_mutex_sound sample sample-IsWellFounded always_held (mu_field ∷ []) (write_s ∷ [])
      mu_field tied

find_structural-IsDistinct_example : IsDistinct sample (mu_field ∷ [])
find_structural-IsDistinct_example =
    find_structural-IsDistinct sample 1 0 false (mu_field ∷ []) found

abbrev cycle_views : ℕ → TyView ℕ ℕ
cycle_views zero = struct 0
cycle_views (suc zero) = struct 1
cycle_views (suc (suc zero)) = pointer 0
cycle_views (suc (suc (suc zero))) = pointer 1
cycle_views _ = other

abbrev cycle : Program
cycle = record sample {
  ty_view = cycle_views;
  fields = λ s. record { ty = if s == 0 then 3 else 2; embedded = true; name = "B" } ∷ [];
}

first-Embeds : Embeds cycle 0 1
unfolding struct_of
first-Embeds = record {
  head = record { ty = 3; embedded = true; name = "B" };
  rest = [];
  has_fields = refl;
  is_embedded = refl;
  has_struct = refl;
  differs = λ e. omega (arith, e);
}

second-Embeds : Embeds cycle 1 0
unfolding struct_of
second-Embeds = record {
  head = record { ty = 2; embedded = true; name = "B" };
  rest = [];
  has_fields = refl;
  is_embedded = refl;
  has_struct = refl;
  differs = λ e. omega (arith, e);
}

add_embedded_mutexes_loops_example : add_embedded_mutexes cycle false 9 0 [] ≡ none
add_embedded_mutexes_loops_example =
    add_embedded_mutexes_loops cycle false 0 1 first-Embeds second-Embeds 9 []

-- `type A struct { B }; type B struct { mu sync.Mutex }`
abbrev levels_views : ℕ → TyView ℕ ℕ
levels_views zero = struct 0
levels_views (suc zero) = struct 1
levels_views (suc (suc zero)) = named (some "sync") "Mutex"
levels_views _ = other

abbrev levels_fields : ℕ → List (StructField ℕ)
levels_fields zero = record { ty = 1; embedded = true; name = "B" } ∷ []
levels_fields (suc s) = record { ty = 2; embedded = false; name = "mu" } ∷ []

abbrev levels : Program
levels = record sample {
  ty_view = levels_views;
  underlying = λ t. t;
  fields = levels_fields;
  type_of = λ v. 0;
  embed_depth = λ s. if s == 0 then 1 else 0;
}

-- The mutex of the embedded struct is found.
embedded_found :
    find_structural_guards_kind levels 2 0 false
    ≡ some (record { struct_type = 1; field = 0; rw = false } ∷ [])
unfolding find_structural_guards_kind ℕ_discrete
embedded_found = refl

inner_struct : struct_of levels 1 ≡ some 1
unfolding struct_of
inner_struct = refl

levels-IsBounded : IsBounded levels
levels-IsBounded = record {
  lower = λ s inner f m b e ne. by_struct s inner f m b e;
  bound = λ s. ground arith;
}
  where
    by_struct :
        (s inner : ℕ) (f : StructField ℕ)
        → Memᴰ f (levels_fields s)
        → f.embedded ≡ true
        → struct_of levels f.ty ≡ some inner
        → (if inner == 0 then 1 else 0) < (if s == 0 then 1 else 0)
    by_struct zero inner f m b e = elim (Memᴰ.cases_cons m) [
      | inl q ↦
          let at_one : struct_of levels 1 ≡ some inner =
            subst (λ g. struct_of levels (StructField.ty g) ≡ some inner) q e in
          let same : 1 ≡ inner = some-injective 1 inner (sym inner_struct ∙ at_one) in ground arith
      | inr n ↦ absurd (Memᴰ.not-nil n)
    ]
    by_struct (suc s) inner f m b e = elim (Memᴰ.cases_cons m) [
      | inl q ↦ let no : false ≡ true = subst (λ g. StructField.embedded g ≡ true) q b in cc
      | inr n ↦ absurd (Memᴰ.not-nil n)
    ]

structural_guards_ends_example :
    find_structural_guards_kind levels 2 0 false ≡ some (structural_guards levels 0 false)
structural_guards_ends_example = structural_guards_ends levels levels-IsBounded 0 false
