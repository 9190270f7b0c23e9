-- ===== src/Samples/Helpers.antt =====
-- `func F() { go helper(); mu.Lock(); helper() }` with a package variable `mu`: function 2 is the
-- helper, called in block 1 and started in block 0 before the lock.
use safetylint.Base.{
  ap, subst, ◌<◌, ◌∙◌, sym, Bool-cases, inl, inr, ℕ, zero, suc, ◌≡◌, ◌≢◌, refl, arith, true, [],
  ◌∷◌, none, some, Memᴰ, ℕ_discrete, if◌then◌else◌, ◌==◌,
}
use mathlib.Core.List.Memᴰ
use safetylint.Ssa.{IsNumbered, Program, ValueView, InstrView, CallCommon, global, call, go, ret}
use safetylint.Guard.{GuardKey-discrete, lock_unlock_guard}
use safetylint.Calls.{is_async_callback_callee}
use safetylint.Hold.{get, agrees, hold_write, AtMost}
use safetylint.MustHold.Step.{key, Held}
use safetylint.MustHold.Tables.{Results}
use safetylint.MustHold.Inherit.{
  must_hold_from, inherited_entry_hold, analyze_must_hold, package_functions, calls_func,
}
use safetylint.MustHold.Inherit.Common.{inherited_entry_hold_sound}
use safetylint.MustHold.Inherit.Ends.{IsClosed, analyze_must_hold_ends}
use mathlib.Core.Option.{some-injective}
use safetylint.MayUnlock.{Verdict, keeps, callee_may_unlock}
use safetylint.MayUnlock.Sound.{Reaches, here, next, ReleasesNothing, callee_may_unlock_sound}
use safetylint.MayUnlock.Ends.{CalleesKnown, callee_may_unlock_ends}
use safetylint.Samples.{sample, instr_views, lock_call}

abbrev helper_call : CallCommon ℕ ℕ
helper_call = record { value = 7; method = none; args = []; static_callee = some 2 }

abbrev helper_instrs : ℕ → InstrView ℕ ℕ
helper_instrs zero = instr_views 0
helper_instrs (suc zero) = call 9 helper_call
helper_instrs (suc (suc (suc (suc zero)))) = go helper_call
helper_instrs _ = ret

abbrev helper_values : ℕ → ValueView ℕ ℕ
helper_values (suc zero) = global
helper_values _ = ValueView.other

abbrev helpers : Program
helpers = record sample {
  view = helper_values;
  instr_view = helper_instrs;
  instrs = λ b. if b == 0 then 4 ∷ 0 ∷ [] else b ∷ [];
  index = λ b. if b == 2 then 0 else b;
  blocks = λ f. if f == 0 then 0 ∷ 1 ∷ [] else if f == 2 then 2 ∷ [] else [];
  type_of = λ v. if v == 1 then 3 else 4;
  func_name = λ f. if f == 2 then "helper" else "Lock";
  recv = λ f. if f == 1 then some 3 else none;
  func_exported = λ f. f == 0;
  func_pkg = λ f. some 0;
  object_pkg_path = λ f. some (if f == 1 then "sync" else "sample");
  member_funcs = λ p. 0 ∷ 2 ∷ [];
  all_funcs = 0 ∷ 1 ∷ 2 ∷ [];
}

abbrev mu : Held helpers
mu = (record { base = 1; field = none }, hold_write) ∷ []

-- The helper inherits the mutex, though it is also started without it.
inherits : inherited_entry_hold helpers (must_hold_from helpers 2 (2 ∷ [])) 2 [] ≡ some (some mu)
unfolding inherited_entry_hold must_hold_from ℕ_discrete GuardKey-discrete agrees get
inherits = refl

callers_found : (pkg : ℕ) → package_functions helpers pkg ≡ 0 ∷ 2 ∷ []
unfolding package_functions ℕ_discrete
callers_found pkg = refl

is_caller : Memᴰ 0 (package_functions helpers 0)
is_caller = rw (callers_found 0) (Memᴰ.head refl)

is_call : calls_func helpers 2 1 ≡ true
unfolding calls_func ℕ_discrete
is_call = refl

differs : helpers.depth 0 ≢ helpers.depth 2
differs e = omega (arith, e)

inherited_entry_hold_sound_example :
    (results : Results helpers) × (held : Held helpers) × (must_hold_from helpers 2 (2 ∷ []) 0
      ≡ some results)
    × (results 1 ≡ some held)
    × AtMost (key helpers) mu held
inherited_entry_hold_sound_example =
    inherited_entry_hold_sound helpers 2 [] 2 mu 0 0 1 inherits refl is_caller differs
      (Memᴰ.tail (Memᴰ.tail (Memᴰ.head refl))) is_call

caller_blocks-IsNumbered : IsNumbered helpers (0 ∷ 1 ∷ [])
caller_blocks-IsNumbered = record {
  unique = λ b c mb mc e. by_member b c mb mc e;
  in_range = λ b m. elim (Memᴰ.cases_cons m) [
    | inl e ↦ rw e (omega arith)
    | inr n ↦ elim (Memᴰ.cases_cons n) [
      | inl e ↦ rw e (omega arith)
      | inr k ↦ absurd (Memᴰ.not-nil k)
    ]
  ];
  preds_in = λ b p m n. preds_of b p n;
}
  where
    small : (b : ℕ) → Memᴰ b (0 ∷ 1 ∷ []) → b < 2
    small b m = elim (Memᴰ.cases_cons m) [
      | inl e ↦ omega (arith, e)
      | inr n ↦ elim (Memᴰ.cases_cons n) [
        | inl e ↦ omega (arith, e)
        | inr k ↦ absurd (Memᴰ.not-nil k)
      ]
    ]

    by_member :
        (b c : ℕ)
        → Memᴰ b (0 ∷ 1 ∷ [])
        → Memᴰ c (0 ∷ 1 ∷ [])
        → (if b == 2 then 0 else b) ≡ (if c == 2 then 0 else c)
        → b ≡ c
    by_member b c mb mc e = let hb = small b mb in let hc = small c mc in ground arith

    preds_of : (b p : ℕ) → Memᴰ p (helpers.preds b) → Memᴰ p (0 ∷ 1 ∷ [])
    preds_of zero p m = absurd (Memᴰ.not-nil m)
    preds_of (suc zero) p m = elim (Memᴰ.cases_cons m) [
      | inl e ↦ Memᴰ.head e
      | inr n ↦ absurd (Memᴰ.not-nil n)
    ]
    preds_of (suc (suc b)) p m = absurd (Memᴰ.not-nil m)

helper_blocks-IsNumbered : IsNumbered helpers (2 ∷ [])
helper_blocks-IsNumbered = record {
  unique = λ b c mb mc e. is_two b mb ∙ sym (is_two c mc);
  in_range = λ b m. rw (is_two b m) (omega arith);
  preds_in = λ b p m n. absurd (Memᴰ.not-nil (rw (is_two b m) at n));
}
  where
    is_two : (b : ℕ) → Memᴰ b (2 ∷ []) → b ≡ 2
    is_two b m = elim (Memᴰ.cases_cons m) [ inl e ↦ e | inr n ↦ absurd (Memᴰ.not-nil n) ]

no_blocks-IsNumbered : IsNumbered helpers []
no_blocks-IsNumbered = record {
  unique = λ b c mb. absurd (Memᴰ.not-nil mb);
  in_range = λ b m. absurd (Memᴰ.not-nil m);
  preds_in = λ b p m. absurd (Memᴰ.not-nil m);
}

helpers-IsClosed : IsClosed helpers
helpers-IsClosed = record {
  numbered = λ fn. elim (Bool-cases (fn == 0)) [
    | inl e ↦ rw e caller_blocks-IsNumbered
    | inr e ↦ elim (Bool-cases (fn == 2)) [
      | inl q ↦ rw (e, q) helper_blocks-IsNumbered
      | inr q ↦ rw (e, q) no_blocks-IsNumbered
    ]
  ];
  in_program = λ pkg f m. elim (Memᴰ.cases_cons (rw (callers_found pkg) at m)) [
    | inl e ↦ Memᴰ.head e
    | inr n ↦ Memᴰ.tail (Memᴰ.tail n)
  ];
}

analyze_must_hold_ends_example : (r : Results helpers) × (analyze_must_hold helpers 2 ≡ some r)
analyze_must_hold_ends_example =
    analyze_must_hold_ends helpers helpers-IsClosed 2 (Memᴰ.tail (Memᴰ.tail (Memᴰ.head refl)))

-- the callee of a call is known by the call
known_callee :
    (d c : CallCommon ℕ ℕ) (g f : ℕ)
    → d.static_callee ≡ some g
    → Memᴰ g (0 ∷ 1 ∷ 2 ∷ [])
    → some d ≡ some c
    → c.static_callee ≡ some f
    → Memᴰ f (0 ∷ 1 ∷ 2 ∷ [])
known_callee d c g f e m same q =
    let callees : some g ≡ some f =
      sym e ∙ ap (λ z. CallCommon.static_callee z) (some-injective d c same) ∙ q in
    subst (λ z. Memᴰ z (0 ∷ 1 ∷ 2 ∷ [])) (some-injective g f callees) m

helpers-CalleesKnown : CalleesKnown helpers
helpers-CalleesKnown zero c f e q =
    known_callee lock_call c 1 f refl (Memᴰ.tail (Memᴰ.head refl)) e q
helpers-CalleesKnown (suc zero) c f e q =
    known_callee helper_call c 2 f refl (Memᴰ.tail (Memᴰ.tail (Memᴰ.head refl))) e q
helpers-CalleesKnown (suc (suc zero)) c f e q = cc
helpers-CalleesKnown (suc (suc (suc zero))) c f e q = cc
helpers-CalleesKnown (suc (suc (suc (suc zero)))) c f e q =
    known_callee helper_call c 2 f refl (Memᴰ.tail (Memᴰ.tail (Memᴰ.head refl))) e q
helpers-CalleesKnown (suc (suc (suc (suc (suc i))))) c f e q = cc

callee_may_unlock_ends_example :
    callee_may_unlock helpers 0 (record { base = 1; field = none }) ≢ Verdict.out_of_fuel
callee_may_unlock_ends_example =
    callee_may_unlock_ends helpers helpers-CalleesKnown (record { base = 1; field = none }) 0
      (Memᴰ.head refl)

-- The same with a helper that calls itself.
abbrev looping : Program
looping = record helpers {
  blocks = λ f. if f == 0 then 0 ∷ 1 ∷ [] else if f == 2 then 1 ∷ [] else [];
}

no_release : callee_may_unlock looping 0 (record { base = 1; field = none }) ≡ keeps (2 ∷ 0 ∷ [])
unfolding callee_may_unlock ℕ_discrete
no_release = refl

helper_called : Reaches looping 0 2
unfolding lock_unlock_guard is_async_callback_callee
helper_called =
    next 2 1 1 helper_call here (Memᴰ.tail (Memᴰ.head refl)) (Memᴰ.head refl) refl refl refl refl
      refl refl refl

callee_may_unlock_sound_example :
    ReleasesNothing looping (record { base = 1; field = none }) helper_call
callee_may_unlock_sound_example =
    callee_may_unlock_sound looping (record { base = 1; field = none }) 0 (2 ∷ 0 ∷ []) no_release 2
      helper_called 1 1 helper_call (Memᴰ.head refl) (Memᴰ.head refl) refl
