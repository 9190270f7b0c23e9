-- ===== src/Samples/Steps.antt =====
-- The steps of the must-hold analysis, and the search for unlocks, on the sample program and on one
-- with `func f(m *sync.Mutex) { m.Unlock() }` in its place.
use safetylint.Base.{
  ℕ, zero, suc, ◌≡◌, ◌≤◌, ◌↔◌, refl, arith, false, ◌||◌, [], ◌∷◌, some, Memᴰ, decides, ℕ_discrete,
  if◌then◌else◌, ◌==◌, subst,
}
use mathlib.Core.Option.{some-injective}
use safetylint.Ssa.{Program, ValueView, parameter, other}
use safetylint.Hold.{get, has, hold_read, hold_write, IsWf}
use safetylint.Guard.{GuardKey, GuardKey-discrete, lock_unlock_guard}
use safetylint.Guard.Method.{is_sync_mutex_method}
use safetylint.MayUnlock.{keeps, callee_may_unlock}
use safetylint.MayUnlock.Alias.{aliased_unlock_kept, IsAliased, OnlyAliased}
use safetylint.MustHold.Step.{
  Held, key, apply_guard_op, kill_unknown_call, run_instrs, is_exported_global,
}
use safetylint.MustHold.Step.Modes.{
  apply_guard_op_modes, kill_unknown_call_modes, mode_after, given_away,
}
use safetylint.MustHold.Since.{HeldSince}
use safetylint.MustHold.Step.Effects.{gives, drops}
use safetylint.MustHold.Step.Last.{run_instrs_since}
use safetylint.Samples.{sample, lock_call}

abbrev mu : GuardKey ℕ
mu = record { base = 0; field = some 0 }

abbrev read_held : Held sample
read_held = (mu, hold_read) ∷ []

abbrev write_held : Held sample
write_held = (mu, hold_write) ∷ []

apply_guard_op_modes_example :
    get (key sample) (apply_guard_op sample read_held mu "Unlock" false) mu ≡ (
      if false
      then get (key sample) read_held mu
      else if decides (key sample mu mu)
      then mode_after sample "Unlock" (get (key sample) read_held mu)
      else get (key sample) read_held mu)
apply_guard_op_modes_example = apply_guard_op_modes sample read_held mu mu "Unlock" false

kill_unknown_call_modes_example :
    get (key sample) (kill_unknown_call sample read_held lock_call) mu ≡ (
      if given_away sample lock_call mu || is_exported_global sample mu
      then 0
      else get (key sample) read_held mu)
kill_unknown_call_modes_example = kill_unknown_call_modes sample read_held lock_call mu

read_held-IsWf : IsWf (key sample) read_held
unfolding has GuardKey-discrete
read_held-IsWf = ground arith

-- `s.mu.Lock()` on a guard that is held in the shared mode
run_instrs_since_example :
    (hold_write ≤ get (key sample) (run_instrs sample (0 ∷ []) read_held) mu)
    ↔ HeldSince
        (gives sample mu)
        (drops sample mu)
        hold_write
        (0 ∷ [])
        (get (key sample) read_held mu)
run_instrs_since_example =
    run_instrs_since sample mu hold_write (omega arith) (omega arith) (0 ∷ []) read_held
      read_held-IsWf

abbrev alias_views : ℕ → ValueView ℕ ℕ
alias_views zero = other
alias_views (suc zero) = parameter
alias_views _ = other

-- the program with the function that unlocks its parameter
abbrev alias_sample : Program
alias_sample = record sample {
  view = alias_views;
  func_name = λ f. if f == 0 then "f" else "Unlock";
}

unlock-IsAliased : IsAliased alias_sample lock_call
unfolding is_sync_mutex_method lock_unlock_guard ℕ_discrete
unlock-IsAliased = record {
  callee = 1;
  is_static = refl;
  not_invoke = refl;
  no_body = refl;
  is_method = refl;
  unresolved = refl;
}

only_aliased : (b i : ℕ) → Memᴰ b (0 ∷ 1 ∷ []) → Memᴰ i (b ∷ []) → OnlyAliased alias_sample i
only_aliased b zero m n c e = subst (IsAliased alias_sample) (some-injective _ _ e) unlock-IsAliased
only_aliased b (suc i) m n c e = cc

aliased_unlock_kept_example : callee_may_unlock alias_sample 0 mu ≡ keeps (0 ∷ [])
aliased_unlock_kept_example = aliased_unlock_kept alias_sample mu 0 only_aliased
