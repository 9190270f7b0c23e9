-- ===== src/MustHold/Inherit/Met.antt =====
-- One call more: what is common to the calls so far and the hold before the call.
use safetylint.Base.{◌≡◌, refl, sym, subst, arith, Option, none, some, Bool-cases, inl, inr}
use safetylint.Ssa.{Program}
use safetylint.Hold.{AtMost, intersect_guards, clone_guard_set}
use safetylint.Hold.Laws.{get-clone, get-intersect, intersect-IsWf}
use safetylint.MustHold.Step.{key, Held}
use safetylint.MustHold.Tables.Notes.{IsCapped, clone-IsCapped}
use safetylint.MustHold.Inherit.{so_far, meet_held, is_nil}

module _ (P : Program) where
  open P use {Func, Instr, Pkg, blocks, func_pkg, func_exported, func_discrete}

  -- A common hold is a well-formed map, with modes up to the exclusive one.
  abbrev pub OptCapped : Option (Held P) → Type 0
  OptCapped none = Unit {0}
  OptCapped (some common) = IsCapped P common

  -- `new` claims no more than `old`, and claims something if `old` does.
  abbrev pub Lower : Option (Held P) → Option (Held P) → Type 0
  Lower new none = Unit {0}
  Lower none (some old) = ⊥
  Lower (some new) (some old) = AtMost (key P) new old

  pub Lower-refl : (a : Option (Held P)) → Lower a a
  Lower-refl none = tt
  Lower-refl (some common) = λ k. omega arith

  pub Lower-trans : (a b c : Option (Held P)) → Lower a b → Lower b c → Lower a c
  Lower-trans a b none h k = tt
  Lower-trans none none (some c) h k = k
  Lower-trans (some a) none (some c) h k = absurd k
  Lower-trans none (some b) (some c) h k = h
  Lower-trans (some a) (some b) (some c) h k = λ g. omega (arith, h g, k g)

  -- One more call: something is held before it, and the new common hold claims no more.
  pub record Met (acc o : Option (Held P)) (next : Option (Held P)) : Type 0 where
    pub held : Held P
    pub common : Held P
    pub is_held : o ≡ some held
    pub is_next : next ≡ some common
    pub next_capped : IsCapped P common
    pub below : AtMost (key P) common held
    pub lower : Lower next acc

  pub meet_held-Met :
      (acc o next : Option (Held P))
      → meet_held P acc o ≡ so_far next
      → OptCapped acc
      → OptCapped o
      → Met acc o next
  unfolding meet_held
  meet_held-Met acc none next h wa wo = cc
  meet_held-Met none (some held) next h wa wo = elim (Bool-cases (is_nil P held)) [
    | inl e ↦ cc (rw e at h)
    | inr e ↦ record {
      held = held;
      common = clone_guard_set (key P) held;
      is_held = refl;
      is_next = cc (rw e at h);
      next_capped = clone-IsCapped P held wo;
      below = λ k. omega (arith, get-clone (key P) held k wo.0);
      lower = tt;
    }
  ]
  meet_held-Met (some common) (some held) next h wa wo = elim (Bool-cases (is_nil P held)) [
    | inl e ↦ cc (rw e at h)
    | inr e ↦ elim (Bool-cases (is_nil P (intersect_guards (key P) common held))) [
      | inl q ↦ cc (rw (e, q) at h)
      | inr q ↦
          let is_next : next ≡ some (intersect_guards (key P) common held) = cc (rw (e, q) at h) in
          record {
            held = held;
            common = intersect_guards (key P) common held;
            is_held = refl;
            is_next = is_next;
            next_capped = (
              intersect-IsWf (key P) common held wa.0,
              λ k. omega (arith, get-intersect (key P) common held k wa.0, wa.1 k),
            );
            below = λ k. omega (arith, get-intersect (key P) common held k wa.0);
            lower =
                subst (λ z. Lower z (some common)) (sym is_next)
                  (λ k. omega (arith, get-intersect (key P) common held k wa.0));
          }
    ]
  ]
