-- ===== src/MustHold/Ends/Universe.antt =====
-- The map of all guards of a function, its instructions taken together, and the order that a step
-- keeps for each guard by itself.
use safetylint.Base.{
  ℕ, ◌≡◌, ◌≤◌, ◌<◌, subst, arith, List, [], ◌∷◌, ◌++◌, Option, none, some, Memᴰ, inl, inr,
}
use mathlib.Core.List.Memᴰ
use safetylint.Ssa.{Program, InstrView, call, defer}
use safetylint.Hold.{get, put, IsWf, hold_write}
use safetylint.Hold.Laws.{get-put}
use safetylint.Hold.Acts.{Acts}
use safetylint.Guard.{GuardKey, lock_unlock_guard}
use safetylint.MustHold.Step.{key, Held}
use safetylint.MustHold.Tables.{add_guard, universe_from, all_instrs}

pub Acts-key :
    {K : Type 0} (dec : Discrete K) (f : List (K × ℕ) → List (K × ℕ)) (x y : List (K × ℕ)) (k : K)
    → Acts dec f
    → IsWf dec x
    → IsWf dec y
    → get dec x k ≤ get dec y k
    → get dec (f x) k ≤ get dec (f y) k
Acts-key dec f x y k a wx wy h =
    omega (arith, a.reads x k wx, a.reads y k wy, a.grows k (get dec x k) (get dec y k) h)

pub Acts-cap :
    {K : Type 0} (dec : Discrete K) (f : List (K × ℕ) → List (K × ℕ)) (x : List (K × ℕ)) (k : K)
    → Acts dec f
    → IsWf dec x
    → get dec x k ≤ hold_write
    → get dec (f x) k ≤ hold_write
Acts-cap dec f x k a w h = omega (arith, a.reads x k w, a.capped k (get dec x k) h)

module _ (P : Program) where
  open P use {Value, Func, Instr, Block, instrs, preds, index, instr_view}

  -- The map of all guards has the exclusive mode for each.
  abbrev pub Exclusive : Held P → Type 0
  Exclusive u = (k : GuardKey Value) → 0 < get (key P) u k → get (key P) u k ≡ hold_write

  pub universe-Exclusive :
      (is : List Instr) (u : Held P) → Exclusive u → Exclusive (universe_from P is u)
  unfolding universe_from add_guard
  universe-Exclusive [] u h = h
  universe-Exclusive (i ∷ is) u h = universe-Exclusive is _ (by_view (instr_view i))
    where
      by_guard :
          (o : Option (GuardKey Value))
          → Exclusive (elim o [ none ↦ u | some g ↦ put (key P) u g hold_write ])
      by_guard none k p = h k p
      by_guard (some g) k p = ground (arith, get-put (key P) u g k hold_write, h k)

      by_view :
          (v : InstrView Value Func)
          → Exclusive (elim v [ call x c ↦ add_guard P u c | defer c ↦ add_guard P u c | _ ↦ u ])
      by_view (call x c) = by_guard (lock_unlock_guard P c)
      by_view (defer c) = by_guard (lock_unlock_guard P c)
      by_view _ = h

  append_left : (i : Instr) (xs ys : List Instr) → Memᴰ i xs → Memᴰ i (xs ++ ys)
  append_left i [] ys m = absurd (Memᴰ.not-nil m)
  append_left i (x ∷ xs) ys m = elim (Memᴰ.cases_cons m) [
    | inl e ↦ Memᴰ.head e
    | inr n ↦ Memᴰ.tail (append_left i xs ys n)
  ]

  append_right : (i : Instr) (xs ys : List Instr) → Memᴰ i ys → Memᴰ i (xs ++ ys)
  append_right i [] ys m = m
  append_right i (x ∷ xs) ys m = Memᴰ.tail (append_right i xs ys m)

  pub in_all_instrs :
      (bs : List Block) (b : Block) (i : Instr)
      → Memᴰ b bs
      → Memᴰ i (instrs b)
      → Memᴰ i (all_instrs P bs)
  in_all_instrs [] b i m n = absurd (Memᴰ.not-nil m)
  in_all_instrs (c ∷ bs) b i m n = elim (Memᴰ.cases_cons m) [
    | inl e ↦ append_left i (instrs c) (all_instrs P bs) (subst (λ x. Memᴰ i (instrs x)) e n)
    | inr k ↦ append_right i (instrs c) (all_instrs P bs) (in_all_instrs bs b i k n)
  ]
