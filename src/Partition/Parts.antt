-- ===== src/Partition/Parts.antt =====
-- What holds of every part holds of the parts that are filed under a function.
use safetylint.Base.{
  ◌≡◌, refl, sym, ap, subst, List, [], ◌∷◌, ◌++◌, Option, none, some, Memᴰ, inl, inr, Bool-cases,
  Option-cases, if◌then◌else◌, decides,
}
use mathlib.Core.List.Memᴰ
use mathlib.Core.Option.{some-injective}
use safetylint.Ssa.{Program}
use safetylint.Access.{Access, is_slice_header_load, is_slice_header_store}
use safetylint.Partition.{put_part, stored_in_setup, put_write, parts_by_fn}
use safetylint.Partition.Writers.{ByFn}

module _ (P : Program) {X : Type 0} (part : Access P → Option X) (Q : X → Type 0)
    (holds : (acc : Access P) (x : X) → part acc ≡ some x → Q x) where
  open P use {Func, Value, Instr, func_discrete, instr_parent}

  -- Every filed part is as `Q` says.
  abbrev pub AllParts : ByFn P part → Type 0
  AllParts by_fn = (f : Func) (xs : List X) (x : X) → Memᴰ (f, xs) by_fn → Memᴰ x xs → Q x

  snoc_all :
      (xs : List X) (x : X)
      → ((y : X) → Memᴰ y xs → Q y)
      → Q x
      → (y : X) → Memᴰ y (xs ++ x ∷ [])
      → Q y
  snoc_all [] x h q y m = elim (Memᴰ.cases_cons m) [
    | inl e ↦ subst Q (sym e) q
    | inr n ↦ absurd (Memᴰ.not-nil n)
  ]
  snoc_all (z ∷ xs) x h q y m = elim (Memᴰ.cases_cons m) [
    | inl e ↦ h y (Memᴰ.head e)
    | inr n ↦ snoc_all xs x (λ w k. h w (Memᴰ.tail k)) q y n
  ]

  put_part-AllParts :
      (fn : Func) (x : X) (by_fn : ByFn P part)
      → Q x
      → AllParts by_fn
      → AllParts (put_part P part fn x by_fn)
  unfolding put_part
  put_part-AllParts fn x [] q h = λ f xs y m n. elim (Memᴰ.cases_cons m) [
    | inl e ↦
        snoc_all [] x (λ z k. absurd (Memᴰ.not-nil k)) q y (subst (Memᴰ y) (ap (λ p. p.1) e) n)
    | inr k ↦ absurd (Memᴰ.not-nil k)
  ]
  put_part-AllParts fn x ((g, ys) ∷ rest) q h =
      elim (func_discrete g fn)
        as (λ d.
          AllParts
            (if decides d then (g, ys ++ x ∷ []) ∷ rest else (g, ys) ∷ put_part P part fn x rest)) [
              | yes e ↦ λ f xs y m n. elim (Memᴰ.cases_cons m) [
                | inl same ↦
                    snoc_all ys x (λ z k. h g ys z (Memᴰ.head refl) k) q y
                      (subst (Memᴰ y) (ap (λ p. p.1) same) n)
                | inr k ↦ h f xs y (Memᴰ.tail k) n
              ]
              | no ne ↦ λ f xs y m n. elim (Memᴰ.cases_cons m) [
                | inl same ↦ h g ys y (Memᴰ.head refl) (subst (Memᴰ y) (ap (λ p. p.1) same) n)
                | inr k ↦
                    put_part-AllParts fn x rest q (λ f xs y m n. h f xs y (Memᴰ.tail m) n) f xs y k
                      n
              ]
            ]

  put_write-AllParts :
      (acc : Access P) (f : Option Func) (o : Option X) (b c : ByFn P part)
      → part acc ≡ o
      → put_write P part acc f o b ≡ some c
      → AllParts b
      → AllParts c
  unfolding put_write
  put_write-AllParts acc none none b c p e h = cc
  put_write-AllParts acc none (some x) b c p e h = cc
  put_write-AllParts acc (some fn) none b c p e h = cc
  put_write-AllParts acc (some fn) (some x) b c p e h = elim (Bool-cases acc.write) [
    | inr read ↦ cc (rw read at e)
    | inl write ↦
        subst AllParts (some-injective _ _ (rw write at e))
          (put_part-AllParts fn x b (holds acc x p) h)
  ]

  pub parts_by_fn-AllParts :
      (all accs : List (Access P)) (b c : ByFn P part)
      → parts_by_fn P part all accs b ≡ some c
      → AllParts b
      → AllParts c
  unfolding parts_by_fn
  parts_by_fn-AllParts all [] b c e h = subst AllParts (some-injective _ _ e) h
  parts_by_fn-AllParts all (a ∷ accs) b c e h = elim (Bool-cases (is_slice_header_load P a)) [
    | inl loads ↦ parts_by_fn-AllParts all accs b c (rw (loads, parts_by_fn) at e) h
    | inr no_load ↦ elim (Bool-cases (is_slice_header_store P a)) [
      | inl stores ↦ elim (Bool-cases (stored_in_setup P part all (instr_parent a.instr))) [
        | inr bad ↦ cc (rw (no_load, stores, bad, parts_by_fn) at e)
        | inl setup ↦
            parts_by_fn-AllParts all accs b c (rw (no_load, stores, setup, parts_by_fn) at e) h
      ]
      | inr no_store ↦ elim (Option-cases (put_write P part a (instr_parent a.instr) (part a) b)) [
        | inl bad ↦ cc (rw (no_load, no_store, bad, parts_by_fn) at e)
        | inr (b', put) ↦
            parts_by_fn-AllParts all accs b' c (rw (no_load, no_store, put, parts_by_fn) at e)
              (put_write-AllParts a (instr_parent a.instr) (part a) b b' refl put h)
      ]
    ]
  ]
