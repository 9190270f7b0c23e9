-- ===== src/Partition/Writers.antt =====
-- What the loop over the accesses collects: each access is a load of the header, a store of it before
-- there are writers, or a write whose part is filed under its function.
use safetylint.Base.{
  ◌≡◌, refl, sym, ap, ◌∙◌, subst, arith, Bool, true, false, not, List, [], ◌∷◌, ◌++◌, Option, none,
  some, Memᴰ, ◌⊎◌, inl, inr, Bool-cases, Option-cases, if◌then◌else◌, decides, any,
}
use mathlib.Core.List.Memᴰ
use mathlib.Core.Option.{some-injective}
use safetylint.Ssa.{Program}
use safetylint.Access.{Access, is_slice_header_load, is_slice_header_store}
use safetylint.Partition.{put_part, stored_in_setup, put_write, parts_by_fn, pairwise}

module _ (P : Program) {X : Type 0} (part : Access P → Option X) where
  open P use {Value, Func, Instr, func_discrete, instr_parent}

  abbrev pub ByFn : Type 0
  ByFn = List (Func × List X)

  -- The part is filed under the function.
  abbrev pub HasPart : Func → X → ByFn → Type 0
  HasPart fn x by_fn = (xs : List X) × Memᴰ (fn, xs) by_fn × Memᴰ x xs

  -- A write whose part is filed under the function that it is in.
  pub record IsFiled (acc : Access P) (by_fn : ByFn) : Type 0 where
    pub fn : Func
    pub x : X
    pub is_write : acc.write ≡ true
    pub has_parent : instr_parent acc.instr ≡ some fn
    pub has_part : part acc ≡ some x
    pub is_filed : HasPart fn x by_fn

  -- The three ways in which the loop lets an access pass.
  abbrev pub Sorted : List (Access P) → Access P → ByFn → Type 0
  Sorted accs acc by_fn =
      (is_slice_header_load P acc ≡ true)
      ⊎ (((is_slice_header_store P acc ≡ true)
            × (stored_in_setup P part accs (instr_parent acc.instr) ≡ true))
          ⊎ IsFiled acc by_fn)

  snoc_last : (xs : List X) (x : X) → Memᴰ x (xs ++ x ∷ [])
  snoc_last [] x = Memᴰ.head refl
  snoc_last (y ∷ xs) x = Memᴰ.tail (snoc_last xs x)

  snoc_old : (xs : List X) (x y : X) → Memᴰ y xs → Memᴰ y (xs ++ x ∷ [])
  snoc_old [] x y m = absurd (Memᴰ.not-nil m)
  snoc_old (z ∷ xs) x y m = elim (Memᴰ.cases_cons m) [
    | inl e ↦ Memᴰ.head e
    | inr n ↦ Memᴰ.tail (snoc_old xs x y n)
  ]

  put_part-HasPart : (fn : Func) (x : X) (by_fn : ByFn) → HasPart fn x (put_part P part fn x by_fn)
  unfolding put_part
  put_part-HasPart fn x [] = (x ∷ [], Memᴰ.head refl, Memᴰ.head refl)
  put_part-HasPart fn x ((f, xs) ∷ rest) =
      elim (func_discrete f fn)
        as (λ d.
          HasPart fn x
            (if decides d then (f, xs ++ x ∷ []) ∷ rest else (f, xs) ∷ put_part P part fn x rest)) [
              | yes e ↦ (xs ++ x ∷ [], Memᴰ.head (rw e refl), snoc_last xs x)
              | no ne ↦ let (ys, m, n) = put_part-HasPart fn x rest in (ys, Memᴰ.tail m, n)
            ]

  put_part-keeps :
      (fn : Func) (x : X) (by_fn : ByFn) (g : Func) (y : X)
      → HasPart g y by_fn
      → HasPart g y (put_part P part fn x by_fn)
  unfolding put_part
  put_part-keeps fn x [] g y (ys, m, n) = absurd (Memᴰ.not-nil m)
  put_part-keeps fn x ((f, xs) ∷ rest) g y (ys, m, n) =
      elim (func_discrete f fn)
        as (λ d.
          HasPart g y
            (if decides d then (f, xs ++ x ∷ []) ∷ rest else (f, xs) ∷ put_part P part fn x rest)) [
              | yes e ↦ elim (Memᴰ.cases_cons m) [
                | inl same ↦ (
                  xs ++ x ∷ [],
                  Memᴰ.head (ap (λ p. (p.0, xs ++ x ∷ [])) same),
                  snoc_old xs x y (subst (Memᴰ y) (ap (λ p. p.1) same) n),
                )
                | inr k ↦ (ys, Memᴰ.tail k, n)
              ]
              | no ne ↦ elim (Memᴰ.cases_cons m) [
                | inl same ↦ (ys, Memᴰ.head same, n)
                | inr k ↦
                    let (zs, k', n') = put_part-keeps fn x rest g y (ys, k, n) in
                    (zs, Memᴰ.tail k', n')
              ]
            ]

  -- What `put_write` needs and does.
  put_write-IsFiled :
      (acc : Access P) (by_fn by_fn' : ByFn)
      → put_write P part acc (instr_parent acc.instr) (part acc) by_fn ≡ some by_fn'
      → IsFiled acc by_fn' × ((g : Func) (y : X) → HasPart g y by_fn → HasPart g y by_fn')
  unfolding put_write
  put_write-IsFiled acc by_fn by_fn' e = by_parts (instr_parent acc.instr) (part acc) refl refl e
    where
      by_parts :
          (f : Option Func) (o : Option X)
          → instr_parent acc.instr ≡ f
          → part acc ≡ o
          → put_write P part acc f o by_fn ≡ some by_fn'
          → IsFiled acc by_fn' × ((g : Func) (y : X) → HasPart g y by_fn → HasPart g y by_fn')
      by_parts none none p q k = cc
      by_parts none (some x) p q k = cc
      by_parts (some fn) none p q k = cc
      by_parts (some fn) (some x) p q k = elim (Bool-cases acc.write) [
        | inr read ↦ cc (rw read at k)
        | inl write ↦
            let same : put_part P part fn x by_fn ≡ by_fn' = some-injective _ _ (rw write at k) in
            (
              record {
                fn = fn;
                x = x;
                is_write = write;
                has_parent = p;
                has_part = q;
                is_filed = subst (HasPart fn x) same (put_part-HasPart fn x by_fn);
              },
              λ g y h. subst (HasPart g y) same (put_part-keeps fn x by_fn g y h),
            )
      ]

  IsFiled-later :
      (acc : Access P) (b c : ByFn)
      → ((g : Func) (y : X) → HasPart g y b → HasPart g y c)
      → IsFiled acc b
      → IsFiled acc c
  IsFiled-later acc b c h f = record {
    fn = f.fn;
    x = f.x;
    is_write = f.is_write;
    has_parent = f.has_parent;
    has_part = f.has_part;
    is_filed = h f.fn f.x f.is_filed;
  }

  Sorted-cons :
      (all : List (Access P)) (a : Access P) (rest : List (Access P)) (c : ByFn)
      → Sorted all a c
      → ((acc : Access P) → Memᴰ acc rest → Sorted all acc c)
      → (acc : Access P) → Memᴰ acc (a ∷ rest)
      → Sorted all acc c
  Sorted-cons all a rest c h k acc m = elim (Memᴰ.cases_cons m) [
    | inl e ↦ subst (λ z. Sorted all z c) (sym e) h
    | inr n ↦ k acc n
  ]

  parts_by_fn-both :
      (all accs : List (Access P)) (b c : ByFn)
      → parts_by_fn P part all accs b ≡ some c
      → ((g : Func) (y : X) → HasPart g y b → HasPart g y c)
        × ((acc : Access P) → Memᴰ acc accs → Sorted all acc c)
  unfolding parts_by_fn
  parts_by_fn-both all [] b c e =
      (λ g y h. subst (HasPart g y) (some-injective _ _ e) h, λ acc m. absurd (Memᴰ.not-nil m))
  parts_by_fn-both all (a ∷ accs) b c e = elim (Bool-cases (is_slice_header_load P a)) [
    | inl loads ↦
        let (up, each) = parts_by_fn-both all accs b c (rw (loads, parts_by_fn) at e) in
        (up, Sorted-cons all a accs c (inl loads) each)
    | inr no_load ↦ elim (Bool-cases (is_slice_header_store P a)) [
      | inl stores ↦ elim (Bool-cases (stored_in_setup P part all (instr_parent a.instr))) [
        | inr bad ↦ cc (rw (no_load, stores, bad, parts_by_fn) at e)
        | inl setup ↦
            let (up, each) =
              parts_by_fn-both all accs b c (rw (no_load, stores, setup, parts_by_fn) at e) in
            (up, Sorted-cons all a accs c (inr (inl (stores, setup))) each)
      ]
      | inr no_store ↦ elim (Option-cases (put_write P part a (instr_parent a.instr) (part a) b)) [
        | inl bad ↦ cc (rw (no_load, no_store, bad, parts_by_fn) at e)
        | inr (b', put) ↦
            let (filed, kept) = put_write-IsFiled a b b' put in
            let (up, each) =
              parts_by_fn-both all accs b' c (rw (no_load, no_store, put, parts_by_fn) at e) in
            (
              λ g y h. up g y (kept g y h),
              Sorted-cons all a accs c (inr (inr (IsFiled-later a b' c up filed))) each,
            )
      ]
    ]
  ]

  pub parts_by_fn-Sorted :
      (accs : List (Access P)) (by_fn : ByFn)
      → parts_by_fn P part accs accs [] ≡ some by_fn
      → (acc : Access P) → Memᴰ acc accs
      → Sorted accs acc by_fn
  parts_by_fn-Sorted accs by_fn e = (parts_by_fn-both accs accs [] by_fn e).1

  -- An access that does not touch the header is a write that is filed.
  pub parts_by_fn-IsFiled :
      (accs : List (Access P)) (by_fn : ByFn)
      → parts_by_fn P part accs accs [] ≡ some by_fn
      → (acc : Access P) → Memᴰ acc accs
      → is_slice_header_load P acc ≡ false
      → is_slice_header_store P acc ≡ false
      → IsFiled acc by_fn
  parts_by_fn-IsFiled accs by_fn e acc m h k = elim (parts_by_fn-Sorted accs by_fn e acc m) [
    | inl p ↦ cc
    | inr s ↦ elim s [ inl q ↦ (let z = q.0 in cc) | inr f ↦ f ]
  ]

-- Two members of a list that passes the pairwise test are one, or pass it in one of the two orders.
pub pairwise-two :
    (P : Program) {X : Type 0} (r : X → X → Bool) (xs : List X) (a b : X)
    → pairwise P r xs ≡ true
    → Memᴰ a xs
    → Memᴰ b xs
    → (a ≡ b) ⊎ ((r a b ≡ true) ⊎ (r b a ≡ true))
unfolding pairwise
pairwise-two P {X = X} r [] a b h m n = absurd (Memᴰ.not-nil m)
pairwise-two P {X = X} r (x ∷ xs) a b h m n = elim (Memᴰ.cases_cons m) [
  | inl e ↦ elim (Memᴰ.cases_cons n) [
    | inl f ↦ inl (e ∙ sym f)
    | inr n' ↦ inr (inl (subst (λ z. r z b ≡ true) (sym e) (with_head xs (ground arith) b n')))
  ]
  | inr m' ↦ elim (Memᴰ.cases_cons n) [
    | inl f ↦ inr (inr (subst (λ z. r z a ≡ true) (sym f) (with_head xs (ground arith) a m')))
    | inr n' ↦ pairwise-two P r xs a b (ground arith) m' n'
  ]
]
  where
    with_head :
        (ys : List X) → any (λ y. not (r x y)) ys ≡ false → (y : X) → Memᴰ y ys → r x y ≡ true
    with_head [] k y o = absurd (Memᴰ.not-nil o)
    with_head (z ∷ ys) k y o = elim (Memᴰ.cases_cons o) [
      | inl e ↦ subst (λ w. r x w ≡ true) (sym e) (ground arith)
      | inr o' ↦ with_head ys (ground arith) y o'
    ]
