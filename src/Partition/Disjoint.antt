-- ===== src/Partition/Disjoint.antt =====
-- What an accepted partition guarantees: different functions write different indexes.
use safetylint.Base.{
  ℕ, ◌^◌, ◌<◌, ◌≡◌, ◌≢◌, refl, sym, ap, subst, arith, Bool, true, false, List, [], ◌∷◌, Option,
  none, some, Memᴰ, inl, inr, Bool-cases, if◌then◌else◌, any, Memᴰ-any, ltb, ◌∙◌,
}
use mathlib.Core.Option.{some-injective}
use safetylint.Ssa.{Program, ValueView, slice}
use safetylint.Access.{Access, is_slice_header_load, is_slice_header_store, const_index_store}
use safetylint.Partition.{
  parts_by_fn, pairwise, indexes_apart, same_index, const_index_partition_ok, write_range_of,
  index_range,
}
use safetylint.Partition.Slice.{
  IndexRange, slice_of_access, const_slice_bounds, bounds, const_int_or_zero,
}
use safetylint.Partition.Covered.{IsInt64}
use safetylint.Partition.Writers.{ByFn, parts_by_fn-IsFiled, pairwise-two}

-- A `range` over a Go map meets every key.
abbrev pub MeetsAll : Program → Type 1
MeetsAll P = (A : Type 0) (xs : List A) (x : A) → Memᴰ x xs → Memᴰ x (P.map_order A xs)

-- An access inside of the slice: not of its header.
abbrev pub IsElement : (P : Program) → Access P → Type 0
IsElement P acc = (is_slice_header_load P acc ≡ false) × (is_slice_header_store P acc ≡ false)

module _ (P : Program) (meets : MeetsAll P) where
  open P use {Value, Func, instr_parent, const_int, view, map_order}

  same_index_self : (i : ℕ) → same_index P i i ≡ true
  unfolding same_index
  same_index_self i = ground arith

  -- Lists that are apart share no index.
  apart_ne :
      (f g : Func) (xs ys : List ℕ) (i : ℕ)
      → Memᴰ i xs
      → Memᴰ i ys
      → indexes_apart P (f, xs) (g, ys) ≡ true
      → true ≡ false
  unfolding indexes_apart
  apart_ne f g xs ys i m n h =
      let inner = Memᴰ-any (same_index P i) ys i n (same_index_self i) in
      let outer = Memᴰ-any (λ x. any (same_index P x) ys) xs i m inner in cc

  const_parts :
      (root : Value) (accs : List (Access P))
      → const_index_partition_ok P root accs ≡ true
      → (by_fn : ByFn P (const_index_store P)) × (parts_by_fn P (const_index_store P) accs accs []
          ≡ some by_fn)
        × (pairwise P (indexes_apart P) (map_order (Func × List ℕ) by_fn) ≡ true)
  unfolding const_index_partition_ok
  const_parts root accs h = by_test _ _ refl h
    where
      by_test :
          (b : Bool) (o : Option (ByFn P (const_index_store P)))
          → parts_by_fn P (const_index_store P) accs accs [] ≡ o
          → (if b
              then elim o [
                | none ↦ false
                | some [] ↦ false
                | some (p ∷ ps) ↦ pairwise P (indexes_apart P) (map_order (Func × List ℕ) (p ∷ ps))
              ]
              else false)
            ≡ true
          → (by_fn : ByFn P (const_index_store P)) × (parts_by_fn P
                (const_index_store P)
                accs
                accs
                []
              ≡ some by_fn)
            × (pairwise P (indexes_apart P) (map_order (Func × List ℕ) by_fn) ≡ true)
      by_test false o e k = cc
      by_test true none e k = cc
      by_test true (some []) e k = cc
      by_test true (some (p ∷ ps)) e k = (p ∷ ps, e, k)

  -- Two accesses to elements, made by different functions, of an object whose accesses
  -- constIndexPartitionOK accepts are both stores at constant indexes, and the indexes differ. A
  -- loop over a Go map meets every key.
  pub const_index_partition_sound :
      (root : Value) (accs : List (Access P)) (a b : Access P)
      → const_index_partition_ok P root accs ≡ true
      → Memᴰ a accs
      → Memᴰ b accs
      → IsElement P a
      → IsElement P b
      → instr_parent a.instr ≢ instr_parent b.instr
      → (i : ℕ) × (j : ℕ) × (a.write ≡ true)
        × (b.write ≡ true)
        × (const_index_store P a ≡ some i)
        × (const_index_store P b ≡ some j)
        × (i ≢ j)
  const_index_partition_sound root accs a b h m n ea eb apart =
      let (by_fn, parts, pairs) = const_parts root accs h in
      let fa = parts_by_fn-IsFiled P (const_index_store P) accs by_fn parts a m ea.0 ea.1 in
      let fb = parts_by_fn-IsFiled P (const_index_store P) accs by_fn parts b n eb.0 eb.1 in
      let (xs, mx, kx) = fa.is_filed in
      let (ys, my, ky) = fb.is_filed in
      (
        fa.x,
        fb.x,
        fa.is_write,
        fb.is_write,
        fa.has_part,
        fb.has_part,
        λ same.
            elim (pairwise-two P (indexes_apart P) (map_order (Func × List ℕ) by_fn) (fa.fn, xs)
              (fb.fn, ys) pairs (meets _ by_fn _ mx) (meets _ by_fn _ my)) [
                | inl e ↦ apart (fa.has_parent ∙ ap (λ p. some p.0) e ∙ sym fb.has_parent)
                | inr r ↦ elim r [
                  | inl p ↦
                      cc (
                        apart_ne fa.fn fb.fn xs ys fa.x kx (subst (λ z. Memᴰ z ys) (sym same) ky) p)
                  | inr p ↦
                      cc (
                        apart_ne fb.fn fa.fn ys xs fa.x (subst (λ z. Memᴰ z ys) (sym same) ky) kx p)
                ]
              ],
      )

  -- `constant.Int64Val` gives an int64.
  module _ (small : (v : Value) (n : ℕ) → const_int v ≡ some n → n < 2 ^ 63) where
    bounds_small :
        (lo hi : Option ℕ) (r : IndexRange)
        → ((n : ℕ) → hi ≡ some n → n < 2 ^ 63)
        → bounds P lo hi ≡ some r
        → IsInt64 r
    bounds_small none hi r h e = cc
    bounds_small (some l) none r h e = cc
    bounds_small (some l) (some u) r h e = elim (Bool-cases (ltb l u)) [
      | inr no_room ↦ cc (rw no_room at e)
      | inl room ↦
          subst IsInt64 (some-injective _ _ (rw room at e)) (let k = h u refl in omega arith)
    ]

    slice_small : (sl : Value) (r : IndexRange) → const_slice_bounds P sl ≡ some r → IsInt64 r
    unfolding const_slice_bounds
    slice_small sl r e = by_view (view sl) e
      where
        by_high :
            (o : Option Value) (n : ℕ)
            → (elim o [ none ↦ none | some v ↦ const_int v ]) ≡ some n
            → n < 2 ^ 63
        by_high none n k = cc
        by_high (some v) n k = small v n k

        by_view :
            (u : ValueView Value Func)
            → (elim u [
              | slice x lo hi ↦
                  bounds P (const_int_or_zero P lo) (elim hi [ none ↦ none | some v ↦ const_int v ])
              | _ ↦ none
            ])
              ≡ some r
            → IsInt64 r
        by_view (slice x lo hi) k = bounds_small (const_int_or_zero P lo) _ r (by_high hi) k
        by_view _ k = cc

    pub range_small : (a : Access P) (r : IndexRange) → write_range_of P a ≡ some r → IsInt64 r
    unfolding write_range_of
    range_small a r e = by_slice (slice_of_access P a) (const_index_store P a) e
      where
        by_slice :
            (o : Option Value) (i : Option ℕ)
            → (elim o [ some sl ↦ const_slice_bounds P sl | none ↦ index_range P i ]) ≡ some r
            → IsInt64 r
        by_slice (some sl) i k = slice_small sl r k
        by_slice none none k = cc
        by_slice none (some i) k = subst IsInt64 (some-injective _ _ k) (omega arith)
