-- ===== src/Partition/Ranges.antt =====
-- What an accepted partition into ranges guarantees: different functions write disjoint ranges.
use safetylint.Base.{
  ℕ, ◌^◌, ◌<◌, ◌≡◌, ◌≢◌, refl, sym, ap, subst, arith, Bool, true, false, ◌&&◌, List, [], ◌∷◌,
  Option, none, some, Memᴰ, inl, inr, Option-cases, if◌then◌else◌, Memᴰ-any, ◌∙◌,
}
use mathlib.Core.List.Memᴰ
use mathlib.Core.Option.{some-injective}
use safetylint.Ssa.{Program}
use safetylint.Access.{Access}
use safetylint.Partition.{
  parts_by_fn, pairwise, write_range_of, merge_all, merged_apart, ranges_apart, range_partition_ok,
}
use safetylint.Partition.Slice.{IndexRange}
use safetylint.Partition.Merge.{merge_ranges, ranges_overlap}
use safetylint.Partition.Covered.{in_range, IsInt64, merge_ranges_covers}
use safetylint.Partition.Writers.{ByFn, parts_by_fn-IsFiled, pairwise-two}
use safetylint.Partition.Disjoint.{MeetsAll, IsElement, range_small}
use safetylint.Partition.Parts.{parts_by_fn-AllParts}

module _ (P : Program) (meets : MeetsAll P)
    (small : (v : P.Value) (n : ℕ) → P.const_int v ≡ some n → n < 2 ^ 63) where
  open P use {Value, Func, instr_parent, map_order}

  merge_all-member :
      (l : List (Func × List IndexRange)) (ms : List (Func × IndexRange)) (f : Func)
      (rs : List IndexRange)
      → merge_all P l ≡ some ms
      → Memᴰ (f, rs) l
      → (m : IndexRange) × Memᴰ (f, m) ms × (merge_ranges rs ≡ some m)
  unfolding merge_all
  merge_all-member [] ms f rs e m = absurd (Memᴰ.not-nil m)
  merge_all-member ((g, qs) ∷ l) ms f rs e m = elim (Option-cases (merge_ranges qs)) [
    | inl bad ↦ cc (rw (bad, merge_all) at e)
    | inr (k, q) ↦ elim (Option-cases (merge_all P l)) [
      | inl bad ↦ cc (rw (q, bad, merge_all) at e)
      | inr (ks, q') ↦
          let same : (g, k) ∷ ks ≡ ms = some-injective _ _ (rw (q, q', merge_all) at e) in
          elim (Memᴰ.cases_cons m) [
            | inl p ↦ (
              k,
              subst (Memᴰ (f, k)) same (Memᴰ.head (ap (λ z. (z.0, k)) p)),
              subst (λ z. merge_ranges z ≡ some k) (sym (ap (λ z. z.1) p)) q,
            )
            | inr n ↦
                let (j, mem, r) = merge_all-member l ks f rs q' n in
                (j, subst (Memᴰ (f, j)) same (Memᴰ.tail mem), r)
          ]
    ]
  ]

  range_parts :
      (root : Value) (accs : List (Access P))
      → range_partition_ok P root accs ≡ true
      → (by_fn : ByFn P (write_range_of P)) × (ms : List (Func × IndexRange)) × (parts_by_fn P
            (write_range_of P)
            accs
            accs
            []
          ≡ some by_fn)
        × (merge_all P (map_order (Func × List IndexRange) by_fn) ≡ some ms)
        × (pairwise P (ranges_apart P) (map_order (Func × IndexRange) ms) ≡ true)
  unfolding range_partition_ok
  range_parts root accs h = by_test _ _ refl h
    where
      by_merge :
          (p : Func × List IndexRange) (ps : ByFn P (write_range_of P))
          → parts_by_fn P (write_range_of P) accs accs [] ≡ some (p ∷ ps)
          → (o : Option (List (Func × IndexRange)))
          → merge_all P (map_order (Func × List IndexRange) (p ∷ ps)) ≡ o
          → merged_apart P o ≡ true
          → (by_fn : ByFn P (write_range_of P)) × (ms : List (Func × IndexRange)) × (parts_by_fn P
                (write_range_of P)
                accs
                accs
                []
              ≡ some by_fn)
            × (merge_all P (map_order (Func × List IndexRange) by_fn) ≡ some ms)
            × (pairwise P (ranges_apart P) (map_order (Func × IndexRange) ms) ≡ true)
      by_merge p ps e none q k = unfold merged_apart in cc
      by_merge p ps e (some ms) q k = unfold merged_apart in (p ∷ ps, ms, e, q, k)

      by_test :
          (b : Bool) (o : Option (ByFn P (write_range_of P)))
          → parts_by_fn P (write_range_of P) accs accs [] ≡ o
          → (if b
              then elim o [
                | none ↦ false
                | some [] ↦ false
                | some (p ∷ ps) ↦
                    merged_apart P (merge_all P (map_order (Func × List IndexRange) (p ∷ ps)))
              ]
              else false)
            ≡ true
          → (by_fn : ByFn P (write_range_of P)) × (ms : List (Func × IndexRange)) × (parts_by_fn P
                (write_range_of P)
                accs
                accs
                []
              ≡ some by_fn)
            × (merge_all P (map_order (Func × List IndexRange) by_fn) ≡ some ms)
            × (pairwise P (ranges_apart P) (map_order (Func × IndexRange) ms) ≡ true)
      by_test false o e k = cc
      by_test true none e k = cc
      by_test true (some []) e k = cc
      by_test true (some (p ∷ ps)) e k = by_merge p ps e _ refl k

  apart_in :
      (f g : Func) (a b : IndexRange) (i : ℕ)
      → ranges_apart P (f, a) (g, b) ≡ true
      → in_range i a && in_range i b ≡ false
  unfolding ranges_apart ranges_overlap
  apart_in f g a b i h = ground arith

  -- Two accesses to elements, made by different functions, of an object whose accesses
  -- rangePartitionOK accepts are both writes of known ranges, and no index is in both ranges. A
  -- loop over a Go map meets every key, and constants used as indexes are below 2 ^ 63.
  pub range_partition_sound :
      (root : Value) (accs : List (Access P)) (a b : Access P)
      → range_partition_ok P root accs ≡ true
      → Memᴰ a accs
      → Memᴰ b accs
      → IsElement P a
      → IsElement P b
      → instr_parent a.instr ≢ instr_parent b.instr
      → (r : IndexRange) × (s : IndexRange) × (a.write ≡ true)
        × (b.write ≡ true)
        × (write_range_of P a ≡ some r)
        × (write_range_of P b ≡ some s)
        × ((i : ℕ) → in_range i r && in_range i s ≡ false)
  range_partition_sound root accs a b h m n ea eb apart =
      let (by_fn, ms, parts, merges, pairs) = range_parts root accs h in
      let all =
        parts_by_fn-AllParts P (write_range_of P) IsInt64 (range_small P meets small) accs accs []
          by_fn parts (λ f xs x k j. absurd (Memᴰ.not-nil k)) in
      let fa = parts_by_fn-IsFiled P (write_range_of P) accs by_fn parts a m ea.0 ea.1 in
      let fb = parts_by_fn-IsFiled P (write_range_of P) accs by_fn parts b n eb.0 eb.1 in
      let (xs, mx, kx) = fa.is_filed in
      let (ys, my, ky) = fb.is_filed in
      let (r, mr, er) = merge_all-member _ ms fa.fn xs merges (meets _ by_fn _ mx) in
      let (s, ns, es) = merge_all-member _ ms fb.fn ys merges (meets _ by_fn _ my) in
      (
        fa.x,
        fb.x,
        fa.is_write,
        fb.is_write,
        fa.has_part,
        fb.has_part,
        λ i.
            let in_r = merge_ranges_covers xs r (λ q k. all fa.fn xs q mx k) er i in
            let in_s = merge_ranges_covers ys s (λ q k. all fb.fn ys q my k) es i in
            let up_a = Memᴰ-any (in_range i) xs fa.x kx in
            let up_b = Memᴰ-any (in_range i) ys fb.x ky in
            let both : in_range i r && in_range i s ≡ false =
              elim (pairwise-two P (ranges_apart P) (map_order (Func × IndexRange) ms) (fa.fn, r)
                (fb.fn, s) pairs (meets _ ms _ mr) (meets _ ms _ ns)) [
                  | inl e ↦
                      absurd (apart (fa.has_parent ∙ ap (λ p. some p.0) e ∙ sym fb.has_parent))
                  | inr d ↦ elim d [
                    | inl p ↦ apart_in fa.fn fb.fn r s i p
                    | inr p ↦ (let q = apart_in fb.fn fa.fn s r i p in ground arith)
                  ]
                ] in
            outside (in_range i fa.x) (in_range i fb.x) _ _ _ _ up_a up_b in_r in_s both,
      )
    where
      outside :
          (x y anyx anyy r s : Bool)
          → (x ≡ true → anyx ≡ true)
          → (y ≡ true → anyy ≡ true)
          → anyx ≡ r
          → anyy ≡ s
          → r && s ≡ false
          → x && y ≡ false
      outside x y anyx anyy r s hx hy er es h = ground arith
