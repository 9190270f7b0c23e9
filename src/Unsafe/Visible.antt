-- ===== src/Unsafe/Visible.antt =====
-- Which identifiers the walk over the syntax looks at.
use safetylint.Base.{◌≡◌, ◌↔◌, ◌⊎◌, inl, inr, refl, subst, List, [], ◌∷◌, ◌++◌, Memᴰ, ℕ}
use mathlib.Core.List.Memᴰ
use safetylint.Nolint.{Position, File}
use safetylint.Unsafe.{
  Report, Ident, Node, Nodes, selector, ident, other, nil, cons, walk, walk_all, check_reflect_obj,
}

-- The identifier stands in the syntax, and not in the operand of a selector.
mutual
  pub Shown : Ident → Node → Type 0
  Shown id (selector x sel) = id ≡ sel
  Shown id (ident i) = id ≡ i
  Shown id (other children) = ShownIn id children

  pub ShownIn : Ident → Nodes → Type 0
  ShownIn id nil = ⊥
  ShownIn id (cons n ns) = Shown id n ⊎ ShownIn id ns

append-split : (r : Report) (xs ys : List Report) → Memᴰ r (xs ++ ys) → Memᴰ r xs ⊎ Memᴰ r ys
append-split r [] ys m = inr m
append-split r (x ∷ xs) ys m = elim (Memᴰ.cases_cons m) [
  | inl e ↦ inl (Memᴰ.head e)
  | inr n ↦ elim (append-split r xs ys n) [ inl k ↦ inl (Memᴰ.tail k) | inr k ↦ inr k ]
]

append_left : (r : Report) (xs ys : List Report) → Memᴰ r xs → Memᴰ r (xs ++ ys)
append_left r [] ys m = absurd (Memᴰ.not-nil m)
append_left r (x ∷ xs) ys m = elim (Memᴰ.cases_cons m) [
  | inl e ↦ Memᴰ.head e
  | inr n ↦ Memᴰ.tail (append_left r xs ys n)
]

append_right : (r : Report) (xs ys : List Report) → Memᴰ r ys → Memᴰ r (xs ++ ys)
append_right r [] ys m = m
append_right r (x ∷ xs) ys m = Memᴰ.tail (append_right r xs ys m)

module _ (position : ℕ → Position) (files : List File) where
  abbrev pub Reports : Ident → Report → Type 0
  Reports id r = Memᴰ r (check_reflect_obj position files id)

  mutual
    unfolding walk Shown

    walk-Shown :
        (r : Report) (n : Node)
        → Memᴰ r (walk position files n)
        → (id : Ident) × Shown id n × Reports id r
    walk-Shown r (selector x sel) m = (sel, refl, m)
    walk-Shown r (ident i) m = (i, refl, m)
    walk-Shown r (other children) m = walk_all-ShownIn r children m

    walk_all-ShownIn :
        (r : Report) (ns : Nodes)
        → Memᴰ r (walk_all position files ns)
        → (id : Ident) × ShownIn id ns × Reports id r
    walk_all-ShownIn r nil m = absurd (Memᴰ.not-nil m)
    walk_all-ShownIn r (cons n ns) m =
        elim (append-split r (walk position files n) (walk_all position files ns) m) [
          | inl k ↦ let (id, s, q) = walk-Shown r n k in (id, inl s, q)
          | inr k ↦ let (id, s, q) = walk_all-ShownIn r ns k in (id, inr s, q)
        ]

  mutual
    unfolding walk Shown

    Shown-walk :
        (r : Report) (n : Node) (id : Ident)
        → Shown id n
        → Reports id r
        → Memᴰ r (walk position files n)
    Shown-walk r (selector x sel) id s m = subst (λ z. Reports z r) s m
    Shown-walk r (ident i) id s m = subst (λ z. Reports z r) s m
    Shown-walk r (other children) id s m = ShownIn-walk_all r children id s m

    ShownIn-walk_all :
        (r : Report) (ns : Nodes) (id : Ident)
        → ShownIn id ns
        → Reports id r
        → Memᴰ r (walk_all position files ns)
    ShownIn-walk_all r nil id s m = absurd s
    ShownIn-walk_all r (cons n ns) id (inl s) m =
        append_left r (walk position files n) (walk_all position files ns) (Shown-walk r n id s m)
    ShownIn-walk_all r (cons n ns) id (inr s) m =
        append_right r (walk position files n) (walk_all position files ns)
          (ShownIn-walk_all r ns id s m)

  -- The walk over the syntax of a file reports exactly what the check for package reflect reports
  -- for an identifier that stands in it and not in the operand of a selector.
  pub walk_iff :
      (n : Node) (r : Report)
      → Memᴰ r (walk position files n) ↔ ((id : Ident) × Shown id n × Reports id r)
  walk_iff n r = (walk-Shown r n, λ k. Shown-walk r n k.0 k.1 k.2)
