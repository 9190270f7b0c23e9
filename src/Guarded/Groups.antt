-- ===== src/Guarded/Groups.antt =====
-- What `fieldPartitionedGuards` guarantees of the accesses to each field.
use safetylint.Base.{
  ◌≡◌, ◌⊎◌, refl, sym, subst, ap, arith, true, false, not, ◌&&◌, List, [], ◌∷◌, ◌++◌, none, some,
  Memᴰ, ℕ, Option-cases, Bool-cases, inl, inr, if◌then◌else◌, ◌==◌, ◌∙◌,
}
use mathlib.Core.List.Memᴰ
use mathlib.Core.Option.{some-injective}
use safetylint.Ssa.{Program}
use safetylint.Access.{Access, is_object_init_store, field_index_of}
use safetylint.Guarded.{put_group, field_groups}

module _ (P : Program) where
  abbrev pub Groups : Type 0
  Groups = List (ℕ × List (Access P))

  abbrev pub group_of : ℕ → Groups → List (Access P)
  group_of k [] = []
  group_of k ((j, accs) ∷ rest) = if j == k then accs else group_of k rest

  Memᴰ-snoc : (xs : List (Access P)) (y x : Access P) → Memᴰ x xs ⊎ (x ≡ y) → Memᴰ x (xs ++ y ∷ [])
  Memᴰ-snoc [] y x (inl m) = absurd (Memᴰ.not-nil m)
  Memᴰ-snoc [] y x (inr e) = Memᴰ.head e
  Memᴰ-snoc (z ∷ xs) y x (inl m) = elim (Memᴰ.cases_cons m) [
    | inl e ↦ Memᴰ.head e
    | inr n ↦ Memᴰ.tail (Memᴰ-snoc xs y x (inl n))
  ]
  Memᴰ-snoc (z ∷ xs) y x (inr e) = Memᴰ.tail (Memᴰ-snoc xs y x (inr e))

  put_group-keeps :
      (i k : ℕ) (acc x : Access P) (gs : Groups)
      → Memᴰ x (group_of k gs)
      → Memᴰ x (group_of k (put_group P i acc gs))
  unfolding put_group
  put_group-keeps i k acc x [] m = absurd (Memᴰ.not-nil m)
  put_group-keeps i k acc x ((j, accs) ∷ rest) m = elim (Bool-cases (j == i)) [
    | inl e ↦ elim (Bool-cases (j == k)) [
      | inl q ↦ rw (e, q) (Memᴰ-snoc accs acc x (inl (rw q at m)))
      | inr q ↦ rw (e, q) (rw q at m)
    ]
    | inr e ↦ elim (Bool-cases (j == k)) [
      | inl q ↦ rw (e, q) (rw q at m)
      | inr q ↦ rw (e, q) (put_group-keeps i k acc x rest (rw q at m))
    ]
  ]

  put_group-adds :
      (k : ℕ) (acc : Access P) (gs : Groups) → Memᴰ acc (group_of k (put_group P k acc gs))
  unfolding put_group
  put_group-adds k acc [] = let e : k == k ≡ true = ground arith in rw e (Memᴰ.head refl)
  put_group-adds k acc ((j, accs) ∷ rest) = elim (Bool-cases (j == k)) [
    | inl e ↦ rw (e, e) (Memᴰ-snoc accs acc acc (inr refl))
    | inr e ↦ rw (e, e) (put_group-adds k acc rest)
  ]

  -- The groups keep what they have and get every access to a field.
  pub field_groups-group :
      (accs : List (Access P)) (gs hs : Groups) (k : ℕ) (x : Access P)
      → field_groups P accs gs ≡ some hs
      → Memᴰ x (group_of k gs) ⊎ (Memᴰ x accs × (field_index_of P x ≡ some k))
      → Memᴰ x (group_of k hs)
  unfolding field_groups
  field_groups-group [] gs hs k x e (inl m) =
      subst (λ z. Memᴰ x (group_of k z)) (some-injective _ _ e) m
  field_groups-group [] gs hs k x e (inr m) = absurd (Memᴰ.not-nil m.0)
  field_groups-group (acc ∷ accs) gs hs k x e m = elim (Option-cases (field_index_of P acc)) [
    | inr (i, q) ↦
        field_groups-group accs (put_group P i acc gs) hs k x (rw (q, field_groups) at e) (elim m [
          | inl n ↦ inl (put_group-keeps i k acc x gs n)
          | inr n ↦ elim (Memᴰ.cases_cons n.0) [
            | inr t ↦ inr (t, n.1)
            | inl same ↦
                let at_i : field_index_of P x ≡ some i = ap (field_index_of P) same ∙ q in
                let eq : i ≡ k = some-injective _ _ (sym at_i ∙ n.1) in
                inl (
                  subst (λ z. Memᴰ x (group_of k (put_group P z acc gs))) (sym eq)
                    (subst (λ z. Memᴰ z (group_of k (put_group P k acc gs))) (sym same)
                      (put_group-adds k acc gs)))
          ]
        ])
    | inl q ↦ elim (Bool-cases (acc.write && not (is_object_init_store P acc))) [
      | inl w ↦ cc (rw (q, w, field_groups) at e)
      | inr w ↦ field_groups-group accs gs hs k x (rw (q, w, field_groups) at e) (elim m [
        | inl n ↦ inl n
        | inr n ↦ elim (Memᴰ.cases_cons n.0) [
          | inr t ↦ inr (t, n.1)
          | inl same ↦ cc (ap (field_index_of P) same, q, n.1)
        ]
      ])
    ]
  ]

  -- An access to no field is no write but a set-up.
  pub field_groups-whole :
      (accs : List (Access P)) (gs hs : Groups) (x : Access P)
      → field_groups P accs gs ≡ some hs
      → Memᴰ x accs
      → field_index_of P x ≡ none
      → x.write && not (is_object_init_store P x) ≡ false
  unfolding field_groups
  field_groups-whole [] gs hs x e m n = absurd (Memᴰ.not-nil m)
  field_groups-whole (acc ∷ accs) gs hs x e m n = elim (Option-cases (field_index_of P acc)) [
    | inr (i, q) ↦ elim (Memᴰ.cases_cons m) [
      | inl same ↦ cc (ap (field_index_of P) same, q, n)
      | inr t ↦ field_groups-whole accs _ hs x (rw (q, field_groups) at e) t n
    ]
    | inl q ↦ elim (Bool-cases (acc.write && not (is_object_init_store P acc))) [
      | inl w ↦ cc (rw (q, w, field_groups) at e)
      | inr w ↦ elim (Memᴰ.cases_cons m) [
        | inl same ↦ rw same w
        | inr t ↦ field_groups-whole accs gs hs x (rw (q, w, field_groups) at e) t n
      ]
    ]
  ]

  pub group_of-Memᴰ :
      (k : ℕ) (gs : Groups) (x : Access P)
      → Memᴰ x (group_of k gs)
      → Memᴰ {A = ℕ × List (Access P)} (k, group_of k gs) gs
  group_of-Memᴰ k [] x m = absurd (Memᴰ.not-nil m)
  group_of-Memᴰ k ((j, accs) ∷ rest) x m = elim (Bool-cases (j == k)) [
    | inl e ↦ let same : j ≡ k = ground arith in rw e (Memᴰ.head (ap (λ z. (z, accs)) (sym same)))
    | inr e ↦ rw e (Memᴰ.tail (group_of-Memᴰ k rest x (rw e at m)))
  ]
