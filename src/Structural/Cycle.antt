-- ===== src/Structural/Cycle.antt =====
-- `addEmbeddedMutexes` stops at a struct that embeds itself, but not at two structs that embed
-- pointers to each other.
use safetylint.Base.{
  ℕ, zero, suc, ◌≡◌, ◌≢◌, refl, subst, sym, Bool, true, List, ◌∷◌, none, some, if◌then◌else◌,
  decides, Option,
}
use safetylint.Ssa.{Program, StructField}
use safetylint.Types.{struct_of}
use safetylint.Structural.{
  StructuralGuard, add_embedded_fields, add_embedded_mutexes, add_fields, fields_of,
}

module _ (P : Program) where
  open P use {Ty, Struct, fields, struct_discrete}

  -- The first field of `s` embeds the struct `t`, which is another one.
  pub record Embeds (s t : Struct) : Type 0 where
    pub head : StructField Ty
    pub rest : List (StructField Ty)
    pub has_fields : fields s ≡ head ∷ rest
    pub is_embedded : StructField.embedded head ≡ true
    pub has_struct : struct_of P (StructField.ty head) ≡ some t
    pub differs : t ≢ s

  module _ (enter : Struct → List (StructuralGuard Struct) → Option (List (StructuralGuard Struct)))
      (s t : Struct) (out : List (StructuralGuard Struct)) where
    stuck_field :
        (f : StructField Ty) (fs : List (StructField Ty))
        → StructField.embedded f ≡ true
        → struct_of P (StructField.ty f) ≡ some t
        → t ≢ s
        → enter t out ≡ none
        → add_embedded_fields P enter s (f ∷ fs) out ≡ none
    unfolding add_embedded_fields
    stuck_field f fs e q n h =
        by_field (StructField.embedded f) (struct_of P (StructField.ty f)) e q
      where
        by_field :
            (b : Bool) (o : Option Struct)
            → b ≡ true
            → o ≡ some t
            → (elim (if b then o else none) [
              | none ↦ add_embedded_fields P enter s fs out
              | some inner ↦
                  if decides (struct_discrete inner s)
                  then add_embedded_fields P enter s fs out
                  else elim (enter inner out) [
                    | none ↦ none
                    | some out' ↦ add_embedded_fields P enter s fs out'
                  ]
            ])
              ≡ none
        by_field b o eb eo =
            rw (eb, eo)
              (elim (struct_discrete t s)
                as (λ d.
                  (if decides d then add_embedded_fields P enter s fs out else elim (enter t out) [
                    | none ↦ none
                    | some out' ↦ add_embedded_fields P enter s fs out'
                  ])
                  ≡ none) [ yes same ↦ absurd (n same) | no ne ↦ rw h refl ])

  stuck :
      (rw_kind : Bool) (fuel : ℕ) (s t : Struct) (out : List (StructuralGuard Struct))
      → Embeds s t
      → ((o : List (StructuralGuard Struct)) → add_embedded_mutexes P rw_kind fuel t o ≡ none)
      → add_embedded_mutexes P rw_kind (suc fuel) s out ≡ none
  unfolding add_embedded_mutexes
  stuck k fuel s t out e h =
      let o = add_fields P k s (fields_of P k s) out in
      subst (λ fs. add_embedded_fields P (add_embedded_mutexes P k fuel) s fs o ≡ none)
        (sym e.has_fields)
        (stuck_field (add_embedded_mutexes P k fuel) s t o e.head e.rest e.is_embedded e.has_struct
          e.differs (h o))

  -- On two structs whose first fields embed each other, addEmbeddedMutexes runs out of whatever
  -- fuel it is given: the source never returns.
  pub add_embedded_mutexes_loops :
      (k : Bool) (s t : Struct)
      → Embeds s t
      → Embeds t s
      → (fuel : ℕ) (out : List (StructuralGuard Struct))
      → add_embedded_mutexes P k fuel s out ≡ none
  add_embedded_mutexes_loops k s t e f zero out = unfold add_embedded_mutexes in refl
  add_embedded_mutexes_loops k s t e f (suc fuel) out =
      stuck k fuel s t out e (add_embedded_mutexes_loops k t s f e fuel)
