-- ===== src/Structural/Ends.antt =====
-- The search for structural guards ends on structs that embed each other in finitely many levels.
use safetylint.Base.{
  ℕ, zero, suc, ◌≡◌, ◌≢◌, ◌≤◌, ◌<◌, refl, ap, ◌∙◌, arith, Bool, true, List, [], ◌∷◌, Option, none,
  some, Memᴰ, Bool-cases, inl, inr, decides, decides-true, decides-false, if◌then◌else◌,
}
use safetylint.Ssa.{Program, StructField, ValueView, mul, un_op, change_type, convert, field_addr}
use safetylint.Types.{struct_of}
use safetylint.Structural.{
  Found, add_fields, fields_of, add_embedded_fields, add_embedded_mutexes, add_cond_locker_fields,
  add_struct, add_parents, find_structural_guards_kind, structural_guards,
}

module _ (P : Program) where
  open P use {
    Ty, Struct, Value, Func, struct_discrete, fields, type_of, view, depth, embed_depth,
    embed_bound,
  }

  -- An embedded struct other than the struct itself has fewer levels, and the bound is one.
  pub record IsBounded : Type 0 where
    pub lower :
        (s inner : Struct) (f : StructField Ty)
        → Memᴰ f (fields s)
        → f.embedded ≡ true
        → struct_of P f.ty ≡ some inner
        → inner ≢ s
        → embed_depth inner < embed_depth s
    pub bound : (s : Struct) → embed_depth s ≤ embed_bound

  -- A step on structs that gives a result for every struct that it is asked for.
  embedded_fields-ends :
      (enter : Struct → Found P → Option (Found P)) (s : Struct) (fs : List (StructField Ty))
      → ((inner : Struct) (f : StructField Ty)
          → Memᴰ f fs
          → f.embedded ≡ true
          → struct_of P f.ty ≡ some inner
          → inner ≢ s
          → (out : Found P) → (r : Found P) × (enter inner out ≡ some r))
      → (out : Found P) → (r : Found P) × (add_embedded_fields P enter s fs out ≡ some r)
  unfolding add_embedded_fields
  embedded_fields-ends enter s [] h out = (out, refl)
  embedded_fields-ends enter s (f ∷ fs) h out =
      by_field (λ o. embedded_fields-ends enter s fs (λ i g m. h i g (Memᴰ.tail m)) o)
        (if f.embedded then struct_of P f.ty else none) refl
    where
      embedded_struct :
          (inner : Struct)
          → (if f.embedded then struct_of P f.ty else none) ≡ some inner
          → (f.embedded ≡ true) × (struct_of P f.ty ≡ some inner)
      embedded_struct inner e = elim (Bool-cases f.embedded) [
        | inl b ↦ (b, rw b at e)
        | inr b ↦ cc (rw b at e)
      ]

      by_enter :
          ((o : Found P) → (r : Found P) × (add_embedded_fields P enter s fs o ≡ some r))
          → (inner : Struct) (x : Option (Found P)) → ((r : Found P) × (x ≡ some r))
          → (r : Found P) × ((elim x [
            | none ↦ none
            | some out' ↦ add_embedded_fields P enter s fs out'
          ])
              ≡ some r)
      by_enter again inner none k = cc (k.1)
      by_enter again inner (some o) k = again o

      by_field :
          ((o : Found P) → (r : Found P) × (add_embedded_fields P enter s fs o ≡ some r))
          → (o : Option Struct) → (if f.embedded then struct_of P f.ty else none) ≡ o
          → (r : Found P) × ((elim o [
            | none ↦ add_embedded_fields P enter s fs out
            | some inner ↦
                if decides (struct_discrete inner s)
                then add_embedded_fields P enter s fs out
                else elim (enter inner out) [
                  | none ↦ none
                  | some out' ↦ add_embedded_fields P enter s fs out'
                ]
          ])
              ≡ some r)
      by_field again none e = again out
      by_field again (some inner) e = elim (struct_discrete inner s) [
        | yes same ↦
            let (r, k) = again out in (r, rw (decides-true (struct_discrete inner s) same) k)
        | no ne ↦
            let (b, q) = embedded_struct inner e in
            let (r, k) =
              by_enter again inner (enter inner out) (h inner f (Memᴰ.head refl) b q ne out) in
            (r, rw (decides-false (struct_discrete inner s) ne) k)
      ]

  module _ (bounded : IsBounded) where
    embedded_mutexes-ends :
        (kind : Bool) (fuel : ℕ) (s : Struct) (out : Found P)
        → embed_depth s < fuel
        → (r : Found P) × (add_embedded_mutexes P kind fuel s out ≡ some r)
    unfolding add_embedded_mutexes
    embedded_mutexes-ends kind zero s out h = absurd (omega arith)
    embedded_mutexes-ends kind (suc f) s out h =
        embedded_fields-ends (add_embedded_mutexes P kind f) s (fields s)
          (λ inner g m b q ne o.
            embedded_mutexes-ends kind f inner o (omega (arith, bounded.lower s inner g m b q ne)))
          (add_fields P kind s (fields_of P kind s) out)

    struct-ends :
        (kind : Bool) (t : Ty) (out : Found P)
        → (r : Found P) × (add_struct P kind (suc embed_bound) t out ≡ some r)
    unfolding add_struct
    struct-ends kind t out = by_struct (struct_of P t)
      where
        by_struct :
            (o : Option Struct)
            → (r : Found P) × ((elim o [
              | none ↦ some out
              | some s ↦ elim (add_embedded_mutexes P kind (suc embed_bound) s out) [
                | none ↦ none
                | some out' ↦
                    some (if kind then out' else add_cond_locker_fields P s 0 (fields s) out')
              ]
            ])
                ≡ some r)
        by_struct none = (out, refl)
        by_struct (some s) =
            let (r, e) =
              embedded_mutexes-ends kind (suc embed_bound) s out (omega (arith, bounded.bound s)) in
            (if kind then r else add_cond_locker_fields P s 0 (fields s) r, rw e refl)

    parents-ends :
        (kind : Bool) (d : ℕ) (cur : Value) (out : Found P)
        → (r : Found P) × (add_parents P kind (suc embed_bound) d cur out ≡ some r)
    unfolding add_parents
    parents-ends kind zero cur out = (out, refl)
    parents-ends kind (suc d) cur out = by_view (λ x o. parents-ends kind d x o) (view cur)
      where
        by_view :
            ((x : Value) (o : Found P)
              → (r : Found P) × (add_parents P kind (suc embed_bound) d x o ≡ some r))
            → (v : ValueView Value Func)
            → (r : Found P) × ((elim v [
              | un_op t x ↦ elim t [
                | mul ↦ add_parents P kind (suc embed_bound) d x out
                | _ ↦ some out
              ]
              | change_type x ↦ add_parents P kind (suc embed_bound) d x out
              | convert x ↦ add_parents P kind (suc embed_bound) d x out
              | field_addr x i ↦ elim (add_struct P kind (suc embed_bound) (type_of x) out) [
                | none ↦ none
                | some out' ↦ add_parents P kind (suc embed_bound) d x out'
              ]
              | _ ↦ some out
            ])
                ≡ some r)
        by_view up (un_op mul x) = up x out
        by_view up (un_op _ x) = (out, refl)
        by_view up (change_type x) = up x out
        by_view up (convert x) = up x out
        by_view up (field_addr x i) =
            let (o, e) = struct-ends kind (type_of x) out in let (r, k) = up x o in (r, rw e k)
        by_view up _ = (out, refl)

    find-ends :
        (root : Value) (kind : Bool)
        → (r : Found P) × (find_structural_guards_kind P (suc embed_bound) root kind ≡ some r)
    unfolding find_structural_guards_kind
    find-ends root kind =
        let (o, e) = struct-ends kind (type_of root) [] in
        let (r, k) = parents-ends kind (depth root) root o in (r, ap by_struct e ∙ k)
      where
        by_struct : Option (Found P) → Option (Found P)
        by_struct none = none
        by_struct (some out) = add_parents P kind (suc embed_bound) (depth root) root out

    -- The search for structural guards ends, with fuel for one level more than structs embed each
    -- other, where an embedded struct other than the struct itself has fewer levels than it and
    -- the levels are bounded; what it finds is then what the cascade takes.
    pub structural_guards_ends :
        (root : Value) (kind : Bool)
        → find_structural_guards_kind P (suc embed_bound) root kind
          ≡ some (structural_guards P root kind)
    unfolding structural_guards
    structural_guards_ends root kind = by_result _ (find-ends root kind)
      where
        by_result :
            (x : Option (Found P))
            → ((r : Found P) × (x ≡ some r))
            → x ≡ some (elim x [ none ↦ [] | some out ↦ out ])
        by_result none k = cc (k.1)
        by_result (some r) k = refl
