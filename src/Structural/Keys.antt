-- ===== src/Structural/Keys.antt =====
-- `findStructuralGuards` returns every field once: the closure `add` of the source drops a field
-- whose key was seen.
use safetylint.Base.{
  ℕ, zero, suc, ◌≡◌, refl, subst, arith, Bool, true, false, List, [], ◌∷◌, ◌++◌, Option, none, some,
  any, Bool-cases, inl, inr, if◌then◌else◌, decides,
}
use mathlib.Core.Option.{some-injective}
use safetylint.Ssa.{Program, StructField, ValueView, mul, un_op, change_type, convert, field_addr}
use safetylint.Types.{struct_of}
use safetylint.Structural.{
  StructuralGuard, same_key, add_field, add_fields, fields_of, add_embedded_fields,
  add_embedded_mutexes, has_locker_field, add_cond_locker_fields, add_struct, add_parents,
  find_structural_guards_kind,
}

module _ (P : Program) where
  open P use {Ty, Struct, Value, Func, fields, struct_discrete, type_of, view, depth}

  abbrev Found : Type 0
  Found = List (StructuralGuard Struct)

  abbrev pub clash : StructuralGuard Struct → StructuralGuard Struct → Bool
  clash g h = same_key P g.struct_type g.field h.struct_type h.field

  -- No guard has the key of a later one.
  abbrev pub IsDistinct : Found → Type 0
  IsDistinct [] = Unit {0}
  IsDistinct (g ∷ gs) = (any (clash g) gs ≡ false) × IsDistinct gs

  any_snoc :
      (p : StructuralGuard Struct → Bool) (gs : Found) (x : StructuralGuard Struct)
      → any p gs ≡ false
      → p x ≡ false
      → any p (gs ++ x ∷ []) ≡ false
  any_snoc p [] x h k = ground arith
  any_snoc p (g ∷ gs) x h k = ground (arith, any_snoc p gs x)

  snoc-IsDistinct :
      (gs : Found) (x : StructuralGuard Struct)
      → any (λ g. clash g x) gs ≡ false
      → IsDistinct gs
      → IsDistinct (gs ++ x ∷ [])
  snoc-IsDistinct [] x h w = (refl, tt)
  snoc-IsDistinct (g ∷ gs) x h w =
      (any_snoc (clash g) gs x w.0 (ground arith), snoc-IsDistinct gs x (ground arith) w.1)

  add_field-IsDistinct :
      (rw_kind : Bool) (s : Struct) (i : ℕ) (out : Found)
      → IsDistinct out
      → IsDistinct (add_field P rw_kind s i out)
  unfolding add_field
  add_field-IsDistinct k s i out w =
      elim (Bool-cases
        (any (λ g. same_key P (StructuralGuard.struct_type g) (StructuralGuard.field g) s i) out)) [
          | inl seen ↦ rw seen w
          | inr new ↦
              rw new (snoc-IsDistinct out (record { struct_type = s; field = i; rw = k }) new w)
        ]

  add_fields-IsDistinct :
      (k : Bool) (s : Struct) (is : List ℕ) (out : Found)
      → IsDistinct out
      → IsDistinct (add_fields P k s is out)
  unfolding add_fields
  add_fields-IsDistinct k s [] out w = w
  add_fields-IsDistinct k s (i ∷ is) out w =
      add_fields-IsDistinct k s is _ (add_field-IsDistinct k s i out w)

  -- A step that may run out of fuel keeps the keys distinct where it ends.
  abbrev Keeps : (Found → Option Found) → Type 0
  Keeps f = (out out' : Found) → IsDistinct out → f out ≡ some out' → IsDistinct out'

  Keeps-self : Keeps (λ out. some out)
  Keeps-self out out' w e = subst IsDistinct (some-injective _ _ e) w

  Keeps-then :
      (f g : Found → Option Found)
      → Keeps f
      → Keeps g
      → Keeps (λ out. elim (f out) [ none ↦ none | some o ↦ g o ])
  Keeps-then f g kf kg out out' w = by_first (f out) refl
    where
      by_first :
          (o : Option Found)
          → f out ≡ o
          → (elim o [ none ↦ none | some x ↦ g x ]) ≡ some out'
          → IsDistinct out'
      by_first none p e = cc
      by_first (some x) p e = kg x out' (kf out x w p) e

  embedded-Keeps :
      (enter : Struct → Found → Option Found) (s : Struct) (fs : List (StructField Ty))
      → ((inner : Struct) → Keeps (enter inner))
      → Keeps (add_embedded_fields P enter s fs)
  unfolding add_embedded_fields
  embedded-Keeps enter s [] h = Keeps-self
  embedded-Keeps enter s (f ∷ fs) h =
      by_inner (if StructField.embedded f then struct_of P (StructField.ty f) else none)
        (embedded-Keeps enter s fs h)
    where
      by_inner :
          (o : Option Struct)
          → Keeps (add_embedded_fields P enter s fs)
          → Keeps (λ out. elim o [
            | none ↦ add_embedded_fields P enter s fs out
            | some inner ↦
                if decides (struct_discrete inner s)
                then add_embedded_fields P enter s fs out
                else elim (enter inner out) [
                  | none ↦ none
                  | some out' ↦ add_embedded_fields P enter s fs out'
                ]
          ])
      by_inner none k = k
      by_inner (some inner) k = by_test (decides (struct_discrete inner s))
        where
          by_test :
              (b : Bool)
              → Keeps (λ out.
                if b then add_embedded_fields P enter s fs out else elim (enter inner out) [
                  | none ↦ none
                  | some out' ↦ add_embedded_fields P enter s fs out'
                ])
          by_test true = k
          by_test false = Keeps-then (enter inner) (add_embedded_fields P enter s fs) (h inner) k

  mutexes-Keeps : (k : Bool) (fuel : ℕ) (s : Struct) → Keeps (add_embedded_mutexes P k fuel s)
  unfolding add_embedded_mutexes
  mutexes-Keeps k zero s out out' w e = cc
  mutexes-Keeps k (suc f) s out out' w e =
      embedded-Keeps (add_embedded_mutexes P k f) s (fields s) (mutexes-Keeps k f)
        (add_fields P k s (fields_of P k s) out) out'
        (add_fields-IsDistinct k s (fields_of P k s) out w) e

  lockers-IsDistinct :
      (s : Struct) (i : ℕ) (fs : List (StructField Ty)) (out : Found)
      → IsDistinct out
      → IsDistinct (add_cond_locker_fields P s i fs out)
  unfolding add_cond_locker_fields
  lockers-IsDistinct s i [] out w = w
  lockers-IsDistinct s i (f ∷ fs) out w =
      elim (Bool-cases (has_locker_field P (StructField.ty f))) [
        | inl yes_it ↦
            rw (yes_it, add_cond_locker_fields)
              (lockers-IsDistinct s (suc i) fs _ (add_field-IsDistinct false s i out w))
        | inr no_it ↦ rw (no_it, add_cond_locker_fields) (lockers-IsDistinct s (suc i) fs out w)
      ]

  struct-Keeps : (k : Bool) (fuel : ℕ) (t : Ty) → Keeps (add_struct P k fuel t)
  unfolding add_struct
  struct-Keeps k fuel t = by_struct (struct_of P t)
    where
      after :
          (b : Bool) (s : Struct)
          → Keeps (λ out. some (if b then out else add_cond_locker_fields P s 0 (fields s) out))
      after true s out out' w e = Keeps-self out out' w e
      after false s out out' w e =
          subst IsDistinct (some-injective _ _ e) (lockers-IsDistinct s 0 (fields s) out w)

      by_struct :
          (o : Option Struct)
          → Keeps (λ out. elim o [
            | none ↦ some out
            | some s ↦ elim (add_embedded_mutexes P k fuel s out) [
              | none ↦ none
              | some out' ↦ some (if k then out' else add_cond_locker_fields P s 0 (fields s) out')
            ]
          ])
      by_struct none = Keeps-self
      by_struct (some s) =
          Keeps-then (add_embedded_mutexes P k fuel s) _ (mutexes-Keeps k fuel s) (after k s)

  parents-Keeps : (k : Bool) (fuel d : ℕ) (cur : Value) → Keeps (add_parents P k fuel d cur)
  unfolding add_parents
  parents-Keeps k fuel zero cur = Keeps-self
  parents-Keeps k fuel (suc d) cur = by_view (view cur) (parents-Keeps k fuel d)
    where
      by_view :
          (u : ValueView Value Func)
          → ((x : Value) → Keeps (add_parents P k fuel d x))
          → Keeps (λ out. elim u [
            | un_op t x ↦ elim t [ mul ↦ add_parents P k fuel d x out | _ ↦ some out ]
            | change_type x ↦ add_parents P k fuel d x out
            | convert x ↦ add_parents P k fuel d x out
            | field_addr x i ↦ elim (add_struct P k fuel (type_of x) out) [
              | none ↦ none
              | some out' ↦ add_parents P k fuel d x out'
            ]
            | _ ↦ some out
          ])
      by_view (un_op mul x) ih = ih x
      by_view (un_op _ x) ih = Keeps-self
      by_view (change_type x) ih = ih x
      by_view (convert x) ih = ih x
      by_view (field_addr x i) ih =
          Keeps-then (add_struct P k fuel (type_of x)) _ (struct-Keeps k fuel (type_of x)) (ih x)
      by_view _ ih = Keeps-self

  -- Where the search for structural guards ends, no two of the guards that it returns have the
  -- same struct, by its text, and the same field.
  pub find_structural-IsDistinct :
      (fuel : ℕ) (root : Value) (k : Bool) (out : Found)
      → find_structural_guards_kind P fuel root k ≡ some out
      → IsDistinct out
  unfolding find_structural_guards_kind
  find_structural-IsDistinct fuel root k out e =
      Keeps-then (add_struct P k fuel (type_of root)) _ (struct-Keeps k fuel (type_of root))
        (parents-Keeps k fuel (depth root) root) [] out tt e
