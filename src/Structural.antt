-- ===== src/Structural.antt =====
-- The mutex fields of struct types that may guard a shared root, and whether one of them is held at
-- every access (internal/nosharing/mutexguard.go).
pub mod Tied
pub mod Keys
pub mod Cycle
pub mod Ends
use safetylint.Base.{
  ℕ, zero, suc, Bool, true, false, not, ◌&&◌, ◌||◌, List, [], ◌∷◌, ◌++◌, Option, none, some, str_eq,
  ◌==◌, any, all, is_some, decides, if◌then◌else◌, length,
}
use safetylint.Ssa.{Program, StructField, ValueView, mul, un_op, change_type, convert, field_addr}
use safetylint.Types.{struct_of, mutex_fields, rw_mutex_fields, is_locker_field_type, pointee_type}
use safetylint.Hold.{HoldSet, mode_ok}
use safetylint.Strip.{base_covers_addr, same_guard_object}
use safetylint.Guard.{GuardKey}
use safetylint.MustHold.Step.{Held}
use safetylint.MustHold.Tables.{Results}

-- `structuralGuard`
pub record StructuralGuard (Struct : Type 0) : Type 0 where
  pub struct_type : Struct
  pub field : ℕ
  pub rw : Bool

-- `dataAccess`
pub record DataAccess (Instr Value : Type 0) : Type 0 where
  pub instr : Instr
  pub addr : Value
  pub write : Bool

module _ (P : Program) where
  open P use {
    Ty, Struct, Value, Func, Instr, struct_discrete, struct_string, fields, type_of, view, depth,
    instr_parent,
  }

  -- Two fields have one key if their structs print alike: `structT.String() + "#" + itoa(field)`.
  unfoldable pub same_key : Struct → ℕ → Struct → ℕ → Bool
  same_key s i t j = str_eq (struct_string s) (struct_string t) && i == j

  abbrev Found : Type 0
  Found = List (StructuralGuard Struct)

  -- the closure `add`
  unfoldable pub add_field : Bool → Struct → ℕ → Found → Found
  unfolding same_key
  add_field rw s i out =
      if any (λ g. same_key (StructuralGuard.struct_type g) (StructuralGuard.field g) s i) out
      then out
      else out ++ record { struct_type = s; field = i; rw = rw } ∷ []

  unfoldable pub add_fields : Bool → Struct → List ℕ → Found → Found
  unfolding add_field
  add_fields rw s [] out = out
  add_fields rw s (i ∷ is) out = add_fields rw s is (add_field rw s i out)

  unfoldable pub fields_of : Bool → Struct → List ℕ
  unfolding mutex_fields rw_mutex_fields
  fields_of rw s = if rw then rw_mutex_fields P s else mutex_fields P s

  -- the loop of `addEmbeddedMutexes` over the embedded fields, with what it does to a struct
  unfoldable pub add_embedded_fields :
      (Struct → Found → Option Found) → Struct → List (StructField Ty) → Found → Option Found
  unfolding struct_of
  add_embedded_fields enter s [] out = some out
  add_embedded_fields enter s (f ∷ fs) out =
      elim (if StructField.embedded f then struct_of P (StructField.ty f) else none) [
        | none ↦ add_embedded_fields enter s fs out
        | some inner ↦
            if decides (struct_discrete inner s)
            then add_embedded_fields enter s fs out
            else elim (enter inner out) [
              | none ↦ none
              | some out' ↦ add_embedded_fields enter s fs out'
            ]
      ]

  -- `addEmbeddedMutexes`; `none` means that the fuel ran out, as it does on structs that embed
  -- pointers to each other, where the source never returns
  unfoldable pub add_embedded_mutexes : Bool → ℕ → Struct → Found → Option Found
  unfolding add_embedded_fields add_fields fields_of
  add_embedded_mutexes rw zero s out = none
  add_embedded_mutexes rw (suc f) s out =
      add_embedded_fields (add_embedded_mutexes rw f) s (fields s)
        (add_fields rw s (fields_of rw s) out)

  -- Has the struct behind the field's type a sync.Locker field?
  unfoldable pub has_locker_field : Ty → Bool
  unfolding struct_of is_locker_field_type pointee_type
  has_locker_field t = elim (struct_of P (pointee_type P t)) [
    | none ↦ false
    | some inner ↦ any (λ f. is_locker_field_type P (StructField.ty f)) (fields inner)
  ]

  -- `addCondLockerFields`, from the field with index `i` on
  unfoldable pub add_cond_locker_fields : Struct → ℕ → List (StructField Ty) → Found → Found
  unfolding has_locker_field add_field
  add_cond_locker_fields s i [] out = out
  add_cond_locker_fields s i (f ∷ fs) out =
      add_cond_locker_fields s (suc i) fs
        (if has_locker_field (StructField.ty f) then add_field false s i out else out)

  -- what `findStructuralGuardsKind` adds for the struct behind a type
  unfoldable pub add_struct : Bool → ℕ → Ty → Found → Option Found
  unfolding struct_of add_embedded_mutexes add_cond_locker_fields
  add_struct rw fuel t out = elim (struct_of P t) [
    | none ↦ some out
    | some s ↦ elim (add_embedded_mutexes rw fuel s out) [
      | none ↦ none
      | some out' ↦ some (if rw then out' else add_cond_locker_fields s 0 (fields s) out')
    ]
  ]

  -- the walk of `findStructuralGuardsKind` up the parents of the root
  unfoldable pub add_parents : Bool → ℕ → ℕ → Value → Found → Option Found
  unfolding add_struct
  add_parents rw fuel zero cur out = some out
  add_parents rw fuel (suc d) cur out =
      let up = λ (x : Value) (o : Found). add_parents rw fuel d x o in
      elim (view cur) [
        | un_op t x ↦ elim t [ mul ↦ up x out | _ ↦ some out ]
        | change_type x ↦ up x out
        | convert x ↦ up x out
        | field_addr x i ↦ elim (add_struct rw fuel (type_of x) out) [
          | none ↦ none
          | some out' ↦ up x out'
        ]
        | _ ↦ some out
      ]

  unfoldable pub find_structural_guards_kind : ℕ → Value → Bool → Option Found
  unfolding add_struct add_parents
  find_structural_guards_kind fuel root rw = elim (add_struct rw fuel (type_of root) []) [
    | none ↦ none
    | some out ↦ add_parents rw fuel (depth root) root out
  ]

  -- `findStructuralGuards` and `findStructuralRWGuards`, with fuel for the deepest embedding. Where
  -- the search of the source does not end, no guard is found here.
  unfoldable pub structural_guards : Value → Bool → Found
  unfolding find_structural_guards_kind
  structural_guards root rw = elim (find_structural_guards_kind (suc P.embed_bound) root rw) [
    | none ↦ []
    | some out ↦ out
  ]

  abbrev has_rw_field : Ty → Bool
  has_rw_field t = elim (struct_of P t) [
    | none ↦ false
    | some s ↦ elim (rw_mutex_fields P s) [ [] ↦ false | i ∷ is ↦ true ]
  ]

  -- the walk of `hasStructuralRWMutex`
  unfoldable pub parent_has_rw : ℕ → Value → Bool
  unfolding struct_of rw_mutex_fields
  parent_has_rw zero cur = false
  parent_has_rw (suc d) cur =
      let up = λ (x : Value). parent_has_rw d x in
      elim (view cur) [
        | un_op t x ↦ elim t [ mul ↦ up x | _ ↦ false ]
        | change_type x ↦ up x
        | convert x ↦ up x
        | field_addr x i ↦ has_rw_field (type_of x) || up x
        | _ ↦ false
      ]

  unfoldable pub has_structural_rw_mutex : Value → Bool
  unfolding struct_of rw_mutex_fields parent_has_rw
  has_structural_rw_mutex root = has_rw_field (type_of root) || parent_has_rw (depth root) root

  -- Is the guard, held in the mode, the tied field of the object that the access touches?
  unfoldable pub protects :
      DataAccess Instr Value → StructuralGuard Struct → GuardKey Value → ℕ → Bool
  unfolding struct_of same_key mode_ok base_covers_addr same_guard_object
  protects acc tied g mode = elim g.field [
    | none ↦ false
    | some i ↦ elim (struct_of P (type_of g.base)) [
      | none ↦ false
      | some s ↦
          same_key s i tied.struct_type tied.field
          && mode_ok mode acc.write tied.rw
          && (base_covers_addr P g.base acc.addr || same_guard_object P g.base acc.addr)
    ]
  ]

  unfoldable pub access_protected_by :
      DataAccess Instr Value → Held P → StructuralGuard Struct → Bool
  unfolding protects
  access_protected_by acc [] tied = false
  access_protected_by acc ((g, mode) ∷ held) tied =
      protects acc tied g mode || access_protected_by acc held tied

  -- `analyse` is `analyzeMustHold`, whose results the source keeps per function
  module _ (analyse : Func → Results P) where
    unfoldable pub protected : DataAccess Instr Value → StructuralGuard Struct → Bool
    unfolding access_protected_by
    protected acc c = elim (instr_parent acc.instr) [
      | none ↦ false
      | some fn ↦ elim (analyse fn acc.instr) [
        | none ↦ false
        | some at ↦ access_protected_by acc at c
      ]
    ]

    unfoldable pub find_tied_mutex :
        List (StructuralGuard Struct)
        → List (DataAccess Instr Value)
        → Option (StructuralGuard Struct)
    unfolding protected
    find_tied_mutex [] accs = none
    find_tied_mutex (c ∷ cs) accs =
        if all (λ acc. protected acc c) accs then some c else find_tied_mutex cs accs

    unfoldable pub has_tied_mutex :
        List (StructuralGuard Struct) → List (DataAccess Instr Value) → Bool
    unfolding find_tied_mutex
    has_tied_mutex cs accs = is_some (find_tied_mutex cs accs)
