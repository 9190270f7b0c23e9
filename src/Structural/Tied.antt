-- ===== src/Structural/Tied.antt =====
-- What a tied mutex guarantees: it is held, on the object of the access, wherever the object is
-- touched.
use safetylint.Base.{
  ◌≡◌, refl, arith, Bool, true, ◌||◌, List, [], ◌∷◌, some, Memᴰ, all, ℕ, Bool-cases, Option-cases,
  inl, inr,
}
use mathlib.Core.List.Memᴰ
use safetylint.Ssa.{Program, IsWellFounded}
use safetylint.Types.{struct_of}
use safetylint.Hold.{mode_ok}
use safetylint.Strip.{strip_to_object, base_covers_addr, same_guard_object}
use safetylint.Strip.Covers.{same_guard_object_of_covers}
use safetylint.Guard.{GuardKey}
use safetylint.MustHold.Step.{Held}
use safetylint.MustHold.Tables.{Results}
use safetylint.Structural.{
  StructuralGuard, DataAccess, same_key, protects, access_protected_by, protected, find_tied_mutex,
}

module _ (P : Program) where
  open P use {Value, Func, Instr, Struct, type_of, instr_parent}

  -- A guard of the tied field, held in a mode that the access needs, on the access's object.
  pub record IsTied (acc : DataAccess Instr Value) (tied : StructuralGuard Struct)
      (g : GuardKey Value) (mode : ℕ) : Type 0 where
    pub index : ℕ
    pub of_struct : Struct
    pub has_index : g.field ≡ some index
    pub has_struct : struct_of P (type_of g.base) ≡ some of_struct
    pub is_field : same_key P of_struct index tied.struct_type tied.field ≡ true
    pub is_enough : mode_ok mode acc.write tied.rw ≡ true
    pub is_object : strip_to_object P g.base ≡ strip_to_object P acc.addr

  -- The results have a hold set for the access, with such a guard in it.
  pub record IsProtected (analyse : Func → Results P) (acc : DataAccess Instr Value)
      (tied : StructuralGuard Struct) : Type 0 where
    pub parent : Func
    pub held : Held P
    pub guard : GuardKey Value
    pub mode : ℕ
    pub has_parent : instr_parent acc.instr ≡ some parent
    pub has_held : analyse parent acc.instr ≡ some held
    pub is_held : Memᴰ (guard, mode) held
    pub tie : IsTied acc tied guard mode

  module _ (wf : IsWellFounded P) where
    same_object :
        (acc : DataAccess Instr Value) (b : Value)
        → base_covers_addr P b acc.addr || same_guard_object P b acc.addr ≡ true
        → strip_to_object P b ≡ strip_to_object P acc.addr
    unfolding same_guard_object
    same_object acc b h = ground (arith, same_guard_object_of_covers P wf b acc.addr)

    protects-IsTied :
        (acc : DataAccess Instr Value) (tied : StructuralGuard Struct) (g : GuardKey Value)
        (mode : ℕ)
        → protects P acc tied g mode ≡ true
        → IsTied acc tied g mode
    unfolding protects
    protects-IsTied acc tied g mode h = elim (Option-cases g.field) [
      | inl e ↦ cc (rw (e, protects) at h)
      | inr (i, e) ↦ elim (Option-cases (struct_of P (type_of g.base))) [
        | inl q ↦ cc (rw (e, q, protects) at h)
        | inr (s, q) ↦
            let k = rw (e, q, protects) at h in
            record {
              index = i;
              of_struct = s;
              has_index = e;
              has_struct = q;
              is_field = ground arith;
              is_enough = ground arith;
              is_object = same_object acc g.base (ground arith);
            }
      ]
    ]

    held-IsTied :
        (acc : DataAccess Instr Value) (held : Held P) (tied : StructuralGuard Struct)
        → access_protected_by P acc held tied ≡ true
        → (g : GuardKey Value) × (mode : ℕ) × Memᴰ (g, mode) held × IsTied acc tied g mode
    unfolding access_protected_by
    held-IsTied acc [] tied h = cc
    held-IsTied acc ((g, mode) ∷ held) tied h = elim (Bool-cases (protects P acc tied g mode)) [
      | inl p ↦ (g, mode, Memᴰ.head refl, protects-IsTied acc tied g mode p)
      | inr p ↦
          let (g', mode', m, tie) = held-IsTied acc held tied (ground arith) in
          (g', mode', Memᴰ.tail m, tie)
    ]

    module _ (analyse : Func → Results P) where
      protected-IsProtected :
          (acc : DataAccess Instr Value) (c : StructuralGuard Struct)
          → protected P analyse acc c ≡ true
          → IsProtected analyse acc c
      unfolding protected
      protected-IsProtected acc c h = elim (Option-cases (instr_parent acc.instr)) [
        | inl e ↦ cc (rw (e, protected) at h)
        | inr (fn, e) ↦ elim (Option-cases (analyse fn acc.instr)) [
          | inl q ↦ cc (rw (e, q, protected) at h)
          | inr (held, q) ↦
              let (g, mode, m, tie) = held-IsTied acc held c (rw (e, q, protected) at h) in
              record {
                parent = fn;
                held = held;
                guard = g;
                mode = mode;
                has_parent = e;
                has_held = q;
                is_held = m;
                tie = tie;
              }
        ]
      ]

      all_member :
          (p : DataAccess Instr Value → Bool) (accs : List (DataAccess Instr Value))
          (acc : DataAccess Instr Value)
          → Memᴰ acc accs
          → all p accs ≡ true
          → p acc ≡ true
      all_member p [] acc m h = absurd (Memᴰ.not-nil m)
      all_member p (a ∷ accs) acc m h = elim (Memᴰ.cases_cons m) [
        | inl e ↦ rw e (ground arith)
        | inr n ↦ all_member p accs acc n (ground arith)
      ]

      -- The tied mutex that findTiedMutex returns is one of the candidates, and for every access
      -- the results at its instruction have a guard of that field, held in a mode that the access
      -- needs, on the object that the access strips to, in a program whose operands are defined
      -- before their uses.
      pub find_tied_mutex_sound :
          (cs : List (StructuralGuard Struct)) (accs : List (DataAccess Instr Value))
          (c : StructuralGuard Struct)
          → find_tied_mutex P analyse cs accs ≡ some c
          → Memᴰ c cs × ((acc : DataAccess Instr Value) → Memᴰ acc accs → IsProtected analyse acc c)
      unfolding find_tied_mutex
      find_tied_mutex_sound [] accs c h = cc
      find_tied_mutex_sound (d ∷ cs) accs c h =
          elim (Bool-cases (all (λ acc. protected P analyse acc d) accs)) [
            | inl p ↦
                let same : c ≡ d = ground arith in
                (
                  Memᴰ.head same,
                  rw same (λ acc m.
                      protected-IsProtected acc d
                        (all_member (λ a. protected P analyse a d) accs acc m p)),
                )
            | inr p ↦
                let (m, k) = find_tied_mutex_sound cs accs c (ground arith) in (Memᴰ.tail m, k)
          ]
