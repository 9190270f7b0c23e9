-- ===== src/Guard/Wrapper.antt =====
-- `mutexWrapperField`: a user's method Lock, Unlock, RLock or RUnlock that always performs that
-- operation on one mutex field of its receiver.
pub mod Paths
pub mod Ends
use safetylint.Base.{
  ℕ, zero, suc, ◌+◌, ◌*◌, ◌≡◌, Bool, true, false, not, ◌&&◌, ◌||◌, List, [], ◌∷◌, ◌++◌, map, Option,
  none, some, is_some, replicate, String, one_of, str_eq, if◌then◌else◌, decides, length, any,
  get_or, set, ◌==◌, ℕ_discrete,
}
use safetylint.Ssa.{Program, CallCommon, call, defer, ret, field_addr}
use safetylint.Types.{is_named_sync_type}
use safetylint.Strip.{strip_to_object}
use safetylint.Sweep.{until_stable}
use safetylint.Flow.{Tables, visit}
use safetylint.Guard.Method.{
  mutex_recv, mutex_method_name, is_sync_mutex_method, is_rw_mutex_method, lock_names, first,
}

-- `wrapperField`
pub record WrapperField : Type 0 where
  pub field : ℕ
  pub is_rw : Bool

abbrev pub same_bool : Bool → Bool → Bool
same_bool true b = b
same_bool false b = not b

abbrev pub is_some_true : Option Bool → Bool
is_some_true (some true) = true
is_some_true _ = false

abbrev pub same_field : WrapperField → WrapperField → Bool
same_field a b = a.field == b.field && same_bool a.is_rw b.is_rw

module _ (P : Program) where
  open P use {
    Value, Func, Block, Instr, view, type_of, value_discrete, instr_view, blocks, instrs, preds,
    index, params, recv, map_order,
  }

  -- `sc == nil || (!isSyncMutexMethod(sc) && !isRWMutexMethod(sc))`, negated
  unfoldable pub calls_sync_method : Option Func → Bool
  unfolding is_sync_mutex_method is_rw_mutex_method
  calls_sync_method none = false
  calls_sync_method (some sc) = is_sync_mutex_method P sc || is_rw_mutex_method P sc

  -- the mutex field of `recv` that an address is, if it is one
  unfoldable pub recv_field : Value → Value → Option WrapperField
  unfolding strip_to_object is_named_sync_type
  recv_field this v = elim (view v) [
    | field_addr x f ↦
        let is_mu = is_named_sync_type P (type_of v) ("Mutex" ∷ []) in
        let is_rw = is_named_sync_type P (type_of v) ("RWMutex" ∷ []) in
        if not (decides (value_discrete (strip_to_object P x) this))
        then none
        else if not is_mu && not is_rw
        then none
        else some (record { field = f; is_rw = is_rw })
    | _ ↦ none
  ]

  unfoldable pub call_field_op : Value → CallCommon Value Func → Option (WrapperField × String)
  unfolding calls_sync_method recv_field mutex_recv mutex_method_name
  call_field_op this c =
      if one_of (mutex_method_name P c) lock_names && calls_sync_method c.static_callee
      then elim (mutex_recv c) [
        | none ↦ none
        | some v ↦ elim (recv_field this v) [
          | none ↦ none
          | some fk ↦ some (fk, mutex_method_name P c)
        ]
      ]
      else none

  unfoldable pub recv_mutex_field_op : Value → Instr → Option (WrapperField × String)
  unfolding call_field_op
  recv_mutex_field_op this i = elim (instr_view i) [
    | call v c ↦ call_field_op this c
    | defer c ↦ call_field_op this c
    | _ ↦ none
  ]

  module _ (this : Value) (name : String) where
    -- Does the instruction perform `name` on the field?
    unfoldable pub performs : WrapperField → Instr → Bool
    unfolding recv_mutex_field_op
    performs fk i = elim (recv_mutex_field_op this i) [
      | none ↦ false
      | some (fk', op) ↦ str_eq op name && same_field fk' fk
    ]

    unfoldable pub releases : WrapperField → Instr → Bool
    unfolding recv_mutex_field_op
    releases fk i = elim (recv_mutex_field_op this i) [
      | none ↦ false
      | some (fk', op) ↦ one_of op ("Unlock" ∷ "RUnlock" ∷ []) && same_field fk' fk
    ]

    unfoldable pub tries : Instr → Bool
    unfolding recv_mutex_field_op
    tries i = elim (recv_mutex_field_op this i) [
      | none ↦ false
      | some (fk, op) ↦ one_of op ("TryLock" ∷ "TryRLock" ∷ [])
    ]

    -- the keys of `candidates`, each once
    unfoldable pub candidates : List Instr → List WrapperField → List WrapperField
    unfolding recv_mutex_field_op
    candidates [] acc = acc
    candidates (i ∷ is) acc = candidates is (elim (recv_mutex_field_op this i) [
      | none ↦ acc
      | some (fk, op) ↦
          if str_eq op name && not (any (λ g. same_field g fk) acc) then acc ++ fk ∷ [] else acc
    ])

  abbrev pub all_instrs : List Block → List Instr
  all_instrs [] = []
  all_instrs (b ∷ bs) = instrs b ++ all_instrs bs

  module _ (hits : Block → Bool) where
    -- every predecessor has performed the operation at its end
    unfoldable pub preds_seen : List Bool → List Block → Bool
    preds_seen outs [] = true
    preds_seen outs (p ∷ ps) = get_or outs (index p) false && preds_seen outs ps

    unfoldable pub seen_at_entry : List Bool → Block → Bool
    unfolding preds_seen
    seen_at_entry outs b = elim (preds b) [ [] ↦ false | p ∷ ps ↦ preds_seen outs (p ∷ ps) ]

    unfoldable pub seen_at_end : Block → Bool → Bool
    seen_at_end b in_b = in_b || hits b

    -- `seenIn` is false and `seenOut` is true, but for the entry's
    unfoldable pub first_seen : List Block → Tables Bool (Unit {0})
    first_seen bs = record {
      ins = replicate (length bs) false;
      outs = elim bs [
        | [] ↦ []
        | b ∷ rest ↦ set (replicate (suc (length rest)) true) (index b) false
      ];
      noted = tt;
    }

    -- Rounds enough for the loop: each round but the last lowers an entry of the tables.
    abbrev pub seen_fuel : List Block → ℕ
    seen_fuel bs = suc (suc (suc (length bs) * length bs + length bs))

    unfoldable pub seen_tables : List Block → Option (Tables Bool (Unit {0}))
    unfolding until_stable visit seen_at_entry seen_at_end first_seen
    seen_tables bs =
        until_stable (visit index same_bool false seen_at_entry seen_at_end (λ b x r. r)) bs
          (seen_fuel bs) (first_seen bs)

  -- the last loop of `wrapperMustPerform` over one block: `none` if a return is not preceded by the
  -- operation, else whether a return was met
  unfoldable pub returns_after : (Instr → Bool) → Bool → List Instr → Option Bool
  returns_after hit seen [] = some false
  returns_after hit seen (i ∷ is) =
      let rest = returns_after hit (seen || hit i) is in
      elim (instr_view i) [
        | ret ↦ if seen then elim rest [ none ↦ none | some r ↦ some true ] else none
        | _ ↦ rest
      ]

  -- the last loop, over the blocks: whether no return fails, and whether there is one
  unfoldable pub all_returns_after : (Instr → Bool) → List Bool → List Block → Option Bool
  unfolding returns_after
  all_returns_after hit ins [] = some false
  all_returns_after hit ins (b ∷ bs) =
      elim (returns_after hit (get_or ins (index b) false) (instrs b)) [
        | none ↦ none
        | some here ↦ elim (all_returns_after hit ins bs) [
          | none ↦ none
          | some later ↦ some (here || later)
        ]
      ]

  unfoldable pub wrapper_must_perform : List Block → (Instr → Bool) → Bool
  unfolding seen_tables all_returns_after
  wrapper_must_perform bs hit = elim (seen_tables (λ b. any hit (instrs b)) bs) [
    | none ↦ false
    | some t ↦ is_some_true (all_returns_after hit t.ins bs)
  ]

  abbrev pub is_acquire : String → Bool
  is_acquire name = one_of name ("Lock" ∷ "RLock" ∷ [])

  -- the loop over the candidates, in the order in which the map gives them
  unfoldable pub pick_field : Func → Value → String → List WrapperField → Option WrapperField
  unfolding wrapper_must_perform performs releases
  pick_field cal this name [] = none
  pick_field cal this name (fk ∷ fks) =
      let rest = pick_field cal this name fks in
      if is_acquire name && any (releases this name fk) (all_instrs (blocks cal))
      then rest
      else if wrapper_must_perform (blocks cal) (performs this name fk)
      then some fk
      else rest

  unfoldable pub wrapper_field_of : Func → Value → String → Option WrapperField
  unfolding pick_field candidates tries
  wrapper_field_of cal this name =
      if any (tries this name) (all_instrs (blocks cal))
      then none
      else pick_field cal this name
          (map_order WrapperField (candidates this name (all_instrs (blocks cal)) []))

  unfoldable pub mutex_wrapper_field : Func → String → Option WrapperField
  unfolding wrapper_field_of
  mutex_wrapper_field cal name =
      if one_of name ("Lock" ∷ "Unlock" ∷ "RLock" ∷ "RUnlock" ∷ []) && is_some (recv cal)
      then elim (first (params cal)) [ none ↦ none | some this ↦ wrapper_field_of cal this name ]
      else none
