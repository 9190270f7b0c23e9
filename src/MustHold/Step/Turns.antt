-- ===== src/MustHold/Step/Turns.antt =====
-- What the analysis does with an instruction is what the instruction does to each guard.
use safetylint.Base.{
  ℕ, ◌≤◌, ◌<◌, ◌≡◌, refl, sym, subst, ap, Bool, true, false, ◌&&◌, Option, none, some, String,
  str_eq, decides, if◌then◌else◌, ◌∙◌, Bool-cases, inl, inr,
}
use text.Mathlib.TextEquality.{eq_iff}
use safetylint.Ssa.{Program, CallCommon, InstrView, call, defer}
use safetylint.Hold.{get, clone_guard_set, IsWf, hold_read, hold_write}
use safetylint.Hold.Laws.{get-clone, get-delete_if}
use safetylint.Guard.{GuardKey, lock_unlock_guard}
use safetylint.Guard.Method.{mutex_method_name}
use safetylint.Calls.{is_async_callback_callee}
use safetylint.MayUnlock.{is_builtin_call, is_sync_call, has_body}
use safetylint.MustHold.Since.{Turn, Turn-keep, Turn-give, Turn-raise, Turn-if}
use safetylint.MustHold.Step.{
  key, Held, kill_unknown_call, apply_guard_op, apply_static_call, apply_call_hold, transfer_hold,
  releases_in,
}
use safetylint.MustHold.Step.Modes.{apply_guard_op_modes, kill_unknown_call_modes, mode_after}
use safetylint.MustHold.Step.Effects.{
  lock_mode, is_unlock, gives_call, drops_unknown, drops_static, drops_call, gives, drops,
}

module _ (P : Program) (k : GuardKey P.Value) where
  open P use {Value, Func, Instr, instr_view}

  module _ (mode : ℕ) (pos : 0 < mode) (le : mode ≤ hold_write) where
    name-Turn :
        (name : String) (m n : ℕ)
        → n ≡ mode_after P name m
        → Turn mode (lock_mode name) (is_unlock name) m n
    name-Turn name m n e = elim (Bool-cases (str_eq name "Lock")) [
      | inl l ↦
          subst (λ s. n ≡ mode_after P s m → Turn mode (lock_mode s) (is_unlock s) m n)
            (sym ((eq_iff name "Lock").0 l)) (Turn-give mode pos m n hold_write le) e
      | inr l ↦ elim (Bool-cases (str_eq name "RLock")) [
        | inl r ↦
            subst (λ s. n ≡ mode_after P s m → Turn mode (lock_mode s) (is_unlock s) m n)
              (sym ((eq_iff name "RLock").0 r)) (Turn-raise mode pos m n hold_read) e
        | inr r ↦ rw (l, r) (Turn-if mode pos m n (is_unlock name) (rw (l, r) at e))
      ]
    ]

    op-Turn :
        (held : Held P) (g : GuardKey Value) (name : String)
        → Turn mode
            (if decides (key P g k) then lock_mode name else 0)
            (decides (key P g k) && is_unlock name)
            (get (key P) held k)
            (get (key P) (apply_guard_op P held g name false) k)
    op-Turn held g name =
        by_guard (decides (key P g k)) (apply_guard_op_modes P held g k name false)
      where
        by_guard :
            (b : Bool)
            → get (key P) (apply_guard_op P held g name false) k
              ≡ (if b then mode_after P name (get (key P) held k) else get (key P) held k)
            → Turn mode
                (if b then lock_mode name else 0)
                (b && is_unlock name)
                (get (key P) held k)
                (get (key P) (apply_guard_op P held g name false) k)
        by_guard true e = name-Turn name _ _ e
        by_guard false e = Turn-keep mode pos _ _ e

    unknown-Turn :
        (held : Held P) (c : CallCommon Value Func)
        → Turn mode 0
            (drops_unknown P k c)
            (get (key P) held k)
            (get (key P) (kill_unknown_call P held c) k)
    unknown-Turn held c =
        Turn-if mode pos _ _ (drops_unknown P k c) (kill_unknown_call_modes P held c k)

    static-Turn :
        (held : Held P) (c : CallCommon Value Func) (cal : Func)
        → Turn mode 0
            (drops_static P k c cal)
            (get (key P) held k)
            (get (key P) (apply_static_call P held c cal) k)
    unfolding apply_static_call
    static-Turn held c cal = elim (Bool-cases (has_body P cal)) [
      | inl b ↦ rw b (
          Turn-if mode pos _ _ (releases_in P cal k)
            (get-delete_if (key P) (releases_in P cal) held k))
      | inr b ↦ elim (Bool-cases (is_sync_call P cal c)) [
        | inl s ↦ rw (b, s) (Turn-keep mode pos _ _ refl)
        | inr s ↦ elim (Bool-cases (is_async_callback_callee P cal)) [
          | inl a ↦ rw (b, s, a) (Turn-keep mode pos _ _ refl)
          | inr a ↦ rw (b, s, a) (unknown-Turn held c)
        ]
      ]
    ]

    call-Turn :
        (held : Held P) (c : CallCommon Value Func)
        → Turn mode
            (gives_call P k c)
            (drops_call P k c)
            (get (key P) held k)
            (get (key P) (apply_call_hold P held c false) k)
    unfolding apply_call_hold
    call-Turn held c = by_guard (lock_unlock_guard P c)
      where
        by_callee :
            (o : Option Func)
            → Turn mode 0
                (elim o [ some cal ↦ drops_static P k c cal | none ↦ drops_unknown P k c ])
                (get (key P) held k)
                (get
                  (key P)
                  (elim o [
                    | some cal ↦ apply_static_call P held c cal
                    | none ↦ kill_unknown_call P held c
                  ])
                  k)
        by_callee (some cal) = static-Turn held c cal
        by_callee none = unknown-Turn held c

        by_builtin :
            (b : Bool)
            → Turn mode 0
                (if b then false else elim c.static_callee [
                  | some cal ↦ drops_static P k c cal
                  | none ↦ drops_unknown P k c
                ])
                (get (key P) held k)
                (get
                  (key P)
                  (if b then held else elim c.static_callee [
                    | some cal ↦ apply_static_call P held c cal
                    | none ↦ kill_unknown_call P held c
                  ])
                  k)
        by_builtin true = Turn-keep mode pos _ _ refl
        by_builtin false = by_callee c.static_callee

        by_guard :
            (o : Option (GuardKey Value))
            → Turn mode
                (elim o [
                  | some g ↦ if decides (key P g k) then lock_mode (mutex_method_name P c) else 0
                  | none ↦ 0
                ])
                (elim o [
                  | some g ↦ decides (key P g k) && is_unlock (mutex_method_name P c)
                  | none ↦ if is_builtin_call P c then false else elim c.static_callee [
                    | some cal ↦ drops_static P k c cal
                    | none ↦ drops_unknown P k c
                  ]
                ])
                (get (key P) held k)
                (get
                  (key P)
                  (elim o [
                    | some g ↦ apply_guard_op P held g (mutex_method_name P c) false
                    | none ↦ if is_builtin_call P c then held else elim c.static_callee [
                      | some cal ↦ apply_static_call P held c cal
                      | none ↦ kill_unknown_call P held c
                    ]
                  ])
                  k)
        by_guard (some g) = op-Turn held g (mutex_method_name P c)
        by_guard none = by_builtin (is_builtin_call P c)

    deferred : (held : Held P) (c : CallCommon Value Func) → apply_call_hold P held c true ≡ held
    unfolding apply_call_hold apply_guard_op
    deferred held c = by_guard (lock_unlock_guard P c)
      where
        by_guard :
            (o : Option (GuardKey Value))
            → (elim o [
              | some g ↦ apply_guard_op P held g (mutex_method_name P c) true
              | none ↦ held
            ])
              ≡ held
        by_guard (some g) = refl
        by_guard none = refl

    pub transfer-Turn :
        (i : Instr) (held : Held P)
        → IsWf (key P) held
        → Turn mode
            (gives P k i)
            (drops P k i)
            (get (key P) held k)
            (get (key P) (transfer_hold P held i) k)
    unfolding transfer_hold
    transfer-Turn i held w = by_view (instr_view i) (get-clone (key P) held k w)
      where
        by_view :
            (u : InstrView Value Func)
            → get (key P) (clone_guard_set (key P) held) k ≡ get (key P) held k
            → Turn mode
                (elim u [ call v c ↦ gives_call P k c | _ ↦ 0 ])
                (elim u [ call v c ↦ drops_call P k c | _ ↦ false ])
                (get (key P) held k)
                (get
                  (key P)
                  (elim u [
                    | call v c ↦ apply_call_hold P (clone_guard_set (key P) held) c false
                    | defer c ↦ apply_call_hold P (clone_guard_set (key P) held) c true
                    | _ ↦ clone_guard_set (key P) held
                  ])
                  k)
        by_view (call v c) e =
            subst
              (λ m.
                Turn mode (gives_call P k c) (drops_call P k c) m
                  (get (key P) (apply_call_hold P (clone_guard_set (key P) held) c false) k))
              e (call-Turn (clone_guard_set (key P) held) c)
        by_view (defer c) e =
            Turn-keep mode pos _ _
              (ap (λ h. get (key P) h k) (deferred (clone_guard_set (key P) held) c) ∙ e)
        by_view _ e = Turn-keep mode pos _ _ e
