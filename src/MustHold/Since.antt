-- ===== src/MustHold/Since.antt =====
-- What is held after a series of events, when each event drops a guard, gives it in a mode or
-- leaves it: it was given by an event, or held before them all, and no later event drops it.
use safetylint.Base.{
  ℕ, ◌≤◌, ◌<◌, ◌≡◌, refl, sym, ap, subst, ◌⊎◌, inl, inr, ◌↔◌, arith, Bool, true, false, List, [],
  ◌∷◌, ◌++◌, max, if◌then◌else◌,
}
use native.Mathlib.Decide.{dec_le}

-- How a step that gives `g`, and drops the guard if `d` says so, leads from the mode `m` to `n`, as
-- far as one mode can tell.
abbrev pub Turn : ℕ → ℕ → Bool → ℕ → ℕ → Type 0
Turn mode g d m n =
    (mode ≤ n → (mode ≤ g) ⊎ ((d ≡ false) × (mode ≤ m)))
    × (mode ≤ g → mode ≤ n)
    × (d ≡ false → mode ≤ m → mode ≤ n)

module _ (mode : ℕ) (pos : 0 < mode) (m n : ℕ) where
  pub Turn-keep : n ≡ m → Turn mode 0 false m n
  Turn-keep e = (λ h. inr (refl, omega arith), λ h. absurd (omega arith), λ d h. omega arith)

  pub Turn-drop : n ≡ 0 → Turn mode 0 true m n
  Turn-drop e = (λ h. absurd (omega arith), λ h. absurd (omega arith), λ d h. cc)

  pub Turn-give : (g : ℕ) → mode ≤ g → n ≡ g → Turn mode g false m n
  Turn-give g le e = (λ h. inl le, λ h. omega arith, λ d h. omega arith)

  pub Turn-raise : (g : ℕ) → n ≡ max g m → Turn mode g false m n
  Turn-raise g e = (λ h. raised h, λ h. omega arith, λ d h. omega arith)
    where
      raised : mode ≤ n → (mode ≤ g) ⊎ ((false ≡ false) × (mode ≤ m))
      raised h = elim (dec_le mode g) [ yes l ↦ inl l | no l ↦ inr (refl, omega arith) ]

  pub Turn-if : (b : Bool) → n ≡ (if b then 0 else m) → Turn mode 0 b m n
  Turn-if true e = Turn-drop e
  Turn-if false e = Turn-keep e

-- The state after the events, one after the other.
abbrev pub after : {E H : Type 0} → (E → H → H) → List E → H → H
after act [] h = h
after act (e ∷ es) h = after act es (act e h)

pub after-append :
    {E H : Type 0} (act : E → H → H) (es fs : List E) (h : H)
    → after act (es ++ fs) h ≡ after act fs (after act es h)
after-append act [] fs h = refl
after-append act (e ∷ es) fs h = after-append act es fs (act e h)

module _ {E : Type 0} (gives : E → ℕ) (drops : E → Bool) where
  -- None of the events drops the guard.
  abbrev pub Kept : List E → Type 0
  Kept [] = Unit {0}
  Kept (e ∷ es) = (drops e ≡ false) × Kept es

  -- An event gives the guard in that mode at least, and none behind it drops it.
  pub record Given (mode : ℕ) (es : List E) : Type 0 where
    pub before : List E
    pub giver : E
    pub behind : List E
    pub place : es ≡ before ++ giver ∷ behind
    pub enough : mode ≤ gives giver
    pub kept : Kept behind

  -- The guard is held in the mode since one of the events, or since before all of them.
  abbrev pub HeldSince : ℕ → List E → ℕ → Type 0
  HeldSince mode es first = Given mode es ⊎ (Kept es × (mode ≤ first))

  Given-cons : {mode : ℕ} {es : List E} (e : E) → Given mode es → Given mode (e ∷ es)
  Given-cons e g = record {
    before = e ∷ g.before;
    giver = g.giver;
    behind = g.behind;
    place = ap (λ xs. e ∷ xs) g.place;
    enough = g.enough;
    kept = g.kept;
  }

  module _ {H : Type 0} (act : E → H → H) (read : H → ℕ) (IsOk : H → Type 0)
      (ok : (e : E) (h : H) → IsOk h → IsOk (act e h)) (mode : ℕ)
      (steps : (e : E) (h : H)
        → IsOk h
        → Turn mode (gives e) (drops e) (read h) (read (act e h))) where
    since :
        (es : List E) (h : H) → IsOk h → mode ≤ read (after act es h) → HeldSince mode es (read h)
    since [] h w m = inr (tt, m)
    since (e ∷ es) h w m = elim (since es (act e h) (ok e h w) m) [
      | inl g ↦ inl (Given-cons e g)
      | inr (k, n) ↦ elim ((steps e h w).0 n) [
        | inl q ↦
            inl (record { before = []; giver = e; behind = es; place = refl; enough = q; kept = k })
        | inr (d, q) ↦ inr ((d, k), q)
      ]
    ]

    kept_mode :
        (es : List E) (h : H) → IsOk h → Kept es → mode ≤ read h → mode ≤ read (after act es h)
    kept_mode [] h w k m = m
    kept_mode (e ∷ es) h w k m = kept_mode es (act e h) (ok e h w) k.1 ((steps e h w).2 k.0 m)

    given_mode :
        (before : List E) (giver : E) (behind : List E) (h : H)
        → IsOk h
        → mode ≤ gives giver
        → Kept behind
        → mode ≤ read (after act (before ++ giver ∷ behind) h)
    given_mode [] giver behind h w m k =
        kept_mode behind (act giver h) (ok giver h w) k ((steps giver h w).1 m)
    given_mode (e ∷ before) giver behind h w m k =
        given_mode before giver behind (act e h) (ok e h w) m k

    -- After the events, a mode is held exactly when it is held since one of them or since before.
    pub held_iff_since :
        (es : List E) (h : H) → IsOk h → (mode ≤ read (after act es h)) ↔ HeldSince mode es (read h)
    held_iff_since es h w = (
      since es h w,
      λ s. elim s [
        | inl g ↦
            subst (λ xs. mode ≤ read (after act xs h)) (sym g.place)
              (given_mode g.before g.giver g.behind h w g.enough g.kept)
        | inr (k, m) ↦ kept_mode es h w k m
      ],
    )
