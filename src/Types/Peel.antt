-- ===== src/Types/Peel.antt =====
-- What `structOf` finds behind pointers: with the fuel that it is given it peels every pointer.
use safetylint.Base.{ℕ, zero, suc, ◌≤◌, ◌≡◌, ◌≢◌, arith, refl, ◌⊎◌, inl, inr}
use safetylint.Ssa.{Program, TyView, pointer, IsWellFounded}
use safetylint.Types.{peel_pointers}

module _ (P : Program) (wf : IsWellFounded P) where
  open P use {Ty, Struct, unalias, ty_view, ty_depth}

  pointer_cases : (v : TyView Ty Struct) → ((e : Ty) × (v ≡ pointer e)) ⊎ ((e : Ty) → v ≢ pointer e)
  pointer_cases (pointer e) = inl (e, refl)
  pointer_cases _ = inr (λ e p. cc)

  peel_pointers_stop :
      (n : ℕ) (t : Ty) → ((e : Ty) → ty_view t ≢ pointer e) → peel_pointers P n t ≡ t
  unfolding peel_pointers
  peel_pointers_stop zero t h = refl
  peel_pointers_stop (suc n) t h = stop (ty_view t) refl
    where
      stop : (v : TyView Ty Struct) → ty_view t ≡ v → peel_pointers P (suc n) t ≡ t
      stop (pointer e) p = absurd (h e p)
      stop _ p = rw (p, peel_pointers)

  peel_pointers_step :
      (n : ℕ) (t e : Ty)
      → ty_view t ≡ pointer e
      → peel_pointers P (suc n) t ≡ peel_pointers P n (unalias e)
  unfolding peel_pointers
  peel_pointers_step n t e p = rw (p, peel_pointers)

  -- With fuel for the depth of the type, structOf's loop leaves no pointer, in a program whose
  -- pointer types are finite chains.
  pub peel_pointers_done :
      (n : ℕ) (t : Ty) → ty_depth t ≤ n → (e : Ty) → ty_view (peel_pointers P n t) ≢ pointer e
  peel_pointers_done zero t h e =
      unfold peel_pointers in λ p. absurd (omega (arith, wf.pointer_lt t e p))
  peel_pointers_done (suc n) t h e = elim (pointer_cases (ty_view t)) [
    | inl (e', p) ↦
        rw (peel_pointers_step n t e' p)
          (peel_pointers_done n (unalias e') (omega (arith, wf.pointer_lt t e' p)) e)
    | inr q ↦ rw (peel_pointers_stop (suc n) t q) (q e)
  ]
