-- ===== src/Strings/Laws.antt =====
-- Splitting what was joined, trimming texts without blanks, and comparing texts.
use safetylint.Base.{
  ℕ, ◌≡◌, refl, sym, ap, ◌∙◌, arith, Bool, true, false, not, List, [], ◌∷◌, ◌++◌, all, Memᴰ, inl,
  inr, Bool-cases, length,
}
use mathlib.Core.List.{append-nil}
use safetylint.Strings.{
  Text, is_empty, is_space, trim_left, trim_right, trim_space, split_by, join, add_to_first,
  text_eq, is_prefix, behind,
}

-- No code point of the text passes the test.
abbrev pub Avoids : (ℕ → Bool) → Text → Type 0
Avoids p s = all (λ c. not (p c)) s ≡ true

module _ (p : ℕ → Bool) where
  split_by-plain : (w : Text) → Avoids p w → split_by p w ≡ w ∷ []
  unfolding split_by
  split_by-plain [] h = refl
  split_by-plain (c ∷ w) h =
      let e : p c ≡ false = ground arith in
      let k : Avoids p w = ground arith in rw (e, split_by-plain w k) refl

  split_by-sep :
      (w s : Text) (c : ℕ) → Avoids p w → p c ≡ true → split_by p (w ++ c ∷ s) ≡ w ∷ split_by p s
  unfolding split_by
  split_by-sep [] s c h k = rw k refl
  split_by-sep (d ∷ w) s c h k =
      let e : p d ≡ false = ground arith in
      let r : Avoids p w = ground arith in rw (e, split_by-sep w s c r k) refl

  pub split_by-join :
      (c : ℕ) (w : Text) (ws : List Text)
      → p c ≡ true
      → ((v : Text) → Memᴰ v (w ∷ ws) → Avoids p v)
      → split_by p (join (c ∷ []) (w ∷ ws)) ≡ w ∷ ws
  split_by-join c w [] k h = split_by-plain w (h w (Memᴰ.head refl))
  split_by-join c w (v ∷ ws) k h =
      split_by-sep w (join (c ∷ []) (v ∷ ws)) c (h w (Memᴰ.head refl)) k
      ∙ ap (λ z. w ∷ z) (split_by-join c v ws k (λ u m. h u (Memᴰ.tail m)))

  add_to_first-Avoids :
      (c : ℕ) (ws : List Text)
      → p c ≡ false
      → all (λ w. all (λ d. not (p d)) w) ws ≡ true
      → all (λ w. all (λ d. not (p d)) w) (add_to_first c ws) ≡ true
  add_to_first-Avoids c [] h k = ground arith
  add_to_first-Avoids c (w ∷ ws) h k = ground arith

  -- The pieces have no separator.
  pub split_by-Avoids : (s : Text) → all (λ w. all (λ d. not (p d)) w) (split_by p s) ≡ true
  unfolding split_by
  split_by-Avoids [] = refl
  split_by-Avoids (c ∷ s) = elim (Bool-cases (p c)) [
    | inl e ↦ rw e (split_by-Avoids s)
    | inr e ↦ rw e (add_to_first-Avoids c (split_by p s) e (split_by-Avoids s))
  ]

  pub Avoids-++ : (s t : Text) → Avoids p s → Avoids p t → Avoids p (s ++ t)
  Avoids-++ [] t h k = k
  Avoids-++ (c ∷ s) t h k = let r = Avoids-++ s t (ground arith) k in ground arith

  pub Avoids-join :
      (sep : Text) (ws : List Text)
      → Avoids p sep
      → ((v : Text) → Memᴰ v ws → Avoids p v)
      → Avoids p (join sep ws)
  Avoids-join sep [] h k = refl
  Avoids-join sep (w ∷ []) h k = k w (Memᴰ.head refl)
  Avoids-join sep (w ∷ v ∷ ws) h k =
      Avoids-++ w (sep ++ join sep (v ∷ ws)) (k w (Memᴰ.head refl)) (
        Avoids-++ sep (join sep (v ∷ ws)) h (Avoids-join sep (v ∷ ws) h (λ u m. k u (Memᴰ.tail m))))

pub trim_right-plain : (w s : Text) → Avoids is_space w → trim_right (w ++ s) ≡ w ++ trim_right s
unfolding trim_right
trim_right-plain [] s h = refl
trim_right-plain (c ∷ w) s h =
    let e : is_space c ≡ false = ground arith in
    let k : Avoids is_space w = ground arith in rw (e, trim_right-plain w s k) refl

trim_left-start : (c : ℕ) (s : Text) → is_space c ≡ false → trim_left (c ∷ s) ≡ c ∷ s
unfolding trim_left
trim_left-start c s e = rw e refl

-- A text without blanks stays as it is, and what follows it loses its end.
pub trim_space-plain :
    (w s : Text) → Avoids is_space w → is_empty w ≡ false → trim_space (w ++ s) ≡ w ++ trim_right s
unfolding trim_space
trim_space-plain [] s h k = cc
trim_space-plain (c ∷ w) s h k =
    ap trim_right (trim_left-start c (w ++ s) (no_head c w h)) ∙ trim_right-plain (c ∷ w) s h
  where
    no_head : (c : ℕ) (w : Text) → Avoids is_space (c ∷ w) → is_space c ≡ false
    no_head c w h = ground arith

pub trim_space-word : (w : Text) → Avoids is_space w → is_empty w ≡ false → trim_space w ≡ w
unfolding trim_right
trim_space-word w h k =
    ap trim_space (sym (append-nil w)) ∙ trim_space-plain w [] h k ∙ append-nil w

pub text_eq-≡ : (s t : Text) → text_eq s t ≡ true → s ≡ t
text_eq-≡ [] [] h = refl
text_eq-≡ [] (d ∷ t) h = cc
text_eq-≡ (c ∷ s) [] h = cc
text_eq-≡ (c ∷ s) (d ∷ t) h =
    let e : c ≡ d = ground arith in let q = text_eq-≡ s t (ground arith) in cc

pub is_prefix-behind : (p s : Text) → is_prefix p s ≡ true → s ≡ p ++ behind (length p) s
is_prefix-behind [] s h = refl
is_prefix-behind (c ∷ p) [] h = cc
is_prefix-behind (c ∷ p) (d ∷ s) h =
    let e : c ≡ d = ground arith in let q = is_prefix-behind p s (ground arith) in cc
