-- ===== src/Hold/Equal.antt =====
-- `guardSetEqual` decides that two maps hold the same under every key.
use safetylint.Base.{
  ℕ, suc, ◌≤◌, ◌<◌, ◌≡◌, ◌≢◌, refl, ◌↔◌, true, false, [], ◌∷◌, arith, length, Bool-cases, inl, inr,
}
use safetylint.Hold.{HoldSet, get, has, delete, agrees, guard_set_equal, IsWf}
use safetylint.Hold.Laws.{get-delete, delete-IsWf, get_missing, get_present}

module _ {K : Type 0} (dec : Discrete K) where
  delete_missing : (s : HoldSet K) (k : K) → has dec s k ≡ false → delete dec s k ≡ s
  unfolding has delete
  delete_missing [] k h = refl
  delete_missing ((i, m) ∷ s) k h = ground (arith, delete_missing s k)

  -- Deleting a key that is there shortens the map by one.
  length-delete :
      (s : HoldSet K) (k : K)
      → IsWf dec s
      → has dec s k ≡ true
      → suc (length (delete dec s k)) ≡ length s
  unfolding has delete
  length-delete [] k w h = ground arith
  length-delete ((i, m) ∷ s) k w h =
      ground (arith, length-delete s k, delete_missing s k, delete_missing s i)

  has_of_pos : (s : HoldSet K) (k : K) → 0 < get dec s k → has dec s k ≡ true
  has_of_pos s k h = ground (arith, get_missing dec s k)

  agrees-delete :
      (a b : HoldSet K) (k : K)
      → has dec a k ≡ false
      → agrees dec a b ≡ agrees dec a (delete dec b k)
  unfolding agrees has
  agrees-delete [] b k h = refl
  agrees-delete ((i, m) ∷ a) b k h = ground (arith, agrees-delete a b k, get-delete dec b k i)

  agrees-get :
      (a b : HoldSet K) (k : K)
      → agrees dec a b ≡ true
      → has dec a k ≡ true
      → get dec b k ≡ get dec a k
  unfolding agrees has get
  agrees-get [] b k h p = ground arith
  agrees-get ((i, m) ∷ a) b k h p = ground (arith, agrees-get a b k)

  -- Among maps of one length, agreement on the keys of the first is agreement on all keys.
  agrees_complete :
      (a b : HoldSet K) (k : K)
      → IsWf dec a
      → IsWf dec b
      → length b ≤ length a
      → agrees dec a b ≡ true
      → has dec a k ≡ false
      → get dec b k ≡ 0
  unfolding agrees has get
  agrees_complete [] [] k wa wb le h p = ground arith
  agrees_complete [] (x ∷ b) k wa wb le h p = absurd (omega arith)
  agrees_complete ((i, m) ∷ a) b k wa wb le h p = ground (
    arith,
    agrees_complete a (delete dec b i) k,
    delete-IsWf dec b i,
    length-delete b i,
    agrees-delete a b i,
    has_of_pos b i,
    get-delete dec b i k,
  )

  has-delete_ne : (s : HoldSet K) (k j : K) → k ≢ j → has dec (delete dec s k) j ≡ has dec s j
  unfolding has delete
  has-delete_ne [] k j h = refl
  has-delete_ne ((i, m) ∷ s) k j h = ground (arith, has-delete_ne s k j)

  -- The tail of a map has its keys among those of `b` but the head's.
  tail_keys :
      (i : K) (m : ℕ) (a b : HoldSet K)
      → has dec a i ≡ false
      → ((k : K) → has dec ((i, m) ∷ a) k ≡ true → has dec b k ≡ true)
      → (k : K) → has dec a k ≡ true
      → has dec (delete dec b i) k ≡ true
  unfolding has
  tail_keys i m a b n h k p = ground (arith, h k, has-delete_ne b i k)

  length_mono :
      (a b : HoldSet K)
      → IsWf dec a
      → IsWf dec b
      → ((k : K) → has dec a k ≡ true → has dec b k ≡ true)
      → length a ≤ length b
  length_mono [] b wa wb h = omega arith
  length_mono ((i, m) ∷ a) b wa wb h = omega (
    arith,
    length-delete b i wb (h i (has_head i m a)),
    length_mono a (delete dec b i) wa.2 (delete-IsWf dec b i wb) (tail_keys i m a b wa.0 h),
  )
    where
      has_head : (i : K) (m : ℕ) (a : HoldSet K) → has dec ((i, m) ∷ a) i ≡ true
      has_head i m a = unfold has in ground arith

  agrees_all :
      (a b : HoldSet K)
      → IsWf dec a
      → ((k : K) → has dec a k ≡ true → get dec a k ≡ get dec b k)
      → agrees dec a b ≡ true
  unfolding agrees get has
  agrees_all [] b w h = refl
  agrees_all ((i, m) ∷ a) b w h =
      ground (arith, h i, agrees_all a b w.2 (λ k p. ground (arith, h k)))

  -- `guardSetEqual` answers true only on maps that read alike under every key.
  pub equal_sound :
      (a b : HoldSet K)
      → IsWf dec a
      → IsWf dec b
      → guard_set_equal dec a b ≡ true
      → (k : K) → get dec a k ≡ get dec b k
  unfolding guard_set_equal
  equal_sound a b wa wb h k = elim (Bool-cases (has dec a k)) [
    | inl p ↦ ground (arith, agrees-get a b k)
    | inr p ↦ ground (arith, agrees_complete a b k, get_missing dec a k)
  ]

  has_iff : (s : HoldSet K) (k : K) → IsWf dec s → (has dec s k ≡ true) ↔ (0 < get dec s k)
  has_iff s k w = (get_present dec s k w, has_of_pos s k)

  pub equal_complete :
      (a b : HoldSet K)
      → IsWf dec a
      → IsWf dec b
      → ((k : K) → get dec a k ≡ get dec b k)
      → guard_set_equal dec a b ≡ true
  unfolding guard_set_equal
  equal_complete a b wa wb h =
      let same = agrees_all a b wa (λ k p. h k) in
      let le = length_mono a b wa wb (λ k p. ground (arith, h k, has_iff a k wa, has_iff b k wb)) in
      let ge = length_mono b a wb wa (λ k p. ground (arith, h k, has_iff a k wa, has_iff b k wb)) in
      ground arith

-- guardSetEqual answers true exactly on the well-formed maps that read alike under every key.
pub guard_set_equal_iff :
    {K : Type 0} (dec : Discrete K) (a b : HoldSet K)
    → IsWf dec a
    → IsWf dec b
    → (guard_set_equal dec a b ≡ true) ↔ ((k : K) → get dec a k ≡ get dec b k)
guard_set_equal_iff dec a b wa wb = (equal_sound dec a b wa wb, equal_complete dec a b wa wb)
