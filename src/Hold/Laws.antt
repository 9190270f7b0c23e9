-- ===== src/Hold/Laws.antt =====
-- What each operation on a hold set does to the mode that is read under every key, and that each
-- keeps the map well formed.
use safetylint.Base.{
  ℕ, ◌<◌, min, max, ◌≡◌, refl, Bool, true, false, [], ◌∷◌, arith, if◌then◌else◌, decides,
}
use safetylint.Hold.{
  HoldSet, get, has, put, delete, delete_if, clone_guard_set, intersect_guards, strengthen_hold,
  weaker, IsWf,
}

module _ {K : Type 0} (dec : Discrete K) where
  pub get-put :
      (s : HoldSet K) (k j : K) (v : ℕ)
      → get dec (put dec s k v) j ≡ (if decides (dec k j) then v else get dec s j)
  unfolding get put
  get-put [] k j v = refl
  get-put ((i, m) ∷ s) k j v = ground (arith, get-put s k j v)

  pub get_missing : (s : HoldSet K) (k : K) → has dec s k ≡ false → get dec s k ≡ 0
  unfolding get has
  get_missing [] k h = refl
  get_missing ((i, m) ∷ s) k h = ground (arith, get_missing s k)

  pub get_present : (s : HoldSet K) (k : K) → IsWf dec s → has dec s k ≡ true → 0 < get dec s k
  unfolding get has
  get_present [] k w h = ground arith
  get_present ((i, m) ∷ s) k w h = ground (arith, get_present s k)

  pub has-put :
      (s : HoldSet K) (k j : K) (v : ℕ)
      → has dec (put dec s k v) j ≡ (if decides (dec k j) then true else has dec s j)
  unfolding has put
  has-put [] k j v = refl
  has-put ((i, m) ∷ s) k j v = ground (arith, has-put s k j v)

  pub put-IsWf : (s : HoldSet K) (k : K) (v : ℕ) → 0 < v → IsWf dec s → IsWf dec (put dec s k v)
  unfolding put has
  put-IsWf [] k v p w = ground arith
  put-IsWf ((i, m) ∷ s) k v p w = ground (arith, put-IsWf s k v, has-put s k i v)

  pub get-delete :
      (s : HoldSet K) (k j : K)
      → get dec (delete dec s k) j ≡ (if decides (dec k j) then 0 else get dec s j)
  unfolding get delete
  get-delete [] k j = ground arith
  get-delete ((i, m) ∷ s) k j = ground (arith, get-delete s k j)

  pub get-delete_if :
      (dead : K → Bool) (s : HoldSet K) (j : K)
      → get dec (delete_if dec dead s) j ≡ (if dead j then 0 else get dec s j)
  unfolding get delete_if
  get-delete_if dead [] j = ground arith
  get-delete_if dead ((i, m) ∷ s) j = ground (arith, get-delete_if dead s j)

  pub get-clone :
      (s : HoldSet K) (j : K) → IsWf dec s → get dec (clone_guard_set dec s) j ≡ get dec s j
  unfolding get clone_guard_set
  get-clone [] j w = refl
  get-clone ((i, m) ∷ s) j w = ground (arith, get-clone s j)

  pub get-strengthen :
      (s : HoldSet K) (k j : K) (v : ℕ)
      → get dec (strengthen_hold dec s k v) j
        ≡ (if decides (dec k j) then max v (get dec s j) else get dec s j)
  unfolding strengthen_hold
  get-strengthen s k j v = ground (arith, get-put s k j v, get_missing s k)

  has-intersect :
      (a b : HoldSet K) (k : K) → has dec a k ≡ false → has dec (intersect_guards dec a b) k ≡ false
  unfolding has intersect_guards
  has-intersect [] b k h = refl
  has-intersect ((i, m) ∷ a) b k h = ground (arith, has-intersect a b k)

  -- An intersection with a well-formed first map reads the weaker of the two modes under every
  -- key.
  pub get-intersect :
      (a b : HoldSet K) (j : K)
      → IsWf dec a
      → get dec (intersect_guards dec a b) j ≡ min (get dec a j) (get dec b j)
  unfolding get intersect_guards weaker
  get-intersect [] b j w = omega arith
  get-intersect ((i, m) ∷ a) b j w = ground (
    arith,
    get-intersect a b j,
    get_missing b i,
    get_missing (intersect_guards dec a b) j,
    has-intersect a b i,
    get_missing a i,
  )

  pub intersect-IsWf : (a b : HoldSet K) → IsWf dec a → IsWf dec (intersect_guards dec a b)
  unfolding intersect_guards
  intersect-IsWf [] b w = tt
  intersect-IsWf ((i, m) ∷ a) b w = ground (arith, intersect-IsWf a b, has-intersect a b i)

  has-delete : (s : HoldSet K) (k j : K) → has dec s j ≡ false → has dec (delete dec s k) j ≡ false
  unfolding has delete
  has-delete [] k j h = refl
  has-delete ((i, m) ∷ s) k j h = ground (arith, has-delete s k j)

  pub delete-IsWf : (s : HoldSet K) (k : K) → IsWf dec s → IsWf dec (delete dec s k)
  unfolding delete
  delete-IsWf [] k w = tt
  delete-IsWf ((i, m) ∷ s) k w = ground (arith, delete-IsWf s k, has-delete s k i)

  has-delete_if :
      (dead : K → Bool) (s : HoldSet K) (j : K)
      → has dec s j ≡ false
      → has dec (delete_if dec dead s) j ≡ false
  unfolding has delete_if
  has-delete_if dead [] j h = refl
  has-delete_if dead ((i, m) ∷ s) j h = ground (arith, has-delete_if dead s j)

  pub delete_if-IsWf :
      (dead : K → Bool) (s : HoldSet K) → IsWf dec s → IsWf dec (delete_if dec dead s)
  unfolding delete_if
  delete_if-IsWf dead [] w = tt
  delete_if-IsWf dead ((i, m) ∷ s) w = ground (arith, delete_if-IsWf dead s, has-delete_if dead s i)

  has-clone :
      (s : HoldSet K) (j : K) → has dec s j ≡ false → has dec (clone_guard_set dec s) j ≡ false
  unfolding has clone_guard_set
  has-clone [] j h = refl
  has-clone ((i, m) ∷ s) j h = ground (arith, has-clone s j)

  pub clone-IsWf : (s : HoldSet K) → IsWf dec s → IsWf dec (clone_guard_set dec s)
  unfolding clone_guard_set
  clone-IsWf [] w = tt
  clone-IsWf ((i, m) ∷ s) w = ground (arith, clone-IsWf s, has-clone s i)

  pub strengthen-IsWf :
      (s : HoldSet K) (k : K) (v : ℕ) → 0 < v → IsWf dec s → IsWf dec (strengthen_hold dec s k v)
  unfolding strengthen_hold
  strengthen-IsWf s k v p w = ground (arith, put-IsWf s k v)
