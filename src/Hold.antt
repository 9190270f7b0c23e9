-- ===== src/Hold.antt =====
-- The must-held guards at a program point: `holdSet`, a Go map from guards to modes, and its
-- operations (internal/nosharing/mutexguard.go). A map is an association list, and a mode is a
-- number: a key that is missing reads as mode 0, as a Go map's does.
pub mod Laws
pub mod Equal
pub mod Acts
pub mod Refine
use safetylint.Base.{
  ℕ, zero, suc, ◌≤◌, ◌<◌, ◌≡◌, Bool, true, false, not, ◌&&◌, ◌||◌, List, [], ◌∷◌, ltb, leb, ◌==◌,
  if◌then◌else◌, decides, length, reject,
}

-- `holdMode`
abbrev pub hold_read : ℕ
hold_read = 1

abbrev pub hold_write : ℕ
hold_write = 2

-- A mode protects a write only when it is exclusive; a read of RWMutex data needs either mode.
unfoldable pub mode_ok : ℕ → Bool → Bool → Bool
mode_ok mode write rw =
    if write
    then mode == hold_write
    else if rw
    then mode == hold_read || mode == hold_write
    else mode == hold_write

-- The smaller of two modes, by the comparison of `intersectGuards`.
unfoldable pub weaker : ℕ → ℕ → ℕ
weaker am bm = if ltb bm am then bm else am

abbrev pub HoldSet : Type 0 → Type 0
HoldSet K = List (K × ℕ)

module _ {K : Type 0} (dec : Discrete K) where
  -- `m[k]`
  unfoldable pub get : HoldSet K → K → ℕ
  get [] k = 0
  get ((j, m) ∷ s) k = if decides (dec j k) then m else get s k

  -- `_, ok := m[k]`
  unfoldable pub has : HoldSet K → K → Bool
  has [] k = false
  has ((j, m) ∷ s) k = if decides (dec j k) then true else has s k

  -- `m[k] = v`
  unfoldable pub put : HoldSet K → K → ℕ → HoldSet K
  put [] k v = (k, v) ∷ []
  put ((j, m) ∷ s) k v = if decides (dec j k) then (k, v) ∷ s else (j, m) ∷ put s k v

  -- `delete(m, k)`
  unfoldable pub delete : HoldSet K → K → HoldSet K
  delete [] k = []
  delete ((j, m) ∷ s) k = if decides (dec j k) then delete s k else (j, m) ∷ delete s k

  -- `for g := range held { if dead(g) { delete(held, g) } }`
  unfoldable pub delete_if : (K → Bool) → HoldSet K → HoldSet K
  delete_if dead [] = []
  delete_if dead ((j, m) ∷ s) = if dead j then delete_if dead s else (j, m) ∷ delete_if dead s

  unfoldable pub clone_guard_set : HoldSet K → HoldSet K
  clone_guard_set [] = []
  clone_guard_set ((j, m) ∷ s) = if m == 0 then clone_guard_set s else (j, m) ∷ clone_guard_set s

  unfoldable pub intersect_guards : HoldSet K → HoldSet K → HoldSet K
  intersect_guards [] b = []
  intersect_guards ((k, am) ∷ a) b =
      if has b k && not (weaker am (get b k) == 0)
      then (k, weaker am (get b k)) ∷ intersect_guards a b
      else intersect_guards a b

  -- the loop of `guardSetEqual`
  unfoldable pub agrees : HoldSet K → HoldSet K → Bool
  agrees [] b = true
  agrees ((k, am) ∷ a) b = if get b k == am then agrees a b else false

  unfoldable pub guard_set_equal : HoldSet K → HoldSet K → Bool
  guard_set_equal a b = if length a == length b then agrees a b else false

  unfoldable pub strengthen_hold : HoldSet K → K → ℕ → HoldSet K
  strengthen_hold held g mode =
      if has held g && leb mode (get held g) then held else put held g mode

  -- What the analysis keeps of every map: no key twice, and no key under the mode 0.
  abbrev pub IsWf : HoldSet K → Type 0
  IsWf [] = Unit {0}
  IsWf ((k, m) ∷ s) = (has s k ≡ false) × (0 < m) × IsWf s

  -- `a` claims no more than `b`.
  abbrev pub AtMost : HoldSet K → HoldSet K → Type 0
  AtMost a b = (k : K) → get a k ≤ get b k
