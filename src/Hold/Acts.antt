-- ===== src/Hold/Acts.antt =====
-- Operations on hold sets that act on the mode of each key by itself, monotonically. The analysis is
-- built of these, so its steps keep the order of hold sets.
use safetylint.Base.{ℕ, ◌≤◌, ◌<◌, max, ◌≡◌, refl, ap, ◌∙◌, arith, Bool, decides, if◌then◌else◌}
use safetylint.Hold.{
  HoldSet, get, put, delete, delete_if, clone_guard_set, strengthen_hold, IsWf, AtMost, hold_write,
}
use safetylint.Hold.Laws.{
  get-put, put-IsWf, get-delete, delete-IsWf, get-delete_if, delete_if-IsWf, get-clone, clone-IsWf,
  get-strengthen, strengthen-IsWf,
}

module _ {K : Type 0} (dec : Discrete K) where
  pub record Acts (f : HoldSet K → HoldSet K) : Type 0 where
    pub mode : K → ℕ → ℕ
    pub grows : (k : K) (m n : ℕ) → m ≤ n → mode k m ≤ mode k n
    pub capped : (k : K) (m : ℕ) → m ≤ hold_write → mode k m ≤ hold_write
    pub reads : (h : HoldSet K) (k : K) → IsWf dec h → get dec (f h) k ≡ mode k (get dec h k)
    pub keeps : (h : HoldSet K) → IsWf dec h → IsWf dec (f h)

  pub Acts-self : Acts (λ h. h)
  Acts-self = record {
    mode = λ k m. m;
    grows = λ k m n h. h;
    capped = λ k m h. h;
    reads = λ h k w. refl;
    keeps = λ h w. w;
  }

  pub Acts-then : (f g : HoldSet K → HoldSet K) → Acts f → Acts g → Acts (λ h. g (f h))
  Acts-then f g a b = record {
    mode = λ k m. b.mode k (a.mode k m);
    grows = λ k m n h. b.grows k _ _ (a.grows k m n h);
    capped = λ k m h. b.capped k _ (a.capped k m h);
    reads = λ h k w. b.reads (f h) k (a.keeps h w) ∙ ap (b.mode k) (a.reads h k w);
    keeps = λ h w. b.keeps (f h) (a.keeps h w);
  }

  pub Acts-clone : Acts (clone_guard_set dec)
  Acts-clone = record {
    mode = λ k m. m;
    grows = λ k m n h. h;
    capped = λ k m h. h;
    reads = get-clone dec;
    keeps = clone-IsWf dec;
  }

  module _ (g : K) (v : ℕ) (pos : 0 < v) (cap : v ≤ hold_write) where
    pub Acts-put : Acts (λ h. put dec h g v)
    Acts-put = record {
      mode = λ k m. if decides (dec g k) then v else m;
      grows = λ k m n h. ground arith;
      capped = λ k m h. ground arith;
      reads = λ h k w. get-put dec h g k v;
      keeps = λ h w. put-IsWf dec h g v pos w;
    }

    pub Acts-strengthen : Acts (λ h. strengthen_hold dec h g v)
    Acts-strengthen = record {
      mode = λ k m. if decides (dec g k) then max v m else m;
      grows = λ k m n h. ground arith;
      capped = λ k m h. ground arith;
      reads = λ h k w. get-strengthen dec h g k v;
      keeps = λ h w. strengthen-IsWf dec h g v pos w;
    }

  pub Acts-delete : (g : K) → Acts (λ h. delete dec h g)
  Acts-delete g = record {
    mode = λ k m. if decides (dec g k) then 0 else m;
    grows = λ k m n h. ground arith;
    capped = λ k m h. ground arith;
    reads = λ h k w. get-delete dec h g k;
    keeps = λ h w. delete-IsWf dec h g w;
  }

  pub Acts-delete_if : (dead : K → Bool) → Acts (delete_if dec dead)
  Acts-delete_if dead = record {
    mode = λ k m. if dead k then 0 else m;
    grows = λ k m n h. ground arith;
    capped = λ k m h. ground arith;
    reads = λ h k w. get-delete_if dec dead h k;
    keeps = λ h w. delete_if-IsWf dec dead h w;
  }

  -- An operation that acts key by key keeps the order of well-formed maps.
  pub Acts-monotone :
      (f : HoldSet K → HoldSet K)
      → Acts f
      → (a b : HoldSet K) → IsWf dec a
      → IsWf dec b
      → AtMost dec a b
      → AtMost dec (f a) (f b)
  Acts-monotone f x a b wa wb h k =
      omega (arith, x.reads a k wa, x.reads b k wb, x.grows k _ _ (h k))
