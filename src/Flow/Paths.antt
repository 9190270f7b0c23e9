-- ===== src/Flow/Paths.antt =====
-- What stable tables say of every path through the blocks: no entry of them claims more than what
-- holds when control arrives by the path.
use safetylint.Base.{List, Memᴰ}

module _ {B X : Type 0} (bs : List B) (preds : B → List B) (run : B → X → X) (edge : B → B → X → X)
    (b₀ : B) (x₀ : X) where
  -- Control reaches the start of a block along the edges, with what holds there.
  pub data Reach : B → X → Type 0 where
    start : Reach b₀ x₀
    step :
        {p : B} {x : X} (b : B)
        → Reach p x
        → Memᴰ p bs
        → Memᴰ b bs
        → Memᴰ p (preds b)
        → Reach b (edge p b (run p x))

  module _ (Below : X → X → Type 0) (ins outs : B → X)
      (after : (x y z : X) → Below x y → Below y z → Below x z) (at_start : Below (ins b₀) x₀)
      (at_edge : (p b : B) → Memᴰ b bs → Memᴰ p (preds b) → Below (ins b) (edge p b (outs p)))
      (at_end : (p : B) → Memᴰ p bs → Below (outs p) (run p (ins p)))
      (run_mono : (p : B) (x y : X) → Below x y → Below (run p x) (run p y))
      (edge_mono : (p b : B) (x y : X) → Below x y → Below (edge p b x) (edge p b y)) where
    -- At the start of a block the tables claim no more than what holds along any path to it.
    pub Reach-Below : {b : B} {x : X} → Reach b x → Below (ins b) x
    Reach-Below start = at_start
    Reach-Below (step {p} {x} b r mp mb e) =
        after _ _ _ (at_edge p b mb e)
          (edge_mono p b _ _ (after _ _ _ (at_end p mp) (run_mono p _ _ (Reach-Below r))))
