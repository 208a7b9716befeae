-- ===== src/Forward/Torch.antt =====
-- What the forward passes call of torch, on one row or one number. Matrix products, activations and
-- norms act on each row alone, and so are given by their rows. Shapes that do not agree, where torch
-- raises, are not modelled.
use llama_tov.Prelude.{ℕ, ◌<◌, ◌≡◌, List, [], ◌∷◌, ◌++◌, length}

pub record TorchOps : Type 1 where
  pub Num : Type 0
  pub from_nat : ℕ → Num
  pub add : Num → Num → Num
  pub sub : Num → Num → Num
  pub mul : Num → Num → Num
  pub div : Num → Num → Num
  pub pow : Num → Num → Num
  pub rsqrt : Num → Num
  pub cos : Num → Num
  pub sin : Num → Num
  pub silu : Num → Num
  pub gelu : Num → Num
  pub half : Num
  pub minus_half : Num
  pub neg_inf : Num
  pub mean : List Num → Num
  pub total : List Num → Num
  pub argmax : List Num → ℕ
  -- the indices and the values of the greatest entries, `torch.topk`
  pub topk : ℕ → List Num → List (ℕ × Num)
  pub softmax : List Num → List Num
  pub layer_norm : List Num → List Num → List Num → List Num
  -- a row times a matrix, given by its rows
  pub matmul : List Num → List (List Num) → List Num
  -- a row times a column
  pub dot : List Num → List Num → Num
  -- the weights of one query times the rows of the values
  pub combine : List Num → List (List Num) → List Num

-- A score of minus infinity at the end weighs nothing.
pub record MaskLaw (T : TorchOps) : Type 0 where
  pub masked :
      (scores : List T.Num) (values : List (List T.Num)) (v : List T.Num)
      → length scores ≡ length values
      → 0 < length scores
      → T.combine (T.softmax (scores ++ (T.neg_inf ∷ []))) (values ++ (v ∷ []))
        ≡ T.combine (T.softmax scores) values
