-- ===== src/Forward/Run.antt =====
-- `run` of bpd/llamatov_run.py: the rows of the tokens, the layers, the output norm and the choice of
-- a token. A negative token id, which torch would count from the end, is not modelled. Without any token
-- the exception is the IndexError of the last row; where an architecture has rotations, Python raises
-- RuntimeError before it, from `view(B, T, -1)` on no rows, which is not told apart here.
use llama_tov.Prelude.{
  ℕ, zero, suc, Bool, true, false, Option, none, some, List, [], ◌∷◌, map, ltb, ◌==◌, if◌then◌else◌,
  length, get_or, tabulate, Result, ◌>>=◌, index_error, ok, err,
}
use llama_tov.Forward.Torch.{TorchOps}
use llama_tov.Forward.Rows.{Row, rms_norm}
use llama_tov.Forward.Weights.{Arch, gemma, gemma2, need, or_else, Weights, Config}
use llama_tov.Forward.Layers.{causal_layer, plus}
use llama_tov.Forward.Fused.{layer_fns}

module _ (T : TorchOps) where
  open T use {Num, from_nat, add, mul, pow, half, argmax, layer_norm, matmul}

  -- `shape[-1]`
  abbrev pub last_dim : List (Row T) → ℕ
  last_dim [] = 0
  last_dim (r ∷ rs) = length r

  abbrev pub column : List (Row T) → ℕ → Row T
  column m i = map (λ r. get_or r i (from_nat 0)) m

  abbrev pub transpose : List (Row T) → List (Row T)
  transpose m = tabulate (last_dim m) (column m)

  -- emb.T[tok] if emb.shape[0] < emb.shape[1] else emb[tok]
  unfoldable pub embed_row : List (Row T) → ℕ → Result (Row T)
  embed_row emb tok =
      if ltb (length emb) (last_dim emb)
      then if ltb tok (last_dim emb) then ok (column emb tok) else err index_error
      else if ltb tok (length emb)
      then ok (get_or emb tok [])
      else err index_error

  abbrev pub is_gemma : Arch → Bool
  is_gemma gemma = true
  is_gemma gemma2 = true
  is_gemma _ = false

  module _ (w : Weights T) (cfg : Config T) where
    -- x * (cfg['n_embd'] ** 0.5), for gemma
    abbrev pub scale_embedding : Row T → Row T
    scale_embedding x =
        if is_gemma cfg.arch then map (λ v. mul v (pow (from_nat cfg.n_embd) half)) x else x

    abbrev pub add_position : Option (List (Row T)) → ℕ → Row T → Result (Row T)
    add_position none p x = ok x
    add_position (some pe) p x = do r ← embed_row pe p; ok (plus T x r)

    -- the row of one token at one position
    unfoldable pub embed_token : ℕ → ℕ → Result (Row T)
    unfolding embed_row
    embed_token p tok = do
      emb ← need w.token_embd
      x ← embed_row emb tok
      x' ← add_position w.position_embd p x
      ok (scale_embedding x')

    -- the rows of tokens at the positions from `p` on
    abbrev pub embed_from : ℕ → List ℕ → Result (List (Row T))
    embed_from p [] = ok []
    embed_from p (t ∷ ts) = do x ← embed_token p t; xs ← embed_from (suc p) ts; ok (x ∷ xs)

    -- the layers from `il` on, `n` of them
    abbrev pub run_layers : ℕ → ℕ → List (Row T) → Result (List (Row T))
    run_layers zero il xs = ok xs
    run_layers (suc n) il xs = do
      f ← layer_fns T w il cfg cfg.arch
      run_layers n (suc il) (causal_layer T f xs)

    -- the output norm, where the model has one
    unfoldable pub output_norm_row : Row T → Row T
    output_norm_row x = elim w.output_norm [
      | none ↦ x
      | some n ↦ elim w.output_norm_bias [
        | some b ↦ layer_norm x n b
        | none ↦ rms_norm T x n cfg.norm_eps
      ]
    ]

    -- the logits of a row: `lm` may be stored either way round
    unfoldable pub logits : List (Row T) → Row T → Row T
    logits lm x = if last_dim lm == cfg.n_embd then matmul x (transpose lm) else matmul x lm

    -- `[0, -1]` of no row
    abbrev pub last_row : List (Row T) → Result (Row T)
    last_row [] = err index_error
    last_row (x ∷ []) = ok x
    last_row (x ∷ y ∷ xs) = last_row (y ∷ xs)

    -- the token that the last row gives
    unfoldable pub pick_token : List (Row T) → Result ℕ
    unfolding output_norm_row logits
    pick_token xs = do
      lm ← need (or_else w.output w.token_embd)
      x ← last_row xs
      ok (argmax (logits lm (output_norm_row x)))

    unfoldable pub run : List ℕ → Result ℕ
    unfolding pick_token
    run input_ids = do xs ← embed_from 0 input_ids; ys ← run_layers cfg.n_layers 0 xs; pick_token ys
