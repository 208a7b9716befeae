-- ===== src/Forward.antt =====
-- The forward passes and the generation of bpd/llamatov_run.py. There is one batch, so a tensor of
-- activations is its list of rows, one for each token.
pub mod Torch
pub mod Rows
pub mod Weights
pub mod Layers
pub mod Fused
pub mod Run
pub mod Generate
pub mod Causal
pub mod Prefix
pub mod Architectures
pub mod Cached
pub mod Decode
pub mod Loop
pub mod Agree
pub mod Iterate
pub mod Total
mod Tests
