-- ===== src/Quant.antt =====
-- Dequantisation of GGUF tensors: bpd/llamatov_run.py (`dq4_0` ... `dq6k`, `lt`), and the older
-- decoders of bpd/lib/llamatov_helpers.py.
pub mod Floats
pub mod Simple
pub mod SuperBlock
pub mod Load
pub mod Legacy
pub mod LegacyAgree
mod Tests
