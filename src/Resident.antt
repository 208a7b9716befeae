-- ===== src/Resident.antt =====
-- The device-resident forward pass and its CUDA graph: `forward_pass_resident` and `GraphRunner` of
-- bpd/lib/dev_residency.py. An activation is the list of its floats.
pub mod Kernels
pub mod Settings
pub mod Quantize
pub mod Attention
pub mod MaskedAttention
pub mod Reduce
pub mod QuantizeAgree
pub mod Linear
pub mod Layer
pub mod Plain
pub mod LinearAgree
pub mod RopeAgree
pub mod FinishAgree
pub mod ProjectAgree
pub mod LayerAgree
pub mod Forward
pub mod ForwardAgree
pub mod Graph
pub mod WeightKeys
pub mod GraphAgree
pub mod Consts
pub mod Argmax
pub mod Sweeps
pub mod ArgmaxAgree
pub mod ReplayToken
mod Tests
