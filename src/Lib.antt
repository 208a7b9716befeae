-- ===== src/Lib.antt =====
-- LlamaTov: a verification library of the parts of the Python code that decide what numbers a model
-- sees.
--
-- The program reads a GGUF file (bpd/llamatov_run.py): `parse_gguf` reads the header, the metadata and
-- the tensor table, `lt` loads one tensor, and the `dq*` functions decode its quantized blocks.
--
-- Prelude: lists, bits, signed integers, results, and lanes: a vectorised numpy expression of n
--   lanes is `tabulate n` of its lane expression, and a loop over blocks is `rounds`.
-- Quant: the decoders. Quant/Floats is the interface of the float arithmetic, which is a
--   parameter: numpy's float32. Quant/Simple has the blocks of 32 (`dq4_0`, `dq5_0`, `dq8_0`),
--   Quant/SuperBlock those of 256 (`dq2k`, `dq3k`, `dq4k`, `dq5k`, `dq6k`), Quant/Load the reads, the
--   reshapes and `lt`. The Packing modules write a block as ggml's format lays it out, from the codes.
-- Gguf: the container. Gguf/Stream is the file that is read from front to back, Gguf/Value is `rv`,
--   Gguf/Parse is `parse_gguf`. Gguf/Header is the separate header reader
--   (bpd-substrate/file-formats/gguf/output/gguf_reader.py).
--
-- Bpe: the tokenizer (bpd/lib/qwen_bpe.py). Bpe itself has `bytes_to_unicode`, `_bpe`, `encode` and
--   `decode`; Bpe/ByteMap, Bpe/Merge and Bpe/RoundTrip prove. The merge loop runs on fuel, one unit
--   more than the word has characters, and each round makes the word shorter by one.
--
-- Residency: device memory (bpd/lib/dev_residency.py). Residency/Slab is `_SlabArena`,
--   Residency/KvCache is `append` and the host slices of `DeviceKVCache`,
--   Residency/Profile the production profile and its gate.
--   Residency/DevLength has the appends that run on the device, with their kernels, whose threads run
--   in any order; Residency/DevAppend and Residency/DevReplay prove. The buffers are the rows that are
--   allocated, `max_seq` of them; the source does not check the length, and what an append past the last row
--   writes to is not modelled there (Residency/KvCache has it for the host's `append`). An address is a number; the
--   address that `cuMemAlloc` gives is an argument, and device memory a map from addresses to bytes.
--
-- Unroll: the detection of unrolled loops in assembly (bpd/tools/asm_unroll.py): the shapes of
--   operands, the fingerprints of instructions and `detect_unroll`; Unroll/Greatest proves, with Unroll/Sound
--   and Unroll/Copies.
--   Unroll/Segment is `detect_unroll_segment`; Unroll/SegmentLoops, Unroll/Reflexive, Unroll/TryPeriod
--   and Unroll/BestSegment prove.
--
-- Prolog: goals as trees and their text (bpd/lib/prolog_goal.py); Prolog/Pieces and Prolog/Quoting prove.
--
-- Quant/Legacy: the older decoders (bpd/lib/llamatov_helpers.py), which Quant/LegacyAgree compares with
--   those of bpd/llamatov_run.py.
--
-- Forward: the forward passes of bpd/llamatov_run.py. Forward/Torch has what they call of torch as a
--   record of operations on numbers and rows; MaskLaw is the one law that is assumed of it, that a
--   score of minus infinity at the end weighs nothing. A tensor of activations is the list of its
--   rows: every operation but attention acts on each row alone. Forward/Rows has `rms_norm`,
--   `apply_rope` and attention, Forward/Weights the dictionaries `w` and `cfg`, Forward/Layers and
--   Forward/Fused the layers of `LAYER_FN`, Forward/Run `run`, and Forward/Generate the layer, the
--   caches and the loop of `generate`. Forward/Causal, Forward/Prefix and Forward/Architectures prove
--   what attention and the layers do with one row more; Forward/Cached, Forward/Decode, Forward/Loop,
--   Forward/Agree, Forward/Iterate and Forward/Total go from there to the whole loop. Shapes that do
--   not agree and negative token ids are not modelled; `cfg` and `w` are given, not read from a file.
--
-- Resident: the device-resident forward pass and its CUDA graph (bpd/lib/dev_residency.py), on its path with
--   attention and cache on the device. Resident/Kernels is the float arithmetic and the kernels that are emitted
--   from facts, as parameters; Resident/Settings the flags; Resident/Quantize and Resident/Attention the kernels
--   that the file holds as text; Resident/Linear the products `q8_linear_dev`, `q8_linear_add_residual_dev` and
--   `q8_linear_dev_bias`; Resident/Layer a layer of `forward_pass_resident`; Resident/Forward the pass; Resident/Graph
--   `GraphRunner`. Resident/Plain is the layer with one kernel for each operation,
--   in the modes of product, norm and quantization that the flags choose, and what the emitters state of the
--   fused kernels: each against the two kernels that it replaces, and nothing of a tiled product against a
--   serial one or of the two norms, which differ in rounding; with it Resident/LinearAgree,
--   RopeAgree, ProjectAgree, FinishAgree, LayerAgree and ForwardAgree compare it. What a pointer of `_dev_const`
--   holds is an argument, `held`; Resident/Consts is `_dev_const` itself. A loop of a kernel has its bound as fuel, which every stride of at least one
--   reaches. Not modelled: buffers that overlap, a cache longer than its memory, the bisection with host operations,
--   and the path with attention on the host.
--
-- Resident/Argmax is the two argmax kernels, `argmax_dev` and `replay_token` (bpd/lib/dev_residency.py), with
--   Resident/Sweeps, Resident/ArgmaxAgree and Resident/ReplayToken for the proofs. The comparisons of floats are parameters.
-- Gguf/Query is `parse_gguf` of the header reader and the command bpd-substrate/file-formats/gguf/ggufq.py; Gguf/QueryWritten proves.
--
-- Asm: assembly text and chains of instructions (bpd/tools/asm_pcode.py). Asm/Numbers is Python's strip, hex,
--   str and int; Asm/Operand `parse_operand` and `emit_operand`; Asm/Lift `lift_from_text`; Asm/Chain `emit`,
--   `to_prolog` and the mode `roundtrip`. Asm/HexText, Runs, Closed, MemText, RoundTrip, Relift and EmitSplit are the proofs. A digit
--   printer has the number and one more as fuel, which is more than its digits. Not modelled: `lift`, which runs objdump.
--
-- Files are lists of bytes. Python's exceptions are the constructors of `Error`. `rv` runs on fuel, a
-- unit for each level of nested arrays; each level takes twelve bytes of the file, and `parse_gguf`
-- gives one unit more than the file has bytes; Python's own limit on recursion is not modelled. UTF-8 validity is a parameter. A length field beyond
-- the memory of the machine, where Python's `read` raises, reads to the end of the file here.
--
-- Not modelled: the arithmetic of torch and numpy, and with it the CPU references and the studies of
-- quantization, which are formulas on float arrays; the sources in CUDA outside the Python texts and
-- those in Prolog; bpd/lib/kernel_emit_bridge.py and fact_dispatch.py, which pass on what a Prolog process
-- and the CUDA driver answer; the drivers that compile, run and time kernels (KernelBench, the referees,
-- the sweeps), whose results come from a GPU; the generator of the header reader, which prints text; the other
-- reports on assembly in bpd/tools, which count names of instructions; and
-- the copies of bpd/ under bpd-substrate, of which the originals are modelled.
pub mod Prelude
pub mod Quant
pub mod Gguf
pub mod Bpe
pub mod Residency
pub mod Unroll
pub mod Prolog
pub mod Forward
pub mod Resident
pub mod Asm
