-- ===== src/Resident/Graph.antt =====
-- `GraphRunner` of bpd/lib/dev_residency.py: `seed`, `capture`, `replay_logits` and the check of the weight
-- caches. A captured graph is the sequence of the layers' device parts with the weights that they were
-- recorded with. The keys of the three weight caches are one list. What CUDA answers to an allocation
-- during capture is an invalid capture.
use llama_tov.Prelude.{
  ℕ, suc, ◌+◌, ◌*◌, ◌/◌, Bool, true, false, not, ◌&&◌, ◌||◌, Option, none, some, List, [], ◌∷◌, ltb,
  leb, ◌==◌, if◌then◌else◌, Result, guard, ◌>>=◌, assertion_error, runtime_error, ok, err,
}
use llama_tov.Residency.DevLength.{Device}
use llama_tov.Residency.Profile.{Globals, assert_certified_composition}
use llama_tov.Resident.Kernels.{Kernels}
use llama_tov.Resident.Settings.{Settings, settings_of}
use llama_tov.Resident.Quantize.{Floats}
use llama_tov.Resident.Layer.{Tensors, Config, Block, Cache, read_block, graph_layer}
use llama_tov.Resident.Forward.{embed, read_head, head_logits, forward_token}

-- whether a key is in a weight cache, and the cache after the weights with these keys were read
abbrev pub has_key : ℕ → List ℕ → Bool
has_key k [] = false
has_key k (j ∷ js) = k == j || has_key k js

abbrev pub warmed : List ℕ → List ℕ → List ℕ
warmed [] cache = cache
warmed (k ∷ ks) cache = warmed ks (if has_key k cache then cache else k ∷ cache)

-- `cur - snap` is empty
abbrev pub no_growth : List ℕ → List ℕ → Bool
no_growth snap [] = true
no_growth snap (k ∷ ks) = has_key k snap && no_growth snap ks

-- `_assert_weight_cache_frozen`
unfoldable pub assert_weight_cache_frozen : Option (List ℕ) → List ℕ → Result (Unit {0})
assert_weight_cache_frozen none now = ok tt
assert_weight_cache_frozen (some snap) now = guard (no_growth snap now) runtime_error

module _ (K : Kernels) where
  open K use {Num}

  pub record Graph : Type 0 where
    pub blocks : List (Block K)
    pub head : Option (Floats K × List (Floats K))

  -- the runner with the caches of its layers, and the weight caches of the module
  pub record Runner : Type 0 where
    pub kv : List (Option (Cache K))
    pub captured : Option Graph
    pub frozen : Option (List ℕ)
    pub weight_keys : List ℕ

  -- with _QFUSED: `maxK`, from `n_embd`, `n_ffn` and the shapes of the projections
  abbrev pub largest_input : ℕ → List (ℕ × ℕ) → ℕ
  largest_input k [] = k
  largest_input k ((m, n) ∷ shapes) =
      let least = if ltb m n then m else n in
      largest_input (if ltb k least then least else k) shapes

  abbrev pub shmem_max : ℕ → ℕ → List (ℕ × ℕ) → ℕ
  shmem_max n_embd n_ffn shapes =
      let ffn = largest_input n_ffn shapes in
      let k = if ltb n_embd ffn then ffn else n_embd in k + k / 32 * 2

  -- a graph's layers on the device: `cuGraphLaunch` up to the last residual
  abbrev pub run_graph :
      Settings
      → (Floats K → Floats K)
      → Config K
      → List (Block K)
      → Floats K
      → List (Option (Cache K))
      → Floats K × List (Option (Cache K))
  run_graph s held cfg (b ∷ bs) x (some c ∷ cs) =
      let out = graph_layer K s held cfg b x c.dev in
      let rest = run_graph s held cfg bs out.0 cs in
      (rest.0, some (record { dev = out.1; length_host = c.length_host }) ∷ rest.1)
  run_graph s held cfg _ x cs = (x, cs)

  -- the flags, the weights' pointers, the weights, the configuration, and the keys and the shapes of the
  -- weights that a forward pass reads
  module _ (gate rms_quant_fused : Bool) (g : Globals) (held : Floats K → Floats K) (w : Tensors K)
      (cfg : Config K) (fresh : Device Num) (keys : List ℕ) (n_ffn : ℕ)
      (shapes : List (ℕ × ℕ)) where
    abbrev pub flags : Settings
    flags = settings_of rms_quant_fused g

    -- `seed`: the guards, an eager pass and the snapshot
    unfoldable pub seed : ℕ → ℕ → Runner → Result (Floats K × Runner)
    seed tok pos r = do
      _ ← guard flags.graph_prep assertion_error
      _ ← assert_certified_composition gate g
      _ ← guard g.slab_enabled runtime_error
      _ ←
          guard (not flags.qfused || leb (shmem_max cfg.n_embd n_ffn shapes) (48 * 1024))
            assertion_error
      out ← forward_token K flags held w cfg fresh pos tok r.kv
      let now = warmed keys r.weight_keys
      ok (out.0, record { kv = out.1; captured = r.captured; frozen = some now; weight_keys = now })

    -- the layers as they are recorded: nothing runs, and the host's lengths go up
    abbrev pub record_layers :
        ℕ → List (Option (Cache K)) → Result (List (Block K) × List (Option (Cache K)))
    record_layers il [] = ok ([], [])
    record_layers il (none ∷ cs) = err assertion_error
    record_layers il (some c ∷ cs) = do
      b ← read_block K flags.fuse_qkv w il
      rest ← record_layers (suc il) cs
      ok (b ∷ rest.0, some (record { dev = c.dev; length_host = c.length_host + 1 }) ∷ rest.1)

    -- the weights of the logits: in the graph with _DEVICE_LOGITS, and else read behind each replay
    abbrev pub capture_head : Bool → Result (Option (Floats K × List (Floats K)))
    capture_head true = do head ← read_head K flags held w cfg fresh; ok (some head)
    capture_head false = ok none

    abbrev pub replay_head :
        Option (Floats K × List (Floats K)) → Result (Floats K × List (Floats K))
    replay_head (some head) = ok head
    replay_head none = read_head K flags held w cfg fresh

    -- `capture`
    unfoldable pub capture : ℕ → Runner → Result Runner
    capture tok r = do
      _ ← assert_weight_cache_frozen r.frozen r.weight_keys
      x ← embed K w tok
      layers ← record_layers 0 r.kv
      head ← capture_head flags.device_logits
      let now = warmed keys r.weight_keys
      _ ← assert_weight_cache_frozen r.frozen now
      ok (record {
        kv = layers.1;
        captured = some (record { blocks = layers.0; head = head });
        frozen = r.frozen;
        weight_keys = now;
      })

    -- `replay_logits`
    unfoldable pub replay_logits : ℕ → Runner → Result (Floats K × Runner)
    replay_logits tok r = elim r.captured [
      | none ↦ err assertion_error
      | some graph ↦ (do
        x ← embed K w tok
        let out = run_graph flags held cfg graph.blocks x r.kv
        head ← replay_head graph.head
        ok (
          head_logits K flags held w cfg fresh head out.0,
          record {
            kv = out.1;
            captured = r.captured;
            frozen = r.frozen;
            weight_keys = r.weight_keys;
          },
        ))
    ]

    -- the logits of tokens, one replay after the other
    abbrev pub replay_all : List ℕ → Runner → Result (List (Floats K))
    replay_all [] r = ok []
    replay_all (t ∷ ts) r = do
      out ← replay_logits t r
      rest ← replay_all ts out.1
      ok (out.0 ∷ rest)

    -- the same by eager passes, at the positions from `pos` on
    abbrev pub eager_all : ℕ → List ℕ → List (Option (Cache K)) → Result (List (Floats K))
    eager_all pos [] caches = ok []
    eager_all pos (t ∷ ts) caches = do
      out ← forward_token K flags held w cfg fresh pos t caches
      rest ← eager_all (suc pos) ts out.1
      ok (out.0 ∷ rest)
