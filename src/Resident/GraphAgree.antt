-- ===== src/Resident/GraphAgree.antt =====
-- Replays of a captured graph against eager passes.
use llama_tov.Prelude.{
  ℕ, suc, ◌+◌, ◌≡◌, refl, sym, ap, ap₂, ◌∙◌, inl, inr, Bool, true, false, Option, none, some, List,
  [], ◌∷◌, map, arith, either_way, either_holds, Error, Result, guard, ◌>>=◌, OnOk, bind-OnOk,
  Result-cases, chain-OnOk, assertion_error, runtime_error, ok,
}
use llama_tov.Residency.DevLength.{Device}
use llama_tov.Residency.Profile.{Globals, assert_certified_composition}
use llama_tov.Resident.Kernels.{Kernels}
use llama_tov.Resident.Settings.{Settings, settings_of}
use llama_tov.Resident.Quantize.{Floats}
use llama_tov.Resident.Layer.{Tensors, Config, Block, Cache, read_block, graph_layer, eager_layer}
use llama_tov.Resident.Forward.{
  embed, cache_or_new, resident_layers, read_head, check_logits, forward_token,
}
use llama_tov.Resident.WeightKeys.{warmed-again, frozen_same}
use llama_tov.Resident.WeightKeys.{warmed-again, frozen_same}
use llama_tov.Resident.Graph.{
  warmed, assert_weight_cache_frozen, Runner, run_graph, seed, record_layers, capture_head,
  replay_head, capture, replay_logits, replay_all, eager_all,
}

module _ (K : Kernels) where
  -- a cache whose length on the host is the one on the device
  abbrev pub synced : Option (Cache K) → Option (Cache K)
  synced none = none
  synced (some c) = some (record { dev = c.dev; length_host = c.dev.len })

module _ (K : Kernels) (s : Settings) (held : Floats K → Floats K) (w : Tensors K) (cfg : Config K)
    (fresh : Device K.Num) where
  -- the blocks of the layers from `il` on, and a cache for each
  pub data Recorded : ℕ → List (Block K) → List (Option (Cache K)) → Type 0 where
    nothing : {il : ℕ} → Recorded il [] []
    layer :
        {il : ℕ} {bs : List (Block K)} {cs : List (Option (Cache K))} (b : Block K) (c : Cache K)
        → read_block K s.fuse_qkv w il ≡ ok b
        → Recorded (suc il) bs cs
        → Recorded il (b ∷ bs) (some c ∷ cs)

  pub run_graph-Recorded :
      {il : ℕ} {bs : List (Block K)} {cs : List (Option (Cache K))} (x : Floats K)
      → Recorded il bs cs
      → Recorded il bs (run_graph K s held cfg bs x cs).1
  run_graph-Recorded x nothing = nothing
  run_graph-Recorded x (layer b c e rest) =
      layer b _ e (run_graph-Recorded (graph_layer K s held cfg b x c.dev).0 rest)

  module _ (prep : s.graph_prep ≡ true) where
    apart : s.graph_prep ≡ false → ⊥
    apart off = no (sym prep ∙ off)
      where
        no : true ≡ false → ⊥
        no h = ground arith

    -- an eager layer leaves a length on the device that is the host's
    pub eager_lengths :
        (b : Block K) (pos : ℕ) (x : Floats K) (c : Cache K)
        → synced K (some (eager_layer K s held cfg b pos x c).1)
          ≡ some (eager_layer K s held cfg b pos x c).1
    unfolding eager_layer graph_layer
    eager_lengths b pos x c =
        either_holds {A = Floats K × Cache K} (λ o. synced K (some o.1) ≡ some o.1) s.graph_prep
          (λ on. refl) (λ off. absurd (apart off))

    -- on a synced cache it does what the graph does
    eager_synced :
        (b : Block K) (pos : ℕ) (x : Floats K) (c : Cache K)
        → (let out = graph_layer K s held cfg b x c.dev in
            eager_layer K s held cfg b pos x (record { dev = c.dev; length_host = c.dev.len })
            ≡ (out.0, record { dev = out.1; length_host = out.1.len }))
    unfolding eager_layer graph_layer
    eager_synced b pos x c = either_way s.graph_prep (λ on. refl) (λ off. absurd (apart off))

    pub resident_layers-run_graph :
        {il : ℕ} {bs : List (Block K)} {cs : List (Option (Cache K))} (pos : ℕ) (x : Floats K)
        → Recorded il bs cs
        → (let r = run_graph K s held cfg bs x cs in
            resident_layers K s held w cfg fresh il pos x (map (synced K) cs)
            ≡ ok (r.0, map (synced K) r.1))
    resident_layers-run_graph pos x nothing = refl
    resident_layers-run_graph pos x (layer b c e rest) =
        rw
          (
            e,
            eager_synced b pos x c,
            resident_layers-run_graph pos (graph_layer K s held cfg b x c.dev).0 rest,
          )
          refl

module _ (K : Kernels) (gate rms_quant_fused : Bool) (g : Globals) (held : Floats K → Floats K)
    (w : Tensors K) (cfg : Config K) (fresh : Device K.Num) (keys : List ℕ) (n_ffn : ℕ)
    (shapes : List (ℕ × ℕ)) where
  abbrev fl : Settings
  fl = settings_of rms_quant_fused g

  -- what an eager pass leaves can be recorded
  Recordable : ℕ → Floats K × List (Option (Cache K)) → Type 0
  Recordable il o =
      (bs : List (Block K)) × (hs : List (Option (Cache K))) × (record_layers K gate rms_quant_fused
          g held w cfg fresh keys n_ffn shapes il o.1
        ≡ ok (bs, hs))
      × Recorded K fl held w cfg fresh il bs hs
      × (map (synced K) hs ≡ o.1)

  resident-Recordable :
      (il pos : ℕ) (x : Floats K) (cs : List (Option (Cache K)))
      → fl.graph_prep ≡ true
      → OnOk (Recordable il) (resident_layers K fl held w cfg fresh il pos x cs)
  unfolding Recordable
  resident-Recordable il pos x [] prep = ([], [], refl, nothing, refl)
  resident-Recordable il pos x (c ∷ cs) prep = elim (Result-cases (read_block K fl.fuse_qkv w il)) [
    | inr (e, missing) ↦ rw missing tt
    | inl (b, read) ↦
        let out = eager_layer K fl held cfg b pos x (cache_or_new K fl held w cfg fresh c) in
        rw read (
          chain-OnOk (Recordable (suc il)) (Recordable il) _ _
            (resident-Recordable (suc il) pos out.0 cs prep)
            λ rest (bs, hs, recorded, known, same). (
              b ∷ bs,
              some (record { dev = out.1.dev; length_host = out.1.length_host + 1 }) ∷ hs,
              rw (read, recorded) refl,
              layer b _ read known,
              ap₂ ◌∷◌
                  (eager_lengths K fl held w cfg fresh prep b pos x
                    (cache_or_new K fl held w cfg fresh c))
                  same,
            ))
  ]

  check_ok : (a b : Bool) → b ≡ true → check_logits K fl held w cfg fresh a b ≡ ok tt
  check_ok true true h = refl
  check_ok false true h = refl
  check_ok a false h = absurd (no h)
    where
      no : false ≡ true → ⊥
      no h = ground arith

  -- the same of a whole pass, with the weights of its logits
  abbrev Captures : Floats K × List (Option (Cache K)) → Type 0
  Captures o =
      Recordable 0 o
      × (head : Floats K × List (Floats K)) × (read_head K fl held w cfg fresh ≡ ok head)

  forward-Captures :
      (pos tok : ℕ) (cs : List (Option (Cache K)))
      → fl.graph_prep ≡ true
      → OnOk Captures (forward_token K fl held w cfg fresh pos tok cs)
  unfolding forward_token Recordable
  forward-Captures pos tok cs prep = bind-OnOk Captures (embed K w tok) _ λ x.
      chain-OnOk (Recordable 0) Captures _ _ (resident-Recordable 0 pos x cs prep) λ out can.
        rw (check_ok fl.device_logits fl.graph_prep prep)
          (elim (Result-cases (read_head K fl held w cfg fresh)) [
            | inr (e, missing) ↦ rw missing tt
            | inl (head, known) ↦ rw known (can, head, known)
          ])

  -- Replays of a recorded graph give what eager passes give from the same rows.
  replay_all-eager_all :
      (ts : List ℕ) (pos : ℕ) (bs : List (Block K)) (head : Option (Floats K × List (Floats K)))
      (kv : List (Option (Cache K))) (frozen : Option (List ℕ)) (now : List ℕ)
      → fl.graph_prep ≡ true
      → Recorded K fl held w cfg fresh 0 bs kv
      → replay_head K gate rms_quant_fused g held w cfg fresh keys n_ffn shapes head
        ≡ read_head K fl held w cfg fresh
      → replay_all K gate rms_quant_fused g held w cfg fresh keys n_ffn shapes ts (record {
        kv = kv;
        captured = some (record { blocks = bs; head = head });
        frozen = frozen;
        weight_keys = now;
      })
        ≡ eager_all K gate rms_quant_fused g held w cfg fresh keys n_ffn shapes pos ts
            (map (synced K) kv)
  unfolding replay_logits forward_token
  replay_all-eager_all [] pos bs head kv frozen now prep known same = refl
  replay_all-eager_all (t ∷ ts) pos bs head kv frozen now prep known same =
      elim (Result-cases (embed K w t)) [
        | inr (e, missing) ↦ rw missing refl
        | inl (x, found) ↦
            let check = check_ok fl.device_logits fl.graph_prep prep in
            let run = resident_layers-run_graph K fl held w cfg fresh prep pos x known in
            elim (Result-cases (read_head K fl held w cfg fresh)) [
              | inr (e, missing) ↦ rw (found, same, run, check, missing) refl
              | inl (h, there) ↦
                  rw
                    (
                      found,
                      same,
                      run,
                      check,
                      there,
                      replay_all-eager_all ts (suc pos) bs head (run_graph K fl held cfg bs x kv).1
                          frozen now prep (run_graph-Recorded K fl held w cfg fresh x known) same,
                    )
                    refl
            ]
      ]

  guard-OnOk :
      {A : Type 0} (P : A → Type 0) (b : Bool) (e : Error) (next : Unit {0} → Result A)
      → (b ≡ true → OnOk P (next tt))
      → OnOk P (guard b e >>= next)
  guard-OnOk P true e next h = h refl
  guard-OnOk P false e next h = tt

  -- what `seed` leaves
  Seeded : List ℕ → Floats K × Runner K → Type 0
  Seeded before o =
      (fl.graph_prep ≡ true)
      × Captures (o.0, o.1.kv)
      × (o.1.frozen ≡ some (warmed keys before))
      × (o.1.weight_keys ≡ warmed keys before)

  seed-Seeded :
      (tok pos : ℕ) (r : Runner K)
      → OnOk
          (Seeded r.weight_keys)
          (seed K gate rms_quant_fused g held w cfg fresh keys n_ffn shapes tok pos r)
  unfolding seed Seeded
  seed-Seeded tok pos r = guard-OnOk (Seeded r.weight_keys) fl.graph_prep assertion_error _ λ prep.
      bind-OnOk (Seeded r.weight_keys) (assert_certified_composition gate g) _ λ _.
        bind-OnOk (Seeded r.weight_keys) (guard g.slab_enabled runtime_error) _ λ _.
          bind-OnOk (Seeded r.weight_keys) _ _ λ _.
            chain-OnOk Captures (Seeded r.weight_keys) _ _ (forward-Captures pos tok r.kv prep)
              λ out can. (prep, can, refl, refl)

  capture_head-read_head :
      (b : Bool) (head : Floats K × List (Floats K))
      → read_head K fl held w cfg fresh ≡ ok head
      → (h : Option (Floats K × List (Floats K))) × (capture_head K gate rms_quant_fused g held w
            cfg fresh keys n_ffn shapes b
          ≡ ok h)
        × (replay_head K gate rms_quant_fused g held w cfg fresh keys n_ffn shapes h
            ≡ read_head K fl held w cfg fresh)
  capture_head-read_head true head known = (some head, rw known refl, sym known)
  capture_head-read_head false head known = (none, refl, refl)

  -- After a seed that returned, the capture of a step on any token that has an embedding returns, and
  -- every sequence of replays gives, token by token, the same logits, or the same exception, as eager
  -- passes on the caches that the seed left, at whatever positions those are given.
  pub seed-capture-replay :
      (tok pos tok' pos' : ℕ) (r : Runner K) (o : Floats K × Runner K) (x : Floats K) (ts : List ℕ)
      → seed K gate rms_quant_fused g held w cfg fresh keys n_ffn shapes tok pos r ≡ ok o
      → embed K w tok' ≡ ok x
      → (r' : Runner K) × (capture K gate rms_quant_fused g held w cfg fresh keys n_ffn shapes tok'
            o.1
          ≡ ok r')
        × (replay_all K gate rms_quant_fused g held w cfg fresh keys n_ffn shapes ts r'
            ≡ eager_all K gate rms_quant_fused g held w cfg fresh keys n_ffn shapes pos' ts o.1.kv)
  unfolding capture Seeded Recordable
  seed-capture-replay tok pos tok' pos' r o x ts seeded found =
      let (prep, can, snap, now) =
        OnOk-value (Seeded r.weight_keys) (seed-Seeded tok pos r) seeded in
      let (bs, hs, recorded, known, same) = can.0 in
      let (head, caught, again) = capture_head-read_head fl.device_logits can.1 can.2 in
      let keys_now = warmed keys r.weight_keys in
      let before = ap₂ assert_weight_cache_frozen snap now ∙ frozen_same keys_now in
      let after =
        ap₂ assert_weight_cache_frozen snap (ap (warmed keys) now ∙ warmed-again keys r.weight_keys)
        ∙ frozen_same keys_now in
      (
        record {
          kv = hs;
          captured = some (record { blocks = bs; head = head });
          frozen = o.1.frozen;
          weight_keys = warmed keys o.1.weight_keys;
        },
        rw (before, found, recorded, caught, after) refl,
        replay_all-eager_all ts pos' bs head hs o.1.frozen (warmed keys o.1.weight_keys) prep known
              again
            ∙ ap (eager_all K gate rms_quant_fused g held w cfg fresh keys n_ffn shapes pos' ts)
                same,
      )
    where
      OnOk-value : {A : Type 0} (P : A → Type 0) {m : Result A} {a : A} → OnOk P m → m ≡ ok a → P a
      OnOk-value P {m} {a} h e = rw e at h
