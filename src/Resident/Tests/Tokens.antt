-- ===== src/Resident/Tests/Tokens.antt =====
-- The argmax kernels on natural numbers, and one token from a captured graph.
use llama_tov.Prelude.{
  ℕ, ◌+◌, ◌%◌, ◌≤◌, ◌<◌, ◌≡◌, refl, true, false, none, some, List, [], ◌∷◌, arith, ltb, ◌==◌,
  if◌then◌else◌, length, get_or, ok,
}
use llama_tov.Residency.Profile.{apply_production_profile, assert_certified_composition}
use llama_tov.Resident.Quantize.{Floats}
use llama_tov.Resident.Layer.{read_block}
use llama_tov.Resident.Settings.{settings_of}
use llama_tov.Resident.Forward.{head_logits, embed, embedding, read_head, forward_token}
use llama_tov.Resident.Graph.{
  Graph, Runner, seed, capture, replay_logits, assert_weight_cache_frozen,
}
use llama_tov.Resident.Argmax.{Comparisons, k_argmax, k_argmax_s1, k_argmax_s2, replay_token}
use llama_tov.Resident.ArgmaxAgree.{ComparisonLaws, IsFirstMax, two_stage-single}
use llama_tov.Resident.ReplayToken.{replay_token-replay_logits}
use llama_tov.Resident.Tests.{naturals, tensors, config, memory, profile, seeded, value_of, idle}

abbrev comparisons : Comparisons ℕ
comparisons = record { gt = λ a b. ltb b a; eq = λ a b. a == b; lowest = 0 }

abbrev comparisons-laws : ComparisonLaws comparisons
comparisons-laws = record { key = λ a. a; gt-key = λ a b. refl; eq-key = λ a b. refl }

-- 4 at the places 2, 5, 8, ..., and less elsewhere
abbrev hills : ℕ → ℕ
hills i = if i % 3 == 2 then 4 else i % 3

two_stage-single_example :
    k_argmax_s2 comparisons (k_argmax_s1 comparisons hills 300 256) 256
    ≡ k_argmax comparisons hills 300
two_stage-single_example = two_stage-single comparisons comparisons-laws hills 300 (omega arith)

first_hill : k_argmax comparisons hills 9 ≡ 2
first_hill = refl

abbrev after_capture : Runner naturals
after_capture =
    value_of
      (capture naturals true true profile (λ a. a) tensors config memory (5 ∷ 6 ∷ []) 2 [] 1
        seeded.1)
      idle

abbrev graph : Graph naturals
graph = elim after_capture.captured [ some g ↦ g | none ↦ record { blocks = []; head = none } ]

abbrev graph_head : Floats naturals × List (Floats naturals)
graph_head = elim graph.head [ some h ↦ h | none ↦ ([], []) ]

captured_graph :
    after_capture.captured ≡ some (record { blocks = graph.blocks; head = some graph_head })
unfolding seed capture settings_of apply_production_profile assert_certified_composition
    forward_token embed embedding read_block read_head assert_weight_cache_frozen
captured_graph = refl

abbrev replayed : List ℕ × Runner naturals
replayed =
    value_of
      (replay_logits naturals true true profile (λ a. a) tensors config memory (5 ∷ 6 ∷ []) 2 [] 1
        after_capture)
      ([], idle)

replay_returns :
    replay_logits naturals true true profile
      (λ a. a)
      tensors
      config
      memory
      (5 ∷ 6 ∷ [])
      2
      []
      1
      after_capture
    ≡ ok replayed
unfolding seed capture replay_logits settings_of apply_production_profile
    assert_certified_composition forward_token embed embedding read_block read_head
    assert_weight_cache_frozen
replay_returns = refl

few_logits : length replayed.0 + 255 ≤ 2147483647
unfolding seed capture replay_logits settings_of apply_production_profile
    assert_certified_composition forward_token embed embedding read_block read_head
    assert_weight_cache_frozen head_logits
few_logits = omega arith

some_logit : 0 < length replayed.0
unfolding seed capture replay_logits settings_of apply_production_profile
    assert_certified_composition forward_token embed embedding read_block read_head
    assert_weight_cache_frozen head_logits
some_logit = omega arith

none_below : (a : ℕ) → ltb a 0 ≡ false
none_below a = ground arith

replay_token-replay_logits_example :
    (i : ℕ) × (replay_token naturals comparisons true true profile
        (λ a. a)
        tensors
        config
        memory
        1
        after_capture
      ≡ ok (i, replayed.1))
    × IsFirstMax comparisons (λ k. get_or replayed.0 k 0) (length replayed.0) i
replay_token-replay_logits_example =
    replay_token-replay_logits naturals comparisons comparisons-laws true true true profile (λ a. a)
      tensors config memory (5 ∷ 6 ∷ []) 2 [] 1 after_capture replayed.1 graph.blocks graph_head
      replayed.0 0 captured_graph replay_returns few_logits some_logit
      (none_below (get_or replayed.0 0 0))
