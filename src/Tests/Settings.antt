-- ===== src/Tests/Settings.antt =====
-- The settings of a knowledge base.
use lumina_ai.Prelude.{ℕ, ◌≤◌, ◌<◌, ◌≡◌, refl, ◌^◌, [], ◌∷◌, arith, if◌then◌else◌}
use lumina_ai.Prelude.Int.{pos, ◌-ℤ◌}
use lumina_ai.Settings.Values.{
  Value, int, number, str, ok, raised, and_then, to_float, magnitude_to_float,
}
use lumina_ai.Settings.Specs.{
  Mapping, lookup, retrieval_specs, min_target_tokens, max_target_tokens,
}
use lumina_ai.Settings.Write.{AppSettings}
use lumina_ai.Settings.Validate.{Config, mapping, no_config, object, accepted, validate_kb_config}
use lumina_ai.Settings.Read.{read_param}
use lumina_ai.Settings.Params.{chunk_config_from}
use lumina_ai.Settings.ChunkBounds.{chunk_config_from_lem}
use lumina_ai.Settings.ChunkStored.{stored_as, stored_chunk_is_read}
use text.Mathlib.Text.{◌==◌}

-- The defaults of backend/config/settings/app_settings.py for the parameters used here, with some
-- default of the overlap.
abbrev settings_with : ℕ → AppSettings
settings_with overlap attr =
    if attr == "chunk_target_tokens"
    then number (int (pos 512))
    else if attr == "chunk_overlap_tokens"
    then number (int (pos overlap))
    else number (int (pos 40))

abbrev chunk_of : Mapping Value → Config
chunk_of section = mapping (("chunk", object section) ∷ [])

abbrev small_target : Mapping Value
small_target = ("target_tokens", number (int (pos 64))) ∷ []

abbrev wide_overlap : Mapping Value
wide_overlap = ("overlap_tokens", number (int (pos 300))) ∷ []

abbrev both_set : Mapping Value
both_set =
    ("target_tokens", number (int (pos 400))) ∷ ("overlap_tokens", number (int (pos 399))) ∷ []

abbrev top_k_text : Mapping Value
top_k_text = ("top_k", str "many") ∷ []

abbrev top_k_huge : Mapping Value
top_k_huge = ("top_k", number (int (pos 1000000))) ∷ []

abbrev top_k_12 : Mapping Value
top_k_12 = ("top_k", number (int (pos 12))) ∷ []

-- With the system's default overlap a stored target of 64 gives chunks that overlap entirely.
default_overlap_fills :
    chunk_config_from (settings_with 64) (chunk_of small_target) no_config
    ≡ ok (("target_tokens", number (int (pos 64))) ∷ ("overlap_tokens", number (int (pos 64))) ∷ [])
unfolding chunk_config_from
default_overlap_fills = refl

small_target_passes :
    validate_kb_config (settings_with 64) (chunk_of small_target)
    ≡ ok (accepted (("chunk", small_target) ∷ []))
unfolding validate_kb_config
small_target_passes = refl

-- An overlap without a target passes against the system's target and is read against the tenant's.
wide_overlap_passes :
    validate_kb_config (settings_with 64) (chunk_of wide_overlap)
    ≡ ok (accepted (("chunk", wide_overlap) ∷ []))
unfolding validate_kb_config ◌-ℤ◌
wide_overlap_passes = refl

wide_overlap_cut :
    chunk_config_from (settings_with 64) (chunk_of wide_overlap) (chunk_of small_target)
    ≡ ok (("target_tokens", number (int (pos 64))) ∷ ("overlap_tokens", number (int (pos 63))) ∷ [])
unfolding chunk_config_from ◌-ℤ◌
wide_overlap_cut = refl

-- An int beyond the doubles ends the read in an exception.
huge_int_raises :
    read_param 1
      (settings_with 64)
      retrieval_specs
      "rerank_threshold"
      ((("rerank_threshold", number (int (pos (2 ^ 1024)))) ∷ []) ∷ [])
    ≡ raised
unfolding read_param retrieval_specs to_float magnitude_to_float and_then
huge_int_raises = refl

bad_value_falls :
    read_param 1 (settings_with 64) retrieval_specs "top_k" (top_k_text ∷ top_k_huge ∷ [])
    ≡ ok (number (int (pos 200)))
unfolding read_param retrieval_specs
bad_value_falls = refl

chunk_config_from_lem_example :
    (target : ℕ) × ((overlap : ℕ) × ((chunk_config_from
            (settings_with 63)
            (chunk_of wide_overlap)
            (chunk_of small_target)
          ≡ ok (
              ("target_tokens", number (int (pos target)))
              ∷ ("overlap_tokens", number (int (pos overlap)))
              ∷ []))
        × (min_target_tokens ≤ target)
        × (target ≤ max_target_tokens)
        × (overlap < target)))
chunk_config_from_lem_example =
    chunk_config_from_lem (settings_with 63) (chunk_of wide_overlap) (chunk_of small_target) 512 63
      refl (omega arith) (omega arith) refl (omega arith)

stored_chunk_is_read_example :
    chunk_config_from
      (settings_with 64)
      (mapping (stored_as (("chunk", both_set) ∷ [])))
      (chunk_of small_target)
    ≡ ok (
        ("target_tokens", number (int (pos 400))) ∷ ("overlap_tokens", number (int (pos 399))) ∷ [])
unfolding validate_kb_config lookup ◌-ℤ◌
stored_chunk_is_read_example =
    stored_chunk_is_read (settings_with 64) (("chunk", object both_set) ∷ [])
      (chunk_of small_target) both_set (number (int (pos 400))) (number (int (pos 399)))
      (("chunk", both_set) ∷ []) refl refl refl refl
