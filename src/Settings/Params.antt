-- ===== src/Settings/Params.antt =====
-- `resolve_rag_params` of backend/services/rag/params.py and `_chunk_config_from` of
-- backend/services/knowledge/ingestion.py: every parameter of a section, read through the layers.
use lumina_ai.Prelude.{ℕ, List, [], ◌∷◌}
use lumina_ai.Settings.Values.{Value, Outcome, ok, and_then}
use lumina_ai.Settings.Specs.{ParamSpec, Mapping, retrieval_specs, chunk_specs}
use lumina_ai.Settings.Write.{AppSettings}
use lumina_ai.Settings.Validate.{Config}
use lumina_ai.Settings.Read.{layers_of, read_param}

-- In the built-in specs one parameter is bounded by another that is not bounded by a third.
abbrev pub spec_depth : ℕ
spec_depth = 2

-- `{key: read_param(...) for key in specs}` over the keys left.
unfoldable pub read_all :
    AppSettings
    → Mapping ParamSpec
    → Mapping ParamSpec
    → List (Mapping Value)
    → Outcome (Mapping Value)
unfolding read_param and_then
read_all settings specs [] layers = ok []
read_all settings specs ((key, spec) ∷ rest) layers =
    and_then (read_param spec_depth settings specs key layers)
      (λ v. and_then (read_all settings specs rest layers) (λ vs. ok ((key, v) ∷ vs)))

-- `RagParams(**values)` has exactly the keys of the section as its fields.
unfoldable pub resolve_rag_params : AppSettings → Config → Config → Outcome (Mapping Value)
unfolding read_all retrieval_specs layers_of
resolve_rag_params settings kb_config tenant_config =
    read_all settings retrieval_specs retrieval_specs
      (layers_of "retrieval" (kb_config ∷ tenant_config ∷ []))

unfoldable pub chunk_config_from : AppSettings → Config → Config → Outcome (Mapping Value)
unfolding read_all chunk_specs layers_of
chunk_config_from settings kb_config tenant_config =
    read_all settings chunk_specs chunk_specs (layers_of "chunk" (kb_config ∷ tenant_config ∷ []))
