-- ===== src/Settings/ChunkBounds.antt =====
-- The chunk parameters of backend/services/knowledge/kb_config.py as
-- backend/services/knowledge/ingestion.py reads them: the overlap stays below the target.
use lumina_ai.Prelude.{
  ℕ, ◌≤◌, ◌<◌, ◌≡◌, refl, sym, ◌∙◌, ap, String, none, some, List, [], ◌∷◌, arith, ◌-◌,
}
use lumina_ai.Prelude.Int.{ℤ, pos, ◌≤ℤ◌, ◌-ℤ◌, clamp}
use lumina_ai.Settings.Values.{Value, Outcome, int, number, ok, and_then, to_int}
use lumina_ai.Settings.Specs.{
  ParamSpec, Mapping, lookup, chunk_specs, max_target_tokens, min_target_tokens,
}
use lumina_ai.Settings.Write.{AppSettings, below_value}
use lumina_ai.Settings.Validate.{Config}
use lumina_ai.Settings.Read.{layers_of, read_param, ceiling_read}
use lumina_ai.Settings.Params.{read_all, chunk_config_from}
use lumina_ai.Settings.Bounds.{
  Within, int_spec, read_layers-Within, read_param_found, read_layers_plain, read_param-Within,
}

abbrev pub target_spec : ParamSpec
target_spec =
    int_spec "chunk_target_tokens" (pos min_target_tokens) (some (int (pos max_target_tokens))) none

abbrev pub overlap_spec : ParamSpec
overlap_spec = int_spec "chunk_overlap_tokens" (pos 0) none (some "target_tokens")

-- The target that bounds the overlap is the one that is read.
pub target_read_again :
    (settings : AppSettings) (layers : List (Mapping Value))
    → read_param 1 settings chunk_specs "target_tokens" layers
      ≡ read_param 2 settings chunk_specs "target_tokens" layers
unfolding chunk_specs lookup
target_read_again settings layers =
    read_param_found 0 settings chunk_specs "target_tokens" layers target_spec refl
    ∙ read_layers_plain (λ (k : String). read_param 0 settings chunk_specs k layers)
        (λ (k : String). read_param 1 settings chunk_specs k layers) settings chunk_specs
        "chunk_target_tokens" (pos min_target_tokens) (some (int (pos max_target_tokens)))
        "target_tokens" layers
    ∙ sym (read_param_found 1 settings chunk_specs "target_tokens" layers target_spec refl)

ceiling_read_below :
    (read : String → Outcome Value) (target : ℕ)
    → read "target_tokens" ≡ ok (number (int (pos target)))
    → ceiling_read read chunk_specs overlap_spec ≡ ok (some (int (pos (target - 1))))
unfolding ceiling_read below_value to_int and_then ◌-ℤ◌
ceiling_read_below read target e = rw e (ground arith)

-- The overlap is read below the target that is read.
overlap-Within :
    (settings : AppSettings) (layers : List (Mapping Value)) (target d : ℕ)
    → read_param 2 settings chunk_specs "target_tokens" layers ≡ ok (number (int (pos target)))
    → settings "chunk_overlap_tokens" ≡ number (int (pos d))
    → d < target
    → Within (pos 0) (pos (target - 1)) (read_param 2 settings chunk_specs "overlap_tokens" layers)
unfolding chunk_specs lookup
overlap-Within settings layers target d read default small =
    rw (read_param_found 1 settings chunk_specs "overlap_tokens" layers overlap_spec refl) (
      read_layers-Within (λ (k : String). read_param 1 settings chunk_specs k layers) settings
        chunk_specs "chunk_overlap_tokens" (pos 0) (pos (target - 1)) (pos d) none
        (some "target_tokens") "overlap_tokens" layers
        (ceiling_read_below (λ (k : String). read_param 1 settings chunk_specs k layers) target
          (target_read_again settings layers ∙ read))
        default (omega arith) (omega arith) (omega arith))

pos_of : (z : ℤ) (a : ℕ) → pos a ≤ℤ z → z ≡ pos (clamp z)
pos_of z a h = ground arith

pub all_read :
    (settings : AppSettings) (layers : List (Mapping Value)) (v w : Value)
    → read_param 2 settings chunk_specs "target_tokens" layers ≡ ok v
    → read_param 2 settings chunk_specs "overlap_tokens" layers ≡ ok w
    → read_all settings chunk_specs chunk_specs layers
      ≡ ok (("target_tokens", v) ∷ ("overlap_tokens", w) ∷ [])
unfolding read_all chunk_specs and_then
all_read settings layers v w target overlap = rw target (rw overlap refl)

-- If the system's default target is within its limits and its default overlap is below the least
-- target: whatever is stored, both chunk parameters are read, the target within its limits and the
-- overlap below the target.
pub chunk_config_from_lem :
    (settings : AppSettings) (kb_config tenant_config : Config) (t d : ℕ)
    → settings "chunk_target_tokens" ≡ number (int (pos t))
    → min_target_tokens ≤ t
    → t ≤ max_target_tokens
    → settings "chunk_overlap_tokens" ≡ number (int (pos d))
    → d < min_target_tokens
    → (target : ℕ) × ((overlap : ℕ) × ((chunk_config_from settings kb_config tenant_config
            ≡ ok (
                ("target_tokens", number (int (pos target)))
                ∷ ("overlap_tokens", number (int (pos overlap)))
                ∷ []))
          × (min_target_tokens ≤ target)
          × (target ≤ max_target_tokens)
          × (overlap < target)))
unfolding chunk_config_from chunk_specs read_all and_then
chunk_config_from_lem settings kb_config tenant_config t d target_default low high overlap_default
      small =
    let layers = layers_of "chunk" (kb_config ∷ tenant_config ∷ []) in
    let (z, (read, l, u)) =
      read_param-Within 1 settings chunk_specs "target_tokens" "chunk_target_tokens"
        (pos min_target_tokens) (pos max_target_tokens) (pos t) layers refl target_default
        (omega arith) (omega arith) in
    let read' = read ∙ ap (λ n. ok (number (int n))) (pos_of z min_target_tokens l) in
    let (y, (again, l', u')) =
      overlap-Within settings layers (clamp z) d read' overlap_default (ground arith) in
    (
      clamp z,
      (
        clamp y,
        (
          all_read settings layers (number (int (pos (clamp z)))) (number (int (pos (clamp y))))
              read' (again ∙ ap (λ n. ok (number (int n))) (pos_of y 0 l')),
          ground arith,
          ground arith,
          ground arith,
        ),
      ),
    )
