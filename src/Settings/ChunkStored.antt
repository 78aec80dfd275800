-- ===== src/Settings/ChunkStored.antt =====
-- The two chunk parameters that a knowledge base stores: `validate_kb_config` of
-- backend/services/knowledge/kb_config.py against `_chunk_config_from` of
-- backend/services/knowledge/ingestion.py.
use lumina_ai.Prelude.{◌≡◌, refl, ◌∙◌, ap, String, none, some, List, [], ◌∷◌, arith}
use lumina_ai.Prelude.Int.{ℤ, pos, ◌-ℤ◌, clamp}
use lumina_ai.Settings.Values.{Value, Outcome, int, number, ok, and_then, to_int}
use lumina_ai.Settings.Specs.{
  Mapping, lookup, chunk_specs, sections, min_target_tokens, max_target_tokens,
}
use lumina_ai.Settings.Write.{AppSettings, ceiling_written, effective_written, below_value}
use lumina_ai.Settings.Validate.{
  Config, mapping, object, Section, FieldError, accepted, outcome_of, field_of, validate_section,
  validate_entries, validate_param_sections, validate_kb_config,
}
use lumina_ai.Settings.Read.{ceiling_read, read_param, section_of, layers_of, keep_layer}
use lumina_ai.Settings.Params.{chunk_config_from, read_all}
use lumina_ai.Settings.ChunkBounds.{overlap_spec, target_read_again, all_read}
use lumina_ai.Settings.Agreement.{accept_written, and_then-ok}
use lumina_ai.Settings.Stored.{key_passes, read_first, stored_is_read}
use lumina_ai.Settings.Whole.{section_passes, section_kept}

-- Both sides bound the overlap by the target that stands next to it.
written_ceiling :
    (settings : AppSettings) (section : Mapping Value) (z : ℤ)
    → lookup "target_tokens" section ≡ some (number (int z))
    → ceiling_written settings chunk_specs section overlap_spec
      ≡ ok (some (int (pos (clamp (z -ℤ pos 1)))))
unfolding ceiling_written chunk_specs lookup effective_written below_value to_int and_then
written_ceiling settings section z found = rw found refl

read_ceiling :
    (read : String → Outcome Value) (z : ℤ)
    → read "target_tokens" ≡ ok (number (int z))
    → ceiling_read read chunk_specs overlap_spec ≡ ok (some (int (pos (clamp (z -ℤ pos 1)))))
unfolding ceiling_read below_value to_int and_then
read_ceiling read z e = rw e refl

both_read :
    (settings : AppSettings) (prefix : String) (section : Mapping Value)
    (rest : List (Mapping Value)) (v w : Value)
    → validate_section settings prefix chunk_specs section section ≡ ok []
    → lookup "target_tokens" section ≡ some v
    → lookup "overlap_tokens" section ≡ some w
    → (read_param 2 settings chunk_specs "target_tokens" (section ∷ rest) ≡ ok v)
      × (read_param 2 settings chunk_specs "overlap_tokens" (section ∷ rest) ≡ ok w)
unfolding chunk_specs lookup
both_read settings prefix section rest v w clean target overlap =
    let (target_read, (z, (v_int, _, _))) =
      stored_is_read 1 settings prefix chunk_specs section rest "target_tokens"
        "chunk_target_tokens" (pos min_target_tokens) (pos max_target_tokens) v clean refl target in
    let (accepted_w, _) =
      accept_written settings (λ (k : String). read_param 1 settings chunk_specs k (section ∷ rest))
        chunk_specs section "chunk_overlap_tokens" (pos 0) (pos (clamp (z -ℤ pos 1))) none
        (some "target_tokens") w
        (key_passes settings prefix chunk_specs section "overlap_tokens" overlap_spec w clean refl
          overlap)
        (written_ceiling settings section z (target ∙ ap some v_int))
        (read_ceiling (λ (k : String). read_param 1 settings chunk_specs k (section ∷ rest)) z
          (target_read_again settings (section ∷ rest) ∙ target_read ∙ ap ok v_int)) in
    (
      target_read,
      read_first 1 settings chunk_specs "overlap_tokens" section rest overlap_spec w refl overlap
          accepted_w,
    )

kept_whole :
    (kept : Mapping (Mapping Value)) (errors : List FieldError) (cleaned : Mapping (Mapping Value))
    → ok (outcome_of (kept, errors)) ≡ ok (accepted cleaned)
    → ◌≡◌ {A = Mapping (Mapping Value) × List FieldError} (kept, errors) (cleaned, [])
kept_whole kept [] cleaned e = ground arith
kept_whole kept (x ∷ xs) cleaned e = ground arith

-- A config that passes has no errors in its entries.
entries_pass :
    (settings : AppSettings) (config : Mapping Section) (cleaned : Mapping (Mapping Value))
    → validate_kb_config settings (mapping config) ≡ ok (accepted cleaned)
    → validate_entries settings "config" config ≡ ok (cleaned, [])
unfolding validate_kb_config validate_param_sections
entries_pass settings config cleaned passes =
    let ((kept, errors), (e, outcome)) =
      and_then-ok (validate_entries settings "config" config)
        (λ (p : Mapping (Mapping Value) × List FieldError). ok (outcome_of p)) (accepted cleaned)
        passes in
    e ∙ ap ok (kept_whole kept errors cleaned outcome)

section_found :
    (config : Mapping Section) (section : Mapping Value)
    → lookup "chunk" config ≡ some (object section)
    → section_of (mapping config) "chunk" ≡ section
unfolding section_of
section_found config section stored = rw (stored, section_of) refl

keep_found :
    (section : Mapping Value) (rest : List (Mapping Value)) (key : String) (v : Value)
    → lookup key section ≡ some v
    → keep_layer section rest ≡ section ∷ rest
unfolding lookup
keep_found [] rest key v found = ground arith
keep_found (e ∷ es) rest key v found = refl

first_layer :
    (config : Mapping Section) (section : Mapping Value) (tenant_config : Config) (key : String)
    (v : Value)
    → lookup "chunk" config ≡ some (object section)
    → lookup key section ≡ some v
    → layers_of "chunk" (mapping config ∷ tenant_config ∷ [])
      ≡ section ∷ layers_of "chunk" (tenant_config ∷ [])
unfolding layers_of
first_layer config section tenant_config key v stored found =
    let rest = layers_of "chunk" (tenant_config ∷ []) in
    ap (λ s. keep_layer s rest) (section_found config section stored)
    ∙ keep_found section rest key v found

-- What a knowledge base stores of a validated config: each of its sections is an object.
abbrev pub stored_as : Mapping (Mapping Value) → Mapping Section
stored_as [] = []
stored_as ((name, section) ∷ rest) = (name, object section) ∷ stored_as rest

lookup-stored_as :
    (name : String) (section : Mapping Value) (cleaned : Mapping (Mapping Value))
    → lookup name cleaned ≡ some section
    → lookup name (stored_as cleaned) ≡ some (object section)
unfolding lookup
lookup-stored_as name section [] found = ground arith
lookup-stored_as name section ((n, s) ∷ rest) found =
    ground (arith, lookup-stored_as name section rest)

-- If a config passes validation and its chunk section has both parameters, then what the validation
-- returns, once it is stored, is read back with exactly the two values that were written, whatever the
-- tenant's config holds.
pub stored_chunk_is_read :
    (settings : AppSettings) (config : Mapping Section) (tenant_config : Config)
    (section : Mapping Value) (v w : Value) (cleaned : Mapping (Mapping Value))
    → validate_kb_config settings (mapping config) ≡ ok (accepted cleaned)
    → lookup "chunk" config ≡ some (object section)
    → lookup "target_tokens" section ≡ some v
    → lookup "overlap_tokens" section ≡ some w
    → chunk_config_from settings (mapping (stored_as cleaned)) tenant_config
      ≡ ok (("target_tokens", v) ∷ ("overlap_tokens", w) ∷ [])
unfolding chunk_config_from chunk_specs sections lookup
stored_chunk_is_read settings config tenant_config section v w cleaned passes stored target
      overlap =
    let clean = entries_pass settings config cleaned passes in
    let rest = layers_of "chunk" (tenant_config ∷ []) in
    let (target_read, overlap_read) =
      both_read settings (field_of "config" "chunk") section rest v w
        (section_passes settings "config" config "chunk" section chunk_specs cleaned clean stored
          refl)
        target overlap in
    let kept =
      lookup-stored_as "chunk" section cleaned
        (section_kept settings "config" config "chunk" section cleaned clean stored) in
    ap (read_all settings chunk_specs chunk_specs)
      (first_layer (stored_as cleaned) section tenant_config "target_tokens" v kept target)
    ∙ all_read settings (section ∷ rest) v w target_read overlap_read
