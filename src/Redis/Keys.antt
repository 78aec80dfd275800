-- ===== src/Redis/Keys.antt =====
-- Keys of one tenant differ where a part of them begins differently.
use Prim.Native.Char.{Char}
use Prim.Native.String.{◌++◌}
use text.Mathlib.TextLemmas.{
  append-nil, append_assoc, append_cancel_left, cons-append, head-eq_of_cons-eq,
}
use lumina_ai.Prelude.{String, ◌≡◌, ◌≢◌, sym, ◌∙◌, List, [], ◌∷◌}
use lumina_ai.Redis.{join_parts, tenant_key}

-- The parts, each after a colon.
suffix : List String → String
suffix [] = ""
suffix (part ∷ parts) = ":" ++ (part ++ suffix parts)

join_parts-eq : (s : String) (parts : List String) → join_parts s parts ≡ s ++ suffix parts
unfolding join_parts suffix
join_parts-eq s [] = sym (append-nil s)
join_parts-eq s (part ∷ parts) = simp (join_parts-eq (s ++ ":" ++ part) parts, append_assoc)

heads_differ :
    (c d : Char) (s t u v : String) → c ≢ d → (String.◌∷◌ c s) ++ u ≢ (String.◌∷◌ d t) ++ v
heads_differ c d s t u v h e =
    h (head-eq_of_cons-eq (sym (cons-append c s u) ∙ e ∙ cons-append d t v))

tail_of : String → String → List String → String
tail_of first part parts = (":" ++ first ++ ":") ++ (part ++ suffix parts)

tenant_key-eq :
    (tenant_id first part : String) (parts : List String)
    → tenant_key tenant_id (first ∷ part ∷ parts) ≡ ("t:" ++ tenant_id) ++ tail_of first part parts
unfolding tenant_key tail_of suffix
tenant_key-eq tenant_id first part parts = simp (join_parts-eq, append_assoc)

-- Same tenant, same first part, and second parts that begin with different characters.
pub tenant_key-ne :
    (tenant_id first : String) (c d : Char) (s t : String) (ps qs : List String)
    → c ≢ d
    → tenant_key tenant_id (first ∷ String.◌∷◌ c s ∷ ps)
      ≢ tenant_key tenant_id (first ∷ String.◌∷◌ d t ∷ qs)
unfolding tail_of
tenant_key-ne tenant_id first c d s t ps qs h e = heads_differ c d s t (suffix ps) (suffix qs) h (
    append_cancel_left (":" ++ first ++ ":") _ _ (
      append_cancel_left ("t:" ++ tenant_id) _ _ (
        sym (tenant_key-eq tenant_id first (String.◌∷◌ c s) ps)
        ∙ e
        ∙ tenant_key-eq tenant_id first (String.◌∷◌ d t) qs)))

one_part-eq :
    (tenant_id first : String) (parts : List String)
    → tenant_key tenant_id (first ∷ parts) ≡ ("t:" ++ tenant_id) ++ (":" ++ (first ++ suffix parts))
unfolding tenant_key suffix
one_part-eq tenant_id first parts = simp (join_parts-eq, append_assoc)

-- Same tenant, and first parts that differ after a common beginning.
pub tenant_key-ne_first :
    (tenant_id w : String) (c d : Char) (s t : String) (ps qs : List String)
    → c ≢ d
    → tenant_key tenant_id ((w ++ String.◌∷◌ c s) ∷ ps)
      ≢ tenant_key tenant_id ((w ++ String.◌∷◌ d t) ∷ qs)
tenant_key-ne_first tenant_id w c d s t ps qs h e = heads_differ c d s t (suffix ps) (suffix qs) h (
    append_cancel_left w _ _ (
      sym (append_assoc w _ (suffix ps))
      ∙ append_cancel_left ":" _ _ (
          append_cancel_left ("t:" ++ tenant_id) _ _ (
            sym (one_part-eq tenant_id (w ++ String.◌∷◌ c s) ps)
            ∙ e
            ∙ one_part-eq tenant_id (w ++ String.◌∷◌ d t) qs))
      ∙ append_assoc w _ (suffix qs)))
