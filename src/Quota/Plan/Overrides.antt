-- ===== src/Quota/Plan/Overrides.antt =====
-- The overrides of a tenant act independently of each other.
use lumina_ai.Prelude.{
  String, ◌≡◌, refl, sym, ap, ◌∙◌, ◌≢◌, true, Option, none, some, List, [], ◌∷◌, ◌++◌, arith,
  eq_iff,
}
use mathlib.Core.Path.{fun_ext}
use lumina_ai.Prelude.Texts.{codes}
use lumina_ai.Quota.Resource.{Resource, name, of_name, same}
use lumina_ai.Quota.Plan.{Table, Json, Limits, override_named, override_all, resolve_limits, lookup}

of_name-eq : (s : String) (q : Resource) → of_name s ≡ some q → s ≡ name q
unfolding of_name
of_name-eq s q e = ground (
  arith,
  eq_iff s "tokens_month",
  eq_iff s "messages_day",
  eq_iff s "documents",
  eq_iff s "storage_bytes",
  eq_iff s "streams",
)

same-eq : (q p : Resource) → same q p ≡ true → q ≡ p
same-eq q p e = ground arith

not-same :
    (j k : String) (q p t : Resource)
    → j ≢ k
    → of_name j ≡ some q
    → of_name k ≡ some p
    → same q t ≡ true
    → same p t ≡ true
    → ⊥
not-same j k q p t h e f a b =
    h (of_name-eq j q e ∙ ap name (same-eq q t a ∙ sym (same-eq p t b)) ∙ sym (of_name-eq k p f))

override_comm :
    (limits : Limits) (a b : Option Resource) (v w : Json)
    → ((q p t : Resource) → a ≡ some q → b ≡ some p → same q t ≡ true → same p t ≡ true → ⊥)
    → (t : Resource)
    → override_named (override_named limits a v) b w t
      ≡ override_named (override_named limits b w) a v t
unfolding override_named
override_comm limits none none v w apart t = refl
override_comm limits none (some p) v w apart t = refl
override_comm limits (some q) none v w apart t = refl
override_comm limits (some q) (some p) v w apart t = let h = apart q p t refl refl in ground arith

override_all-swap :
    (limits : Limits) (os ps : List (String × Json)) (j k : String) (v w : Json)
    → j ≢ k
    → override_all limits (os ++ (j, v) ∷ (k, w) ∷ ps)
      ≡ override_all limits (os ++ (k, w) ∷ (j, v) ∷ ps)
unfolding override_all
override_all-swap limits [] ps j k v w h =
    ap (λ l. override_all l ps)
      (fun_ext
        (override_comm limits (of_name j) (of_name k) v w (λ q p t e f. not-same j k q p t h e f)))
override_all-swap limits ((i, u) ∷ os) ps j k v w h =
    override_all-swap (override_named limits (of_name i) u) os ps j k v w h

-- The order of two overrides of different names does not matter, wherever they stand.
pub resolve_limits-swap :
    (plan : Table) (os ps : List (String × Json)) (j k : String) (v w : Json)
    → j ≢ k
    → resolve_limits plan (os ++ (j, v) ∷ (k, w) ∷ ps)
      ≡ resolve_limits plan (os ++ (k, w) ∷ (j, v) ∷ ps)
unfolding resolve_limits
resolve_limits-swap plan os ps j k v w h =
    override_all-swap (λ r. lookup (codes (name r)) plan) os ps j k v w h
