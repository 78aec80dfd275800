-- ===== src/Etl/Clean/Visible.antt =====
-- What the normalisation of backend/etl/clean.py leaves alone.
use lumina_ai.Prelude.{
  ◌≡◌, refl, sym, ap, ◌∙◌, inl, inr, true, ◌||◌, [], ◌∷◌, arith, if◌then◌else◌, Bool-cases,
}
use lumina_ai.Prelude.Texts.{Text, is_space, is_blank, lstrip, rstrip, strip}
use lumina_ai.Etl.Clean.Normal.{
  is_invisible, remove_invisible, remove_trailing, collapse_breaks, normalize,
}

-- The characters that are neither white space nor invisible.
unfoldable pub visible : Text → Text
visible [] = []
visible (c ∷ t) = let rest = visible t in if is_space c || is_invisible c then rest else c ∷ rest

visible-remove_invisible : (t : Text) → visible (remove_invisible t) ≡ visible t
unfolding visible remove_invisible
visible-remove_invisible [] = refl
visible-remove_invisible (c ∷ t) = ground (arith, visible-remove_invisible t)

visible-remove_trailing : (t : Text) → visible (remove_trailing t) ≡ visible t
unfolding visible remove_trailing
visible-remove_trailing [] = refl
visible-remove_trailing (c ∷ t) = ground (arith, visible-remove_trailing t)

visible-collapse_breaks : (t : Text) → visible (collapse_breaks t) ≡ visible t
unfolding visible collapse_breaks
visible-collapse_breaks [] = refl
visible-collapse_breaks (c ∷ t) = ground (arith, visible-collapse_breaks t)

visible_blank : (t : Text) → is_blank t ≡ true → visible t ≡ []
unfolding visible is_blank
visible_blank [] h = refl
visible_blank (c ∷ t) h = ground (arith, h, visible_blank t)

visible-lstrip : (t : Text) → visible (lstrip t) ≡ visible t
unfolding visible lstrip
visible-lstrip [] = refl
visible-lstrip (c ∷ t) = ground (arith, visible-lstrip t)

visible-rstrip : (t : Text) → visible (rstrip t) ≡ visible t
unfolding visible rstrip
visible-rstrip [] = refl
visible-rstrip (c ∷ t) = elim (Bool-cases (is_blank (c ∷ t))) [
  | inl blank ↦ sym (rw (blank, rstrip) (visible_blank (c ∷ t) blank))
  | inr shown ↦
      rw (shown, rstrip)
        (ap (λ r. if is_space c || is_invisible c then r else c ∷ r) (visible-rstrip t))
]

-- The normalisation of a text touches white space and invisible characters only: the others stay,
-- in their order.
visible-normalize : (t : Text) → visible (normalize t) ≡ visible t
unfolding normalize strip
visible-normalize t =
    let shown = remove_invisible t in
    let lines = remove_trailing shown in
    visible-rstrip (lstrip (collapse_breaks lines))
    ∙ visible-lstrip (collapse_breaks lines)
    ∙ visible-collapse_breaks lines
    ∙ visible-remove_trailing shown
    ∙ visible-remove_invisible t
