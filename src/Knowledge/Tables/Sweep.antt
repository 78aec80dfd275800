-- ===== src/Knowledge/Tables/Sweep.antt =====
-- A sweep over the rows of a table that updates each of a list by its id, as the loops over
-- backend/repositories/knowledge.py do: it leaves no row that the list was to mend.
use lumina_ai.Prelude.{
  ℕ, ◌≡◌, ◌⊎◌, refl, Bool, true, false, List, [], ◌∷◌, ◌==◌, ◌||◌, arith, if◌then◌else◌,
}
use lumina_ai.Knowledge.Tables.{filter, update_where}

module _ {A : Type 0} (id_of : A → ℕ) (is_bad : A → Bool) where
  abbrev pub has_id : ℕ → List A → Bool
  has_id i [] = false
  has_id i (x ∷ xs) = id_of x == i || has_id i xs

  -- Every bad row of the table is one of `todo`.
  abbrev pub BadOnlyIn : List A → List A → Type 0
  BadOnlyIn todo [] = Unit {0}
  BadOnlyIn todo (x ∷ xs) =
      ((is_bad x ≡ false) ⊎ (has_id (id_of x) todo ≡ true)) × BadOnlyIn todo xs

  bad_only_more : (d : A) (todo xs : List A) → BadOnlyIn todo xs → BadOnlyIn (d ∷ todo) xs
  bad_only_more d todo [] h = tt
  bad_only_more d todo (x ∷ xs) h = (ground (arith, h.0), bad_only_more d todo xs h.1)

  bad_only_if :
      (b : Bool) (d : A) (todo xs : List A)
      → BadOnlyIn todo xs
      → BadOnlyIn (if b then d ∷ todo else todo) xs
  bad_only_if true d todo xs h = bad_only_more d todo xs h
  bad_only_if false d todo xs h = h

  pub bad_only_filter : (xs : List A) → BadOnlyIn (filter is_bad xs) xs
  unfolding filter
  bad_only_filter [] = tt
  bad_only_filter (x ∷ xs) =
      (ground arith, bad_only_if (is_bad x) x (filter is_bad xs) xs (bad_only_filter xs))

  -- An update that mends its row takes it off the list.
  pub bad_only_update :
      (g : A → A) (d : A) (todo xs : List A)
      → ((x : A) → is_bad (g x) ≡ false)
      → BadOnlyIn (d ∷ todo) xs
      → BadOnlyIn todo (update_where (λ x. id_of x == id_of d) g xs)
  unfolding update_where
  bad_only_update g d todo [] mends h = tt
  bad_only_update g d todo (x ∷ xs) mends h =
      (ground (arith, h.0, mends x), bad_only_update g d todo xs mends h.1)

  pub filter_none : (xs : List A) → BadOnlyIn [] xs → filter is_bad xs ≡ []
  unfolding filter
  filter_none [] h = refl
  filter_none (x ∷ xs) h = ground (arith, h.0, filter_none xs h.1)
