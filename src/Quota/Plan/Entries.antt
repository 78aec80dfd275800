-- ===== src/Quota/Plan/Entries.antt =====
-- A bad entry of a plan loses only itself.
use lumina_ai.Prelude.{
  ℕ, ◌≡◌, refl, ap, ◌≢◌, true, false, Option, none, some, List, [], ◌∷◌, ◌++◌, arith, ◌==◌, ◌⊎◌,
  Bool-cases, inl, inr,
}
use lumina_ai.Prelude.Int.{ℤ, negsuc}
use lumina_ai.Prelude.Texts.{Text, is_empty, split_on, strip, push_first}
use lumina_ai.Quota.Plan.{Table, add_entry, add_entries, parse_plan, after_colon, semicolon}

-- No character of the text is the separator.
abbrev Lacks : ℕ → Text → Type 0
Lacks sep [] = Unit
Lacks sep (c ∷ t) = ((c == sep) ≡ false) × Lacks sep t

split_on-Lacks : (sep : ℕ) (t : Text) → Lacks sep t → split_on sep t ≡ t ∷ []
unfolding split_on
split_on-Lacks sep [] h = refl
split_on-Lacks sep (c ∷ t) h = rw (h.0, split_on-Lacks sep t h.1)

push_first-append :
    (c : ℕ) (xs ys : List Text) → xs ≢ [] → push_first c (xs ++ ys) ≡ push_first c xs ++ ys
push_first-append c [] ys h = absurd (h refl)
push_first-append c (x ∷ xs) ys h = refl

push_first-ne-nil : (c : ℕ) (xs : List Text) → push_first c xs ≢ []
push_first-ne-nil c [] e = cc
push_first-ne-nil c (x ∷ xs) e = cc

split_on-ne-nil : (sep : ℕ) (t : Text) → split_on sep t ≢ []
unfolding split_on
split_on-ne-nil sep [] e = cc
split_on-ne-nil sep (c ∷ t) e = elim (Bool-cases (c == sep)) [
  | inl cut ↦ cc (cut, e)
  | inr kept ↦ push_first-ne-nil c (split_on sep t) (rw kept at e)
]

pub split_on-append :
    (sep : ℕ) (t u : Text) → split_on sep (t ++ sep ∷ u) ≡ split_on sep t ++ split_on sep u
unfolding split_on
split_on-append sep [] u = ground arith
split_on-append sep (c ∷ t) u = elim (Bool-cases (c == sep)) [
  | inl cut ↦ rw cut (ap (λ ps. [] ∷ ps) (split_on-append sep t u))
  | inr kept ↦
      rw (kept, split_on-append sep t u)
        (push_first-append c (split_on sep t) (split_on sep u) (split_on-ne-nil sep t))
]

module _ (parse_int : Text → Option ℤ) where
  -- Blank, no integer behind the colon, or a negative one.
  abbrev pub IsBad : Text → Type 0
  IsBad entry =
      (is_empty (strip entry) ≡ true)
      ⊎ (parse_int (strip (after_colon (strip entry))) ≡ none)
      ⊎ ((n : ℕ) × (parse_int (strip (after_colon (strip entry))) ≡ some (negsuc n)))

  add_entry-bad :
      (limits : Table) (entry : Text) → IsBad entry → add_entry parse_int limits entry ≡ limits
  unfolding add_entry
  add_entry-bad limits entry bad = ground arith

  add_entries-append :
      (limits : Table) (xs ys : List Text)
      → add_entries parse_int limits (xs ++ ys)
        ≡ add_entries parse_int (add_entries parse_int limits xs) ys
  unfolding add_entries
  add_entries-append limits [] ys = refl
  add_entries-append limits (x ∷ xs) ys = add_entries-append (add_entry parse_int limits x) xs ys

  -- A bad entry, which is blank, no integer or a negative one after the colon, and has no semicolon,
  -- is as good as absent between two others, whatever stands before and after it.
  parse_plan-bad :
      (before entry after : Text)
      → Lacks semicolon entry
      → IsBad entry
      → parse_plan parse_int (before ++ semicolon ∷ entry ++ semicolon ∷ after)
        ≡ parse_plan parse_int (before ++ semicolon ∷ after)
  unfolding parse_plan add_entries
  parse_plan-bad before entry after lacks bad = simp (
    split_on-append,
    split_on-Lacks semicolon entry lacks,
    add_entries-append,
    add_entry-bad _ entry bad,
  )
