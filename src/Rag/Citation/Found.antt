-- ===== src/Rag/Citation/Found.antt =====
-- What `extract_markers` of backend/rag/citation.py finds, described by the text alone.
use lumina_ai.Prelude.{
  ℕ, zero, suc, ◌+◌, ◌≡◌, ◌≢◌, refl, sym, ap, ◌∙◌, false, Option, none, some, List, [], ◌∷◌, ◌++◌,
  arith, Bool-cases, inl, inr, length, ◌==◌,
}
use mathlib.Core.Path.{subst}
use lumina_ai.Prelude.Texts.{Text, is_space}
use lumina_ai.Rag.Citation.{until_close, not_empty, marker_at, find_markers, extract_markers}

-- No bracket is closed in it, and it has no space.
abbrev pub IsUnbroken : Text → Type 0
IsUnbroken [] = Unit {0}
IsUnbroken (c ∷ t) = (c ≢ 93) × (is_space c ≡ false) × IsUnbroken t

-- A marker in its brackets, and the text behind it.
abbrev pub bracketed : Text → Text → Text
bracketed m rest = 91 ∷ 99 ∷ 58 ∷ (m ++ 93 ∷ rest)

-- The markers of a text, from left to right: where a text begins with a bracketed marker it is taken,
-- and elsewhere one character is passed over.
pub data Found : Text → List Text → Type 0 where
  at_end : Found [] []
  takes :
      {c : ℕ} {m rest : Text} {ms : List Text}
      → IsUnbroken (c ∷ m)
      → Found rest ms
      → Found (bracketed (c ∷ m) rest) ((c ∷ m) ∷ ms)
  steps_over :
      {c : ℕ} {t : Text} {ms : List Text}
      → ((d : ℕ) (m rest : Text) → IsUnbroken (d ∷ m) → ¬ (c ∷ t ≡ bracketed (d ∷ m) rest))
      → Found t ms
      → Found (c ∷ t) ms

until_close-unbroken : (m rest : Text) → IsUnbroken m → until_close (m ++ 93 ∷ rest) ≡ some m
unfolding until_close
until_close-unbroken [] rest h = refl
until_close-unbroken (c ∷ m) rest h = ground (arith, until_close-unbroken m rest h.2)

abbrev Closes : Text → Option Text → Type 0
Closes t none = Unit {0}
Closes t (some m) = (rest : Text) × (t ≡ m ++ 93 ∷ rest) × IsUnbroken m

Closes-∷ :
    (c : ℕ) (t : Text) (o : Option Text)
    → c ≢ 93
    → is_space c ≡ false
    → Closes t o
    → Closes (c ∷ t) (elim o [ none ↦ none | some m ↦ some (c ∷ m) ])
Closes-∷ c t none differs solid closes = tt
Closes-∷ c t (some m) differs solid (rest, split, unbroken) =
    (rest, ap (λ u. c ∷ u) split, (differs, solid, unbroken))

until_close-Closes : (t : Text) → Closes t (until_close t)
unfolding until_close
until_close-Closes [] = tt
until_close-Closes (c ∷ t) = elim (Bool-cases (c == 93)) [
  | inl closes ↦ rw closes (t, ap (λ d. d ∷ t) (ground (arith, closes)), tt)
  | inr differs ↦ elim (Bool-cases (is_space c)) [
    | inl blank ↦ rw (differs, blank) tt
    | inr solid ↦
        rw (differs, solid)
          (Closes-∷ c t (until_close t) (ground (arith, differs)) solid (until_close-Closes t))
  ]
]

-- What a bracketed marker begins with is found there, and nothing is found elsewhere.
marker_at-bracketed :
    (c : ℕ) (m rest : Text) → IsUnbroken (c ∷ m) → marker_at (bracketed (c ∷ m) rest) ≡ some (c ∷ m)
unfolding marker_at not_empty
marker_at-bracketed c m rest h = rw (until_close-unbroken (c ∷ m) rest h) refl

abbrev Begins : Text → Option Text → Type 0
Begins t none = Unit {0}
Begins t (some []) = ⊥
Begins t (some (c ∷ m)) = (rest : Text) × (t ≡ bracketed (c ∷ m) rest) × IsUnbroken (c ∷ m)

not_empty-Begins :
    (t : Text) (o : Option Text) → Closes t o → Begins (91 ∷ 99 ∷ 58 ∷ t) (not_empty o)
unfolding not_empty
not_empty-Begins t none closes = tt
not_empty-Begins t (some []) closes = tt
not_empty-Begins t (some (c ∷ m)) (rest, split, unbroken) =
    (rest, ap (λ u. 91 ∷ 99 ∷ 58 ∷ u) split, unbroken)

marker_at-Begins : (t : Text) → Begins t (marker_at t)
unfolding marker_at
marker_at-Begins [] = tt
marker_at-Begins (a ∷ []) = tt
marker_at-Begins (a ∷ b ∷ []) = tt
marker_at-Begins (a ∷ b ∷ c ∷ t) = elim (Bool-cases (a == 91)) [
  | inr other ↦ rw (other, marker_at) tt
  | inl yes_a ↦ elim (Bool-cases (b == 99)) [
    | inr other ↦ rw (yes_a, other, marker_at) tt
    | inl yes_b ↦ elim (Bool-cases (c == 58)) [
      | inr other ↦ rw (yes_a, yes_b, other, marker_at) tt
      | inl yes_c ↦
          rw (yes_a, yes_b, yes_c, marker_at)
            (subst (λ u. Begins u (not_empty (until_close t)))
              (the_same a b c t (ground (arith, yes_a)) (ground (arith, yes_b))
                (ground (arith, yes_c)))
              (not_empty-Begins t (until_close t) (until_close-Closes t)))
    ]
  ]
]
  where
    the_same : (a b c : ℕ) (t : Text) → a ≡ 91 → b ≡ 99 → c ≡ 58 → 91 ∷ 99 ∷ 58 ∷ t ≡ a ∷ b ∷ c ∷ t
    the_same a b c t h k l = cc (h, k, l)

abbrev rest_after : ℕ → Text → Text
rest_after zero t = t
rest_after (suc n) [] = []
rest_after (suc n) (c ∷ t) = rest_after n t

rest_after-length : (a b : Text) (x : ℕ) → rest_after (suc (length a)) (a ++ x ∷ b) ≡ b
rest_after-length [] b x = refl
rest_after-length (c ∷ a) b x = rest_after-length a b x

abbrev tail_of : Text → Text
tail_of [] = []
tail_of (c ∷ t) = t

find_markers-Found : (skip : ℕ) (t : Text) → Found (rest_after skip t) (find_markers skip t)
unfolding find_markers
find_markers-Found zero [] = at_end
find_markers-Found (suc skip) [] = at_end
find_markers-Found (suc skip) (c ∷ t) = find_markers-Found skip t
find_markers-Found zero (c ∷ t) =
    from_match (marker_at (c ∷ t)) refl (marker_at-Begins (c ∷ t)) (find_markers-Found 0 t)
      (λ n. find_markers-Found n t)
  where
    from_match :
        (o : Option Text)
        → marker_at (c ∷ t) ≡ o
        → Begins (c ∷ t) o
        → Found t (find_markers 0 t)
        → ((n : ℕ) → Found (rest_after n t) (find_markers n t))
        → Found (c ∷ t) (find_markers 0 (c ∷ t))
    from_match none e begins here later =
        rw (e, find_markers)
          (steps_over
            (λ d m rest unbroken same.
              cc (e, ap marker_at same, marker_at-bracketed d m rest unbroken))
            here)
    from_match (some []) e begins here later = absurd begins
    from_match (some (d ∷ m)) e (rest, split, unbroken) here later =
        let three : 3 + length (d ∷ m) ≡ suc (suc (suc (length (d ∷ m)))) = omega arith in
        let after : rest_after (3 + length (d ∷ m)) t ≡ rest =
          ap (λ u. rest_after (3 + length (d ∷ m)) (tail_of u)) split
          ∙ ap (λ n. rest_after n (99 ∷ 58 ∷ ((d ∷ m) ++ 93 ∷ rest))) three
          ∙ rest_after-length (d ∷ m) rest 93 in
        rw (e, find_markers)
          (subst (λ u. Found u ((d ∷ m) ∷ find_markers (3 + length (d ∷ m)) t)) (sym split)
            (takes unbroken (
              subst (λ u. Found u (find_markers (3 + length (d ∷ m)) t)) after
                (later (3 + length (d ∷ m))))))

-- The markers that are extracted from a text are those that it has.
pub extract_markers-Found : (text : Text) → Found text (extract_markers text)
unfolding extract_markers
extract_markers-Found text = find_markers-Found 0 text
