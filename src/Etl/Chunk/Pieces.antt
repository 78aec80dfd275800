-- ===== src/Etl/Chunk/Pieces.antt =====
-- The pieces into which a text that does not fit is split.
use lumina_ai.Prelude.{
  true, if◌then◌else◌, ℕ, ◌≡◌, refl, sym, ap, ◌∙◌, inl, inr, List, [], ◌∷◌, ◌++◌, leb, Bool-cases,
}
use lumina_ai.Prelude.Texts.{Text, is_space, is_blank, rstrip}
use lumina_ai.Etl.Sentences.{sentences, hard_split}
use lumina_ai.Etl.Sentences.Lossless.{
  concat, append_assoc, append-nil, concat-append, concat-hard_split, concat-sentences,
}
use lumina_ai.Etl.Chunk.{ChunkConfig, fill, if_any, trimmed, split_to_fit}

-- A text without its spaces and line breaks.
abbrev pub letters : Text → Text
letters [] = []
letters (c ∷ t) = let rest = letters t in if is_space c then rest else c ∷ rest

letters-++ : (t u : Text) → letters (t ++ u) ≡ letters t ++ letters u
letters-++ [] u = refl
letters-++ (c ∷ t) u = elim (Bool-cases (is_space c)) [
  | inl space ↦ rw space (letters-++ t u)
  | inr solid ↦ rw solid (ap (λ r. c ∷ r) (letters-++ t u))
]

letters-blank : (t : Text) → is_blank t ≡ true → letters t ≡ []
unfolding is_blank
letters-blank [] h = refl
letters-blank (c ∷ t) h = elim (Bool-cases (is_space c)) [
  | inl space ↦ rw space (letters-blank t (sym (rw space refl) ∙ h))
  | inr solid ↦ cc (h, solid)
]

letters-rstrip : (t : Text) → letters (rstrip t) ≡ letters t
unfolding rstrip
letters-rstrip [] = refl
letters-rstrip (c ∷ t) = elim (Bool-cases (is_blank (c ∷ t))) [
  | inl blank ↦ rw (blank, rstrip) (sym (letters-blank (c ∷ t) blank))
  | inr solid ↦ rw (solid, rstrip) (rw (letters-rstrip t) refl)
]

letters-trimmed : (ps : List Text) → letters (concat (trimmed ps)) ≡ letters (concat ps)
letters-trimmed [] = refl
letters-trimmed (p ∷ ps) = elim (Bool-cases (is_blank p)) [
  | inl blank ↦ rw blank (
      letters-trimmed ps
      ∙ sym (letters-++ p (concat ps) ∙ ap (λ r. r ++ letters (concat ps)) (letters-blank p blank)))
  | inr solid ↦ rw solid (
      letters-++ (rstrip p) (concat (trimmed ps))
      ∙ ap (λ r. r ++ letters (concat (trimmed ps))) (letters-rstrip p)
      ∙ ap (λ r. letters p ++ r) (letters-trimmed ps)
      ∙ sym (letters-++ p (concat ps)))
]

module _ (count : Text → ℕ) (scaled : ℕ → ℕ → ℕ → ℕ) (config : ChunkConfig) where
  concat-if_any : (t : Text) → concat (if_any t) ≡ t
  concat-if_any [] = refl
  concat-if_any (c ∷ t) = append-nil (c ∷ t)

  if_any-concat : (t : Text) (ts : List Text) → concat (if_any t ++ ts) ≡ t ++ concat ts
  if_any-concat [] ts = refl
  if_any-concat (c ∷ t) ts = refl

  concat-fill :
      (budget : ℕ) (buffer : Text) (ss : List Text)
      → concat (fill count scaled config budget buffer ss) ≡ buffer ++ concat ss
  unfolding fill
  concat-fill budget buffer [] = concat-if_any buffer ∙ sym (append-nil buffer)
  concat-fill budget buffer (s ∷ ss) = elim (Bool-cases (leb (count (buffer ++ s)) budget)) [
    | inl fits ↦ rw fits (concat-fill budget (buffer ++ s) ss ∙ append_assoc buffer s (concat ss))
    | inr over ↦ elim (Bool-cases (leb (count s) budget)) [
      | inl alone ↦
          rw (over, alone)
            (if_any-concat buffer (fill count scaled config budget s ss)
              ∙ ap (λ r. buffer ++ r) (concat-fill budget s ss))
      | inr long ↦
          rw (over, long)
            (if_any-concat buffer
                (hard_split scaled count budget s ++ fill count scaled config budget [] ss)
              ∙ ap (λ r. buffer ++ r)
                  (concat-append (hard_split scaled count budget s)
                      (fill count scaled config budget [] ss)
                    ∙ ap (λ r. r ++ concat (fill count scaled config budget [] ss))
                        (concat-hard_split scaled count budget s)
                    ∙ ap (λ r. s ++ r) (concat-fill budget [] ss)))
    ]
  ]

  concat-fill-sentences :
      (budget : ℕ) (text : Text)
      → concat (fill count scaled config budget [] (sentences text)) ≡ text
  concat-fill-sentences budget text = concat-fill budget [] (sentences text) ∙ concat-sentences text

  -- The pieces into which a text is split have together, in their order, all its characters but for
  -- spaces and line breaks.
  pub letters-split_to_fit :
      (budget : ℕ) (text : Text)
      → letters (concat (split_to_fit count scaled config budget text)) ≡ letters text
  unfolding split_to_fit
  letters-split_to_fit budget text =
      letters-trimmed (fill count scaled config budget [] (sentences text))
      ∙ ap letters (concat-fill-sentences budget text)
