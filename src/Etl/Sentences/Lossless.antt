-- ===== src/Etl/Sentences/Lossless.antt =====
-- Splitting loses nothing: the sentences, and the slices of a sentence, make the text again.
use lumina_ai.Prelude.{
  ℕ, zero, suc, ◌≤◌, ◌≡◌, refl, sym, ap, ◌∙◌, ◌⊎◌, inl, inr, List, [], ◌∷◌, ◌++◌, arith, length,
  take, drop, length-drop, take-append-drop, Bool-cases,
}
use lumina_ai.Prelude.Texts.{Text, is_blank, push_first}
use lumina_ai.Etl.Sentences.{
  Mode, hard, soft, plain, spaces, newlines, after, split_at_boundaries, add_to_last, merge_pieces,
  sentences, slices, hard_split,
}

abbrev pub concat : List Text → Text
concat [] = []
concat (t ∷ ts) = t ++ concat ts

pub append_assoc : (xs ys zs : Text) → (xs ++ ys) ++ zs ≡ xs ++ (ys ++ zs)
append_assoc [] ys zs = refl
append_assoc (x ∷ xs) ys zs = ap (λ r. x ∷ r) (append_assoc xs ys zs)

pub append-nil : (xs : Text) → xs ++ [] ≡ xs
append-nil [] = refl
append-nil (x ∷ xs) = ap (λ r. x ∷ r) (append-nil xs)

pub concat-append : (ts us : List Text) → concat (ts ++ us) ≡ concat ts ++ concat us
concat-append [] us = refl
concat-append (t ∷ ts) us =
    ap (λ r. t ++ r) (concat-append ts us) ∙ sym (append_assoc t (concat ts) (concat us))

concat-push_first : (c : ℕ) (ts : List Text) → concat (push_first c ts) ≡ c ∷ concat ts
concat-push_first c [] = refl
concat-push_first c (t ∷ ts) = refl

concat-split_at_boundaries : (m : Mode) (t : Text) → concat (split_at_boundaries m t) ≡ t
unfolding split_at_boundaries
concat-split_at_boundaries hard [] = refl
concat-split_at_boundaries soft [] = refl
concat-split_at_boundaries plain [] = refl
concat-split_at_boundaries spaces [] = refl
concat-split_at_boundaries newlines [] = refl
concat-split_at_boundaries hard (c ∷ t) = ground (
  arith,
  concat-split_at_boundaries spaces t,
  concat-split_at_boundaries (after c) t,
  concat-push_first c (split_at_boundaries spaces t),
  concat-push_first c (split_at_boundaries (after c) t),
)
concat-split_at_boundaries soft (c ∷ t) = ground (
  arith,
  concat-split_at_boundaries spaces t,
  concat-split_at_boundaries (after c) t,
  concat-push_first c (split_at_boundaries spaces t),
  concat-push_first c (split_at_boundaries (after c) t),
)
concat-split_at_boundaries plain (c ∷ t) = ground (
  arith,
  concat-split_at_boundaries newlines t,
  concat-split_at_boundaries (after c) t,
  concat-push_first c (split_at_boundaries newlines t),
  concat-push_first c (split_at_boundaries (after c) t),
)
concat-split_at_boundaries spaces (c ∷ t) = ground (
  arith,
  concat-split_at_boundaries spaces t,
  concat-split_at_boundaries (after c) t,
  concat-push_first c (split_at_boundaries spaces t),
  concat-push_first c (split_at_boundaries (after c) t),
)
concat-split_at_boundaries newlines (c ∷ t) = ground (
  arith,
  concat-split_at_boundaries newlines t,
  concat-split_at_boundaries (after c) t,
  concat-push_first c (split_at_boundaries newlines t),
  concat-push_first c (split_at_boundaries (after c) t),
)

concat-add_to_last :
    (p : Text) (ps : List Text) (piece : Text)
    → concat (add_to_last (p ∷ ps) piece) ≡ concat (p ∷ ps) ++ piece
concat-add_to_last p [] piece = append-nil (p ++ piece) ∙ ap (λ r. r ++ piece) (sym (append-nil p))
concat-add_to_last p (q ∷ ps) piece =
    ap (λ r. p ++ r) (concat-add_to_last q ps piece) ∙ sym (append_assoc p (concat (q ∷ ps)) piece)

concat-slices :
    (fuel step : ℕ) (t : Text) → length t ≤ fuel → 1 ≤ step → concat (slices fuel step t) ≡ t
unfolding slices
concat-slices zero step [] h k = refl
concat-slices zero step (c ∷ t) h k = absurd (omega (arith, h))
concat-slices (suc fuel) step [] h k = refl
concat-slices (suc fuel) step (c ∷ t) h k =
    ap (λ r. take step (c ∷ t) ++ r)
      (concat-slices fuel step (drop step (c ∷ t)) (omega (arith, h, k, length-drop step (c ∷ t)))
        k)
    ∙ take-append-drop step (c ∷ t)

-- Whatever the float computation gives, the slices of a sentence make it again.
pub concat-hard_split :
    (scaled : ℕ → ℕ → ℕ → ℕ) (count : Text → ℕ) (budget : ℕ) (t : Text)
    → concat (hard_split scaled count budget t) ≡ t
unfolding hard_split
concat-hard_split scaled count budget t = concat-slices (length t) _ t (omega arith) (omega arith)

merge_pieces-concat :
    (text : Text) (parts : List Text) (pending : Text) (pieces : List Text)
    → (parts ≡ []) ⊎ (pending ≡ [])
    → concat parts ++ (pending ++ concat pieces) ≡ text
    → concat (merge_pieces text parts pending pieces) ≡ text
unfolding merge_pieces
merge_pieces-concat text [] [] [] one h = append-nil text
merge_pieces-concat text [] (c ∷ pending) [] one h = h
merge_pieces-concat text (p ∷ ps) [] [] one h = sym (append-nil (concat (p ∷ ps))) ∙ h
merge_pieces-concat text (p ∷ ps) (c ∷ pending) [] (inl none_yet) h = cc
merge_pieces-concat text (p ∷ ps) (c ∷ pending) [] (inr none_pending) h = cc
merge_pieces-concat text parts pending ([] ∷ pieces) one h =
    merge_pieces-concat text parts pending pieces one h
merge_pieces-concat text [] pending ((c ∷ piece) ∷ pieces) one h =
    elim (Bool-cases (is_blank (c ∷ piece))) [
      | inl blank ↦ rw blank (
          merge_pieces-concat text [] (pending ++ c ∷ piece) pieces (inl refl)
            (append_assoc pending (c ∷ piece) (concat pieces) ∙ h))
      | inr inked ↦ rw inked (
          merge_pieces-concat text ((pending ++ c ∷ piece) ∷ []) [] pieces (inr refl) (
            ap (λ r. r ++ concat pieces) (append-nil (pending ++ c ∷ piece))
            ∙ append_assoc pending (c ∷ piece) (concat pieces)
            ∙ h))
    ]
merge_pieces-concat text (p ∷ ps) pending ((c ∷ piece) ∷ pieces) (inl none_yet) h = cc
merge_pieces-concat text (p ∷ ps) pending ((c ∷ piece) ∷ pieces) (inr none_pending) h =
    let joined : concat (p ∷ ps) ++ ((c ∷ piece) ++ concat pieces) ≡ text =
      ap (λ r. concat (p ∷ ps) ++ (r ++ ((c ∷ piece) ++ concat pieces))) (sym none_pending) ∙ h in
    elim (Bool-cases (is_blank (c ∷ piece))) [
      | inl blank ↦ rw blank (
          merge_pieces-concat text (add_to_last (p ∷ ps) (c ∷ piece)) pending pieces
            (inr none_pending)
            (ap (λ r. concat (add_to_last (p ∷ ps) (c ∷ piece)) ++ (r ++ concat pieces))
                none_pending
              ∙ ap (λ r. r ++ concat pieces) (concat-add_to_last p ps (c ∷ piece))
              ∙ append_assoc (concat (p ∷ ps)) (c ∷ piece) (concat pieces)
              ∙ joined))
      | inr inked ↦ rw inked (
          merge_pieces-concat text ((p ∷ ps) ++ (pending ++ c ∷ piece) ∷ []) [] pieces (inr refl) (
            ap (λ r. concat ((p ∷ ps) ++ (r ++ c ∷ piece) ∷ []) ++ concat pieces) none_pending
            ∙ ap (λ r. r ++ concat pieces)
                (concat-append (p ∷ ps) ((c ∷ piece) ∷ [])
                  ∙ ap (λ r. concat (p ∷ ps) ++ r) (append-nil (c ∷ piece)))
            ∙ append_assoc (concat (p ∷ ps)) (c ∷ piece) (concat pieces)
            ∙ joined))
    ]

-- Splitting a text into sentences loses nothing: joined, they are the text.
pub concat-sentences : (text : Text) → concat (sentences text) ≡ text
unfolding sentences
concat-sentences text =
    merge_pieces-concat text [] [] (split_at_boundaries plain text) (inl refl)
      (concat-split_at_boundaries plain text)
