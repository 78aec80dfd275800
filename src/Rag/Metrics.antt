-- ===== src/Rag/Metrics.antt =====
-- backend/rag/metrics.py: the scores of a retrieval, as exact fractions (numerator, denominator).
pub mod Agreement
use text.Mathlib.Text.{◌==◌}
use lumina_ai.Prelude.{
  ℕ, zero, suc, ◌+◌, ◌*◌, String, Bool, true, false, ◌||◌, Option, none, some, List, [], ◌∷◌, take,
  length, max, if◌then◌else◌,
}
use lumina_ai.Prelude.Int.{ℤ, pos, negsuc}

-- `relevant` is a set: a list without repetition.
pub record QuestionOutcome : Type 0 where
  pub question_id : String
  pub retrieved : List String
  pub relevant : List String

-- `__post_init__`: a question without a relevant passage is a `ValueError`.
unfoldable pub make_outcome : String → List String → List String → Option QuestionOutcome
make_outcome question_id retrieved [] = none
make_outcome question_id retrieved (p ∷ ps) =
    some record { question_id = question_id; retrieved = retrieved; relevant = p ∷ ps }

-- `_require_positive`.
abbrev pub require_positive : ℤ → Option ℕ
require_positive (pos (suc n)) = some (suc n)
require_positive _ = none

abbrev pub is_member : List String → String → Bool
is_member [] x = false
is_member (y ∷ ys) x = y == x || is_member ys x

-- The loop of `top`, with what it has seen.
pub without_seen : List String → List String → List String
without_seen seen [] = []
without_seen seen (x ∷ xs) =
    let again = without_seen seen xs in
    let first = x ∷ without_seen (x ∷ seen) xs in if is_member seen x then again else first

unfoldable pub top : QuestionOutcome → ℕ → List String
unfolding without_seen
top o k = without_seen [] (take k o.retrieved)

-- `len(relevant.intersection(found))`.
pub count_members : List String → List String → ℕ
count_members found [] = 0
count_members found (x ∷ xs) = (if is_member found x then 1 else 0) + count_members found xs

unfoldable pub recall_at_k : QuestionOutcome → ℤ → Option (ℕ × ℕ)
unfolding count_members
recall_at_k o k = elim (require_positive k) [
  | none ↦ none
  | some n ↦ some (count_members (top o n) o.relevant, length o.relevant)
]

unfoldable pub hit_at_k : QuestionOutcome → ℤ → Option ℕ
unfolding count_members
hit_at_k o k = elim (require_positive k) [
  | none ↦ none
  | some n ↦ some (elim (count_members (top o n) o.relevant) [ zero ↦ 0 | suc m ↦ 1 ])
]

-- The first rank from `index` on that is relevant, as one over it.
pub first_rank : List String → ℕ → List String → ℕ × ℕ
first_rank relevant index [] = (0, 1)
first_rank relevant index (x ∷ xs) =
    let rest = first_rank relevant (suc index) xs in
    if is_member relevant x then (1, index) else rest

unfoldable pub reciprocal_rank : QuestionOutcome → ℤ → Option (ℕ × ℕ)
unfolding first_rank
reciprocal_rank o k = elim (require_positive k) [
  | none ↦ none
  | some n ↦ some (first_rank o.relevant 1 (top o n))
]
