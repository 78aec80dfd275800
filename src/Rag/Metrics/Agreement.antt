-- ===== src/Rag/Metrics/Agreement.antt =====
-- The three scores of one question agree with each other.
use text.Mathlib.TextPositions.{eq_refl}
use lumina_ai.Prelude.{
  ℕ, suc, ◌+◌, ◌≤◌, ◌<◌, ◌≡◌, refl, String, Bool, true, false, ◌||◌, ◌⊎◌, inl, inr, some, List, [],
  ◌∷◌, take, length, arith, eq_iff, Bool-cases, length-take,
}
use lumina_ai.Prelude.Int.{pos}
use lumina_ai.Rag.Metrics.{
  QuestionOutcome, is_member, without_seen, top, count_members, recall_at_k, hit_at_k, first_rank,
  reciprocal_rank,
}

count_members-le : (found xs : List String) → count_members found xs ≤ length xs
unfolding count_members
count_members-le found [] = omega arith
count_members-le found (x ∷ xs) = ground (arith, count_members-le found xs)

count_members-pos :
    (found xs : List String) (x : String)
    → is_member found x ≡ true
    → is_member xs x ≡ true
    → 0 < count_members found xs
unfolding count_members
count_members-pos found [] x h k = cc
count_members-pos found (y ∷ ys) x h k = ground (arith, count_members-pos found ys x h, eq_iff y x)

length-without_seen : (seen xs : List String) → length (without_seen seen xs) ≤ length xs
unfolding without_seen
length-without_seen seen [] = omega arith
length-without_seen seen (x ∷ xs) =
    ground (arith, length-without_seen seen xs, length-without_seen (x ∷ seen) xs)

length-top : (o : QuestionOutcome) (k : ℕ) → length (top o k) ≤ k
unfolding top
length-top o k =
    omega (arith, length-without_seen [] (take k o.retrieved), length-take k o.retrieved)

-- Does a list have a member of the other?
abbrev meets : List String → List String → Bool
meets relevant [] = false
meets relevant (x ∷ xs) = is_member relevant x || meets relevant xs

meets-cons :
    (relevant xs : List String) (y : String)
    → is_member xs y ≡ true
    → meets (y ∷ relevant) xs ≡ true
meets-cons relevant [] y h = cc
meets-cons relevant (x ∷ xs) y h = ground (arith, meets-cons relevant xs y, eq_iff x y, eq_iff y x)

meets-weaken :
    (relevant xs : List String) (y : String)
    → meets relevant xs ≡ true
    → meets (y ∷ relevant) xs ≡ true
meets-weaken relevant [] y h = cc
meets-weaken relevant (x ∷ xs) y h = ground (arith, meets-weaken relevant xs y)

meets-count : (relevant xs : List String) → 0 < count_members xs relevant → meets relevant xs ≡ true
unfolding count_members
meets-count [] xs h = absurd (omega (arith, h))
meets-count (y ∷ relevant) xs h =
    ground (arith, meets-cons relevant xs y, meets-count relevant xs, meets-weaken relevant xs y)

count-meets :
    (relevant xs ys : List String)
    → meets relevant xs ≡ true
    → ((x : String) → is_member xs x ≡ true → is_member ys x ≡ true)
    → 0 < count_members ys relevant
count-meets relevant [] ys h all = cc
count-meets relevant (x ∷ xs) ys h all = elim (Bool-cases (is_member relevant x)) [
  | inl here ↦ count_members-pos ys relevant x (all x (ground (arith, eq_refl x))) here
  | inr other ↦
      count-meets relevant xs ys (ground (arith, other, h)) (λ y m. all y (ground (arith, m)))
]

first_rank-cases :
    (relevant : List String) (index : ℕ) (xs : List String)
    → ((meets relevant xs ≡ false) × (first_rank relevant index xs ≡ (0, 1)))
      ⊎ ((meets relevant xs ≡ true)
          × ((i : ℕ) × (index ≤ i)
              × (i < index + length xs)
              × (first_rank relevant index xs ≡ (1, i))))
unfolding first_rank
first_rank-cases relevant index [] = inl (refl, refl)
first_rank-cases relevant index (x ∷ xs) = elim (Bool-cases (is_member relevant x)) [
  | inl here ↦ rw here (inr (refl, (index, omega arith, omega arith, refl)))
  | inr other ↦ rw other (elim (first_rank-cases relevant (suc index) xs) [
    | inl (apart, r) ↦ inl (apart, r)
    | inr (joint, (i, low, high, r)) ↦ inr (joint, (i, omega (arith, low), omega (arith, high), r))
  ])
]

-- At a positive cut-off: either nothing relevant is among the first, and all three scores are 0; or
-- the recall is a positive share of at most 1, the hit is 1, and the reciprocal rank is one over a
-- rank between 1 and the cut-off.
scores_agree :
    (o : QuestionOutcome) (n : ℕ)
    → ((recall_at_k o (pos (suc n)) ≡ some (0, length o.relevant))
        × (hit_at_k o (pos (suc n)) ≡ some 0)
        × (reciprocal_rank o (pos (suc n)) ≡ some (0, 1)))
      ⊎ ((found i : ℕ) × (0 < found)
          × (found ≤ length o.relevant)
          × (recall_at_k o (pos (suc n)) ≡ some (found, length o.relevant))
          × (hit_at_k o (pos (suc n)) ≡ some 1)
          × (1 ≤ i)
          × (i ≤ suc n)
          × (reciprocal_rank o (pos (suc n)) ≡ some (1, i)))
unfolding recall_at_k hit_at_k reciprocal_rank
scores_agree o n =
    let t = top o (suc n) in
    let found = count_members t o.relevant in
    elim (first_rank-cases o.relevant 1 t) [
      | inl (apart, r) ↦
          let e : found ≡ 0 = ground (arith, apart, meets-count o.relevant t) in
          inl (rw e refl, rw e refl, rw r refl)
      | inr (joint, (i, low, high, r)) ↦
          let p = count-meets o.relevant t t joint (λ x m. m) in
          inr (
            found,
            i,
            p,
            count_members-le t o.relevant,
            refl,
            ground (arith, p),
            low,
            omega (arith, high, length-top o (suc n)),
            rw r refl,
          )
    ]
