-- ===== src/Gateway/Embed/Calls.antt =====
-- The calls behind `embed` of backend/ai/gateway/__init__.py, and what it returns.
use lumina_ai.Prelude.{
  ℕ, zero, suc, ◌+◌, ◌≤◌, ◌<◌, ◌≡◌, inl, inr, refl, sym, ap, ◌∙◌, Bool, true, false, some, List, [],
  ◌∷◌, length, ltb, arith, Bool-cases, ◌⊎◌,
}
use lumina_ai.Prelude.Texts.{Text}
use lumina_ai.Gateway.Chat.{is_retryable, dimension_mismatch, timeout, unavailable}
use lumina_ai.Gateway.Embed.{
  Embedding, Reply, replied, failed, timed_out, crashed, Timed, Result, ok, raised, EmbedResult,
  call_once, classify, Retried, call_with_retry, retry_after, settled, once_more, checked,
  all_of_size, EmbedGateway, embed,
}

module _ {Float : Type 0} where
  -- Whether another call may follow.
  abbrev pub is_retried : Result (Embedding Float) → Bool
  is_retried (ok a) = false
  is_retried (raised e) = is_retryable e

  abbrev pub AllOfSize : ℕ → List (List Float) → Type 0
  AllOfSize n [] = Unit {0}
  AllOfSize n (v ∷ vs) = (length v ≡ n) × AllOfSize n vs

  all_of_size-AllOfSize :
      (n : ℕ) (vs : List (List Float)) → all_of_size n vs ≡ true → AllOfSize n vs
  unfolding all_of_size
  all_of_size-AllOfSize n [] e = tt
  all_of_size-AllOfSize n (v ∷ vs) e =
      (ground (arith, e), all_of_size-AllOfSize n vs (ground (arith, e)))

  -- The call that settles the loop: those before it failed in a way that is retried, and it did not, or
  -- there is none left.
  abbrev pub IsSettledBy : ℕ → (ℕ → Timed Float) → List ℕ → ℕ → ℕ → Type 0
  IsSettledBy limit provider backoff k j =
      (j ≤ length backoff)
      × ((i : ℕ) → i < j → is_retried (call_once limit (provider (k + i))) ≡ true)
      × (is_retried (call_once limit (provider (k + j))) ≡ true → j ≡ length backoff)

  retry_after-settled :
      (d : ℕ) (r : Result (Embedding Float)) (rest : Retried Float)
      → is_retried r ≡ false
      → retry_after d r rest ≡ settled r
  retry_after-settled d (ok e) rest final = refl
  retry_after-settled d (raised x) rest final = rw final

  retry_after-once_more :
      (d : ℕ) (r : Result (Embedding Float)) (rest : Retried Float)
      → is_retried r ≡ true
      → retry_after d r rest ≡ once_more d rest
  retry_after-once_more d (ok e) rest again = cc
  retry_after-once_more d (raised x) rest again = rw again

  call_with_retry_lem :
      (limit : ℕ) (provider : ℕ → Timed Float) (backoff : List ℕ) (k : ℕ)
      → (j : ℕ) × IsSettledBy limit provider backoff k j
        × ((call_with_retry limit provider backoff k).result ≡ call_once limit (provider (k + j)))
        × ((call_with_retry limit provider backoff k).calls ≡ suc j)
  unfolding call_with_retry
  call_with_retry_lem limit provider [] k =
      let same : k ≡ k + 0 = omega arith in
      (
        0,
        (omega arith, λ i below. absurd (omega arith), λ again. refl),
        ap (λ n. call_once limit (provider n)) same,
        refl,
      )
  call_with_retry_lem limit provider (d ∷ ds) k =
      let first = call_once limit (provider k) in
      let rest = call_with_retry limit provider ds (suc k) in
      let (j, (few, before, last), result, calls) = call_with_retry_lem limit provider ds (suc k) in
      let here : k + 0 ≡ k = omega arith in
      let next : suc k + j ≡ k + suc j = omega arith in
      elim (Bool-cases (is_retried first)) [
        | inl again ↦ rw (retry_after-once_more d first rest again) (
          suc j,
          (
            omega arith,
            earlier j again before,
            λ e. ap suc (last (ap (λ n. is_retried (call_once limit (provider n))) next ∙ e)),
          ),
          result ∙ ap (λ n. call_once limit (provider n)) next,
          ap suc calls,
        )
        | inr final ↦ rw (retry_after-settled d first rest final) (
          0,
          (
            omega arith,
            λ i below. absurd (omega arith),
            λ e. cc (ap (λ n. is_retried (call_once limit (provider n))) here, e, final),
          ),
          ap (λ n. call_once limit (provider n)) (sym here),
          refl,
        )
      ]
    where
      earlier :
          (j : ℕ)
          → is_retried (call_once limit (provider k)) ≡ true
          → ((i : ℕ) → i < j → is_retried (call_once limit (provider (suc k + i))) ≡ true)
          → (i : ℕ) → i < suc j
          → is_retried (call_once limit (provider (k + i))) ≡ true
      earlier j again before zero below =
          let here : k + 0 ≡ k = omega arith in
          ap (λ n. is_retried (call_once limit (provider n))) here ∙ again
      earlier j again before (suc i) below =
          let next : k + suc i ≡ suc k + i = omega arith in
          ap (λ n. is_retried (call_once limit (provider n))) next ∙ before i (omega arith)

module _ {Float : Type 0} where
  -- What one call comes to in the end.
  abbrev pub Gives : ℕ → ℕ → ℕ → Reply Float → Result (EmbedResult Float) → Type 0
  Gives limit dimensions elapsed (replied e) r =
      (AllOfSize dimensions e.vectors
        × (r ≡ ok (record { vectors = e.vectors; model = e.model; usage = e.prompt_tokens })))
      ⊎ (¬ (AllOfSize dimensions e.vectors) × (r ≡ raised dimension_mismatch))
  Gives limit dimensions elapsed (failed x) r = r ≡ raised x
  Gives limit dimensions elapsed timed_out r = r ≡ raised timeout
  Gives limit dimensions elapsed crashed r =
      ((limit < elapsed) × (r ≡ raised timeout)) ⊎ ((elapsed ≤ limit) × (r ≡ raised unavailable))

  AllOfSize-all_of_size :
      (n : ℕ) (vs : List (List Float)) → AllOfSize n vs → all_of_size n vs ≡ true
  unfolding all_of_size
  AllOfSize-all_of_size n [] sizes = refl
  AllOfSize-all_of_size n (v ∷ vs) (size, sizes) =
      ground (arith, size, AllOfSize-all_of_size n vs sizes)

  checked-Gives :
      (limit dimensions : ℕ) (t : Timed Float) (reply : Reply Float)
      → t.reply ≡ reply
      → Gives limit dimensions t.elapsed reply (checked dimensions (call_once limit t))
  unfolding call_once classify
  checked-Gives limit dimensions t (replied e) is =
      elim (Bool-cases (all_of_size dimensions e.vectors)) [
        | inl right ↦
            rw (is, call_once, right) (inl (all_of_size-AllOfSize dimensions e.vectors right, refl))
        | inr wrong ↦
            rw (is, call_once, wrong)
              (inr (λ sizes. cc (AllOfSize-all_of_size dimensions e.vectors sizes, wrong), refl))
      ]
  checked-Gives limit dimensions t (failed x) is = rw (is, call_once) refl
  checked-Gives limit dimensions t timed_out is = rw (is, call_once) (ground arith)
  checked-Gives limit dimensions t crashed is = elim (Bool-cases (ltb limit t.elapsed)) [
    | inl late ↦ rw (is, call_once, late) (inl (ground (arith, late), refl))
    | inr in_time ↦ rw (is, call_once, in_time) (inr (ground (arith, in_time), refl))
  ]

-- `embed` of a batch that is not empty, with a provider: one call settles it. The calls before it
-- failed in a way that is retried, and it did not, or it used the last delay. Its reply is the result,
-- however late, if every vector has the size of the column, and an error if one has not; what it
-- raised is raised, an exception that is no error of a provider by how long the call took.
pub embed_lem :
    {Float : Type 0} (g : EmbedGateway Float) (provider : List Text → Text → ℕ → Timed Float)
    (t : Text) (ts : List Text) (model : Text)
    → g.provider ≡ some provider
    → (j : ℕ) × IsSettledBy g.timeout_seconds (provider (t ∷ ts) model) g.backoff 0 j
      × Gives g.timeout_seconds g.dimensions
          (provider (t ∷ ts) model j).elapsed
          (provider (t ∷ ts) model j).reply
          (embed g (t ∷ ts) model)
unfolding embed
embed_lem g provider t ts model found =
    let (j, settled_by, result, calls) =
      call_with_retry_lem g.timeout_seconds (provider (t ∷ ts) model) g.backoff 0 in
    let zero_first : 0 + j ≡ j = omega arith in
    let call = provider (t ∷ ts) model j in
    (
      j,
      settled_by,
      rw (found, embed, result, zero_first)
          (checked-Gives g.timeout_seconds g.dimensions call call.reply refl),
    )
