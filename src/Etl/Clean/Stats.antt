-- ===== src/Etl/Clean/Stats.antt =====
-- What `clean` of backend/etl/clean.py keeps, in which order, and what its counts say.
use lumina_ai.Prelude.{
  ltb, ◌*◌, ◌<◌, ◌≤◌, Bool-cases, if◌then◌else◌, ℕ, suc, ◌+◌, ◌≡◌, refl, sym, ap, ◌∙◌, ◌⊎◌, inl,
  inr, String, Bool, true, false, none, List, [], ◌∷◌, ◌++◌, length, length-append, arith,
}
use lumina_ai.Prelude.Texts.{Text, is_blank, is_empty}
use lumina_ai.Etl.Chunk.{Block}
use lumina_ai.Etl.Clean.Normal.{normalize, normalize_for_match}
use lumina_ai.Etl.Clean.{
  count_bad, Ordered, Fate, keep, drop_it, remove_it, fate, is_table, is_garbled,
  repeated_page_texts, note_block, note_blocks, is_header, clean_blocks, clean,
}

-- Blocks with their positions from `n` on.
abbrev pub number : ℕ → List Block → List Ordered
number n [] = []
number n (b ∷ bs) = record { order = n; block = b } ∷ number (suc n) bs

length-number : (n : ℕ) (bs : List Block) → length (number n bs) ≡ length bs
length-number n [] = refl
length-number n (b ∷ bs) = ap suc (length-number (suc n) bs)

append_one {ℓ} :
    {A : Type ℓ} (xs : List A) (x : A) (ys : List A) → (xs ++ x ∷ []) ++ ys ≡ xs ++ x ∷ ys
append_one [] x ys = refl
append_one (y ∷ xs) x ys = ap (λ r. y ∷ r) (append_one xs x ys)

append_nil {ℓ} : {A : Type ℓ} (xs : List A) → xs ++ [] ≡ xs
append_nil [] = refl
append_nil (x ∷ xs) = ap (λ r. x ∷ r) (append_nil xs)

Fate-cases : (f : Fate) → (f ≡ remove_it) ⊎ (f ≡ drop_it) ⊎ ((k : Block) × (f ≡ keep k))
Fate-cases remove_it = inl refl
Fate-cases drop_it = inr (inl refl)
Fate-cases (keep k) = inr (inr (k, refl))

module _ (is_control : ℕ → Bool) (classify : Text → String × Bool) where
  -- The blocks that are kept, by the fate of each alone.
  abbrev pub kept_of : List (Text × List ℕ) → List Block → List Block
  kept_of headers [] = []
  kept_of headers (b ∷ bs) = elim (fate is_control classify headers b) [
    | keep k ↦ k ∷ kept_of headers bs
    | _ ↦ kept_of headers bs
  ]

  clean_blocks_lem :
      (headers : List (Text × List ℕ)) (bs : List Block) (kept : List Ordered) (dropped removed : ℕ)
      → (next_dropped : ℕ) × ((next_removed : ℕ) × ((clean_blocks is_control classify headers bs
                kept dropped removed
              ≡ (kept ++ number (length kept) (kept_of headers bs), (next_dropped, next_removed)))
            × (length (kept_of headers bs) + next_dropped + next_removed
                ≡ length bs + dropped + removed)))
  unfolding clean_blocks
  clean_blocks_lem headers [] kept dropped removed =
      (dropped, (removed, (ap (λ k. (k, (dropped, removed))) (sym (append_nil kept)), refl)))
  clean_blocks_lem headers (b ∷ bs) kept dropped removed =
      elim (Fate-cases (fate is_control classify headers b)) [
        | inl gone ↦
            let (d, (r, (e, sum))) = clean_blocks_lem headers bs kept dropped (suc removed) in
            let skipped : kept_of headers (b ∷ bs) ≡ kept_of headers bs = rw (gone, kept_of) refl in
            (d, (r, (rw (gone, clean_blocks) (rw skipped e), rw skipped (omega (arith, sum)))))
        | inr (inl gone) ↦
            let (d, (r, (e, sum))) = clean_blocks_lem headers bs kept (suc dropped) removed in
            let skipped : kept_of headers (b ∷ bs) ≡ kept_of headers bs = rw (gone, kept_of) refl in
            (d, (r, (rw (gone, clean_blocks) (rw skipped e), rw skipped (omega (arith, sum)))))
        | inr (inr (k, kept_k)) ↦
            let o : Ordered = record { order = length kept; block = k } in
            let (d, (r, (e, sum))) =
              clean_blocks_lem headers bs (kept ++ (o ∷ [])) dropped removed in
            let taken : kept_of headers (b ∷ bs) ≡ k ∷ kept_of headers bs =
              rw (kept_k, kept_of) refl in
            let longer : length (kept ++ (o ∷ [])) ≡ suc (length kept) =
              omega (arith, length-append kept (o ∷ [])) in
            let joined =
              ap (λ n. (kept ++ (o ∷ [])) ++ number n (kept_of headers bs)) longer
              ∙ append_one kept o (number (suc (length kept)) (kept_of headers bs)) in
            (
              d,
              (
                r,
                (
                  rw (kept_k, clean_blocks) (rw taken (e ∙ ap (λ xs. (xs, (d, r))) joined)),
                  rw taken (omega (arith, sum)),
                ),
              ),
            )
      ]

  -- The text of a block as it is kept.
  abbrev pub text_of : Block → Text
  text_of b = if is_table b then b.text else normalize b.text

  abbrev pub IsHeader : List (Text × List ℕ) → Block → Type 0
  IsHeader headers b = is_header headers (normalize_for_match b.text) ≡ true

  abbrev garbled : Text → Bool
  garbled t = ltb (3 * length t) (10 * count_bad is_control classify t)

  -- More than three tenths of the characters are bad.
  abbrev pub IsGarbled : Text → Type 0
  IsGarbled t = 3 * length t < 10 * count_bad is_control classify t

  -- Why a block is left out: it is a repeated header, blank, or garbled and no table.
  abbrev pub IsLeftOut : List (Text × List ℕ) → Block → Type 0
  IsLeftOut headers b =
      IsHeader headers b
      ⊎ (is_blank (text_of b) ≡ true)
      ⊎ ((is_table b ≡ false) × IsGarbled (text_of b))

  -- What a kept block is: its own kind, page and headings with the text of the block, which is no
  -- header, not blank and, but for a table, not garbled.
  abbrev pub KeptFrom : List (Text × List ℕ) → Block → Block → Type 0
  KeptFrom headers b k =
      (k ≡ record b { text = text_of b })
      × (is_header headers (normalize_for_match b.text) ≡ false)
      × (is_blank (text_of b) ≡ false)
      × ((is_table b ≡ true)
          ⊎ (10 * count_bad is_control classify (text_of b) ≤ 3 * length (text_of b)))

  empty_is_blank : (t : Text) → is_empty t ≡ true → is_blank t ≡ true
  unfolding is_blank
  empty_is_blank [] h = refl
  empty_is_blank (c ∷ t) h = ground arith

  fate_known :
      (headers : List (Text × List ℕ)) (b : Block)
      → (((fate is_control classify headers b ≡ remove_it)
            ⊎ (fate is_control classify headers b ≡ drop_it))
          × IsLeftOut headers b)
        ⊎ ((fate is_control classify headers b ≡ keep (record b { text = text_of b }))
            × KeptFrom headers b (record b { text = text_of b }))
  unfolding fate is_garbled
  fate_known headers b = elim (Bool-cases (is_header headers (normalize_for_match b.text))) [
    | inl header ↦ inl (inl (ground (arith, header)), inl header)
    | inr plain ↦ elim (Bool-cases (is_blank (text_of b))) [
      | inl blank ↦ inl (inr (ground (arith, plain, blank)), inr (inl blank))
      | inr solid ↦ elim (Bool-cases (is_table b)) [
        | inl tabular ↦
            inr (ground (arith, plain, solid, tabular), (refl, plain, solid, inl tabular))
        | inr prose ↦ elim (Bool-cases (garbled (text_of b))) [
          | inl bad ↦ inl (
            inr (ground (arith, plain, solid, prose, bad)),
            inr (inr (prose, ground (arith, bad))),
          )
          | inr good ↦ inr (
            ground (arith, plain, solid, prose, good, empty_is_blank (text_of b)),
            (refl, plain, solid, inr (ground (arith, good))),
          )
        ]
      ]
    ]
  ]

  -- In their order, the kept blocks come from blocks of the document, and the others are left out
  -- for a reason.
  pub data KeptInOrder (headers : List (Text × List ℕ)) : List Block → List Block → Type 0 where
    none_left : KeptInOrder headers [] []
    skips :
        {b : Block} {bs ks : List Block}
        → IsLeftOut headers b
        → KeptInOrder headers bs ks
        → KeptInOrder headers (b ∷ bs) ks
    takes :
        {b k : Block} {bs ks : List Block}
        → KeptFrom headers b k
        → KeptInOrder headers bs ks
        → KeptInOrder headers (b ∷ bs) (k ∷ ks)

  kept_of-KeptInOrder :
      (headers : List (Text × List ℕ)) (bs : List Block)
      → KeptInOrder headers bs (kept_of headers bs)
  kept_of-KeptInOrder headers [] = none_left
  kept_of-KeptInOrder headers (b ∷ bs) =
      let rest = kept_of-KeptInOrder headers bs in
      elim (fate_known headers b) [
        | inl (inl gone, why) ↦ rw (gone, kept_of) (skips why rest)
        | inl (inr gone, why) ↦ rw (gone, kept_of) (skips why rest)
        | inr (kept_b, from) ↦ rw (kept_b, kept_of) (takes from rest)
      ]

  -- The cleaned document has, numbered from 0 and in their order, exactly the blocks that are no
  -- repeated header, not blank and, but for tables, not garbled: each with its own kind, page and
  -- headings, its text normalised unless it is a table. The kept and the dropped ones make up the
  -- total of the statistics, and with the removed headers all the blocks of the document.
  pub clean_lem :
      (blocks : List Block)
      → (ks : List Block) × ((clean is_control classify blocks).0 ≡ number 0 ks)
        × KeptInOrder (repeated_page_texts blocks) blocks ks
        × (length (clean is_control classify blocks).0
              + (clean is_control classify blocks).1.dropped_blocks
            ≡ (clean is_control classify blocks).1.total_blocks)
        × ((clean is_control classify blocks).1.total_blocks
              + (clean is_control classify blocks).1.removed_headers
            ≡ length blocks)
  unfolding clean
  clean_lem blocks =
      let headers = repeated_page_texts blocks in
      let (d, (r, (e, sum))) = clean_blocks_lem headers blocks [] 0 0 in
      let kept_e = ap (λ p. p.0) e in
      let dropped_e = ap (λ p. p.1.0) e in
      let removed_e = ap (λ p. p.1.1) e in
      let size = ap length kept_e ∙ length-number 0 (kept_of headers blocks) in
      (
        kept_of headers blocks,
        kept_e,
        kept_of-KeptInOrder headers blocks,
        omega (arith, size, sum, dropped_e, removed_e),
        omega (arith, sum, removed_e),
      )

abbrev pub HasNoPages : List Block → Type 0
HasNoPages [] = Unit {0}
HasNoPages (b ∷ bs) = (b.page ≡ none) × HasNoPages bs

note_nothing :
    (bs : List Block) (noted : List (Text × List ℕ)) → HasNoPages bs → note_blocks bs noted ≡ noted
unfolding note_blocks note_block
note_nothing [] noted h = refl
note_nothing (b ∷ bs) noted h = rw (h.0, note_blocks, note_block) (note_nothing bs noted h.1)

module _ (is_control : ℕ → Bool) (classify : Text → String × Bool) where
  remove_nothing :
      (bs : List Block) (kept : List Ordered) (dropped removed : ℕ)
      → (clean_blocks is_control classify [] bs kept dropped removed).1.1 ≡ removed
  unfolding clean_blocks fate is_header
  remove_nothing [] kept dropped removed = refl
  remove_nothing (b ∷ bs) kept dropped removed = elim (Fate-cases (fate is_control classify [] b)) [
    | inl gone ↦ ground (arith, gone)
    | inr (inl gone) ↦ rw (gone, clean_blocks) (remove_nothing bs kept (suc dropped) removed)
    | inr (inr (k, kept_k)) ↦
        rw (kept_k, clean_blocks)
          (remove_nothing bs (kept ++ (record { order = length kept; block = k } ∷ [])) dropped
            removed)
  ]

  -- A source without pages loses no block as a header or a footer, however often a text stands in
  -- it.
  pub clean_unpaged :
      (blocks : List Block)
      → HasNoPages blocks
      → (clean is_control classify blocks).1.removed_headers ≡ 0
  unfolding clean repeated_page_texts
  clean_unpaged blocks unpaged = rw (note_nothing blocks [] unpaged) (remove_nothing blocks [] 0 0)
