-- ===== src/Rag/Citation/Markers.antt =====
-- Which markers of an answer become citations, in which order, and which are dropped.
use lumina_ai.Prelude.{
  not, ℕ, zero, suc, ◌+◌, ◌≤◌, ◌<◌, ◌⊎◌, ◌≡◌, refl, sym, ap, ◌∙◌, Bool, true, false, Option, none,
  some, List, [], ◌∷◌, ◌++◌, map, arith, length, get_elem?, Bool-cases, Option-cases, inl, inr,
  if◌then◌else◌, take, leb,
}
use lumina_ai.Prelude.Texts.{Text, codes, decimal, same_text, strip}
use mathlib.Core.Path.{subst}
use lumina_ai.Redis.{is_some}
use lumina_ai.Rag.Fusion.Scores.{All}
use lumina_ai.Rag.Chunk.{Floats, RetrievedChunk}
use lumina_ai.Rag.Citation.Found.{Found, extract_markers-Found}
use lumina_ai.Rag.Citation.{
  marker_for, extract_markers, snippet_of, is_in, Citation, by_marker, citation_of, collect,
  assemble_citations,
}

plus_zero : (n : ℕ) → n + 0 ≡ n
plus_zero n = omega arith

zero_plus : (n : ℕ) → 0 + n ≡ n
zero_plus n = omega arith

plus_suc : (n m : ℕ) → n + suc m ≡ suc n + m
plus_suc n m = omega arith

same_text_iff : (t u : Text) → same_text t u ≡ true → t ≡ u
same_text_iff [] [] h = refl
same_text_iff [] (d ∷ u) h = cc
same_text_iff (c ∷ t) [] h = cc
same_text_iff (c ∷ t) (d ∷ u) h = ground (arith, same_text_iff t u)

append-one {ℓ} :
    {A : Type ℓ} (xs : List A) (x : A) (ys : List A) → (xs ++ x ∷ []) ++ ys ≡ xs ++ x ∷ ys
append-one [] x ys = refl
append-one (y ∷ xs) x ys = ap (λ r. y ∷ r) (append-one xs x ys)

append-nil {ℓ} : {A : Type ℓ} (xs : List A) → xs ++ [] ≡ xs
append-nil [] = refl
append-nil (x ∷ xs) = ap (λ r. x ∷ r) (append-nil xs)

map-append {ℓ κ} :
    {A : Type ℓ} {B : Type κ} (g : A → B) (xs ys : List A) → map g (xs ++ ys) ≡ map g xs ++ map g ys
map-append g [] ys = refl
map-append g (x ∷ xs) ys = ap (λ r. g x ∷ r) (map-append g xs ys)

All-append {ℓ} :
    {A : Type ℓ} (P : A → Type 0) (xs ys : List A) → All P xs → All P ys → All P (xs ++ ys)
All-append P [] ys h k = k
All-append P (x ∷ xs) ys h k = (h.0, All-append P xs ys h.1 k)

-- The texts that are not among `seen`, each where it first occurs.
abbrev pub first_seen : List Text → List Text → List Text
first_seen seen [] = []
first_seen seen (m ∷ ms) =
    let known = first_seen seen ms in
    let fresh = m ∷ first_seen (seen ++ m ∷ []) ms in if is_in seen m then known else fresh

-- The content without the spaces around it, where it is long its beginning with an ellipsis.
abbrev pub IsSnippet : Text → Text → Type 0
IsSnippet content snippet =
    ((length (strip content) ≤ 240) × (snippet ≡ strip content))
    ⊎ ((240 < length (strip content)) × (snippet ≡ take 240 (strip content) ++ 0x2026 ∷ []))

-- The marker is one of the `n` numbers from an index on, as they are written from 1 on.
abbrev pub names : ℕ → ℕ → Text → Bool
names index zero m = false
names index (suc n) m =
    let later = names (suc index) n m in
    if same_text (codes (decimal (index + 1))) m then true else later

abbrev pub keep_if : (Text → Bool) → List Text → List Text
keep_if p [] = []
keep_if p (m ∷ ms) = let rest = keep_if p ms in if p m then m ∷ rest else rest

module _ (f : Floats) where
  -- The markers that are keys of the dictionary, or those that are not.
  abbrev pub select : Bool → (Text → Option (RetrievedChunk f)) → List Text → List Text
  select wanted find [] = []
  select wanted find (m ∷ ms) =
      let rest = select wanted find ms in
      elim wanted [
        | true ↦ if is_some (find m) then m ∷ rest else rest
        | false ↦ if is_some (find m) then rest else m ∷ rest
      ]

  abbrev pub marker_of : Citation f → Text
  marker_of c = c.marker

  marker-citation_of : (m : Text) (chunk : RetrievedChunk f) → (citation_of f m chunk).marker ≡ m
  unfolding citation_of
  marker-citation_of m chunk = refl

  -- A step of the loop on a marker that names no passage, on one that was used, and on a new one.
  module _ (find : Text → Option (RetrievedChunk f)) (m : Text) (ms : List Text)
      (cs : List (Citation f)) (dropped used : List Text) where
    collect-none :
        find m ≡ none
        → collect f find (m ∷ ms) cs dropped used
          ≡ collect f find ms cs (if is_in dropped m then dropped else dropped ++ m ∷ []) used
    unfolding collect
    collect-none e = ground (arith, e)

    collect-used :
        (chunk : RetrievedChunk f)
        → find m ≡ some chunk
        → is_in used m ≡ true
        → collect f find (m ∷ ms) cs dropped used ≡ collect f find ms cs dropped used
    unfolding collect
    collect-used chunk e old = ground (arith, e, old)

    collect-new :
        (chunk : RetrievedChunk f)
        → find m ≡ some chunk
        → is_in used m ≡ false
        → collect f find (m ∷ ms) cs dropped used
          ≡ collect f find ms (cs ++ citation_of f m chunk ∷ []) dropped (used ++ m ∷ [])
    unfolding collect
    collect-new chunk e new = ground (arith, e, new)

  collect-markers :
      (find : Text → Option (RetrievedChunk f)) (ms : List Text) (cs : List (Citation f))
      (dropped used : List Text)
      → (map marker_of (collect f find ms cs dropped used).citations
          ≡ map marker_of cs ++ first_seen used (select true find ms))
        × ((collect f find ms cs dropped used).dropped_markers
            ≡ dropped ++ first_seen dropped (select false find ms))
  unfolding collect
  collect-markers find [] cs dropped used = (sym (append-nil _), sym (append-nil dropped))
  collect-markers find (m ∷ ms) cs dropped used = elim (Option-cases (find m)) [
    | inl e ↦ elim (Bool-cases (is_in dropped m)) [
      | inl old ↦
          rw (collect-none find m ms cs dropped used e, e, old)
            (collect-markers find ms cs dropped used)
      | inr new ↦
          let ih = collect-markers find ms cs (dropped ++ m ∷ []) used in
          rw (collect-none find m ms cs dropped used e, e, new)
            (ih.0, ih.1 ∙ append-one dropped m _)
    ]
    | inr (chunk, e) ↦ elim (Bool-cases (is_in used m)) [
      | inl old ↦
          rw (collect-used find m ms cs dropped used chunk e old, e, old)
            (collect-markers find ms cs dropped used)
      | inr new ↦
          let ih =
            collect-markers find ms (cs ++ citation_of f m chunk ∷ []) dropped (used ++ m ∷ []) in
          let last = map-append marker_of cs (citation_of f m chunk ∷ []) in
          rw (collect-new find m ms cs dropped used chunk e new, e, new)
            (
              ih.0
                  ∙ ap (λ r. r ++ first_seen (used ++ m ∷ []) (select true find ms))
                      (last ∙ ap (λ t. map marker_of cs ++ t ∷ []) (marker-citation_of m chunk))
                  ∙ append-one (map marker_of cs) m _,
              ih.1,
            )
    ]
  ]

  some_named :
      (index : ℕ) (chunks : List (RetrievedChunk f)) (m : Text)
      → is_some (by_marker f index chunks m) ≡ names index (length chunks) m
  unfolding marker_for
  some_named index [] m = refl
  some_named index (c ∷ cs) m = elim (Option-cases (by_marker f (suc index) cs m)) [
    | inl never ↦
        let rest : names (suc index) (length cs) m ≡ false =
          sym (some_named (suc index) cs m) ∙ ap is_some never in
        elim (Bool-cases (same_text (marker_for index) m)) [
          | inl here ↦ rw (never, here) refl
          | inr other ↦ rw (never, other, rest) refl
        ]
    | inr (later, found) ↦
        let rest : names (suc index) (length cs) m ≡ true =
          sym (some_named (suc index) cs m) ∙ ap is_some found in
        elim (Bool-cases (same_text (marker_for index) m)) [
          | inl here ↦ rw (found, here) refl
          | inr other ↦ rw (found, other, rest) refl
        ]
  ]

  select-named :
      (chunks : List (RetrievedChunk f)) (ms : List Text)
      → (select true (by_marker f 0 chunks) ms ≡ keep_if (names 0 (length chunks)) ms)
        × (select false (by_marker f 0 chunks) ms
            ≡ keep_if (λ m. not (names 0 (length chunks) m)) ms)
  select-named chunks [] = (refl, refl)
  select-named chunks (m ∷ ms) =
      let (named, unnamed) = select-named chunks ms in
      let same = some_named 0 chunks m in
      elim (Bool-cases (names 0 (length chunks) m)) [
        | inl yes_named ↦ rw (same, yes_named) (ap (λ l. m ∷ l) named, unnamed)
        | inr not_named ↦ rw (same, not_named) (named, ap (λ l. m ∷ l) unnamed)
      ]

  -- Let `ms` be the markers of an answer, found from left to right. The citations are, in order,
  -- those of them that are the number of a passage, each where it first occurs; the dropped markers
  -- are the others, each where it first occurs.
  pub assemble_citations_lem :
      (text : Text) (chunks : List (RetrievedChunk f))
      → (ms : List Text) × Found text ms
        × (map marker_of (assemble_citations f text chunks).citations
            ≡ first_seen [] (keep_if (names 0 (length chunks)) ms))
        × ((assemble_citations f text chunks).dropped_markers
            ≡ first_seen [] (keep_if (λ m. not (names 0 (length chunks) m)) ms))
  unfolding assemble_citations
  assemble_citations_lem text chunks =
      let (kept, lost) = collect-markers (by_marker f 0 chunks) (extract_markers text) [] [] [] in
      (
        extract_markers text,
        extract_markers-Found text,
        kept ∙ ap (first_seen []) (select-named chunks (extract_markers text)).0,
        lost ∙ ap (first_seen []) (select-named chunks (extract_markers text)).1,
      )

  by_marker_sound :
      (index : ℕ) (chunks : List (RetrievedChunk f)) (m : Text) (chunk : RetrievedChunk f)
      → by_marker f index chunks m ≡ some chunk
      → (j : ℕ) × (get_elem? chunks j ≡ some chunk) × (marker_for (index + j) ≡ m)
  by_marker_sound index [] m chunk e = cc
  by_marker_sound index (c ∷ cs) m chunk e = elim (Option-cases (by_marker f (suc index) cs m)) [
    | inl none_later ↦ elim (Bool-cases (same_text (marker_for index) m)) [
      | inl here ↦ (
        0,
        ground (arith, none_later, here, e),
        ap marker_for (plus_zero index) ∙ same_text_iff (marker_for index) m here,
      )
      | inr other ↦ ground (arith, none_later, other, e)
    ]
    | inr (later, found) ↦
        let ih = by_marker_sound (suc index) cs m chunk (ground (arith, found, e)) in
        (suc ih.0, ih.1, ap marker_for (plus_suc index ih.0) ∙ ih.2)
  ]

  -- A citation that comes from one of the passages.
  abbrev pub IsCitation : (Text → Option (RetrievedChunk f)) → Citation f → Type 0
  IsCitation find c =
      (chunk : RetrievedChunk f) × (find c.marker ≡ some chunk) × (c ≡ citation_of f c.marker chunk)

  is_citation :
      (find : Text → Option (RetrievedChunk f)) (m : Text) (chunk : RetrievedChunk f)
      → find m ≡ some chunk
      → IsCitation find (citation_of f m chunk)
  unfolding citation_of
  is_citation find m chunk e = (chunk, e, refl)

  collect-IsCitation :
      (find : Text → Option (RetrievedChunk f)) (ms : List Text) (cs : List (Citation f))
      (dropped used : List Text)
      → All (IsCitation find) cs
      → All (IsCitation find) (collect f find ms cs dropped used).citations
  unfolding collect
  collect-IsCitation find [] cs dropped used h = h
  collect-IsCitation find (m ∷ ms) cs dropped used h = elim (Option-cases (find m)) [
    | inl e ↦ rw (collect-none find m ms cs dropped used e) (collect-IsCitation find ms cs _ used h)
    | inr (chunk, e) ↦ elim (Bool-cases (is_in used m)) [
      | inl old ↦
          rw (collect-used find m ms cs dropped used chunk e old)
            (collect-IsCitation find ms cs dropped used h)
      | inr new ↦ rw (collect-new find m ms cs dropped used chunk e new) (
          collect-IsCitation find ms (cs ++ citation_of f m chunk ∷ []) dropped (used ++ m ∷ [])
            (All-append (IsCitation find) cs _ h (is_citation find m chunk e, tt)))
    ]
  ]

  some_injective {ℓ} : {A : Type ℓ} {a b : A} → some a ≡ some b → a ≡ b
  some_injective {a = a} e = ap (λ o. elim o [ none ↦ a | some v ↦ v ]) e

  All-get {ℓ} :
      {A : Type ℓ} (P : A → Type 0) (xs : List A) (n : ℕ) (x : A)
      → All P xs
      → get_elem? xs n ≡ some x
      → P x
  All-get P [] n x h e = cc
  All-get P (y ∷ ys) zero x h e = subst P (some_injective e) h.0
  All-get P (y ∷ ys) (suc n) x h e = All-get P ys n x h.1 e

  IsSnippet-snippet_of : (t : Text) → IsSnippet t (snippet_of t)
  unfolding snippet_of
  IsSnippet-snippet_of t = elim (Bool-cases (leb (length (strip t)) 240)) [
    | inl short ↦ rw short (inl (ground (arith, short), refl))
    | inr long ↦ rw long (inr (ground (arith, long), refl))
  ]

  -- What a citation says of a passage.
  abbrev pub Shows : ℕ → RetrievedChunk f → Citation f → Type 0
  Shows j chunk c =
      (c.marker ≡ codes (decimal (j + 1)))
      × (c.chunk_id ≡ chunk.chunk_id)
      × (c.doc_id ≡ chunk.document_id)
      × (c.doc_name ≡ chunk.document_name)
      × (c.doc_version ≡ chunk.doc_version)
      × (c.page ≡ chunk.page)
      × (c.heading_path ≡ chunk.heading_path)
      × (c.score ≡ chunk.score)
      × IsSnippet chunk.content c.snippet

  citation_of-Shows :
      (j : ℕ) (chunk : RetrievedChunk f) → Shows j chunk (citation_of f (marker_for j) chunk)
  unfolding citation_of marker_for
  citation_of-Shows j chunk =
      (refl, refl, refl, refl, refl, refl, refl, refl, IsSnippet-snippet_of chunk.content)

  -- Every citation shows a passage that the model was given: under the number of that passage, with
  -- its chunk, document, version, page, headings and score, and as snippet its content without the
  -- spaces around it, cut after 240 characters.
  pub assemble_citations_sound :
      (text : Text) (chunks : List (RetrievedChunk f)) (n : ℕ) (c : Citation f)
      → get_elem? (assemble_citations f text chunks).citations n ≡ some c
      → (j : ℕ) × (chunk : RetrievedChunk f) × (get_elem? chunks j ≡ some chunk) × Shows j chunk c
  unfolding assemble_citations
  assemble_citations_sound text chunks n c e =
      let find = by_marker f 0 chunks in
      let p =
        All-get (IsCitation find) _ n c (collect-IsCitation find (extract_markers text) [] [] [] tt)
          e in
      let q = by_marker_sound 0 chunks c.marker p.0 p.1 in
      let shown = p.2 ∙ ap (λ m. citation_of f m p.0) (sym q.2 ∙ ap marker_for (zero_plus q.0)) in
      (q.0, p.0, q.1, subst (Shows q.0 p.0) (sym shown) (citation_of-Shows q.0 p.0))
