-- ===== src/Knowledge/Reindex/Coverage.antt =====
-- After `_embed_missing` of backend/services/knowledge/reindex.py every active chunk has a vector.
use lumina_ai.Prelude.{
  ℕ, zero, suc, ◌+◌, ◌≤◌, ◌≡◌, inl, inr, refl, sym, ◌∙◌, true, false, Option, some, List, [], ◌∷◌,
  ◌++◌, ◌==◌, map, take, drop, length, length-map, length-drop, take-append-drop, arith, Bool-cases,
  Option-cases,
}
use mathlib.Core.Path.{subst}
use lumina_ai.Prelude.Texts.{Text, same_text, is_empty}
use lumina_ai.Knowledge.Tables.{
  Chunk, Embedding, ReindexJob, Db, count, filter, is_version, is_active_chunk, lacks_embedding,
  upsert_embedding, upsert_row,
}
use lumina_ai.Knowledge.Tables.Sweep.{BadOnlyIn, bad_only_filter, bad_only_update}
use lumina_ai.Knowledge.Reindex.{
  EmbedReply, embed_batch_size, zip_strict, upsert, reported, is_renamed, store_batch,
  embed_batches,
}
use lumina_ai.Knowledge.Reindex.Counting.{is_uncovered}

same_text_refl : (t : Text) → same_text t t ≡ true
same_text_refl [] = refl
same_text_refl (c ∷ t) = ground (arith, same_text_refl t)

-- An upserted row is there.
upsert_embedding_there :
    (model : Text) (version vector : ℕ) (rows : List Embedding)
    → (count (is_version model version) (upsert_embedding model version vector rows) == 0) ≡ false
unfolding count upsert_embedding
upsert_embedding_there model version vector [] = ground (arith, same_text_refl model)
upsert_embedding_there model version vector (e ∷ es) =
    ground (arith, upsert_embedding_there model version vector es)

module _ (kb_id version : ℕ) (model : Text) where
  -- Every uncovered chunk of the table is one of `todo`.
  abbrev pub CoveredBut : List Chunk → List Chunk → Type 0
  CoveredBut todo cs = BadOnlyIn (λ c. c.id) (is_uncovered kb_id model version) todo cs

  filter_uncovered :
      (cs : List Chunk)
      → filter (lacks_embedding model version) (filter (is_active_chunk kb_id) cs)
        ≡ filter (is_uncovered kb_id model version) cs
  unfolding filter is_uncovered
  filter_uncovered [] = refl
  filter_uncovered (c ∷ cs) = ground (arith, filter_uncovered cs)

  -- At the start the chunks to embed are those that are uncovered.
  pub CoveredBut-missing :
      (cs : List Chunk)
      → CoveredBut (filter (lacks_embedding model version) (filter (is_active_chunk kb_id) cs)) cs
  CoveredBut-missing cs =
      rw (filter_uncovered cs) (bad_only_filter (λ c. c.id) (is_uncovered kb_id model version) cs)

  upsert_mends :
      (vector : ℕ) (c : Chunk)
      → is_uncovered kb_id model version
          (record c { embeddings = upsert_embedding model version vector c.embeddings })
        ≡ false
  unfolding is_uncovered lacks_embedding
  upsert_mends vector c = ground (arith, upsert_embedding_there model version vector c.embeddings)

  -- The rows of a batch cover the batch.
  CoveredBut-rows :
      (batch : List Chunk) (vectors : List ℕ) (rows : List (Chunk × ℕ)) (todo : List Chunk)
      (db : Db)
      → zip_strict batch vectors ≡ some rows
      → CoveredBut (batch ++ todo) db.chunks
      → CoveredBut todo (upsert model version rows db).chunks
  unfolding zip_strict upsert upsert_row
  CoveredBut-rows [] [] rows todo db zipped h = let e : rows ≡ [] = ground (arith, zipped) in rw e h
  CoveredBut-rows [] (v ∷ vs) rows todo db zipped h = ground arith
  CoveredBut-rows (c ∷ cs) [] rows todo db zipped h = ground arith
  CoveredBut-rows (c ∷ cs) (v ∷ vs) rows todo db zipped h = elim (Option-cases (zip_strict cs vs)) [
    | inl unequal ↦ ground (arith, zipped, unequal)
    | inr (rest, equal) ↦
        let e : rows ≡ (c, v) ∷ rest = ground (arith, zipped, equal) in
        rw e (
          CoveredBut-rows cs vs rest todo (upsert_row model version c.id v db) equal (
            bad_only_update (λ x. x.id) (is_uncovered kb_id model version)
              (λ x. record x { embeddings = upsert_embedding model version v x.embeddings }) c
              (cs ++ todo) db.chunks (upsert_mends v) h))
  ]

-- A provider that reports the name it was asked for, or none.
is_renamed_not :
    (reply : EmbedReply) (model : Text)
    → reported reply model ≡ model
    → is_renamed reply model ≡ false
is_renamed_not reply model same = elim (Bool-cases (is_empty reply.model)) [
  | inl unnamed ↦ ground (arith, unnamed)
  | inr named ↦
      let e : reply.model ≡ model = ground (arith, named, same) in
      let equal : same_text reply.model model ≡ true = rw e (same_text_refl model) in
      ground (arith, equal)
]

-- For `embed model`: it answers, with one vector for each text, under the name it was asked for.
abbrev pub Answers : (List Text → Text → Option EmbedReply) → Text → Type 0
Answers embed model =
    (texts : List Text)
    → (reply : EmbedReply) × ((embed texts model ≡ some reply)
        × (length reply.vectors ≡ length texts)
        × (reported reply model ≡ model))

zip_strict-some :
    (batch : List Chunk) (vectors : List ℕ)
    → length vectors ≡ length batch
    → (rows : List (Chunk × ℕ)) × (zip_strict batch vectors ≡ some rows)
unfolding zip_strict
zip_strict-some [] [] e = ([], refl)
zip_strict-some [] (v ∷ vs) e = ground arith
zip_strict-some (c ∷ cs) [] e = ground arith
zip_strict-some (c ∷ cs) (v ∷ vs) e =
    let (rest, equal) = zip_strict-some cs vs (omega arith) in ((c, v) ∷ rest, rw equal refl)

-- A row stored leaves the other tables alone.
abbrev pub KeepsOthers : Db → Db → Type 0
KeepsOthers db next = (next.jobs ≡ db.jobs) × (next.knowledge_bases ≡ db.knowledge_bases)

pub upsert-KeepsOthers :
    (model : Text) (version : ℕ) (rows : List (Chunk × ℕ)) (db : Db)
    → KeepsOthers db (upsert model version rows db)
unfolding upsert upsert_row
upsert-KeepsOthers model version [] db = (refl, refl)
upsert-KeepsOthers model version ((c, v) ∷ rows) db =
    upsert-KeepsOthers model version rows (upsert_row model version c.id v db)

store_batch_same :
    (now : ℕ) (job : ReindexJob) (reply : EmbedReply) (rows : List (Chunk × ℕ)) (db : Db)
    → reported reply job.target_model ≡ job.target_model
    → store_batch now job reply rows db
      ≡ some (upsert job.target_model job.target_embedding_version rows db, job)
unfolding store_batch
store_batch_same now job reply rows db same =
    rw (is_renamed_not reply job.target_model same, store_batch) (rw same refl)

module _ (embed : List Text → Text → Option EmbedReply) (now : ℕ) (job : ReindexJob)
    (answers : Answers embed job.target_model) where
  embed_batches_batch :
      (fuel : ℕ) (c : Chunk) (cs : List Chunk) (tokens : ℕ) (db : Db) (reply : EmbedReply)
      (rows : List (Chunk × ℕ)) (stored : Db)
      → embed (map (λ chunk. chunk.content) (take embed_batch_size (c ∷ cs))) job.target_model
        ≡ some reply
      → zip_strict (take embed_batch_size (c ∷ cs)) reply.vectors ≡ some rows
      → store_batch now job reply rows db ≡ some (stored, job)
      → embed_batches embed (suc fuel) now job (c ∷ cs) tokens db
        ≡ embed_batches embed fuel now job
            (drop embed_batch_size (c ∷ cs))
            (tokens + reply.total_tokens)
            stored
  unfolding embed_batches
  embed_batches_batch fuel c cs tokens db reply rows stored answered zipped s =
      rw (answered, zipped, s, embed_batches) refl

  embed_batches_step :
      (fuel : ℕ) (c : Chunk) (cs : List Chunk) (tokens : ℕ) (db : Db)
      → (rows : List (Chunk × ℕ)) × ((used : ℕ) × ((vectors : List ℕ) × ((zip_strict
                  (take embed_batch_size (c ∷ cs))
                  vectors
                ≡ some rows)
              × (embed_batches embed (suc fuel) now job (c ∷ cs) tokens db
                  ≡ embed_batches embed fuel now job
                      (drop embed_batch_size (c ∷ cs))
                      used
                      (upsert job.target_model job.target_embedding_version rows db)))))
  embed_batches_step fuel c cs tokens db =
      let batch = take embed_batch_size (c ∷ cs) in
      let (reply, (answered, one_each, same)) = answers (map (λ chunk. chunk.content) batch) in
      let (rows, zipped) =
        zip_strict-some batch reply.vectors
          (one_each ∙ length-map batch (λ chunk. chunk.content)) in
      (
        rows,
        (
          tokens + reply.total_tokens,
          (
            reply.vectors,
            (
              zipped,
              embed_batches_batch fuel c cs tokens db reply rows
                  (upsert job.target_model job.target_embedding_version rows db) answered zipped
                  (store_batch_same now job reply rows db same),
            ),
          ),
        ),
      )

  pub embed_batches_cover :
      (fuel : ℕ) (todo : List Chunk) (tokens : ℕ) (db : Db)
      → length todo ≤ fuel
      → CoveredBut job.kb_id job.target_embedding_version job.target_model todo db.chunks
      → (next : Db) × ((used : ℕ) × ((embed_batches embed fuel now job todo tokens db
              ≡ (next, some used))
            × CoveredBut job.kb_id job.target_embedding_version job.target_model [] next.chunks
            × KeepsOthers db next))
  unfolding embed_batches
  embed_batches_cover fuel [] tokens db enough h = (db, (tokens, (refl, h, (refl, refl))))
  embed_batches_cover zero (c ∷ cs) tokens db enough h = ground arith
  embed_batches_cover (suc fuel) (c ∷ cs) tokens db enough h =
      let (rows, (used, (vectors, (zipped, step)))) = embed_batches_step fuel c cs tokens db in
      let stored = upsert job.target_model job.target_embedding_version rows db in
      let batch = take embed_batch_size (c ∷ cs) in
      let rest = drop embed_batch_size (c ∷ cs) in
      let covered =
        CoveredBut-rows job.kb_id job.target_embedding_version job.target_model batch vectors rows
          rest db zipped
          (subst
            (λ todo.
              CoveredBut job.kb_id job.target_embedding_version job.target_model todo db.chunks)
            (sym (take-append-drop embed_batch_size (c ∷ cs))) h) in
      let (next, (total, (e, all_covered, (jobs, kbs)))) =
        embed_batches_cover fuel rest used stored
          (omega (arith, length-drop embed_batch_size (c ∷ cs))) covered in
      let (jobs', kbs') =
        upsert-KeepsOthers job.target_model job.target_embedding_version rows db in
      (next, (total, (step ∙ e, all_covered, (jobs ∙ jobs', kbs ∙ kbs'))))
