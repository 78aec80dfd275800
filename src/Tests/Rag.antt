-- ===== src/Tests/Rag.antt =====
-- Retrieval: two passages, two routes, and an answer that cites one passage and invents another.
use lumina_ai.Prelude.{
  List, not, ℕ, ◌≤◌, ◌≡◌, ◌⊎◌, refl, some, [], ◌∷◌, take, length, get_elem?, map,
}
use lumina_ai.Prelude.Texts.{Text, codes, decimal}
use lumina_ai.Rag.Chunk.{RetrievedChunk}
use lumina_ai.Rag.Fusion.{fuse_candidates}
use lumina_ai.Rag.Fusion.Order.{Descending, HasAll, fuse_candidates_lem}
use lumina_ai.Rag.Fusion.Scores.{All, Distinct, chunk_ids, IsScored}
use lumina_ai.Rag.Select.{select_context}
use lumina_ai.Rag.Select.Context.{cost, select_context_lem}
use lumina_ai.Rag.Citation.{
  Citation, extract_markers, marker_for, snippet_of, citation_of, assemble_citations,
}
use lumina_ai.Rag.Citation.Found.{Found}
use lumina_ai.Rag.Citation.Markers.{
  first_seen, keep_if, names, Shows, marker_of, assemble_citations_lem, assemble_citations_sound,
}
use lumina_ai.Rag.Metrics.{QuestionOutcome}
use lumina_ai.Tests.Values.{thousandths, routes, candidates, first_chunk}

abbrev scored : QuestionOutcome
scored = record {
  question_id = "q1";
  retrieved = "p1" ∷ "p1" ∷ "p2" ∷ [];
  relevant = "p2" ∷ "p3" ∷ [];
}

abbrev answer : Text
answer = codes "By the head of the department [c:1], or by anyone [c:9]."

abbrev cited : Citation thousandths
cited = citation_of thousandths (codes "1") first_chunk

fuse_candidates_lem_example :
    All (IsScored thousandths 60 routes) (fuse_candidates thousandths routes 60 1)
    × Distinct (chunk_ids thousandths (fuse_candidates thousandths routes 60 1))
    × (length (fuse_candidates thousandths routes 60 1) ≤ 1)
    × Descending thousandths (fuse_candidates thousandths routes 60 1)
    × (take 1 (fuse_candidates thousandths routes 60 5) ≡ fuse_candidates thousandths routes 60 1)
    × ((length (fuse_candidates thousandths routes 60 1) ≡ 1)
        ⊎ HasAll thousandths 60 routes (fuse_candidates thousandths routes 60 1))
fuse_candidates_lem_example = fuse_candidates_lem thousandths routes 60 1 4

select_context_lem_example :
    (select_context thousandths candidates 2 10
      ≡ take (length (select_context thousandths candidates 2 10)) candidates)
    × (length (select_context thousandths candidates 2 10) ≤ 2)
    × ((length (select_context thousandths candidates 2 10) ≤ 1)
        ⊎ (cost thousandths (select_context thousandths candidates 2 10) ≤ 10))
select_context_lem_example = select_context_lem thousandths candidates 2 10

assemble_citations_lem_example :
    (ms : List Text) × Found answer ms
    × (map (marker_of thousandths) (assemble_citations thousandths answer candidates).citations
        ≡ first_seen [] (keep_if (names 0 (length candidates)) ms))
    × ((assemble_citations thousandths answer candidates).dropped_markers
        ≡ first_seen [] (keep_if (λ m. not (names 0 (length candidates) m)) ms))
assemble_citations_lem_example = assemble_citations_lem thousandths answer candidates

assemble_citations_sound_example :
    (j : ℕ) × (chunk : RetrievedChunk thousandths) × (get_elem? candidates j ≡ some chunk)
    × Shows thousandths j chunk cited
unfolding assemble_citations extract_markers marker_for decimal citation_of snippet_of
assemble_citations_sound_example =
    assemble_citations_sound thousandths answer candidates 0 cited refl
