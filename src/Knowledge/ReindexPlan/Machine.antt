-- ===== src/Knowledge/ReindexPlan/Machine.antt =====
-- What a plan commits to, and how a job's status moves.
use lumina_ai.Prelude.{
  ℕ, zero, suc, ◌+◌, ◌<◌, ◌≡◌, ◌==◌, ◌≢◌, ◌⊎◌, inl, inr, refl, Bool, true, false, none, some, arith,
  not,
}
use lumina_ai.Prelude.Texts.{is_empty, same_text}
use lumina_ai.Knowledge.ReindexPlan.{
  Status, pending, rechunking, embedding, completed, failed, is_active, is_terminal, Plan, Progress,
  make_progress, ratio, is_complete, PlanError, PlanResult, ok, value_error, Request, model_of,
  plan_reindex, next_status, ready_to_switch,
}

-- The steps left before a job rests.
abbrev pub rank : Status → ℕ
rank pending = 3
rank rechunking = 2
rank embedding = 1
rank completed = 0
rank failed = 0

-- `n` steps of the machine.
abbrev pub run : ℕ → Status → Bool → Status
run zero s rechunk = s
run (suc n) s rechunk = run n (next_status s rechunk) rechunk

Result-cases :
    (t : PlanResult) → ((p : Plan) × (t ≡ ok p)) ⊎ ((e : PlanError) × (t ≡ value_error e))
Result-cases (ok p) = inl (p, refl)
Result-cases (value_error e) = inr (e, refl)

-- A status is active or terminal and not both. A terminal one stays; an active one falls by rank at
-- every step, is `completed` after three, and completes at once only if it is embedding.
pub next_status_progress :
    (s : Status) (rechunk : Bool)
    → (is_active s ≡ not (is_terminal s))
      × (((is_terminal s ≡ true) × (next_status s rechunk ≡ s))
          ⊎ ((is_terminal s ≡ false)
              × (rank (next_status s rechunk) < rank s)
              × (run 3 s rechunk ≡ completed)
              × ((next_status s rechunk ≢ completed) ⊎ (s ≡ embedding))))
unfolding next_status is_active is_terminal
next_status_progress s rechunk = ground arith

-- A plan is accepted for a model with a name, which is the model of the knowledge base when the plan
-- rechunks: such a plan keeps the version of the vectors and takes the new knowledge version, and
-- one that does not rechunk raises the former and keeps the knowledge version as indexed. It is
-- refused for an empty model, or for another model when it is asked to rechunk or would have to.
plan_reindex_exact :
    (q : Request)
    → ((p : Plan) × (plan_reindex q ≡ ok p)
        × (is_empty p.target_model ≡ false)
        × (((p.rechunk ≡ true)
              × (same_text p.target_model q.current_model ≡ true)
              × (p.target_embedding_version ≡ q.current_embedding_version)
              × (p.target_knowledge_version ≡ q.knowledge_version))
            ⊎ ((p.rechunk ≡ false)
                × (p.target_embedding_version ≡ q.current_embedding_version + 1)
                × (p.target_knowledge_version ≡ q.indexed_knowledge_version))))
      ⊎ ((e : PlanError) × (plan_reindex q ≡ value_error e)
          × ((is_empty (model_of q.current_model q.target_model) ≡ true)
              ⊎ ((same_text (model_of q.current_model q.target_model) q.current_model ≡ false)
                  × ((q.rechunk ≡ some true)
                      ⊎ ((q.rechunk ≡ none)
                          × (q.knowledge_version ≢ q.indexed_knowledge_version))))))
unfolding plan_reindex
plan_reindex_exact q = elim (Result-cases (plan_reindex q)) [
  | inl (p, h) ↦ inl (p, h, ground (arith, h), ground (arith, h))
  | inr (e, h) ↦ inr (e, h, ground (arith, h))
]

-- Of a progress that can be made, the switch is allowed exactly while embedding and with every chunk
-- counted; the progress is complete exactly when its ratio is one.
pub ready_to_switch_exact :
    (s : Status) (total embedded : ℕ) (p : Progress)
    → make_progress total embedded ≡ some p
    → (((s ≡ embedding) × (embedded ≡ total) × (ready_to_switch s p ≡ true))
        ⊎ (((s ≢ embedding) ⊎ (embedded < total)) × (ready_to_switch s p ≡ false)))
      × (is_complete p ≡ (ratio p).0 == (ratio p).1)
unfolding ready_to_switch make_progress is_complete ratio
ready_to_switch_exact s total embedded p e = ground arith
