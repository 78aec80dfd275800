-- ===== src/Knowledge/ReindexPlan.antt =====
-- backend/services/knowledge/reindex_plan.py: what a reindex job does, and its state machine.
pub mod Machine
use lumina_ai.Prelude.{
  ℕ, suc, ◌+◌, Bool, true, false, ◌&&◌, not, Option, none, some, leb, ◌==◌, ltb, if◌then◌else◌,
}
use lumina_ai.Prelude.Texts.{Text, is_empty, strip, same_text}

pub data Status : Type 0 where
  pending rechunking embedding completed failed : Status

-- `REINDEX_ACTIVE_STATUSES` and `_TERMINAL_STATUSES`.
unfoldable pub is_active : Status → Bool
is_active pending = true
is_active rechunking = true
is_active embedding = true
is_active _ = false

unfoldable pub is_terminal : Status → Bool
is_terminal completed = true
is_terminal failed = true
is_terminal _ = false

pub record Plan : Type 0 where
  pub target_model : Text
  pub target_embedding_version : ℕ
  pub target_knowledge_version : ℕ
  pub rechunk : Bool

pub record Progress : Type 0 where
  pub total_chunks : ℕ
  pub embedded_chunks : ℕ

-- `__post_init__`: a count above the total is a `ValueError`.
unfoldable pub make_progress : ℕ → ℕ → Option Progress
make_progress total embedded =
    if ltb total embedded
    then none
    else some (record { total_chunks = total; embedded_chunks = embedded })

-- `ratio` as an exact fraction; an empty knowledge base is done.
unfoldable pub ratio : Progress → ℕ × ℕ
ratio p = if p.total_chunks == 0 then (1, 1) else (p.embedded_chunks, p.total_chunks)

unfoldable pub is_complete : Progress → Bool
is_complete p = leb p.total_chunks p.embedded_chunks

unfoldable pub needs_reindex : ℕ → ℕ → Bool
needs_reindex knowledge_version indexed_knowledge_version =
    not (knowledge_version == indexed_knowledge_version)

pub data PlanError : Type 0 where
  empty_model rechunk_and_switch : PlanError

pub data PlanResult : Type 0 where
  ok : Plan → PlanResult
  value_error : PlanError → PlanResult

-- What `plan_reindex` is asked: the state of the knowledge base and the two options.
pub record Request : Type 0 where
  pub current_model : Text
  pub current_embedding_version : ℕ
  pub knowledge_version : ℕ
  pub indexed_knowledge_version : ℕ
  pub target_model : Option Text
  pub rechunk : Option Bool

abbrev pub model_of : Text → Option Text → Text
model_of current none = current
model_of current (some model) = strip model

abbrev pub rechunk_of : Bool → Option Bool → Bool
rechunk_of needed none = needed
rechunk_of needed (some rechunk) = rechunk

unfoldable pub plan_reindex : Request → PlanResult
unfolding needs_reindex
plan_reindex q =
    let model = model_of q.current_model q.target_model in
    let rechunk =
      rechunk_of (needs_reindex q.knowledge_version q.indexed_knowledge_version) q.rechunk in
    if is_empty model
    then value_error empty_model
    else if rechunk && not (same_text model q.current_model)
    then value_error rechunk_and_switch
    else ok (record {
      target_model = model;
      target_embedding_version =
          if rechunk then q.current_embedding_version else q.current_embedding_version + 1;
      target_knowledge_version =
          if rechunk then q.knowledge_version else q.indexed_knowledge_version;
      rechunk = rechunk;
    })

unfoldable pub next_status : Status → Bool → Status
unfolding is_terminal
next_status completed rechunk = completed
next_status failed rechunk = failed
next_status pending rechunk = if rechunk then rechunking else embedding
next_status rechunking rechunk = embedding
next_status embedding rechunk = completed

unfoldable pub ready_to_switch : Status → Progress → Bool
unfolding is_complete
ready_to_switch embedding p = is_complete p
ready_to_switch _ p = false
