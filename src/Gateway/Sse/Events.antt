-- ===== src/Gateway/Sse/Events.antt =====
-- What `_parse_stream` of backend/ai/gateway/providers/openai_compatible.py reports of a response,
-- described by the events of the response.
use lumina_ai.Prelude.{◌≡◌, Option, none, some, List, [], ◌∷◌, if◌then◌else◌}
use lumina_ai.Prelude.Int.{ℤ}
use lumina_ai.Prelude.Texts.{Text, codes}
use lumina_ai.Gateway.Json.{Json, Fields, Python, get, is_truthy, to_text}
use lumina_ai.Gateway.Chat.{ToolCall, Usage}
use lumina_ai.Gateway.Sse.{
  Parsed, Parser, skipped, done_mark, event, first_object, as_object, line_of, finish_whole,
  put_texts, accumulate_field, whole, calls_of, reason_of, int_field,
}
use lumina_ai.Gateway.Sse.Whole.{contents}

module _ (py : Python) where
  -- The events of the lines, up to the end mark.
  pub events : List Text → List Fields
  unfolding line_of
  events [] = []
  events (raw ∷ rest) =
      let more = events rest in
      elim (line_of py raw) [ skipped ↦ more | done_mark ↦ [] | event fs ↦ fs ∷ more ]

  -- The usage of the last event that has one.
  abbrev pub last_usage : Option Fields → List Fields → Option Fields
  last_usage u [] = u
  last_usage u (fs ∷ rest) =
      last_usage (elim (as_object (get (codes "usage") fs)) [ none ↦ u | some v ↦ some v ]) rest

  abbrev pub reason_in : Option Text → Option Json → Option Text
  reason_in r none = r
  reason_in r (some v) = if is_truthy py (some v) then some (to_text py v) else r

  abbrev pub reason_of_choice : Option Text → Option Fields → Option Text
  reason_of_choice r none = r
  reason_of_choice r (some choice) = reason_in r (get (codes "finish_reason") choice)

  -- The last reason to finish that is not empty.
  abbrev pub last_reason : Option Text → List Fields → Option Text
  last_reason r [] = r
  last_reason r (fs ∷ rest) =
      last_reason (reason_of_choice r (first_object (get (codes "choices") fs))) rest

  abbrev pub calls_in_delta : List (ℤ × ToolCall) → Option Fields → Option (List (ℤ × ToolCall))
  calls_in_delta calls none = some calls
  calls_in_delta calls (some delta) = accumulate_field py (get (codes "tool_calls") delta) calls

  abbrev pub calls_in : List (ℤ × ToolCall) → Option Fields → Option (List (ℤ × ToolCall))
  calls_in calls none = some calls
  calls_in calls (some choice) = calls_in_delta calls (as_object (get (codes "delta") choice))

  -- The tool calls that the fragments of the events make up, one after the other.
  abbrev pub gathered : Option (List (ℤ × ToolCall)) → List Fields → Option (List (ℤ × ToolCall))
  gathered none events = none
  gathered (some calls) [] = some calls
  gathered (some calls) (fs ∷ rest) =
      gathered (calls_in calls (first_object (get (codes "choices") fs))) rest

  -- What a parser holds after an event.
  abbrev Noted : Parser → Fields → Parser → Type 0
  Noted p fs p' =
      (p'.usage ≡ last_usage p.usage (fs ∷ []))
      × (p'.finish_reason ≡ last_reason p.finish_reason (fs ∷ []))
      × (calls_in p.tool_calls (first_object (get (codes "choices") fs)) ≡ some p'.tool_calls)

  -- What the parser holds at the end of the lines or at the end mark.
  abbrev Holds : Parser → List Fields → Parser → Type 0
  Holds p es q =
      (q.usage ≡ last_usage p.usage es)
      × (q.finish_reason ≡ last_reason p.finish_reason es)
      × (gathered (some p.tool_calls) es ≡ some q.tool_calls)

module _ (py : Python) (vendor : Text) where
  -- A response that is parsed through to its end has been read into one parser.
  abbrev Ends : Parser → List Text → Parsed → Type 0
  Ends p lines result =
      (q : Parser) × Holds py p (events py lines) q
      × (result ≡ put_texts (contents py lines) (finish_whole py vendor q))

  -- The counts of a usage, each 0 where the usage has none, or nothing without a usage.
  abbrev pub Reports : Option Fields → Option Usage → Type 0
  Reports none none = Unit {0}
  Reports none (some u) = ⊥
  Reports (some fs) none = ⊥
  Reports (some fs) (some u) =
      (int_field py (codes "prompt_tokens") fs ≡ some u.prompt_tokens)
      × (int_field py (codes "completion_tokens") fs ≡ some u.completion_tokens)

  abbrev WholeWith : Parser → Type 0
  WholeWith q =
      (usage : Option Usage) × Reports q.usage usage
      × (finish_whole py vendor q ≡ whole (calls_of q.tool_calls) usage (reason_of q.finish_reason))
