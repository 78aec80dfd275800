-- ===== src/Gateway/Sse/Whole.antt =====
-- What `_parse_stream` of backend/ai/gateway/providers/openai_compatible.py yields, against the
-- lines of the response.
use lumina_ai.Prelude.{
  ◌≤◌, ◌≡◌, inl, inr, refl, sym, ap, ◌∙◌, Bool, true, false, ◌||◌, Option, none, some, List, [],
  ◌∷◌, ◌++◌, map, arith, ◌≢◌, Option-cases, Bool-cases, leb, ◌⊎◌,
}
use lumina_ai.Prelude.Texts.{Text, codes}
use lumina_ai.Gateway.Json.{Json, Fields, Python, get, is_truthy}
use lumina_ai.Gateway.Chat.{
  timeout, unavailable, ProviderDelta, text_delta, tool_call_delta, usage_delta, done_delta,
  ToolCall, Usage,
}
use lumina_ai.Gateway.Stream.{stop, breaks, fails}
use lumina_ai.Gateway.Stream.Attempts.{reported_usages}
use lumina_ai.Gateway.Sse.{
  LinesEnd, over, timed_out, broken, Parsed, Parser, starting, skipped, done_mark, event,
  first_object, as_object, line_of, finish_whole, finish_open, put_texts, texts_of, after_event,
  note_event, note_reason, after_delta, after_choice, accumulate_field, parse_lines,
  stream_response, Response, connect_timed_out, connect_failed, response, with_usage, whole,
  reported, calls_of, reason_of, Line,
}

calls_usages :
    (calls : List ToolCall) (ds : List ProviderDelta)
    → reported_usages (map tool_call_delta calls ++ ds) ≡ reported_usages ds
calls_usages [] ds = refl
calls_usages (c ∷ cs) ds = calls_usages cs ds

texts_usages :
    (ts : List Text) (ds : List ProviderDelta)
    → reported_usages (map text_delta ts ++ ds) ≡ reported_usages ds
texts_usages [] ds = refl
texts_usages (t ∷ ts) ds = texts_usages ts ds

-- How the generator ends once the lines are read: whole, or broken by a count that is no number.
abbrev pub IsFinish : Parsed → Type 0
IsFinish r =
    (calls : List ToolCall) × (((usage : Option Usage) × (reason : Text) × (r
          ≡ whole calls usage reason))
      ⊎ (r ≡ record { deltas = map tool_call_delta calls; finish = breaks }))

with_usage-IsFinish :
    (calls : List ToolCall) (reason : Text) (usage : Option Usage)
    → IsFinish (with_usage calls reason usage)
with_usage-IsFinish calls reason none = (calls, inr refl)
with_usage-IsFinish calls reason (some u) = (calls, inl (some u, reason, refl))

IsFinish-usages : (r : Parsed) → IsFinish r → reported_usages r.deltas ≤ 1
IsFinish-usages r (calls, inl (none, reason, e)) =
    rw (e, calls_usages calls (done_delta reason ∷ [])) (omega arith)
IsFinish-usages r (calls, inl (some u, reason, e)) =
    rw (e, calls_usages calls (usage_delta u ∷ done_delta reason ∷ [])) (omega arith)
IsFinish-usages r (calls, inr e) = rw e (ground (arith, no_usages calls))
  where
    no_usages : (cs : List ToolCall) → reported_usages (map tool_call_delta cs) ≡ 0
    no_usages [] = refl
    no_usages (c ∷ cs) = no_usages cs

abbrev is_some {ℓ} : {A : Type ℓ} → Option A → Bool
is_some none = false
is_some (some a) = true

or_first :
    (a b c d : Bool) → (b || d) ≡ true → (d ≡ true → (a || c) ≡ true) → ((a || b) || c) ≡ true
or_first true b c d e f = refl
or_first false true c d e f = refl
or_first false false c d e f = f e

module _ (py : Python) where
  abbrev finishes_in : Option Fields → Bool
  finishes_in none = false
  finishes_in (some choice) = is_truthy py (get (codes "finish_reason") choice)

  abbrev pub finishes : Fields → Bool
  finishes fs = finishes_in (first_object (get (codes "choices") fs))

  -- The contents of the events up to the end mark.
  unfoldable pub contents : List Text → List Text
  unfolding line_of
  contents [] = []
  contents (raw ∷ rest) =
      let more = contents rest in
      elim (line_of py raw) [ skipped ↦ more | done_mark ↦ [] | event fs ↦ texts_of py fs ++ more ]

  -- There is the end mark, or an event with a reason to finish.
  pub is_closed : List Text → Bool
  unfolding line_of
  is_closed [] = false
  is_closed (raw ∷ rest) =
      let more = is_closed rest in
      elim (line_of py raw) [ skipped ↦ more | done_mark ↦ true | event fs ↦ finishes fs || more ]

  note_reason_lem :
      (v : Option Json) (p : Parser)
      → is_some (note_reason py v p).finish_reason ≡ true
      → (is_truthy py v || is_some p.finish_reason) ≡ true
  unfolding is_truthy
  note_reason_lem none p e = e
  note_reason_lem (some v) p e = ground (arith, e)

  after_delta_reason :
      (delta : Option Fields) (p p' : Parser)
      → after_delta py delta p ≡ some p'
      → p'.finish_reason ≡ p.finish_reason
  after_delta_reason none p p' e = ground (arith, e)
  after_delta_reason (some delta) p p' e =
      elim (Option-cases (accumulate_field py (get (codes "tool_calls") delta) p.tool_calls)) [
        | inl bad ↦ ground (arith, e, bad)
        | inr (calls, good) ↦ ground (arith, e, good)
      ]

  after_choice_reason :
      (choice : Option Fields) (p p' : Parser)
      → after_choice py choice p ≡ some p'
      → is_some p'.finish_reason ≡ true
      → (finishes_in choice || is_some p.finish_reason) ≡ true
  after_choice_reason none p p' e has = ground (arith, e, has)
  after_choice_reason (some choice) p p' e has =
      let chosen = note_reason py (get (codes "finish_reason") choice) p in
      let same = after_delta_reason (as_object (get (codes "delta") choice)) chosen p' e in
      note_reason_lem (get (codes "finish_reason") choice) p (ap is_some (sym same) ∙ has)

  -- The texts that are handed on, and what comes after them.
  abbrev Split : Parser → List Text → Parsed → Type 0
  Split p lines result =
      (ts : List Text) × (r : Parsed) × (result ≡ put_texts ts r)
      × ((IsFinish r
            × (ts ≡ contents lines)
            × ((is_closed lines || is_some p.finish_reason) ≡ true))
          ⊎ ((r.deltas ≡ []) × (r.finish ≢ stop)))

  put_texts_append :
      (ts us : List Text) (r : Parsed) → put_texts ts (put_texts us r) ≡ put_texts (ts ++ us) r
  put_texts_append [] us r = refl
  put_texts_append (t ∷ ts) us r = ap (put_texts (t ∷ [])) (put_texts_append ts us r)

  event-Split :
      (fs : Fields) (p p' : Parser) (rest : List Text) (result : Parsed)
      → after_event py fs p ≡ some p'
      → Split p' rest result
      → (ts : List Text) × (r : Parsed) × (put_texts (texts_of py fs) result ≡ put_texts ts r)
        × ((IsFinish r
              × (ts ≡ texts_of py fs ++ contents rest)
              × (((finishes fs || is_closed rest) || is_some p.finish_reason) ≡ true))
            ⊎ ((r.deltas ≡ []) × (r.finish ≢ stop)))
  unfolding after_event
  event-Split fs p p' rest result e (ts, r, same, inr broken_off) = (
    texts_of py fs ++ ts,
    r,
    ap (put_texts (texts_of py fs)) same ∙ put_texts_append (texts_of py fs) ts r,
    inr broken_off,
  )
  event-Split fs p p' rest result e (ts, r, same, inl (fin, said, closed)) = (
    texts_of py fs ++ ts,
    r,
    ap (put_texts (texts_of py fs)) same ∙ put_texts_append (texts_of py fs) ts r,
    inl (
      fin,
      ap (λ us. texts_of py fs ++ us) said,
      or_first (finishes fs) (is_closed rest) (is_some p.finish_reason) (is_some p'.finish_reason)
          closed
          (after_choice_reason (first_object (get (codes "choices") fs)) (note_event py fs p) p' e),
    ),
  )

module _ (py : Python) (vendor : Text) where
  finish_whole-IsFinish : (p : Parser) → IsFinish (finish_whole py vendor p)
  unfolding finish_whole
  finish_whole-IsFinish p = elim (Option-cases p.usage) [
    | inl no_usage ↦
        rw (no_usage, finish_whole)
          (calls_of p.tool_calls, inl (none, reason_of p.finish_reason, refl))
    | inr (u, has_usage) ↦
        rw (has_usage, finish_whole)
          (with_usage-IsFinish (calls_of p.tool_calls) (reason_of p.finish_reason) _)
  ]

  parse_lines-Split :
      (p : Parser) (lines : List Text) (lines_end : LinesEnd)
      → Split py p lines (parse_lines py vendor p lines lines_end)
  unfolding parse_lines contents is_closed
  parse_lines-Split p [] over = elim (Option-cases p.finish_reason) [
    | inl no_reason ↦
        rw (no_reason, finish_open)
          ([], record { deltas = []; finish = fails unavailable }, refl, inr (refl, λ h. cc))
    | inr (reason, e) ↦
        rw (e, finish_open)
          ([], finish_whole py vendor p, refl, inl (finish_whole-IsFinish p, refl, refl))
  ]
  parse_lines-Split p [] timed_out =
      ([], record { deltas = []; finish = fails timeout }, refl, inr (refl, λ h. cc))
  parse_lines-Split p [] broken =
      ([], record { deltas = []; finish = fails unavailable }, refl, inr (refl, λ h. cc))
  parse_lines-Split p (raw ∷ rest) lines_end =
      line_split (λ q. parse_lines-Split q rest lines_end) (line_of py raw) refl
    where
      line_split :
          ((q : Parser) → Split py q rest (parse_lines py vendor q rest lines_end))
          → (l : Line) → line_of py raw ≡ l
          → Split py p (raw ∷ rest) (parse_lines py vendor p (raw ∷ rest) lines_end)
      line_split ih skipped e = rw (e, parse_lines, contents, is_closed) (ih p)
      line_split ih done_mark e =
          rw (e, parse_lines, contents, is_closed)
            ([], finish_whole py vendor p, refl, inl (finish_whole-IsFinish p, refl, refl))
      line_split ih (event fs) e =
          rw (e, parse_lines, contents, is_closed)
            (elim (Option-cases (after_event py fs p)) [
              | inl bad ↦
                  rw (bad, parse_lines)
                    (
                      texts_of py fs,
                      record { deltas = []; finish = breaks },
                      refl,
                      inr (refl, λ h. cc),
                    )
              | inr (p', good) ↦
                  rw (good, parse_lines)
                    (event-Split py fs p p' rest (parse_lines py vendor p' rest lines_end) good
                      (ih p'))
            ])

whole_of :
    (py : Python) (lines : List Text) (result : Parsed)
    → Split py starting lines result
    → result.finish ≡ stop
    → ((calls : List ToolCall) × (usage : Option Usage) × (reason : Text) × (result.deltas
          ≡ map text_delta (contents py lines)
            ++ (map tool_call_delta calls ++ (reported usage ++ done_delta reason ∷ []))))
      × (is_closed py lines ≡ true)
whole_of py lines result (ts, r, same, inr (none_yielded, unfinished)) e =
    absurd (unfinished (sym (ap (λ x. x.finish) same) ∙ e))
whole_of py lines result (ts, r, same, inl ((calls, inr broken_off), said, closed)) e =
    cc (ap (λ x. x.finish) same, ap (λ x. x.finish) broken_off)
whole_of py lines result (ts, r, same, inl ((calls, inl (usage, reason, fin)), said, closed)) e = (
  (
    calls,
    usage,
    reason,
    ap (λ x. x.deltas) same
        ∙ ap (λ (x : Parsed). map text_delta ts ++ x.deltas) fin
        ∙ ap (λ us. map text_delta us ++ (whole calls usage reason).deltas) said,
  ),
  ground (arith, closed),
)

-- Whatever the lines of a response. If `_parse_stream` goes through to its end, it yields the contents
-- of the events up to the end mark in order, the tool calls, at most one usage and `done`; the response has
-- the end mark or an event with a reason to finish.
pub parse_lines_lem :
    (py : Python) (vendor : Text) (lines : List Text) (lines_end : LinesEnd)
    → (parse_lines py vendor starting lines lines_end).finish ≡ stop
    → ((calls : List ToolCall) × (usage : Option Usage) × (reason : Text) × ((parse_lines py vendor
            starting lines lines_end).deltas
          ≡ map text_delta (contents py lines)
            ++ (map tool_call_delta calls ++ (reported usage ++ done_delta reason ∷ []))))
      × (is_closed py lines ≡ true)
parse_lines_lem py vendor lines lines_end whole_stream =
    whole_of py lines _ (parse_lines-Split py vendor starting lines lines_end) whole_stream

Split-usages :
    (py : Python) (p : Parser) (lines : List Text) (result : Parsed)
    → Split py p lines result
    → reported_usages result.deltas ≤ 1
Split-usages py p lines result (ts, r, same, inr (none_yielded, unfinished)) =
    rw (same, texts_usages ts r.deltas, none_yielded) (omega arith)
Split-usages py p lines result (ts, r, same, inl (fin, said, closed)) =
    rw (same, texts_usages ts r.deltas) (IsFinish-usages r fin)

-- A response never makes the adapter report its usage twice.
pub stream_response_usages :
    (py : Python) (vendor : Text) (r : Response)
    → reported_usages (stream_response py vendor r).deltas ≤ 1
unfolding stream_response
stream_response_usages py vendor connect_timed_out = omega arith
stream_response_usages py vendor connect_failed = omega arith
stream_response_usages py vendor (response status lines lines_end) =
    elim (Bool-cases (leb 400 status)) [
      | inl refused ↦ rw (refused, stream_response) (omega arith)
      | inr accepted ↦
          rw (accepted, stream_response)
            (Split-usages py starting lines _
              (parse_lines-Split py vendor starting lines lines_end))
    ]
