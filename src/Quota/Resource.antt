-- ===== src/Quota/Resource.antt =====
-- The five resources of backend/services/platform/quota.py and how each is metered.
use lumina_ai.Prelude.{String, Bool, true, false, List, [], ◌∷◌, Option, none, some, if◌then◌else◌}
use text.Mathlib.Text.{◌==◌}

pub data Resource : Type 0 where
  tokens_month messages_day documents storage_bytes streams : Resource

abbrev pub name : Resource → String
name tokens_month = "tokens_month"
name messages_day = "messages_day"
name documents = "documents"
name storage_bytes = "storage_bytes"
name streams = "streams"

-- `name in RESOURCES`, with the resource that is meant.
unfoldable pub of_name : String → Option Resource
of_name s =
    if s == "tokens_month"
    then some tokens_month
    else if s == "messages_day"
    then some messages_day
    else if s == "documents"
    then some documents
    else if s == "storage_bytes"
    then some storage_bytes
    else if s == "streams"
    then some streams
    else none

abbrev pub resources : List Resource
resources = tokens_month ∷ messages_day ∷ documents ∷ storage_bytes ∷ streams ∷ []

-- `_PERIOD_MONTH`, `_PERIOD_DAY`, `_DB_BACKED` and `_GAUGES`.
abbrev pub is_monthly : Resource → Bool
is_monthly tokens_month = true
is_monthly _ = false

abbrev pub is_daily : Resource → Bool
is_daily messages_day = true
is_daily _ = false

abbrev pub is_db_backed : Resource → Bool
is_db_backed documents = true
is_db_backed storage_bytes = true
is_db_backed _ = false

abbrev pub is_gauge : Resource → Bool
is_gauge streams = true
is_gauge _ = false

abbrev pub same : Resource → Resource → Bool
same tokens_month tokens_month = true
same messages_day messages_day = true
same documents documents = true
same storage_bytes storage_bytes = true
same streams streams = true
same _ _ = false
