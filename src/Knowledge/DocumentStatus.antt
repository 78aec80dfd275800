-- ===== src/Knowledge/DocumentStatus.antt =====
-- backend/common/document_status.py: the statuses of a document and their named sets.
use lumina_ai.Prelude.{◌≡◌, ◌⊎◌, Bool, true, false, not, arith}

pub data Status : Type 0 where
  uploaded parsing cleaned chunked embedding ready failed : Status

unfoldable pub is_terminal : Status → Bool
is_terminal ready = true
is_terminal failed = true
is_terminal _ = false

unfoldable pub is_in_progress : Status → Bool
is_in_progress parsing = true
is_in_progress cleaned = true
is_in_progress embedding = true
is_in_progress _ = false

unfoldable pub is_rescuable : Status → Bool
is_rescuable uploaded = true
is_rescuable chunked = true
is_rescuable _ = false

unfoldable pub is_embeddable : Status → Bool
is_embeddable chunked = true
is_embeddable embedding = true
is_embeddable ready = true
is_embeddable _ = false

-- The complement of the terminal ones.
unfoldable pub is_still_processing : Status → Bool
unfolding is_terminal
is_still_processing s = not (is_terminal s)

-- Every status is in exactly one of: terminal, being written by a job, or waiting for a message;
-- and a status is still processing exactly when it is one of the latter two.
pub status_partition :
    (s : Status)
    → ((is_terminal s ≡ true)
        × (is_in_progress s ≡ false)
        × (is_rescuable s ≡ false)
        × (is_still_processing s ≡ false))
      ⊎ ((is_terminal s ≡ false)
          × (is_in_progress s ≡ true)
          × (is_rescuable s ≡ false)
          × (is_still_processing s ≡ true))
      ⊎ ((is_terminal s ≡ false)
          × (is_in_progress s ≡ false)
          × (is_rescuable s ≡ true)
          × (is_still_processing s ≡ true))
unfolding is_terminal is_in_progress is_rescuable is_still_processing
status_partition s = ground arith
