-- ===== src/Metrics/Counts.antt =====
-- What the counter of public requests shows: backend/app/core/metrics.py.
use stockstack.Common.{ℕ, Bool, ◌&&◌, List}
use stockstack.Common.Text.{Text, text_eq, decimal}
use stockstack.Metrics.{Scope, Message, Run, is_public, status_after}

-- The status that a run ends with: that of its last start, or 500 if it has none.
abbrev pub ended_with : List (Message × Bool) → ℕ
ended_with sends = status_after 500 sends

abbrev pub has_label : Text → Scope × Run → Bool
has_label label (scope, run) = is_public scope && text_eq (decimal (ended_with run.sends)) label
