-- ===== src/Metrics.antt =====
-- The counting of public requests: `PublicProductMetricsMiddleware` of backend/app/core/metrics.py.
-- What the application behind it does is a run: the messages that it sends, each of which may fail
-- to reach the client, and whether it raises at the end.
pub mod Counts
mod Tests
use stockstack.Common.{ℕ, Bool, true, false, not, ◌&&◌, ◌||◌, List, [], ◌∷◌, ◌++◌, if◌then◌else◌}
use stockstack.Common.Text.{Text, codes, text_eq, starts_with, decimal}

pub record Scope : Type 0 where
  pub scope_type : Text
  pub path : Text

-- `http.response.start` with its status, or another message.
pub data Message : Type 0 where
  response_start : ℕ → Message
  other : Text → Message

pub record Run : Type 0 where
  pub sends : List (Message × Bool)
  pub raises : Bool
  pub seconds : ℕ

-- `PUBLIC_REQUESTS`, a label for each request, and `PUBLIC_LATENCY`.
pub record Counters : Type 0 where
  pub public_requests : List Text
  pub public_latency : List ℕ

-- What the server gets, and whether the application raised.
pub record Outcome : Type 0 where
  pub sent : List Message
  pub raised : Bool

abbrev pub is_public : Scope → Bool
is_public s =
    text_eq s.scope_type (codes "http") && starts_with (codes "/api/v1/public/products/") s.path

abbrev sent_by : List (Message × Bool) → List Message
sent_by [] = []
sent_by ((m, fails) ∷ sends) = if fails then sent_by sends else m ∷ sent_by sends

abbrev noted : Message → ℕ → ℕ
noted (response_start status) status_code = status
noted (other kind) status_code = status_code

-- `send_with_status`, of every message: the status is noted before the message is sent on.
unfoldable pub status_after : ℕ → List (Message × Bool) → ℕ
status_after status_code [] = status_code
status_after status_code ((m, fails) ∷ sends) = status_after (noted m status_code) sends

-- `__call__`, whose `finally` counts whether or not the application raises.
unfoldable pub middleware : Scope → Run → Counters → Outcome × Counters
unfolding status_after
middleware scope run c = (
  record { sent = sent_by run.sends; raised = run.raises },
  if is_public scope
      then record {
        public_requests = c.public_requests ++ decimal (status_after 500 run.sends) ∷ [];
        public_latency = c.public_latency ++ run.seconds ∷ [];
      }
      else c,
)

unfoldable pub middleware_all : List (Scope × Run) → Counters → Counters
unfolding middleware
middleware_all [] c = c
middleware_all ((scope, run) ∷ requests) c = middleware_all requests (middleware scope run c).1
