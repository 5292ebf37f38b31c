-- ===== src/PublicService/Flights.antt =====
-- The sharing of one load by the requests for a product: `detail` and `_run_flight` of
-- backend/app/catalog/public_service.py, as steps that other requests come between. Both hold
-- `_flights_lock` while they read and write, so that each is one step.
use stockstack.Common.{
  ℕ, ◌+◌, ◌≡◌, ◌≤◌, refl, Bool, false, Option, none, some, ◌==◌, if◌then◌else◌, Option-cases, inl,
  inr, ==_refl, ==_iff, arith,
}

-- The task of each product, the product of each task that runs, and the number of the next task.
pub record Flights : Type 0 where
  pub flights : ℕ → Option ℕ
  pub loads : ℕ → Option ℕ
  pub next_task : ℕ

abbrev assigned : {A : Type 0} → ℕ → A → (ℕ → A) → ℕ → A
assigned k a f j = if k == j then a else f j

-- `asyncio.create_task(…)`, put into the flights.
abbrev pub take_off : ℕ → Flights → ℕ × Flights
take_off id s = (
  s.next_task,
  record {
    flights = assigned id (some s.next_task) s.flights;
    loads = assigned s.next_task (some id) s.loads;
    next_task = s.next_task + 1;
  },
)

-- A task that is done is no longer among the loads.
abbrev pub board_task : ℕ → ℕ → Option ℕ → Flights → ℕ × Flights
board_task id t none s = take_off id s
board_task id t (some other) s = (t, s)

abbrev pub board_flight : ℕ → Option ℕ → Flights → ℕ × Flights
board_flight id none s = take_off id s
board_flight id (some t) s = board_task id t (s.loads t) s

-- The part of `detail` under the lock: the task that the request waits for.
unfoldable pub board : ℕ → Flights → ℕ × Flights
board id s = board_flight id (s.flights id) s

abbrev is_task : ℕ → Option ℕ → Bool
is_task t none = false
is_task t (some u) = u == t

-- The `finally` of `_run_flight`, after which the task is done.
unfoldable pub land : ℕ → ℕ → Flights → Flights
land t id s = record s {
  flights = if is_task t (s.flights id) then assigned id none s.flights else s.flights;
  loads = assigned t none s.loads;
}

abbrev pub no_flights : Flights
no_flights = record { flights = λ id. none; loads = λ t. none; next_task = 0 }

-- What requests and tasks make of the flights.
pub data Flown : Flights → Type 0 where
  grounded : Flown no_flights
  boarded : {s : Flights} (id : ℕ) → Flown s → Flown (board id s).1
  landed : {s : Flights} (t id : ℕ) → s.loads t ≡ some id → Flown s → Flown (land t id s)

-- A task runs exactly if it is the flight of its product, and the next task does not run.
pub record IsPaired (s : Flights) : Type 0 where
  pub up : (t id : ℕ) → s.loads t ≡ some id → s.flights id ≡ some t
  pub down : (id t : ℕ) → s.flights id ≡ some t → s.loads t ≡ some id
  pub fresh : (t : ℕ) → s.next_task ≤ t → s.loads t ≡ none

take_off-IsPaired :
    (id : ℕ) (s : Flights) → s.flights id ≡ none → IsPaired s → IsPaired (take_off id s).1
take_off-IsPaired id s free h = record {
  up = λ t j e. ground (arith, h.up t j, ==_iff id j);
  down = λ j t e. ground (arith, h.down j t, h.fresh s.next_task);
  fresh = λ t e. ground (arith, h.fresh t);
}

board-IsPaired : (id : ℕ) (s : Flights) → IsPaired s → IsPaired (board id s).1
unfolding board
board-IsPaired id s h = elim (Option-cases (s.flights id)) [
  | inl free ↦ rw free (take_off-IsPaired id s free h)
  | inr (t, taken) ↦ rw (taken, h.down id t taken) h
]

land-IsPaired : (t id : ℕ) (s : Flights) → s.loads t ≡ some id → IsPaired s → IsPaired (land t id s)
unfolding land
land-IsPaired t id s runs h =
    let own = h.up t id runs in
    record {
      up = λ u j e. ground (arith, own, h.up u j);
      down = λ j u e. ground (arith, own, h.down j u);
      fresh = λ u e. ground (arith, h.fresh u);
    }

Flown-IsPaired : {s : Flights} → Flown s → IsPaired s
Flown-IsPaired grounded = record {
  up = λ t id e. ground arith;
  down = λ id t e. ground arith;
  fresh = λ t e. refl;
}
Flown-IsPaired (boarded {s} id f) = board-IsPaired id s (Flown-IsPaired f)
Flown-IsPaired (landed {s} t id runs f) = land-IsPaired t id s runs (Flown-IsPaired f)

board-runs : (id : ℕ) (s : Flights) → IsPaired s → (board id s).1.loads (board id s).0 ≡ some id
unfolding board
board-runs id s h = elim (Option-cases (s.flights id)) [
  | inl free ↦ rw (free, ==_refl s.next_task) refl
  | inr (t, taken) ↦ rw (taken, h.down id t taken) (h.down id t taken)
]

-- However requests come and loads end, while a load of a product runs, no other load of it does,
-- and a request for the product waits for that one and starts none.
pub Flown-one_load :
    {s : Flights} (id t u : ℕ)
    → Flown s
    → s.loads t ≡ some id
    → s.loads u ≡ some id
    → (u ≡ t) × (board id s ≡ (t, s))
unfolding board
Flown-one_load {s} id t u f runs other =
    let h = Flown-IsPaired f in
    let own = h.up t id runs in (ground (arith, own, h.up u id other), rw (own, runs) refl)

-- A request waits for a load of its product that runs.
pub Flown-board : {s : Flights} (id : ℕ) → Flown s → (board id s).1.loads (board id s).0 ≡ some id
Flown-board {s} id f = board-runs id s (Flown-IsPaired f)
