-- ===== src/Service/Dispatcher.antt =====
-- axo_endpoint/dispatch/in_memory_dispatcher.py. The threads are interleaved: each call below is what
-- a submitter or a worker does between two points where another thread can run. A submitter puts
-- its item, counts it, and waits; a worker takes an item and sets its future.
pub mod Counting
use activex_endpoint.Prelude.{
  ℕ, ◌+◌, ◌-◌, String, Bool, true, false, ◌&&◌, Option, none, some, List, [], ◌∷◌, ◌++◌, length,
  ltb, nat_beq, ◌||◌, if◌then◌else◌, ◌==◌, string_eq,
}
use activex_endpoint.Prelude.Dict
use activex_endpoint.Prelude.Dict.{Dict}
use activex_endpoint.Prelude.Sets.{contains}

pub record WorkItem : Type 0 where
  pub future : ℕ
  pub operation : String

pub record InMemoryCommandDispatcher : Type 0 where
  pub handlers : List String
  pub max_queue_size : ℕ
  pub worker_count : ℕ
  -- an item, or the None that stops a worker
  pub queue : List (Option WorkItem)
  pub closed : Bool
  pub submitted : ℕ
  pub completed : ℕ
  pub failed : ℕ
  pub workers : ℕ
  pub running : List WorkItem
  -- futures that are not counted yet, that are waited for, and that are set
  pub uncounted : List ℕ
  pub waiting : List ℕ
  pub results : List (ℕ × Bool)

abbrev pub init : ℕ → ℕ → InMemoryCommandDispatcher
init max_queue_size worker_count = record {
  handlers = [];
  max_queue_size = max_queue_size;
  worker_count = worker_count;
  queue = [];
  closed = false;
  submitted = 0;
  completed = 0;
  failed = 0;
  workers = worker_count;
  running = [];
  uncounted = [];
  waiting = [];
  results = [];
}

unfoldable pub register_handler : InMemoryCommandDispatcher → String → InMemoryCommandDispatcher
register_handler d operation = record d { handlers = operation ∷ d.handlers }

-- Room in the queue; a size of 0 is no limit.
unfoldable pub has_room : InMemoryCommandDispatcher → Bool
has_room d = nat_beq d.max_queue_size 0 || ltb (length d.queue) d.max_queue_size

pub data Submission : Type 0 where
  dispatcher_closed unknown_operation queue_full accepted : Submission

-- `submit`, up to the `put_nowait`.
unfoldable pub submit :
    InMemoryCommandDispatcher → WorkItem → InMemoryCommandDispatcher × Submission
unfolding has_room
submit d item =
    if d.closed
    then (d, dispatcher_closed)
    else if contains d.handlers item.operation
    then (if has_room d
        then (
          record d { queue = d.queue ++ some item ∷ []; uncounted = item.future ∷ d.uncounted },
          accepted,
        )
        else (d, queue_full))
    else (d, unknown_operation)

module _ {A : Type 0} where
  -- Without the first item that passes the test, and whether there was one.
  unfoldable pub take_out : (A → Bool) → List A → List A × Option A
  take_out p [] = ([], none)
  take_out p (x ∷ xs) =
      let (rest, found) = take_out p xs in if p x then (xs, some x) else (x ∷ rest, found)

-- `submit`, between the `put_nowait` and the wait for the future.
unfoldable pub count_submitted : InMemoryCommandDispatcher → ℕ → InMemoryCommandDispatcher
unfolding take_out
count_submitted d future =
    let (rest, found) = take_out (λ f. nat_beq f future) d.uncounted in
    elim found [
      | none ↦ d
      | some f ↦ record d { uncounted = rest; waiting = f ∷ d.waiting; submitted = d.submitted + 1 }
    ]

-- A worker that is free takes what is next in the queue, in `_run_worker`.
unfoldable pub take_next : InMemoryCommandDispatcher → InMemoryCommandDispatcher
take_next d =
    if ltb (length d.running) d.workers
    then (elim d.queue [
      | [] ↦ d
      | none ∷ queue ↦ record d { queue = queue; workers = d.workers - 1 }
      | some item ∷ queue ↦ record d { queue = queue; running = item ∷ d.running }
    ])
    else d

-- The handler returned, or raised, which is a failed result; the future is set.
unfoldable pub finish : InMemoryCommandDispatcher → ℕ → Bool → InMemoryCommandDispatcher
unfolding take_out
finish d future is_ok =
    let (rest, found) = take_out (λ (i : WorkItem). nat_beq i.future future) d.running in
    elim found [
      | none ↦ d
      | some item ↦ record d { running = rest; results = (future, is_ok) ∷ d.results }
    ]

unfoldable pub tallied : InMemoryCommandDispatcher → Bool → InMemoryCommandDispatcher
tallied d true = record d { completed = d.completed + 1 }
tallied d false = record d { failed = d.failed + 1 }

-- The end of `submit`, once its future is set.
unfoldable pub receive : InMemoryCommandDispatcher → ℕ → InMemoryCommandDispatcher
unfolding take_out tallied
receive d future =
    let (rest, found) = take_out (λ f. nat_beq f future) d.waiting in
    let (results, result) = take_out (λ (r : ℕ × Bool). nat_beq r.0 future) d.results in
    elim found [
      | none ↦ d
      | some f ↦ elim result [
        | none ↦ d
        | some r ↦ tallied (record d { waiting = rest; results = results }) r.1
      ]
    ]

unfoldable pub close : InMemoryCommandDispatcher → InMemoryCommandDispatcher
close d = record d { closed = true }

-- One `put(None)` of `close`, which waits while the queue is full.
unfoldable pub put_stop : InMemoryCommandDispatcher → InMemoryCommandDispatcher
unfolding has_room
put_stop d = if has_room d then record d { queue = d.queue ++ none ∷ [] } else d
