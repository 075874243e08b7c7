-- ===== src/Service/Dispatcher/Counting.antt =====
-- The metrics and the queue of in_memory_dispatcher.py, however the threads interleave.
use activex_endpoint.Prelude.{
  ℕ, ◌+◌, ◌≤◌, ◌≡◌, refl, ap, ◌⊎◌, inl, inr, String, Bool, true, false, Option, none, some, List,
  [], ◌∷◌, ◌++◌, length, length-append, ltb, nat_beq, arith, Bool-cases, Option-cases, string_eq,
}
use activex_endpoint.Prelude.Sets.{contains}
use activex_endpoint.Service.Dispatcher.{
  WorkItem, InMemoryCommandDispatcher, init, register_handler, has_room, submit, take_out,
  count_submitted, take_next, finish, tallied, receive, close, put_stop,
}

-- What some thread does next.
pub data Event : Type 0 where
  registers : String → Event
  submits : WorkItem → Event
  counts : ℕ → Event
  takes : Event
  finishes : ℕ → Bool → Event
  receives : ℕ → Event
  closes puts_stop : Event

unfoldable pub happen : InMemoryCommandDispatcher → Event → InMemoryCommandDispatcher
happen d (registers operation) = register_handler d operation
happen d (submits item) = (submit d item).0
happen d (counts future) = count_submitted d future
happen d takes = take_next d
happen d (finishes future is_ok) = finish d future is_ok
happen d (receives future) = receive d future
happen d closes = close d
happen d puts_stop = put_stop d

unfoldable pub happen_all : InMemoryCommandDispatcher → List Event → InMemoryCommandDispatcher
happen_all d [] = d
happen_all d (e ∷ es) = happen_all (happen d e) es

-- What is counted as submitted is counted as completed or failed, or waited for; and the queue fits.
pub record IsBalanced (d : InMemoryCommandDispatcher) : Type 0 where
  pub balanced : d.submitted ≡ d.completed + d.failed + length d.waiting
  pub bounded : (d.max_queue_size ≡ 0) ⊎ (length d.queue ≤ d.max_queue_size)

length-take_out :
    {A : Type 0} (p : A → Bool) (xs : List A) (x : A)
    → (take_out p xs).1 ≡ some x
    → length xs ≡ length (take_out p xs).0 + 1
unfolding take_out
length-take_out p [] x h = absurd (ground (arith, h))
length-take_out p (y ∷ xs) x h = ground (arith, h, length-take_out p xs x)

room-bounded :
    (d : InMemoryCommandDispatcher) (x : Option WorkItem)
    → has_room d ≡ true
    → (d.max_queue_size ≡ 0) ⊎ (length (d.queue ++ x ∷ []) ≤ d.max_queue_size)
unfolding has_room
room-bounded d x h = ground (arith, h, length-append d.queue (x ∷ []))

submit-IsBalanced :
    (d : InMemoryCommandDispatcher) (item : WorkItem) → IsBalanced d → IsBalanced (submit d item).0
unfolding submit
submit-IsBalanced d item b = elim (Bool-cases d.closed) [
  | inl shut ↦ simp (shut, submit) b
  | inr running ↦ elim (Bool-cases (contains d.handlers item.operation)) [
    | inr unknown ↦ simp (running, unknown, submit) b
    | inl known ↦ elim (Bool-cases (has_room d)) [
      | inr full ↦ simp (running, known, full, submit) b
      | inl room ↦
          simp (running, known, room, submit)
            (record { balanced = b.balanced; bounded = room-bounded d (some item) room })
    ]
  ]
]

count_submitted-IsBalanced :
    (d : InMemoryCommandDispatcher) (future : ℕ)
    → IsBalanced d
    → IsBalanced (count_submitted d future)
unfolding count_submitted
count_submitted-IsBalanced d future b =
    elim (Option-cases (take_out (λ f. nat_beq f future) d.uncounted).1) [
      | inl nobody ↦ rw (nobody, count_submitted) b
      | inr (f, there) ↦
          rw (there, count_submitted)
            (record { balanced = omega (arith, b.balanced); bounded = b.bounded })
    ]

take_next-IsBalanced : (d : InMemoryCommandDispatcher) → IsBalanced d → IsBalanced (take_next d)
unfolding take_next
take_next-IsBalanced d b = elim (Bool-cases (ltb (length d.running) d.workers)) [
  | inr none_free ↦ simp (none_free, take_next) b
  | inl free ↦ taken d.queue refl free
]
  where
    taken :
        (q : List (Option WorkItem))
        → d.queue ≡ q
        → ltb (length d.running) d.workers ≡ true
        → IsBalanced (take_next d)
    taken [] hq free = simp (free, hq, take_next) b
    taken (none ∷ q) hq free =
        simp (free, hq, take_next)
          (record { balanced = b.balanced; bounded = ground (arith, b.bounded, ap length hq) })
    taken (some item ∷ q) hq free =
        simp (free, hq, take_next)
          (record { balanced = b.balanced; bounded = ground (arith, b.bounded, ap length hq) })

finish-IsBalanced :
    (d : InMemoryCommandDispatcher) (future : ℕ) (is_ok : Bool)
    → IsBalanced d
    → IsBalanced (finish d future is_ok)
unfolding finish
finish-IsBalanced d future is_ok b =
    elim (Option-cases (take_out (λ (i : WorkItem). nat_beq i.future future) d.running).1) [
      | inl nobody ↦ rw (nobody, finish) b
      | inr (i, there) ↦ rw (there, finish) (record { balanced = b.balanced; bounded = b.bounded })
    ]

tallied-IsBalanced :
    (d : InMemoryCommandDispatcher) (is_ok : Bool)
    → d.submitted ≡ d.completed + d.failed + length d.waiting + 1
    → (d.max_queue_size ≡ 0) ⊎ (length d.queue ≤ d.max_queue_size)
    → IsBalanced (tallied d is_ok)
unfolding tallied
tallied-IsBalanced d true h b = record { balanced = omega (arith, h); bounded = b }
tallied-IsBalanced d false h b = record { balanced = omega (arith, h); bounded = b }

receive-IsBalanced :
    (d : InMemoryCommandDispatcher) (future : ℕ) → IsBalanced d → IsBalanced (receive d future)
unfolding receive
receive-IsBalanced d future b = elim (Option-cases (take_out (λ f. nat_beq f future) d.waiting).1) [
  | inl nobody ↦ rw (nobody, receive) b
  | inr (f, there) ↦
      elim (Option-cases (take_out (λ (r : ℕ × Bool). nat_beq r.0 future) d.results).1) [
        | inl unset ↦ rw (there, unset, receive) b
        | inr (r, set) ↦
            rw (there, set, receive)
              (tallied-IsBalanced
                (record d {
                  waiting = (take_out (λ f. nat_beq f future) d.waiting).0;
                  results = (take_out (λ (r : ℕ × Bool). nat_beq r.0 future) d.results).0;
                })
                r.1
                (omega
                  (arith, b.balanced, length-take_out (λ f. nat_beq f future) d.waiting f there))
                b.bounded)
      ]
]

put_stop-IsBalanced : (d : InMemoryCommandDispatcher) → IsBalanced d → IsBalanced (put_stop d)
unfolding put_stop
put_stop-IsBalanced d b = elim (Bool-cases (has_room d)) [
  | inl room ↦
      simp (room, put_stop) (record { balanced = b.balanced; bounded = room-bounded d none room })
  | inr full ↦ simp (full, put_stop) b
]

happen-IsBalanced :
    (d : InMemoryCommandDispatcher) (e : Event) → IsBalanced d → IsBalanced (happen d e)
unfolding happen register_handler close
happen-IsBalanced d (registers operation) b = record { balanced = b.balanced; bounded = b.bounded }
happen-IsBalanced d (submits item) b = submit-IsBalanced d item b
happen-IsBalanced d (counts future) b = count_submitted-IsBalanced d future b
happen-IsBalanced d takes b = take_next-IsBalanced d b
happen-IsBalanced d (finishes future is_ok) b = finish-IsBalanced d future is_ok b
happen-IsBalanced d (receives future) b = receive-IsBalanced d future b
happen-IsBalanced d closes b = record { balanced = b.balanced; bounded = b.bounded }
happen-IsBalanced d puts_stop b = put_stop-IsBalanced d b

all-IsBalanced :
    (d : InMemoryCommandDispatcher) (es : List Event) → IsBalanced d → IsBalanced (happen_all d es)
unfolding happen_all
all-IsBalanced d [] b = b
all-IsBalanced d (e ∷ es) b = all-IsBalanced (happen d e) es (happen-IsBalanced d e b)

-- However submitters, workers and a close interleave, from the start on: the commands counted as
-- submitted are those counted as completed or failed and those that are waited for, and the queue
-- holds at most its maximal size, unless that is 0.
pub happen_all-IsBalanced :
    (max_queue_size worker_count : ℕ) (es : List Event)
    → IsBalanced (happen_all (init max_queue_size worker_count) es)
happen_all-IsBalanced m n es =
    all-IsBalanced (init m n) es (record { balanced = refl; bounded = inr (omega arith) })
