-- ===== src/BlockDeque/Laws.antt =====
-- The queue under any interleaving of the threads that use it.
use qt_asio_net_disk.Base.{
  ℕ, ◌≤◌, ◌<◌, ◌≡◌, ◌≢◌, ap, sym, ◌∙◌, List, [], ◌∷◌, ◌++◌, true, false, arith, append_assoc,
  append-nil, length, length-append,
}
use qt_asio_net_disk.BlockDeque.{
  BlockDeque, Reply, waits, returned, taken, init, close, clear, push_back, push_front, take_front,
  pop, pop_timeout,
}

-- What a thread calls.
pub data Call (T : Type 0) : Type 0 where
  pushes_back : T → Call T
  pushes_front : T → Call T
  pops : Call T
  pops_in_time : Call T
  clears : Call T
  closes : Call T

module _ {T : Type 0} where
  unfoldable pub step : BlockDeque T → Call T → BlockDeque T × Reply T
  step d (pushes_back x) = push_back d x
  step d (pushes_front x) = push_front d x
  step d pops = pop d
  step d pops_in_time = pop_timeout d
  step d clears = (clear d, returned)
  step d closes = (close d, returned)

  pub record IsValid (cap : ℕ) (d : BlockDeque T) : Type 0 where
    pub bounded : length d.deque ≤ cap
    pub same_capacity : d.capacity ≡ cap
    pub closed_is_empty : d.is_close ≡ true → length d.deque ≡ 0

  step-IsValid :
      (cap : ℕ) (d : BlockDeque T) (c : Call T) → IsValid cap d → IsValid cap (step d c).0
  unfolding step push_back push_front pop pop_timeout take_front clear close
  step-IsValid cap d (pushes_back x) v = ground (arith, length-append d.deque (x ∷ []))
  step-IsValid cap d (pushes_front x) v = ground arith
  step-IsValid cap d pops v = ground arith
  step-IsValid cap d pops_in_time v = ground arith
  step-IsValid cap d clears v = ground arith
  step-IsValid cap d closes v = ground arith

  unfoldable pub run : BlockDeque T → List (Call T) → BlockDeque T
  run d [] = d
  run d (c ∷ cs) = run (step d c).0 cs

  run-IsValid :
      (cap : ℕ) (cs : List (Call T)) (d : BlockDeque T) → IsValid cap d → IsValid cap (run d cs)
  unfolding run
  run-IsValid cap [] d v = v
  run-IsValid cap (c ∷ cs) d v = run-IsValid cap cs (step d c).0 (step-IsValid cap d c v)

  -- After any calls of any threads the queue has at most its capacity, and none if it is closed.
  pub run-init-IsValid : (cap : ℕ) (cs : List (Call T)) → IsValid cap (run (init cap) cs)
  unfolding init
  run-init-IsValid cap cs = run-IsValid cap cs (init cap) (ground arith)

  -- A producer at the back waits exactly on a full queue that is open, a consumer exactly on an
  -- empty one that is open; with a capacity above 0 they do not both wait in one state.
  pub waits_lem :
      (d : BlockDeque T) (x : T)
      → ((push_back d x).1 ≡ waits → (d.is_close ≡ false) × (d.capacity ≤ length d.deque))
        × ((d.is_close ≡ false) × (d.capacity ≤ length d.deque) → push_back d x ≡ (d, waits))
        × ((pop d).1 ≡ waits → (d.is_close ≡ false) × (length d.deque ≡ 0))
        × ((d.is_close ≡ false) × (length d.deque ≡ 0) → pop d ≡ (d, waits))
        × (0 < d.capacity → (push_back d x).1 ≡ waits → (pop d).1 ≢ waits)
  unfolding push_back pop take_front
  waits_lem d x = (
    λ e. ground arith,
    λ h. ground arith,
    λ e. ground arith,
    λ h. ground arith,
    λ p e f. ground arith,
  )

  -- The items that calls have put in and taken out, in their order.
  abbrev given : Call T → Reply T → List T
  given (pushes_back x) returned = x ∷ []
  given _ _ = []

  abbrev got : Reply T → List T
  got (taken x) = x ∷ []
  got _ = []

  -- A producer or consumer at the back and the front.
  abbrev IsQueueCall : Call T → Type 0
  IsQueueCall (pushes_back x) = Unit {0}
  IsQueueCall pops = Unit {0}
  IsQueueCall pops_in_time = Unit {0}
  IsQueueCall _ = ⊥

  abbrev AllQueueCalls : List (Call T) → Type 0
  AllQueueCalls [] = Unit {0}
  AllQueueCalls (c ∷ cs) = IsQueueCall c × AllQueueCalls cs

  unfoldable pub all_given : BlockDeque T → List (Call T) → List T
  all_given d [] = []
  all_given d (c ∷ cs) = given c (step d c).1 ++ all_given (step d c).0 cs

  unfoldable pub all_got : BlockDeque T → List (Call T) → List T
  all_got d [] = []
  all_got d (c ∷ cs) = got (step d c).1 ++ all_got (step d c).0 cs

  step_fifo :
      (d : BlockDeque T) (c : Call T)
      → d.is_close ≡ false
      → IsQueueCall c
      → (d.deque ++ given c (step d c).1 ≡ got (step d c).1 ++ (step d c).0.deque)
        × ((step d c).0.is_close ≡ false)
  unfolding step push_back pop pop_timeout take_front
  step_fifo d (pushes_back x) open_ q = ground (arith, append-nil d.deque)
  step_fifo d pops open_ q = ground (arith, append-nil d.deque)
  step_fifo d pops_in_time open_ q = ground (arith, append-nil d.deque)
  step_fifo d (pushes_front x) open_ q = elim q [ ]
  step_fifo d clears open_ q = elim q [ ]
  step_fifo d closes open_ q = elim q [ ]

  -- From an open queue, under any interleaving of producers at the back and consumers at the
  -- front, the items come out in the order in which they went in, none lost and none twice: what
  -- was there and went in is what came out and is left.
  pub run_fifo :
      (cs : List (Call T)) (d : BlockDeque T)
      → d.is_close ≡ false
      → AllQueueCalls cs
      → d.deque ++ all_given d cs ≡ all_got d cs ++ (run d cs).deque
  unfolding run all_given all_got
  run_fifo [] d open_ q = append-nil d.deque
  run_fifo (c ∷ cs) d open_ q =
      let r = step d c in
      let once = step_fifo d c open_ q.0 in
      sym (append_assoc d.deque (given c r.1) (all_given r.0 cs))
      ∙ ap (λ t. t ++ all_given r.0 cs) once.0
      ∙ append_assoc (got r.1) r.0.deque (all_given r.0 cs)
      ∙ ap (λ t. got r.1 ++ t) (run_fifo cs r.0 once.1 q.1)
      ∙ sym (append_assoc (got r.1) (all_got r.0 cs) (run r.0 cs).deque)
