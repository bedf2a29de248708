-- ===== src/Timer/Tick.antt =====
-- `tick` of Timer, called without the mutex: which timers it fires, in which order, and that it ends.
use mathlib.Core.List.Perm
use mathlib.Core.Logic.{∥∥₁_elim}
use mathlib.Core.List.{Permᴰ}
use mathlib.Core.HLevel.{×_prop}
use native.Mathlib.Bridge.{le_prop}
use qt_asio_net_disk.Base.{
  ℕ, zero, suc, ◌≤◌, ◌<◌, ◌≡◌, ◌⊎◌, subst, inl, inr, List, [], ◌∷◌, ◌++◌, Perm, some, true, false,
  arith, length, Bool-cases, ◌==◌,
}
use qt_asio_net_disk.Heap.Array.{at, length-perm}
use qt_asio_net_disk.Heap.Laws.{root_least}
use qt_asio_net_disk.Heap.Fix.{IsValid}
use qt_asio_net_disk.Timer.{TimerNode, timer_node, no_timer, TimerHeap, pending, tick_loop, tick}
use qt_asio_net_disk.Timer.Correct.{pop_timer_lem}

-- No timer of the list times out before `time`.
abbrev pub AllFrom : ℕ → List TimerNode → Type 0
AllFrom time [] = Unit {0}
AllFrom time (t ∷ ts) = (time ≤ t.expires) × AllFrom time ts

-- The timers are in the order of their times.
abbrev pub Ascending : List TimerNode → Type 0
Ascending [] = Unit {0}
Ascending (t ∷ ts) = AllFrom t.expires ts × Ascending ts

-- The k-th timer was due at the k-th reading of the clock.
abbrev pub AllDue : (ℕ → ℕ) → List TimerNode → Type 0
AllDue clock [] = Unit {0}
AllDue clock (t ∷ ts) = (pending t (clock 0) ≡ false) × AllDue (λ k. clock (suc k)) ts

AllFrom-prop : (time : ℕ) (ts : List TimerNode) → IsProp (AllFrom time ts)
AllFrom-prop time [] = hlevel
AllFrom-prop time (t ∷ ts) = ×_prop le_prop (AllFrom-prop time ts)

AllFrom-permᴰ :
    (time : ℕ) {xs ys : List TimerNode} → Permᴰ xs ys → AllFrom time xs → AllFrom time ys
AllFrom-permᴰ time Permᴰ.nil h = h
AllFrom-permᴰ time (Permᴰ.cons x p) h =
    (subst (λ t. time ≤ t.expires) x h.0, AllFrom-permᴰ time p h.1)
AllFrom-permᴰ time (Permᴰ.swap x y) h =
    (subst (λ t. time ≤ t.expires) y h.1.0, (subst (λ t. time ≤ t.expires) x h.0, h.1.1))
AllFrom-permᴰ time (Permᴰ.trans p q) h = AllFrom-permᴰ time q (AllFrom-permᴰ time p h)

AllFrom-perm : (time : ℕ) (xs ys : List TimerNode) → Perm xs ys → AllFrom time xs → AllFrom time ys
AllFrom-perm time xs ys p h = ∥∥₁_elim p (AllFrom-prop time ys) (λ d. AllFrom-permᴰ time d h)

AllFrom-of_at :
    (time : ℕ) (ts : List TimerNode)
    → ((i : ℕ) → i < length ts → time ≤ (at no_timer ts i).expires)
    → AllFrom time ts
unfolding at
AllFrom-of_at time [] h = tt
AllFrom-of_at time (t ∷ ts) h =
    (h 0 (omega arith), AllFrom-of_at time ts (λ i p. h (suc i) (omega arith)))

AllFrom-left : (time : ℕ) (xs ys : List TimerNode) → AllFrom time (xs ++ ys) → AllFrom time xs
AllFrom-left time [] ys h = tt
AllFrom-left time (x ∷ xs) ys h = (h.0, AllFrom-left time xs ys h.1)

-- What `tick` returns from the heap `h`: the timers that it has fired, and the heap of the others.
pub record Ticked (clock : ℕ → ℕ) (h g : TimerHeap) (fired : List TimerNode) : Type 0 where
  pub valid : IsValid g
  pub split : Perm h.nodes (fired ++ g.nodes)
  pub ascending : Ascending fired
  pub due : AllDue clock fired
  pub stopped :
      (length g.nodes ≡ 0) ⊎ (pending (at no_timer g.nodes 0) (clock (length fired)) ≡ true)

tick_loop_lem :
    (fuel : ℕ) (clock : ℕ → ℕ) (h : TimerHeap)
    → IsValid h
    → length h.nodes < fuel
    → (g : TimerHeap) × (fired : List TimerNode) × (tick_loop fuel false clock h ≡ some (g, fired))
      × Ticked clock h g fired
unfolding tick_loop
tick_loop_lem zero clock h v f = absurd (omega arith)
tick_loop_lem (suc fuel) clock h v f = elim (Bool-cases (length h.nodes == 0)) [
  | inl empty ↦ (
    h,
    [],
    rw empty,
    record {
      valid = v;
      split = Perm.refl h.nodes;
      ascending = tt;
      due = tt;
      stopped = inl (ground arith);
    },
  )
  | inr some_left ↦ elim (Bool-cases (pending (at no_timer h.nodes 0) (clock 0))) [
    | inl later ↦ (
      h,
      [],
      rw (some_left, later),
      record {
        valid = v;
        split = Perm.refl h.nodes;
        ascending = tt;
        due = tt;
        stopped = inr later;
      },
    )
    | inr due ↦
        let root = at no_timer h.nodes 0 in
        let (k, popped, gone) = pop_timer_lem h v (ground arith) in
        let fewer : length h.nodes ≡ suc (length k.nodes) = length-perm gone.1 in
        let (g, fired, run, t) = tick_loop_lem fuel (λ j. clock (suc j)) k gone.0 (omega arith) in
        let split : Perm h.nodes (root ∷ fired ++ g.nodes) =
          Perm.trans gone.1 (Perm.cons root t.split) in
        let first = AllFrom-perm root.expires h.nodes (root ∷ fired ++ g.nodes) split (
          AllFrom-of_at root.expires h.nodes
            (λ i p. root_least (length h.nodes) h.nodes i v.ordered p)) in
        (
          g,
          root ∷ fired,
          rw (some_left, due, popped, run),
          record {
            valid = t.valid;
            split = split;
            ascending = (AllFrom-left root.expires fired g.nodes first.1, t.ascending);
            due = (due, t.due);
            stopped = t.stopped;
          },
        )
  ]
]

-- `tick` of a valid heap, called without the mutex, ends, fires the timers that are due at the
-- readings of the clock in the order of their times, stops at the first timer that is not due or
-- at the empty heap, and leaves the others in a valid heap.
pub tick_lem :
    (clock : ℕ → ℕ) (h : TimerHeap)
    → IsValid h
    → (g : TimerHeap) × (fired : List TimerNode) × (tick false clock h ≡ some (g, fired))
      × Ticked clock h g fired
unfolding tick
tick_lem clock h v = tick_loop_lem (suc (length h.nodes)) clock h v (omega arith)
