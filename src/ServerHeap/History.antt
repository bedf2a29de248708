-- ===== src/ServerHeap/History.antt =====
-- Any history of calls from the empty heap: what the load balancer does to its servers.
use qt_asio_net_disk.Base.{
  ℕ, ◌≡◌, ◌≢◌, refl, subst, inl, inr, List, Option, none, some, Option-cases,
}
use qt_asio_net_disk.Heap.Fix.{IsValid}
use qt_asio_net_disk.ServerHeap.{server_node, ServerHeap, adjust, add, pop, clear}
use qt_asio_net_disk.ServerHeap.Correct.{
  adjust_lem, add-new, add-present, pop-absent, pop-present, clear-IsValid,
}

pub data Call : Type 0 where
  adjusts : ℕ → ℕ → Call
  adds : ℕ → List ℕ → ℕ → ℕ → ℕ → List ℕ → Call
  pops : ℕ → Call
  clears : Call

unfoldable pub step : ServerHeap → Call → Option ServerHeap
step h (adjusts sock count) = adjust h sock count
step h (adds sock ip s_port l_port count name) = add h sock ip s_port l_port count name
step h (pops sock) = pop h sock
step h clears = some (clear h)

-- `adjust` asserts that the server is there.
abbrev pub Allowed : ServerHeap → Call → Type 0
Allowed h (adjusts sock count) = h.index_map sock ≢ none
Allowed h _ = Unit {0}

-- The heaps that calls lead to, each made where its assertion allows it.
pub data Reach : ServerHeap → Type 0 where
  start : (h : ServerHeap) → Reach (clear h)
  next : {h g : ServerHeap} → Reach h → (c : Call) → Allowed h c → step h c ≡ some g → Reach g

step-IsValid :
    (h : ServerHeap) (c : Call)
    → IsValid h
    → Allowed h c
    → (g : ServerHeap) × (step h c ≡ some g) × IsValid g
unfolding step
step-IsValid h (adjusts sock count) v ok = elim (Option-cases (h.index_map sock)) [
  | inl absent ↦ absurd (ok absent)
  | inr (i, found) ↦ let r = adjust_lem h sock count i v found in (r.0, r.1, r.2)
]
step-IsValid h (adds sock ip s_port l_port count name) v ok =
    elim (Option-cases (h.index_map sock)) [
      | inl absent ↦ let r = add-new h sock ip s_port l_port count name v absent in (r.0, r.1, r.2)
      | inr (i, found) ↦
          let r = add-present h sock ip s_port l_port count name i v found in (r.0, r.1, r.2)
    ]
step-IsValid h (pops sock) v ok = elim (Option-cases (h.index_map sock)) [
  | inl absent ↦ (h, pop-absent h sock absent, v)
  | inr (i, found) ↦ let r = pop-present h sock i v found in (r.0, r.1, r.2.0)
]
step-IsValid h clears v ok = (clear h, refl, clear-IsValid h)

pub Reach-IsValid : {h : ServerHeap} → Reach h → IsValid h
Reach-IsValid (start h) = clear-IsValid h
Reach-IsValid (next {h} {g} r c allowed e) =
    let t = step-IsValid h c (Reach-IsValid r) allowed in
    let same : t.0 ≡ g = cc (t.1, e) in subst IsValid same t.2

-- In every heap that calls lead to, each allowed call runs without a failed assertion, an access
-- out of range or an endless loop, and leads to such a heap, which is ordered and indexed.
pub step_total :
    (h : ServerHeap) (c : Call)
    → Reach h
    → Allowed h c
    → (g : ServerHeap) × (step h c ≡ some g) × Reach g × IsValid g
step_total h c r allowed =
    let t = step-IsValid h c (Reach-IsValid r) allowed in (t.0, t.1, next r c allowed t.1, t.2)
