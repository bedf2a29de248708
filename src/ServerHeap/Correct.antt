-- ===== src/ServerHeap/Correct.antt =====
-- What each operation of ServerHeap does to a valid heap.
use mathlib.Core.List.Perm
use qt_asio_net_disk.Base.{
  ℕ, suc, ◌+◌, ◌≤◌, ◌<◌, ◌≡◌, refl, sym, List, [], ◌∷◌, Perm, none, some, true, arith, length,
  length-append, length-set, set, lt→ltb, le→leb, le→ltb,
}
use qt_asio_net_disk.Heap.Array.{at, append-last-perm}
use qt_asio_net_disk.Heap.Laws.{root_least}
use qt_asio_net_disk.Heap.Up.{Ordered, siftup_loop_orders}
use qt_asio_net_disk.Heap.Index.{IsIndexed}
use qt_asio_net_disk.Heap.Fix.{
  IsValid, FixInv, sinks, rises, fix_lem, update_node, update_node-FixInv, update_node-IsIndexed,
  push_node, push_node-UpInv, push_node-IsIndexed,
}
use qt_asio_net_disk.Heap.Delete.{Deleted}
use qt_asio_net_disk.ServerHeap.{
  ServerNode, server_node, no_server, new_node, ServerHeap, siftup, siftdown, write_node, adjust,
  add, get_min_server_info, pop, clear,
}
use qt_asio_net_disk.ServerHeap.Restore.{settle_lem, del_lem}

-- A result with a good order and index.
Ordered-IsValid : (h g : ServerHeap) → IsIndexed h → Ordered (length h.nodes) h g → IsValid g
Ordered-IsValid h g index sorted = record {
  ordered = λ c p q. sorted.1 c p (omega (arith, sorted.0.same_length));
  indexed = sorted.0.index index;
}

-- The server with a new number of connections.
abbrev pub counted : ServerHeap → ℕ → ℕ → ServerNode
counted h i count = record (at no_server h.nodes i) { cur_con_count = count }

-- `adjust` of a server in a valid heap sets its number of connections, and leaves a valid heap
-- with the same servers otherwise.
pub adjust_lem :
    (h : ServerHeap) (sock count i : ℕ)
    → IsValid h
    → h.index_map sock ≡ some i
    → (g : ServerHeap) × (adjust h sock count ≡ some g)
      × IsValid g
      × Perm g.nodes (set h.nodes i (counted h i count))
unfolding adjust write_node siftdown siftup
adjust_lem h sock count i v found =
    let node : ServerNode = counted h i count in
    let there = v.indexed.backward sock i found in
    let changed = update_node h i node in
    let size : length changed.nodes ≡ length h.nodes =
      unfold update_node in length-set h.nodes i node in
    let index : IsIndexed changed = update_node-IsIndexed h i node v.indexed there.0 refl in
    let same_map : changed.index_map sock ≡ some i = unfold update_node in found in
    let fix : FixInv (length changed.nodes) changed.nodes i =
      rw size (update_node-FixInv h i node v there.0) in
    let inside : i < length changed.nodes = omega (arith, there.0) in
    let valid = λ (g : ServerHeap) (sorted : Ordered (length changed.nodes) changed g).
      let result : IsValid g × Perm g.nodes (set h.nodes i node) =
        (Ordered-IsValid changed g index sorted, unfold update_node in sorted.0.perm) in
      result in
    elim (fix_lem (length changed.nodes) changed i inside (omega arith) fix) [
      | sinks g end run moved sorted ↦ (
        g,
        rw (
          adjust,
          found,
          lt→ltb i (length h.nodes) there.0,
          same_map,
          lt→ltb i (length changed.nodes) inside,
          le→leb (length changed.nodes) (length changed.nodes) (omega arith),
          run,
          lt→ltb i end moved,
        ),
        (valid g sorted).0,
        (valid g sorted).1,
      )
      | rises f run up sorted ↦ (
        f,
        rw
            (
              adjust,
              found,
              lt→ltb i (length h.nodes) there.0,
              same_map,
              lt→ltb i (length changed.nodes) inside,
              le→leb (length changed.nodes) (length changed.nodes) (omega arith),
              run,
              le→ltb i i (omega arith),
              same_map,
              lt→ltb i (length changed.nodes) inside,
            )
            up,
        (valid f sorted).0,
        (valid f sorted).1,
      )
    ]

-- `add` of a socket that a valid heap does not have puts its server into the heap beside the
-- others, and leaves it valid.
pub add-new :
    (h : ServerHeap) (sock : ℕ) (ip : List ℕ) (s_port l_port count : ℕ) (name : List ℕ)
    → IsValid h
    → h.index_map sock ≡ none
    → (g : ServerHeap) × (add h sock ip s_port l_port count name ≡ some g)
      × IsValid g
      × Perm g.nodes (new_node sock ip s_port l_port count name ∷ h.nodes)
unfolding add siftup
add-new h sock ip s_port l_port count name v absent =
    let node = new_node sock ip s_port l_port count name in
    let grown = push_node h node in
    let size : length grown.nodes ≡ length h.nodes + 1 =
      unfold push_node in omega (arith, length-append h.nodes (node ∷ [])) in
    let (g, run, sorted) =
      siftup_loop_orders (suc (length h.nodes)) (length grown.nodes) grown (length h.nodes)
        (omega arith) (omega arith) (omega arith) (push_node-UpInv h node v) in
    (
      g,
      rw (add, absent, lt→ltb (length h.nodes) (length grown.nodes) (omega arith)) run,
      Ordered-IsValid grown g (push_node-IsIndexed h node v.indexed absent) sorted,
      Perm.trans sorted.0.perm (unfold push_node in append-last-perm no_server h.nodes node),
    )

-- `add` of a socket that a valid heap has writes the data of its server over, all but
-- `is_close`, and leaves a valid heap with the same servers otherwise.
pub add-present :
    (h : ServerHeap) (sock : ℕ) (ip : List ℕ) (s_port l_port count : ℕ) (name : List ℕ) (i : ℕ)
    → IsValid h
    → h.index_map sock ≡ some i
    → (g : ServerHeap) × (add h sock ip s_port l_port count name ≡ some g)
      × IsValid g
      × Perm g.nodes (
          set h.nodes i (record (new_node sock ip s_port l_port count name) {
            is_close = (at no_server h.nodes i).is_close;
          }))
unfolding add write_node
add-present h sock ip s_port l_port count name i v found =
    let node : ServerNode = record (new_node sock ip s_port l_port count name) {
      is_close = (at no_server h.nodes i).is_close;
    } in
    let there = v.indexed.backward sock i found in
    let changed = update_node h i node in
    let size : length changed.nodes ≡ length h.nodes =
      unfold update_node in length-set h.nodes i node in
    let (g, run, sorted) =
      settle_lem changed i (length changed.nodes) (omega (arith, there.0)) (omega arith)
        (rw size (update_node-FixInv h i node v there.0)) in
    (
      g,
      rw (add, found, lt→ltb i (length h.nodes) there.0) run,
      Ordered-IsValid changed g (update_node-IsIndexed h i node v.indexed there.0 (sym there.1))
          sorted,
      unfold update_node in sorted.0.perm,
    )

-- `pop` does nothing where the socket has no server.
pub pop-absent : (h : ServerHeap) (sock : ℕ) → h.index_map sock ≡ none → pop h sock ≡ some h
unfolding pop
pop-absent h sock absent = rw (pop, absent)

-- `pop` takes the server of a socket in a valid heap out of it, leaves exactly the others, and
-- the heap stays valid.
pub pop-present :
    (h : ServerHeap) (sock i : ℕ)
    → IsValid h
    → h.index_map sock ≡ some i
    → (g : ServerHeap) × (pop h sock ≡ some g) × Deleted h i g
unfolding pop
pop-present h sock i v found =
    let (g, run, gone) = del_lem h i v (v.indexed.backward sock i found).0 in
    (g, rw (pop, found) run, gone)

-- `getMinServerInfo` of a valid heap that is not empty gives its root, which no server of the heap
-- has fewer connections than.
pub get_min_server_info_lem :
    (h : ServerHeap) (info : ServerNode)
    → IsValid h
    → 0 < length h.nodes
    → (get_min_server_info h info ≡ (true, at no_server h.nodes 0))
      × ((i : ℕ)
          → i < length h.nodes
          → (get_min_server_info h info).1.cur_con_count ≤ (at no_server h.nodes i).cur_con_count)
unfolding get_min_server_info
get_min_server_info_lem h info v some_left =
    (ground arith, λ i p. ground (arith, root_least (length h.nodes) h.nodes i v.ordered))

pub clear-IsValid : (h : ServerHeap) → IsValid (clear h)
unfolding clear
clear-IsValid h = record {
  ordered = λ c p q. absurd (omega arith);
  indexed = record { forward = λ i p. absurd (omega arith); backward = λ k i e. absurd (cc) };
}
