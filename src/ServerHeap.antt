-- ===== src/ServerHeap.antt =====
-- ServerHeap of NetDisk-Server/LoadBalancing/code/serverheap/ServerHeap.cpp and ServerHeap.h: the
-- servers of the load balancer, the one with the fewest connections first. A socket is a number,
-- as `add` asserts; `none` is a failed `assert` or an access out of range.
pub mod Restore
pub mod Correct
pub mod History
mod Examples
use qt_asio_net_disk.Base.{
  ℕ, suc, ◌+◌, ◌-◌, List, [], ◌∷◌, Option, none, some, Bool, true, false, length, ltb, leb, ◌&&◌,
  if◌then◌else◌,
}
use qt_asio_net_disk.Heap.Array.{at}
use qt_asio_net_disk.Heap.Fix.{update_node, push_node, drop_last}
use qt_asio_net_disk.Heap.{HeapNode, Heap, swap_node, siftup_loop, siftdown_loop, ◌>>=◌}

pub record ServerNode : Type 0 where
  pub server_name : List ℕ
  pub cur_con_count : ℕ
  pub ip : List ℕ
  pub s_port : ℕ
  pub l_port : ℕ
  pub sock : ℕ
  pub is_close : Bool

-- ServerNode()
abbrev pub no_server : ServerNode
no_server = record {
  server_name = [];
  cur_con_count = 0;
  ip = [];
  s_port = 0;
  l_port = 0;
  sock = 0;
  is_close = false;
}

-- `operator<` compares the numbers of connections, and the map goes by the socket.
instance abbrev pub server_node : HeapNode ServerNode
server_node = record { key = λ s. s.cur_con_count; ident = λ s. s.sock; fresh = no_server }

abbrev pub ServerHeap : Type 0
ServerHeap = Heap ServerNode

unfoldable pub siftup : ServerHeap → ℕ → Option ServerHeap
siftup h i = if ltb i (length h.nodes) then siftup_loop (suc i) h i else none

-- It also says whether the node has moved.
unfoldable pub siftdown : ServerHeap → ℕ → ℕ → Option (ServerHeap × Bool)
siftdown h pre_i n =
    let run = siftdown_loop (suc (n - pre_i)) h pre_i n >>= λ r. some (r.0, ltb pre_i r.1) in
    if ltb pre_i n && leb n (length h.nodes) then run else none

-- `if (!__siftdown(i, n)) __siftup(i);`
unfoldable pub settle : ServerHeap → ℕ → ℕ → Option ServerHeap
settle h i n = siftdown h i n >>= λ r. if r.1 then some r.0 else siftup r.0 i

-- A write to the fields of `heap_[i]`.
unfoldable pub write_node : ServerHeap → ℕ → ServerNode → Option ServerHeap
write_node h i s = if ltb i (length h.nodes) then some (update_node h i s) else none

-- The position is looked up again for each call, as in the source.
unfoldable pub adjust : ServerHeap → ℕ → ℕ → Option ServerHeap
adjust h server_sock cur_server_con_count = do
  i ← h.index_map server_sock
  g ← write_node h i (record (at no_server h.nodes i) { cur_con_count = cur_server_con_count })
  j ← g.index_map server_sock
  r ← siftdown g j (length g.nodes)
  let raised = r.0.index_map server_sock >>= λ k. siftup r.0 k
  if r.1 then some r.0 else raised

abbrev pub new_node : ℕ → List ℕ → ℕ → ℕ → ℕ → List ℕ → ServerNode
new_node server_sock ip s_port l_port cur_con_count server_name = record {
  server_name = server_name;
  cur_con_count = cur_con_count;
  ip = ip;
  s_port = s_port;
  l_port = l_port;
  sock = server_sock;
  is_close = false;
}

unfoldable pub add : ServerHeap → ℕ → List ℕ → ℕ → ℕ → ℕ → List ℕ → Option ServerHeap
add h server_sock ip s_port l_port cur_con_count server_name =
    let node = new_node server_sock ip s_port l_port cur_con_count server_name in
    elim (h.index_map server_sock) [
      | none ↦ siftup (push_node h node) (length h.nodes)
      | some i ↦
          write_node h i (record node { is_close = (at no_server h.nodes i).is_close }) >>= λ g.
          settle g i (length g.nodes)
    ]

-- The returned Boolean and the `info` that is filled in.
unfoldable pub get_min_server_info : ServerHeap → ServerNode → Bool × ServerNode
get_min_server_info h info =
    if ltb 0 (length h.nodes) then (true, at no_server h.nodes 0) else (false, info)

-- __del: the node goes behind the others, which are put in order again without it.
unfoldable pub del : ServerHeap → ℕ → Option ServerHeap
del h i =
    let n = length h.nodes - 1 in
    let moved = swap_node h i n >>= λ g. settle g i n in
    let dropped = (if ltb i n then moved else some h) >>= λ g. some (drop_last g) in
    if ltb i (length h.nodes) then dropped else none

unfoldable pub pop : ServerHeap → ℕ → Option ServerHeap
pop h sock = elim (h.index_map sock) [ none ↦ some h | some i ↦ del h i ]

unfoldable pub clear : ServerHeap → ServerHeap
clear h = record { nodes = []; index_map = λ k. none }
