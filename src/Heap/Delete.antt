-- ===== src/Heap/Delete.antt =====
-- Deletion in the two classes: the node changes places with the last one, the others are put in
-- order again, and the last one goes.
use mathlib.Core.List.Perm
use qt_asio_net_disk.Base.{ℕ, suc, ◌-◌, ◌<◌, ◌≡◌, ◌∙◌, ◌∷◌, Perm, arith, length}
use qt_asio_net_disk.Heap.Array.{at, at-swap, take-last-perm}
use qt_asio_net_disk.Heap.Laws.{IsOrdered, swapped-Keeps}
use qt_asio_net_disk.Heap.Up.{Ordered}
use qt_asio_net_disk.Heap.Index.{IsIndexed}
use qt_asio_net_disk.Heap.Fix.{IsValid, FixInv, drop_last, drop_last-IsValid}
use qt_asio_net_disk.Heap.{HeapNode, Heap, parent, swapped}

module _ {A : Type 0} ⦃n : HeapNode A⦄ where
  pub swapped-FixInv :
      (h : Heap A) (i last : ℕ)
      → IsOrdered (length h.nodes) h.nodes
      → i < last
      → length h.nodes ≡ suc last
      → FixInv last (swapped h i last).nodes i
  unfolding swapped
  swapped-FixInv h i last order hi size =
      let look = at-swap n.fresh h.nodes i last (omega arith) (omega arith) in
      record {
        edges = λ c p q ne same. ground (arith, look c, look (parent c), order c);
        bridged = λ c p q e pos. ground (arith, look c, look (parent i), order c, order i);
      }

  -- What it is to delete the node at `i`: the result is valid, and holds the other nodes.
  abbrev pub Deleted : Heap A → ℕ → Heap A → Type 0
  Deleted h i g = IsValid g × Perm h.nodes (at n.fresh h.nodes i ∷ g.nodes)

  pub drop_last-Deleted :
      (h g : Heap A) (i last : ℕ)
      → length g.nodes ≡ suc last
      → IsIndexed g
      → IsOrdered last g.nodes
      → Perm g.nodes h.nodes
      → at n.fresh g.nodes last ≡ at n.fresh h.nodes i
      → Deleted h i (drop_last g)
  unfolding drop_last
  drop_last-Deleted h g i last size index order perm same =
      let end : length g.nodes - 1 ≡ last = omega arith in
      (
        drop_last-IsValid g last size index order,
        rw end
            (Perm.trans (Perm.symm perm) (rw same at (take-last-perm n.fresh g.nodes last size))),
      )

  -- The case that the node is not the last one.
  pub swapped-Deleted :
      (h f : Heap A) (i last : ℕ)
      → IsValid h
      → i < last
      → length h.nodes ≡ suc last
      → Ordered last (swapped h i last) f
      → Deleted h i (drop_last f)
  swapped-Deleted h f i last v hi size sorted =
      let inside : i < length h.nodes = omega arith in
      let end : last < length h.nodes = omega arith in
      let moved = swapped-Keeps (length h.nodes) h i last inside end (omega arith) in
      let there : at n.fresh (swapped h i last).nodes last ≡ at n.fresh h.nodes i =
        unfold swapped in ground (arith, at-swap n.fresh h.nodes i last inside end last) in
      drop_last-Deleted h f i last (sorted.0.same_length ∙ moved.same_length ∙ size)
        (sorted.0.index (moved.index v.indexed)) sorted.1 (Perm.trans sorted.0.perm moved.perm)
        (sorted.0.rest last (omega arith) ∙ there)
