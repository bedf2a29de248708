-- ===== src/BufferPool/Laws.antt =====
-- Every buffer that was allocated is in exactly one place: in the pool, lent, or freed.
use mathlib.Core.List.Perm
use mathlib.Core.List.{perm_middle, Mem, Nodup, not-mem-nil, mem-cons, Nodup-cons, Nodup-nil}
use mathlib.Core.List.Nodup
use mathlib.Core.Path.{subst₂}
use mathlib.Core.Logic.Or
use native.Mathlib.Bridge.{le_prop}
use qt_asio_net_disk.Base.{
  ℕ, zero, suc, ◌<◌, ◌≡◌, refl, ◌⊎◌, List, [], ◌∷◌, ◌++◌, Perm, true, arith, append_assoc, ◌==◌,
  ==→eq, Bool-cases, inl, inr,
}
use qt_asio_net_disk.BufferPool.{
  BufferPool, init, no_buffers, split_back, acquire_from, acquire, remove, release, unstamp,
  is_expired, clean_loop, clean_expired_buffers,
}

-- The allocations so far.
abbrev pub ids : ℕ → List ℕ
ids zero = []
ids (suc n) = n ∷ ids n

-- All buffers, wherever they are, are the allocations, each once.
abbrev pub Conserved : BufferPool → Type 0
Conserved p = Perm (p.pool ++ (p.lent ++ p.freed)) (ids p.allocated)

-- A buffer is among those that are lent.
abbrev pub IsLent : ℕ → List ℕ → Type 0
IsLent b [] = ⊥
IsLent b (x ∷ xs) = ((x == b) ≡ true) ⊎ IsLent b xs

split_back-perm : (x : ℕ) (xs : List ℕ) → Perm (x ∷ xs) ((split_back x xs).1 ∷ (split_back x xs).0)
unfolding split_back
split_back-perm x [] = Perm.refl (x ∷ [])
split_back-perm x (y ∷ ys) =
    Perm.trans (Perm.cons x (split_back-perm y ys))
      (Perm.swap (split_back y ys).1 x (split_back y ys).0)

remove-perm : (b : ℕ) (xs : List ℕ) → IsLent b xs → Perm xs (b ∷ remove b xs)
unfolding remove
remove-perm b [] h = elim h [ ]
remove-perm b (x ∷ xs) h = elim (Bool-cases (x == b)) [
  | inl same ↦ rw (same, ==→eq x b same) (Perm.refl (b ∷ xs))
  | inr other ↦ elim h [
    | inl same ↦ absurd (cc)
    | inr inside ↦
        rw other (Perm.trans (Perm.cons x (remove-perm b xs inside)) (Perm.swap b x (remove b xs)))
  ]
]

acquire_from-Conserved :
    (p : BufferPool) (free : List ℕ)
    → p.pool ≡ free
    → Conserved p
    → Conserved (acquire_from p free).1
unfolding acquire_from
acquire_from-Conserved p [] e h =
    let all : Perm (p.lent ++ p.freed) (ids p.allocated) = rw e at h in
    rw e (Perm.cons p.allocated all)
acquire_from-Conserved p (x ∷ xs) e h =
    let r = split_back x xs in
    let moved : Perm ((x ∷ xs) ++ (p.lent ++ p.freed)) (r.1 ∷ r.0 ++ (p.lent ++ p.freed)) =
      Perm.append (split_back-perm x xs) (Perm.refl (p.lent ++ p.freed)) in
    let all : Perm ((x ∷ xs) ++ (p.lent ++ p.freed)) (ids p.allocated) = rw e at h in
    Perm.trans (perm_middle r.0 (p.lent ++ p.freed)) (Perm.trans (Perm.symm moved) all)

-- `acquire` hands out a buffer that nobody else holds, and loses none.
pub acquire-Conserved : (p : BufferPool) → Conserved p → Conserved (acquire p).1
unfolding acquire
acquire-Conserved p h = acquire_from-Conserved p p.pool refl h

-- `release` of a lent buffer brings it back to the pool.
pub release-Conserved :
    (p : BufferPool) (buf now : ℕ) → IsLent buf p.lent → Conserved p → Conserved (release p buf now)
unfolding release
release-Conserved p buf now lent h =
    let back : Perm (buf ∷ remove buf p.lent ++ p.freed) (p.lent ++ p.freed) =
      Perm.append_right p.freed (Perm.symm (remove-perm buf p.lent lent)) in
    rw (append_assoc p.pool (buf ∷ []) (remove buf p.lent ++ p.freed))
      (Perm.trans (Perm.append_left p.pool back) h)

-- An element moves to the front from behind two lists.
perm_middle₂ : (b : ℕ) (xs ys zs : List ℕ) → Perm (xs ++ (ys ++ b ∷ zs)) (b ∷ xs ++ (ys ++ zs))
perm_middle₂ b xs ys zs =
    Perm.trans (Perm.append_left xs (perm_middle ys zs)) (perm_middle xs (ys ++ zs))

clean_loop-Conserved :
    (todo : List ℕ) (now : ℕ) (p : BufferPool)
    → Perm (todo ++ (p.pool ++ (p.lent ++ p.freed))) (ids p.allocated)
    → Conserved (clean_loop todo now p)
unfolding clean_loop
clean_loop-Conserved [] now p h = h
clean_loop-Conserved (buf ∷ rest) now p h = elim (Bool-cases (is_expired p.last_used buf now)) [
  | inl old ↦
      let dropped = record p { last_used = unstamp p.last_used buf; freed = buf ∷ p.freed } in
      let same =
        Perm.trans (Perm.append_left rest (perm_middle₂ buf p.pool p.lent p.freed))
          (perm_middle rest (p.pool ++ (p.lent ++ p.freed))) in
      rw (clean_loop, old) (clean_loop-Conserved rest now dropped (Perm.trans same h))
  | inr young ↦
      let kept : BufferPool = record p { pool = p.pool ++ buf ∷ [] } in
      let same : Perm (rest ++ ((p.pool ++ buf ∷ []) ++ (p.lent ++ p.freed)))
          (buf ∷ rest ++ (p.pool ++ (p.lent ++ p.freed))) =
        rw (append_assoc p.pool (buf ∷ []) (p.lent ++ p.freed))
          (perm_middle₂ buf rest p.pool (p.lent ++ p.freed)) in
      rw (clean_loop, young) (clean_loop-Conserved rest now kept (Perm.trans same h))
]

-- cleanExpiredBuffers frees only buffers of the pool, each once.
pub clean_expired_buffers-Conserved :
    (p : BufferPool) (now : ℕ) → Conserved p → Conserved (clean_expired_buffers p now)
unfolding clean_expired_buffers
clean_expired_buffers-Conserved p now h = clean_loop-Conserved p.pool now (record p { pool = [] }) h

init-Conserved :
    (count now : ℕ) (p : BufferPool)
    → p.lent ++ p.freed ≡ []
    → Conserved p
    → Conserved (init count now p)
unfolding init
init-Conserved zero now p e h = h
init-Conserved (suc count) now p e h = init-Conserved count now _ e (
    rw (append_assoc p.pool (p.allocated ∷ []) (p.lent ++ p.freed))
      (Perm.trans (perm_middle p.pool (p.lent ++ p.freed)) (Perm.cons p.allocated h)))

-- What the threads do with the pool.
pub data Call : Type 0 where
  acquires : Call
  releases : ℕ → ℕ → Call
  cleans : ℕ → Call

unfoldable pub step : BufferPool → Call → BufferPool
step p acquires = (acquire p).1
step p (releases buf now) = release p buf now
step p (cleans now) = clean_expired_buffers p now

-- A deleter releases the buffer that its shared pointer was lent.
abbrev pub Allowed : BufferPool → Call → Type 0
Allowed p (releases buf now) = IsLent buf p.lent
Allowed p _ = Unit {0}

pub data Reach (count now : ℕ) : BufferPool → Type 0 where
  start : Reach count now (init count now no_buffers)
  next :
      {p : BufferPool} → Reach count now p → (c : Call) → Allowed p c → Reach count now (step p c)

-- In every state that the threads can reach, each buffer that was ever allocated is in exactly one
-- place, once: in the pool, lent to one holder, or freed.
pub Reach-Conserved : {count now : ℕ} {p : BufferPool} → Reach count now p → Conserved p
unfolding step
Reach-Conserved {count} {now} start = init-Conserved count now no_buffers refl (Perm.refl [])
Reach-Conserved (next {p} r acquires ok) = acquire-Conserved p (Reach-Conserved r)
Reach-Conserved (next {p} r (releases buf now) ok) =
    release-Conserved p buf now ok (Reach-Conserved r)
Reach-Conserved (next {p} r (cleans now) ok) =
    clean_expired_buffers-Conserved p now (Reach-Conserved r)

ids-lt : (b n : ℕ) → Mem b (ids n) → b < n
ids-lt b zero m = absurd (not-mem-nil m)
ids-lt b (suc n) m =
    Or.elim le_prop (mem-cons.0 m) (λ e. omega arith) (λ i. omega (arith, ids-lt b n i))

ids-Nodup : (n : ℕ) → Nodup (ids n)
ids-Nodup zero = Nodup-nil
ids-Nodup (suc n) = Nodup-cons.1 ((λ m. absurd (omega (arith, ids-lt n n m))), ids-Nodup n)

lent-acquire_from :
    (p : BufferPool) (free : List ℕ)
    → ((acquire_from p free).1.lent ≡ (acquire_from p free).0 ∷ p.lent)
      × ((acquire_from p free).1.freed ≡ p.freed)
unfolding acquire_from
lent-acquire_from p [] = (refl, refl)
lent-acquire_from p (x ∷ xs) = (refl, refl)

-- In every state that the threads can reach, the buffer that `acquire` hands out is lent to nobody
-- and has not been freed.
pub acquire-Nodup :
    {count now : ℕ} {p : BufferPool}
    → Reach count now p
    → Nodup (((acquire p).0 ∷ p.lent) ++ p.freed)
unfolding acquire
acquire-Nodup {p = p} r =
    let q = (acquire p).1 in
    let all : Nodup (q.pool ++ (q.lent ++ q.freed)) =
      Perm.nodup (Perm.symm (acquire-Conserved p (Reach-Conserved r))) (ids-Nodup q.allocated) in
    let held : Nodup (q.lent ++ q.freed) = Nodup.of_append_right q.pool all in
    let same = lent-acquire_from p p.pool in subst₂ (λ ls fs. Nodup (ls ++ fs)) same.0 same.1 held
