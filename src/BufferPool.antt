-- ===== src/BufferPool.antt =====
-- BufferPool of NetDisk-Server/Server/code/bufferpool/BufferPool.cpp; the copies of the file in
-- NetDisk-Server/LoadBalancing/code and NetDisk-Client differ in the size and
-- the number of the first buffers, which the load balancer sets. A buffer is the
-- number of its allocation: `new` gives the next one. `lent` and `freed` say where the buffers are
-- that the pool does not hold: in shared pointers, or given back by `delete`. Each operation is one
-- step under the mutex; the time is in seconds, an argument.
pub mod Laws
mod Examples
use qt_asio_net_disk.Base.{
  ℕ, zero, suc, ◌+◌, ◌-◌, List, [], ◌∷◌, ◌++◌, Option, none, some, Bool, true, false, ltb, ◌==◌,
  if◌then◌else◌,
}

pub record BufferPool : Type 0 where
  pub pool : List ℕ
  pub last_used : ℕ → Option ℕ
  pub allocated : ℕ
  pub lent : List ℕ
  pub freed : List ℕ

-- `last_used_[buf] = now`
unfoldable pub stamp : (ℕ → Option ℕ) → ℕ → ℕ → ℕ → Option ℕ
stamp m buf now k = if buf == k then some now else m k

-- `last_used_.erase(buf)`
unfoldable pub unstamp : (ℕ → Option ℕ) → ℕ → ℕ → Option ℕ
unstamp m buf k = if buf == k then none else m k

abbrev pub no_buffers : BufferPool
no_buffers = record { pool = []; last_used = λ k. none; allocated = 0; lent = []; freed = [] }

-- The rounds of the constructor.
unfoldable pub init : ℕ → ℕ → BufferPool → BufferPool
init zero now p = p
init (suc count) now p = init count now (record p {
  pool = p.pool ++ p.allocated ∷ [];
  last_used = stamp p.last_used p.allocated now;
  allocated = suc p.allocated;
})

-- The last buffer and those before it.
unfoldable pub split_back : ℕ → List ℕ → List ℕ × ℕ
split_back x [] = ([], x)
split_back x (y ∷ ys) = let r = split_back y ys in (x ∷ r.0, r.1)

-- The buffer that is handed out, and the pool after it.
unfoldable pub acquire_from : BufferPool → List ℕ → ℕ × BufferPool
acquire_from p [] =
    (p.allocated, record p { allocated = suc p.allocated; lent = p.allocated ∷ p.lent })
acquire_from p (x ∷ xs) =
    let r = split_back x xs in (r.1, record p { pool = r.0; lent = r.1 ∷ p.lent })

unfoldable pub acquire : BufferPool → ℕ × BufferPool
unfolding acquire_from
acquire p = acquire_from p p.pool

unfoldable pub remove : ℕ → List ℕ → List ℕ
remove b [] = []
remove b (x ∷ xs) = if x == b then xs else x ∷ remove b xs

-- `release`, which the deleter of the last shared pointer to a buffer calls.
unfoldable pub release : BufferPool → ℕ → ℕ → BufferPool
release p buf now = record p {
  pool = p.pool ++ buf ∷ [];
  last_used = stamp p.last_used buf now;
  lent = remove buf p.lent;
}

-- `now - last_used_[buf] > 3600`; a buffer without an entry gets the clock's origin.
abbrev pub is_expired : (ℕ → Option ℕ) → ℕ → ℕ → Bool
is_expired m buf now = ltb 3600 (now - elim (m buf) [ none ↦ 0 | some t ↦ t ])

-- The loop of cleanExpiredBuffers: what is kept, and the rest of the pool's state.
unfoldable pub clean_loop : List ℕ → ℕ → BufferPool → BufferPool
clean_loop [] now p = p
clean_loop (buf ∷ rest) now p = clean_loop rest now (
    if is_expired p.last_used buf now
    then record p { last_used = unstamp p.last_used buf; freed = buf ∷ p.freed }
    else record p { pool = p.pool ++ buf ∷ [] })

unfoldable pub clean_expired_buffers : BufferPool → ℕ → BufferPool
clean_expired_buffers p now = clean_loop p.pool now (record p { pool = [] })
