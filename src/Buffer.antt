-- ===== src/Buffer.antt =====
-- Buffer of NetDisk-Server/Server/code/buffer/Buffer.cpp and Buffer.h: the growing byte buffer of a
-- connection. `none` is a failed `assert` or a copy past the end of the vector; `size_t` is 64 bits.
-- What `readv` and `write` return comes from outside, as an argument.
pub mod Contents
pub mod Laws
mod Examples
use qt_asio_net_disk.Base.{
  ℕ, ◌+◌, ◌-◌, ◌%◌, ◌^◌, List, [], ◌∷◌, ◌++◌, Option, none, some, Bool, true, false, length, take,
  drop, replicate, ltb, leb, if◌then◌else◌,
}
use qt_asio_net_disk.Heap.{◌>>=◌}

pub record Buffer : Type 0 where
  pub bytes : List ℕ
  pub read_pos : ℕ
  pub write_pos : ℕ

-- `size_t` arithmetic
abbrev pub add_size : ℕ → ℕ → ℕ
add_size a b = (a + b) % 2 ^ 64

abbrev pub sub_size : ℕ → ℕ → ℕ
sub_size a b = (a + 2 ^ 64 - b) % 2 ^ 64

unfoldable pub init : ℕ → Buffer
init buffer_size = record { bytes = replicate buffer_size 0; read_pos = 0; write_pos = 0 }

unfoldable pub write_able_bytes : Buffer → ℕ
write_able_bytes b = sub_size (length b.bytes) b.write_pos

unfoldable pub read_able_bytes : Buffer → ℕ
read_able_bytes b = sub_size b.write_pos b.read_pos

unfoldable pub prepend_able_bytes : Buffer → ℕ
prepend_able_bytes b = b.read_pos

-- `vector::resize`
unfoldable pub resize : List ℕ → ℕ → List ℕ
resize bs n = if leb n (length bs) then take n bs else bs ++ replicate (n - length bs) 0

-- The `n` bytes from `i` on, if the vector has them.
unfoldable pub read_at : List ℕ → ℕ → ℕ → Option (List ℕ)
read_at bs i n = if ltb (length bs) (i + n) then none else some (take n (drop i bs))

-- `std::copy` of `src` to the place `i`.
unfoldable pub copy_to : List ℕ → ℕ → List ℕ → Option (List ℕ)
copy_to bs i src =
    if ltb (length bs) (i + length src)
    then none
    else some (take i bs ++ (src ++ drop (i + length src) bs))

-- __makeSpace, with its last assert
unfoldable pub make_space : Buffer → ℕ → Option Buffer
make_space b len =
    let grown = record b { bytes = resize b.bytes (add_size (add_size b.write_pos len) 1) } in
    let read_able = read_able_bytes b in
    let shifted = read_at b.bytes b.read_pos read_able >>= λ unread.
    copy_to b.bytes 0 unread >>= λ bs.
    some (record { bytes = bs; read_pos = 0; write_pos = read_able }) in
    (if ltb (add_size (write_able_bytes b) (prepend_able_bytes b)) len then some grown else shifted)
    >>= λ g. if leb len (write_able_bytes g) then some g else none

unfoldable pub ensure_write_able : Buffer → ℕ → Option Buffer
ensure_write_able b len =
    (if ltb (write_able_bytes b) len then make_space b len else some b) >>= λ g.
    if leb len (write_able_bytes g) then some g else none

unfoldable pub has_written : Buffer → ℕ → Buffer
has_written b len = record b { write_pos = add_size b.write_pos len }

unfoldable pub retrieve : Buffer → ℕ → Option Buffer
retrieve b len =
    if leb len (read_able_bytes b)
    then some (record b { read_pos = add_size b.read_pos len })
    else none

unfoldable pub retrieve_all : Buffer → Buffer
retrieve_all b = record { bytes = replicate (length b.bytes) 0; read_pos = 0; write_pos = 0 }

unfoldable pub retrieve_all_to_str : Buffer → Option (List ℕ × Buffer)
retrieve_all_to_str b =
    read_at b.bytes b.read_pos (read_able_bytes b) >>= λ str. some (str, retrieve_all b)

unfoldable pub peek_all_to_str : Buffer → Option (List ℕ)
peek_all_to_str b = read_at b.bytes b.read_pos (b.write_pos - b.read_pos)

unfoldable pub peek_to_str : Buffer → ℕ → Option (List ℕ)
peek_to_str b len =
    if leb (read_able_bytes b) len then peek_all_to_str b else read_at b.bytes b.read_pos len

unfoldable pub append : Buffer → List ℕ → Option Buffer
append b str = do
  g ← ensure_write_able b (length str)
  bs ← copy_to g.bytes g.write_pos str
  some (has_written (record g { bytes = bs }) (length str))

-- append(const Buffer &)
unfoldable pub append_buffer : Buffer → Buffer → Option Buffer
append_buffer b other = do
  str ← read_at other.bytes other.read_pos (read_able_bytes other)
  append b str

-- `readv` has filled the free end of the vector with the first of the received bytes, and a second
-- array of 65535 bytes with the others; `none` for `received` is a result below 0.
unfoldable pub read_fd : Buffer → Option (List ℕ) → Option Buffer
read_fd b none = some b
read_fd b (some received) =
    let write_able = write_able_bytes b in
    let direct = copy_to b.bytes b.write_pos received >>= λ bs.
    some (has_written (record b { bytes = bs }) (length received)) in
    let split = copy_to b.bytes b.write_pos (take write_able received) >>= λ bs.
    append (record b { bytes = bs; write_pos = length bs }) (drop write_able received) in
    if leb (length received) write_able then direct else split

-- `none` for `sent` is a result below 0; else it is the number of bytes that `write` took.
unfoldable pub write_fd : Buffer → Option ℕ → Buffer
write_fd b none = b
write_fd b (some sent) = record b { read_pos = add_size b.read_pos sent }
