-- ===== src/Buffer.antt =====
-- cppnetool/net/Buffer.h and Buffer.cc: the byte buffer of a connection. An operation returns the
-- new buffer; one that asserts or that resizes the vector returns it in `Result`. A pointer into
-- the vector is its index. The proofs are in the modules below this one.
pub mod Invariant
pub mod Append
pub mod Consume
pub mod ReadFd
pub mod Shrink
pub mod Refine
mod Examples
use cppnetool.Prelude.{
  ℕ, ◌+◌, ◌-◌, ◌^◌, List, [], ◌∷◌, ◌++◌, leb, ltb, ◌==◌, if◌then◌else◌, length, take, drop,
  replicate, slice, write_at, add_size, sub_size,
}
use cppnetool.Prelude.Result.{Result, ok, err, length_error, check, ◌>>=◌, ◌>>◌}

-- The fields `buffer_`, `readerIndex_` and `writerIndex_`.
pub record Buffer : Type 0 where
  pub storage : List ℕ
  pub reader_index : ℕ
  pub writer_index : ℕ

abbrev pub cheap_prepend : ℕ
cheap_prepend = 8

abbrev pub initial_size : ℕ
initial_size = 1024

-- `std::vector<char>::max_size()`: the largest `ptrdiff_t`.
abbrev pub max_size : ℕ
max_size = 2 ^ 63 - 1

unfoldable pub new : Buffer
new = record {
  storage = replicate (cheap_prepend + initial_size) 0;
  reader_index = cheap_prepend;
  writer_index = cheap_prepend;
}

unfoldable pub swap : Buffer → Buffer → Buffer × Buffer
swap a b = (
  record a { storage = b.storage; reader_index = b.reader_index; writer_index = b.writer_index },
  record b { storage = a.storage; reader_index = a.reader_index; writer_index = a.writer_index },
)

abbrev pub readable_bytes : Buffer → ℕ
readable_bytes b = sub_size b.writer_index b.reader_index

abbrev pub writable_bytes : Buffer → ℕ
writable_bytes b = sub_size (length b.storage) b.writer_index

abbrev pub prependable_bytes : Buffer → ℕ
prependable_bytes b = b.reader_index

abbrev pub peek : Buffer → ℕ
peek b = b.reader_index

abbrev pub begin_write : Buffer → ℕ
begin_write b = b.writer_index

unfoldable pub retrieve : ℕ → Buffer → Result Buffer
retrieve len b = do
  check (leb len (readable_bytes b))
  ok (record b { reader_index = add_size b.reader_index len })

unfoldable pub retrieve_until : ℕ → Buffer → Result Buffer
unfolding retrieve
retrieve_until end b = do
  check (leb (peek b) end)
  check (leb end (begin_write b))
  retrieve (end - peek b) b

unfoldable pub retrieve_all : Buffer → Buffer
retrieve_all b = record b { reader_index = cheap_prepend; writer_index = cheap_prepend }

-- The string of `readableBytes()` bytes from `peek()`, and the emptied buffer.
unfoldable pub retrieve_as_string : Buffer → List ℕ × Buffer
unfolding retrieve_all
retrieve_as_string b = (take (readable_bytes b) (drop (peek b) b.storage), retrieve_all b)

unfoldable pub has_written : ℕ → Buffer → Buffer
has_written len b = record b { writer_index = add_size b.writer_index len }

-- `std::vector::resize`: it cuts the vector or fills it up with zeros.
unfoldable pub resize : ℕ → List ℕ → Result (List ℕ)
resize n xs =
    if ltb max_size n then err length_error else ok (take n xs ++ replicate (n - length xs) 0)

-- The readable bytes move to the front.
unfoldable pub move_to_front : Buffer → Result Buffer
move_to_front b = do
  check (ltb cheap_prepend b.reader_index)
  let readable = readable_bytes b
  let moved = write_at b.storage cheap_prepend (slice b.reader_index b.writer_index b.storage)
  let front = record b {
    storage = moved;
    reader_index = cheap_prepend;
    writer_index = add_size cheap_prepend readable;
  }
  check (readable == readable_bytes front)
  ok front

-- The vector gets `len` bytes behind the write index.
unfoldable pub grow : ℕ → Buffer → Result Buffer
unfolding resize
grow len b = do
  larger ← resize (add_size b.writer_index len) b.storage
  ok (record b { storage = larger })

unfoldable pub make_space : ℕ → Buffer → Result Buffer
unfolding grow move_to_front
make_space len b =
    if ltb (add_size (writable_bytes b) (prependable_bytes b)) (add_size len cheap_prepend)
    then grow len b
    else move_to_front b

unfoldable pub ensure_writable_bytes : ℕ → Buffer → Result Buffer
unfolding make_space
ensure_writable_bytes len b = do
  b' ← if ltb (writable_bytes b) len then make_space len b else ok b
  check (leb len (writable_bytes b'))
  ok b'

unfoldable pub append : List ℕ → Buffer → Result Buffer
unfolding ensure_writable_bytes has_written
append bytes b = do
  b' ← ensure_writable_bytes (length bytes) b
  let copied = write_at b'.storage (begin_write b') bytes
  ok (has_written (length bytes) (record b' { storage = copied }))

unfoldable pub prepend : List ℕ → Buffer → Result Buffer
prepend bytes b = do
  check (leb (length bytes) (prependable_bytes b))
  let start = sub_size b.reader_index (length bytes)
  ok (record b { storage = write_at b.storage start bytes; reader_index = start })

-- The vector is replaced, and the two indices stay as they are.
unfoldable pub shrink : ℕ → Buffer → Buffer
shrink reserve b =
    let fresh = replicate (add_size (add_size cheap_prepend (readable_bytes b)) reserve) 0 in
    let readable = take (readable_bytes b) (drop (peek b) b.storage) in
    record b { storage = write_at fresh cheap_prepend readable }

-- What a call of `readv` gives: the bytes that it put into the two ranges, in their order, or
-- the `errno` of a failure.
pub data Readv : Type 0 where
  received : List ℕ → Readv
  failed : ℕ → Readv

abbrev pub extra_size : ℕ
extra_size = 65536

-- `readFd`: the kernel has filled the writable part first, and `extrabuf` with the rest.
unfoldable pub read_fd : Readv → Buffer → Result (Readv × Buffer)
unfolding append
read_fd (failed errno) b = ok (failed errno, b)
read_fd (received bytes) b =
    let writable = writable_bytes b in
    let n = length bytes in
    let filled = record b { storage = write_at b.storage b.writer_index (take writable bytes) } in
    if leb n writable
    then ok (received bytes, record filled { writer_index = add_size b.writer_index n })
    else do
      b' ← append (drop writable bytes) (record filled { writer_index = length filled.storage })
      ok (received bytes, b')
