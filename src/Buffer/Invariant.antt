-- ===== src/Buffer/Invariant.antt =====
-- The representation invariant of the buffer, and the bytes that it stands for.
use cppnetool.Prelude.{
  ℕ, ◌-◌, ◌≤◌, ◌≡◌, refl, sym, List, [], slice_empty, drop-take, arith, length, take, drop, slice,
  length-slice,
}
use cppnetool.Buffer.{
  Buffer, new, readable_bytes, peek, writable_bytes, cheap_prepend, max_size, retrieve_all,
}

-- 0 ≤ readerIndex ≤ writerIndex ≤ size, as the picture at the head of Buffer.h has it; the front
-- part is there, and the vector is no larger than a vector can be.
pub record IsValid (b : Buffer) : Type 0 where
  pub ordered : b.reader_index ≤ b.writer_index
  pub inside : b.writer_index ≤ length b.storage
  pub front : cheap_prepend ≤ length b.storage
  pub fits : length b.storage ≤ max_size

-- The readable bytes, oldest first.
unfoldable pub contents : Buffer → List ℕ
contents b = slice b.reader_index b.writer_index b.storage

pub length-contents :
    (b : Buffer) → IsValid b → length (contents b) ≡ b.writer_index - b.reader_index
unfolding contents
length-contents b v = length-slice b.reader_index b.writer_index b.storage v.inside

pub readable_bytes-eq :
    (b : Buffer) → IsValid b → readable_bytes b ≡ b.writer_index - b.reader_index
readable_bytes-eq b v = omega arith

pub writable_bytes-eq :
    (b : Buffer) → IsValid b → writable_bytes b ≡ length b.storage - b.writer_index
writable_bytes-eq b v = omega arith

pub new-IsValid : IsValid new
unfolding new
new-IsValid = record {
  ordered = omega arith;
  inside = omega arith;
  front = omega arith;
  fits = omega arith;
}

pub contents-new : contents new ≡ []
unfolding new contents
contents-new = refl

pub retrieve_all-IsValid : (b : Buffer) → IsValid b → IsValid (retrieve_all b)
unfolding retrieve_all
retrieve_all-IsValid b v = omega arith

pub take-drop-contents :
    (b : Buffer) → IsValid b → take (readable_bytes b) (drop (peek b) b.storage) ≡ contents b
unfolding contents
take-drop-contents b v =
    rw (readable_bytes-eq b v) (sym (drop-take b.reader_index b.writer_index b.storage v.ordered))

pub contents-retrieve_all : (b : Buffer) → contents (retrieve_all b) ≡ []
unfolding contents retrieve_all
contents-retrieve_all b = slice_empty cheap_prepend b.storage
