-- ===== src/Buffer/Consume.antt =====
-- Reading from a buffer, and putting bytes in front: `retrieve`, `retrieveUntil`,
-- `retrieveAsString`, `prepend` and `swap` of Buffer.h.
use cppnetool.Prelude.{
  ℕ, ◌+◌, ◌-◌, ◌≤◌, ◌<◌, ◌≡◌, refl, sym, ap, List, [], ◌++◌, arith, length, take, drop, slice,
  write_at, sub_size, length-write_at, length-take, drop-drop, drop_all, slice-write_before,
}
use cppnetool.Prelude.Result.{ok, err, assertion}
use cppnetool.Buffer.{
  Buffer, swap, cheap_prepend, retrieve, retrieve_until, retrieve_as_string, prepend,
}
use cppnetool.Buffer.Invariant.{IsValid, contents, length-contents, take-drop-contents}

-- What is left when the first `n` bytes are taken.
pub record Dropped (n : ℕ) (b b' : Buffer) : Type 0 where
  pub valid : IsValid b'
  pub rest : contents b' ≡ drop n (contents b)
  pub write_same : b'.writer_index ≡ b.writer_index

-- `retrieve` of no more than the readable bytes takes them off the front.
pub retrieve_lem :
    (n : ℕ) (b : Buffer)
    → IsValid b
    → n ≤ length (contents b)
    → (b' : Buffer) × (retrieve n b ≡ ok b') × Dropped n b b'
unfolding retrieve
retrieve_lem n b v h = (
  record b { reader_index = b.reader_index + n },
  ground (arith, v, count),
  record {
    valid = record {
      ordered = omega (arith, count, v.ordered);
      inside = v.inside;
      front = v.front;
      fits = v.fits;
    };
    rest = unfold contents in sym (drop-drop n b.reader_index (take b.writer_index b.storage));
    write_same = refl;
  },
)
  where
    count : length (contents b) ≡ b.writer_index - b.reader_index
    count = length-contents b v

-- `retrieve` of more than the readable bytes fails its assertion.
pub retrieve_too_many :
    (n : ℕ) (b : Buffer) → IsValid b → length (contents b) < n → retrieve n b ≡ err assertion
unfolding retrieve
retrieve_too_many n b v h = ground (arith, v, length-contents b v)

-- `retrieveUntil` takes the bytes before a position inside the readable part.
pub retrieve_until_lem :
    (end : ℕ) (b : Buffer)
    → IsValid b
    → b.reader_index ≤ end
    → end ≤ b.writer_index
    → (b' : Buffer) × (retrieve_until end b ≡ ok b') × Dropped (end - b.reader_index) b b'
unfolding retrieve_until
retrieve_until_lem end b v h k =
    let (b', e, d) = retrieve_lem (end - b.reader_index) b v (omega (arith, length-contents b v)) in
    (b', ground (arith, h, k, e), d)

-- `retrieveAsString` returns all readable bytes and leaves an empty buffer.
pub retrieve_as_string_lem :
    (b : Buffer)
    → IsValid b
    → ((retrieve_as_string b).0 ≡ contents b)
      × (contents (retrieve_as_string b).1 ≡ [])
      × IsValid (retrieve_as_string b).1
unfolding retrieve_as_string contents
retrieve_as_string_lem b v = (
  take-drop-contents b v,
  drop_all cheap_prepend (take cheap_prepend b.storage)
      (omega (arith, length-take cheap_prepend b.storage)),
  omega (arith, v),
)

-- `prepend` of bytes that fit in front of the readable ones puts them there.
pub prepend_lem :
    (bytes : List ℕ) (b : Buffer)
    → IsValid b
    → length bytes ≤ b.reader_index
    → (b' : Buffer) × (prepend bytes b ≡ ok b') × IsValid b' × (contents b' ≡ bytes ++ contents b)
unfolding prepend
prepend_lem bytes b v h = (
  record b { storage = write_at b.storage start bytes; reader_index = start },
  rw (exact, prepend) (ground (arith, h)),
  record {
    ordered = omega (arith, v.ordered);
    inside = omega (arith, size, v.inside);
    front = omega (arith, size, v.front);
    fits = omega (arith, size, v.fits);
  },
  unfold contents in
      rw
        (slice-write_before start b.writer_index b.storage bytes (omega (arith, v.ordered))
          v.inside)
        (ap (λ n. bytes ++ slice n b.writer_index b.storage) (omega arith)),
)
  where
    start : ℕ
    start = b.reader_index - length bytes

    exact : sub_size b.reader_index (length bytes) ≡ start
    exact = omega (arith, v.ordered, v.inside, v.fits)

    size : length (write_at b.storage start bytes) ≡ length b.storage
    size = length-write_at b.storage bytes start (omega (arith, v.ordered, v.inside))

-- `swap` exchanges the contents.
pub swap_lem :
    (a b : Buffer) → (contents (swap a b).0 ≡ contents b) × (contents (swap a b).1 ≡ contents a)
unfolding swap contents
swap_lem a b = (refl, refl)
