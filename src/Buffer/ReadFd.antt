-- ===== src/Buffer/ReadFd.antt =====
-- `readFd` of Buffer.cc: bytes from the socket go behind the readable ones.
use cppnetool.Prelude.{
  ℕ, ◌+◌, ◌-◌, ◌≤◌, ◌<◌, ◌≡◌, ap, ◌∙◌, inl, inr, List, ◌++◌, Bool-cases, arith, length, take, drop,
  slice, write_at, append_assoc, length-write_at, length-take, length-drop, take_all,
  take-append-drop, slice-write_at, leb,
}
use cppnetool.Prelude.Result.{ok}
use cppnetool.Buffer.{Buffer, received, writable_bytes, max_size, extra_size, read_fd}
use cppnetool.Buffer.Invariant.{IsValid, contents, writable_bytes-eq}
use cppnetool.Buffer.Append.{append_lem, capacity_after}

module _ (bytes : List ℕ) (b : Buffer) (v : IsValid b) where
  -- The writable part with the first bytes in it.
  filled : List ℕ
  filled = write_at b.storage b.writer_index (take (writable_bytes b) bytes)

  room : ℕ
  room = length b.storage - b.writer_index

  length-filled : length filled ≡ length b.storage
  unfolding filled
  length-filled =
      length-write_at b.storage (take (writable_bytes b) bytes) b.writer_index
        (omega (arith, writable_bytes-eq b v, length-take (writable_bytes b) bytes, v.inside))

  -- The bytes fit behind the write index.
  read_fd_fits :
      length bytes ≤ room
      → (b' : Buffer) × (read_fd (received bytes) b ≡ ok (received bytes, b'))
        × IsValid b'
        × (contents b' ≡ contents b ++ bytes)
        × (length b'.storage ≤ length b.storage + length bytes)
  unfolding read_fd filled contents room
  read_fd_fits h = (
    record b { storage = filled; writer_index = b.writer_index + length bytes },
    ground (arith, v),
    record {
      ordered = omega (arith, v.ordered);
      inside = omega (arith, length-filled, v.inside, h);
      front = omega (arith, length-filled, v.front);
      fits = omega (arith, length-filled, v.fits);
    },
    rw (take_all (writable_bytes b) bytes (omega (arith, h, writable_bytes-eq b v)))
        (slice-write_at b.reader_index b.writer_index b.storage bytes v.ordered v.inside),
    omega (arith, length-filled),
  )

  overflowing : Buffer
  overflowing = record b { storage = filled; writer_index = length filled }

  overflowing-IsValid : IsValid overflowing
  unfolding overflowing
  overflowing-IsValid = record {
    ordered = omega (arith, length-filled, v.ordered, v.inside);
    inside = omega arith;
    front = omega (arith, length-filled, v.front);
    fits = omega (arith, length-filled, v.fits);
  }

  contents-overflowing :
      room ≤ length bytes → contents overflowing ≡ contents b ++ take (writable_bytes b) bytes
  unfolding overflowing contents filled room
  contents-overflowing h =
      let count = length-take (writable_bytes b) bytes in
      let whole = writable_bytes-eq b v in
      ap
        (λ n.
          slice b.reader_index n
            (write_at b.storage b.writer_index (take (writable_bytes b) bytes)))
        (omega (arith, count, whole, length-filled, h, v.inside))
      ∙ slice-write_at b.reader_index b.writer_index b.storage (take (writable_bytes b) bytes)
          v.ordered v.inside

  grown :
      {n : ℕ}
      → n ≡ capacity_after (length (drop (writable_bytes b) bytes)) overflowing
      → n ≤ length b.storage + length bytes
  unfolding capacity_after overflowing
  grown h = ground (arith, h, length-filled, length-drop (writable_bytes b) bytes)

  -- The rest of the bytes came by way of the stack and is appended.
  read_fd_overflows :
      room < length bytes
      → b.writer_index + length bytes ≤ max_size
      → (b' : Buffer) × (read_fd (received bytes) b ≡ ok (received bytes, b'))
        × IsValid b'
        × (contents b' ≡ contents b ++ bytes)
        × (length b'.storage ≤ length b.storage + length bytes)
  unfolding read_fd room overflowing filled
  read_fd_overflows h k =
      let (b', e, a) = append_lem (drop (writable_bytes b) bytes) overflowing overflowing-IsValid (
        omega (
          arith,
          length-filled,
          v.inside,
          length-drop (writable_bytes b) bytes,
          writable_bytes-eq b v,
        )) in
      (
        b',
        ground (arith, v, e),
        a.valid,
        a.bytes_after
            ∙ ap (λ l. l ++ drop (writable_bytes b) bytes) (contents-overflowing (omega (arith, h)))
            ∙ append_assoc (contents b) _ _
            ∙ ap (λ l. contents b ++ l) (take-append-drop (writable_bytes b) bytes),
        grown a.size_after,
      )

-- A call of `readFd` that received bytes, no more than the two ranges hold, succeeds: it puts
-- exactly these bytes behind the readable ones, keeps the invariant, and the vector grows by no more
-- than these bytes.
pub read_fd_lem :
    (bytes : List ℕ) (b : Buffer)
    → IsValid b
    → length bytes ≤ writable_bytes b + extra_size
    → length b.storage + extra_size ≤ max_size
    → (b' : Buffer) × (read_fd (received bytes) b ≡ ok (received bytes, b'))
      × IsValid b'
      × (contents b' ≡ contents b ++ bytes)
      × (length b'.storage ≤ length b.storage + length bytes)
unfolding room
read_fd_lem bytes b v h k =
    elim (Bool-cases (leb (length bytes) (length b.storage - b.writer_index))) [
      | inl fits ↦ read_fd_fits bytes b v (ground arith)
      | inr more ↦
          read_fd_overflows bytes b v (ground arith)
            (omega (arith, writable_bytes-eq b v, v.inside))
    ]
