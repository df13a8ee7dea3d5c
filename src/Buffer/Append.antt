-- ===== src/Buffer/Append.antt =====
-- `ensureWritableBytes` and `append` of Buffer.h, on their three ways to find room.
use cppnetool.Prelude.{
  ℕ, ◌+◌, ◌-◌, ◌≤◌, ◌<◌, ◌≡◌, refl, ap, ◌∙◌, inl, inr, List, ◌++◌, Bool-cases, arith, length, drop,
  replicate, slice, write_at, add_size, take_all, take-append_le, length-append, length-replicate,
  length-write_at, slice-write_at, slice-write_at_self, length-slice, ltb, leb, if◌then◌else◌,
}
use cppnetool.Prelude.Result.{ok, err, length_error}
use cppnetool.Buffer.{
  Buffer, readable_bytes, cheap_prepend, max_size, resize, grow, move_to_front, make_space,
  ensure_writable_bytes, has_written, append,
}
use cppnetool.Buffer.Invariant.{IsValid, contents}

-- `b'` has room for `len` bytes in a vector of `size`, and reads as `b` does.
pub record HasRoom (len size : ℕ) (b b' : Buffer) : Type 0 where
  pub valid : IsValid b'
  pub same : contents b' ≡ contents b
  pub room : b'.writer_index + len ≤ length b'.storage
  pub size_eq : length b'.storage ≡ size
  pub write_le : b'.writer_index ≤ b.writer_index

length-zeros : (n : ℕ) → length (replicate {A = ℕ} n 0) ≡ n
length-zeros n = length-replicate n 0

resize-grow :
    (n : ℕ) (xs : List ℕ)
    → length xs ≤ n
    → n ≤ max_size
    → resize n xs ≡ ok (xs ++ replicate (n - length xs) 0)
unfolding resize
resize-grow n xs h k = rw (take_all n xs h) (ground arith)

grow_lem :
    (len : ℕ) (b : Buffer)
    → IsValid b
    → length b.storage ≤ b.writer_index + len
    → b.writer_index + len ≤ max_size
    → (b' : Buffer) × (grow len b ≡ ok b') × HasRoom len (b.writer_index + len) b b'
unfolding grow contents
grow_lem len b v h k = (
  record b { storage = larger },
  grown,
  record {
    valid = record {
      ordered = v.ordered;
      inside = omega (arith, size, v.inside);
      front = omega (arith, size, v.front);
      fits = omega (arith, size);
    };
    same = ap (drop b.reader_index) (take-append_le b.writer_index b.storage _ v.inside);
    room = omega (arith, size);
    size_eq = size;
    write_le = omega (arith, v.ordered, h);
  },
)
  where
    larger : List ℕ
    larger = b.storage ++ replicate (b.writer_index + len - length b.storage) 0

    size : length larger ≡ b.writer_index + len
    size = omega (
      arith,
      length-append b.storage (replicate (b.writer_index + len - length b.storage) 0),
      length-zeros (b.writer_index + len - length b.storage),
    )

    exact : add_size b.writer_index len ≡ b.writer_index + len
    exact = omega arith

    grown : grow len b ≡ ok (record b { storage = larger })
    grown = rw (exact, grow, resize-grow (b.writer_index + len) b.storage h k)

move_to_front_lem :
    (len : ℕ) (b : Buffer)
    → IsValid b
    → cheap_prepend < b.reader_index
    → cheap_prepend + (b.writer_index - b.reader_index) + len ≤ length b.storage
    → (b' : Buffer) × (move_to_front b ≡ ok b') × HasRoom len (length b.storage) b b'
unfolding move_to_front contents
move_to_front_lem len b v h k = (
  moved,
  ground (arith, v, exact),
  record {
    valid = record {
      ordered = omega arith;
      inside = omega (arith, size);
      front = omega (arith, size, v.front);
      fits = omega (arith, size, v.fits);
    };
    same = same;
    room = omega (arith, size);
    size_eq = size;
    write_le = omega (arith, v.ordered, h);
  },
)
  where
    readable : ℕ
    readable = b.writer_index - b.reader_index

    bytes : List ℕ
    bytes = slice b.reader_index b.writer_index b.storage

    moved : Buffer
    moved = record b {
      storage = write_at b.storage cheap_prepend bytes;
      reader_index = cheap_prepend;
      writer_index = cheap_prepend + readable;
    }

    count : length bytes ≡ readable
    count = length-slice b.reader_index b.writer_index b.storage v.inside

    size : length moved.storage ≡ length b.storage
    size = length-write_at b.storage bytes cheap_prepend (omega (arith, count))

    exact : add_size cheap_prepend (readable_bytes b) ≡ cheap_prepend + readable
    exact = omega (arith, v.ordered, v.inside, v.fits)

    same : slice cheap_prepend (cheap_prepend + readable) moved.storage ≡ bytes
    same = rw (← count) (slice-write_at_self cheap_prepend b.storage bytes (omega (arith, v.front)))

-- The size of the vector that holds `len` more bytes: as before where the room behind the write
-- index, or this and the room in front, is enough; else just as much as is needed.
unfoldable pub capacity_after : ℕ → Buffer → ℕ
capacity_after len b =
    let behind = length b.storage - b.writer_index in
    if leb len behind
    then length b.storage
    else if ltb (behind + b.reader_index) (len + cheap_prepend)
    then b.writer_index + len
    else length b.storage

make_space_lem :
    (len : ℕ) (b : Buffer)
    → IsValid b
    → length b.storage - b.writer_index < len
    → b.writer_index + len ≤ max_size
    → (b' : Buffer) × (make_space len b ≡ ok b') × HasRoom len (capacity_after len b) b b'
unfolding make_space capacity_after
make_space_lem len b v h k = elim (Bool-cases (ltb behind (len + cheap_prepend))) [
  | inl short ↦
      let (b', e, r) = grow_lem len b v (omega arith) k in
      (b', ground (arith, v, short, e), rw (short) (ground (arith, r)))
  | inr enough ↦
      let (b', e, r) = move_to_front_lem len b v (ground (arith, v)) (ground (arith, v)) in
      (b', ground (arith, v, enough, e), rw (enough) (ground (arith, r)))
]
  where
    behind : ℕ
    behind = length b.storage - b.writer_index + b.reader_index

-- `ensureWritableBytes` finds the room that it is asked for, and asserts nothing false.
pub ensure_writable_bytes_lem :
    (len : ℕ) (b : Buffer)
    → IsValid b
    → b.writer_index + len ≤ max_size
    → (b' : Buffer) × (ensure_writable_bytes len b ≡ ok b')
      × HasRoom len (capacity_after len b) b b'
unfolding ensure_writable_bytes capacity_after
ensure_writable_bytes_lem len b v k =
    elim (Bool-cases (ltb (length b.storage - b.writer_index) len)) [
      | inl short ↦
          let (b', e, r) = make_space_lem len b v (ground arith) k in
          (b', ground (arith, v, short, e, r), r)
      | inr enough ↦ (
        b,
        ground (arith, v, enough),
        record {
          valid = v;
          same = refl;
          room = ground (arith, v, enough);
          size_eq = ground (arith, v, enough);
          write_le = omega arith;
        },
      )
    ]

-- What `append` leaves: the old bytes with the new ones behind them.
pub record Appended (bytes : List ℕ) (b b' : Buffer) : Type 0 where
  pub valid : IsValid b'
  pub bytes_after : contents b' ≡ contents b ++ bytes
  pub size_after : length b'.storage ≡ capacity_after (length bytes) b
  pub write_le : b'.writer_index ≤ b.writer_index + length bytes

copy-Appended :
    (bytes : List ℕ) (b r : Buffer)
    → HasRoom (length bytes) (capacity_after (length bytes) b) b r
    → Appended bytes b (
        has_written (length bytes) (record r { storage = write_at r.storage r.writer_index bytes }))
unfolding has_written contents
copy-Appended bytes b r h = record {
  valid = record {
    ordered = omega (arith, v.ordered, v.inside, v.fits);
    inside = omega (arith, size, h.room, v.fits);
    front = omega (arith, size, v.front);
    fits = omega (arith, size, v.fits);
  };
  bytes_after = rw exact (
      slice-write_at r.reader_index r.writer_index r.storage bytes v.ordered v.inside
      ∙ ap (λ l. l ++ bytes) h.same);
  size_after = size ∙ h.size_eq;
  write_le = omega (arith, exact, h.write_le);
}
  where
    v : IsValid r
    v = h.valid

    size : length (write_at r.storage r.writer_index bytes) ≡ length r.storage
    size = length-write_at r.storage bytes r.writer_index h.room

    exact : add_size r.writer_index (length bytes) ≡ r.writer_index + length bytes
    exact = omega (arith, h.room, v.fits)

-- `append` of bytes that fit into the largest vector succeeds: no assertion fails, the readable
-- bytes are followed by the new ones, the invariant is kept, and the vector grows only where the
-- room behind and in front does not do.
pub append_lem :
    (bytes : List ℕ) (b : Buffer)
    → IsValid b
    → b.writer_index + length bytes ≤ max_size
    → (b' : Buffer) × (append bytes b ≡ ok b') × Appended bytes b b'
unfolding append
append_lem bytes b v k =
    let (r, e, h) = ensure_writable_bytes_lem (length bytes) b v k in
    (
      has_written (length bytes) (record r { storage = write_at r.storage r.writer_index bytes }),
      rw (e, append),
      copy-Appended bytes b r h,
    )

-- `append` throws `length_error` exactly where the vector would have to grow above its `max_size`.
pub append-length_error :
    (bytes : List ℕ) (b : Buffer)
    → IsValid b
    → length bytes ≤ max_size
    → max_size < b.writer_index + length bytes
    → length b.storage - b.writer_index + b.reader_index < length bytes + cheap_prepend
    → append bytes b ≡ err length_error
unfolding append ensure_writable_bytes make_space grow resize
append-length_error bytes b v f k h = ground arith
