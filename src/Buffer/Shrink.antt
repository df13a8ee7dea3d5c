-- ===== src/Buffer/Shrink.antt =====
-- `shrink` of Buffer.h: what it makes of the readable bytes.
use Prim.Native.Nat.add
use cppnetool.Prelude.{
  drop-drop, drop-append_le, drop-append_eq, take-append_eq, ℕ, ◌+◌, ◌-◌, ◌≤◌, ◌<◌, ◌^◌, ◌≡◌, refl,
  sym, ap, ap₂, zero, suc, ◌∙◌, List, ◌++◌, arith, length, take, drop, replicate, write_at,
  add_size, length-append, length-replicate, length-write_at, length-take, drop-take,
}
use cppnetool.Buffer.{Buffer, cheap_prepend, shrink, readable_bytes}
use cppnetool.Buffer.Invariant.{
  IsValid, contents, length-contents, readable_bytes-eq, take-drop-contents,
}

length-zeros : (n : ℕ) → length (replicate {A = ℕ} n 0) ≡ n
length-zeros n = length-replicate n 0

drop-replicate : (n m : ℕ) → drop n (replicate {A = ℕ} (n + m) 0) ≡ replicate m 0
drop-replicate zero m = rw (add.zero m)
drop-replicate (suc n) m = rw (add.suc n m) (drop-replicate n m)

module _ (reserve : ℕ) (b : Buffer) (v : IsValid b)
    (h : cheap_prepend + length (contents b) + reserve < 2 ^ 63) where
  fresh : List ℕ
  fresh = replicate (cheap_prepend + length (contents b) + reserve) 0

  storage-shrink : (shrink reserve b).storage ≡ write_at fresh cheap_prepend (contents b)
  unfolding shrink fresh
  storage-shrink =
      let exact : add_size (add_size cheap_prepend (readable_bytes b)) reserve
          ≡ cheap_prepend + length (contents b) + reserve =
        omega (arith, readable_bytes-eq b v, length-contents b v, h) in
      rw (exact, take-drop-contents b v)

  -- The new vector has the front part, the readable bytes and the reserve.
  pub length-shrink :
      length (shrink reserve b).storage ≡ cheap_prepend + length (contents b) + reserve
  unfolding fresh
  length-shrink =
      let count = length-zeros (cheap_prepend + length (contents b) + reserve) in
      ap length storage-shrink
      ∙ length-write_at fresh (contents b) cheap_prepend (omega (arith, count))
      ∙ count

  drop-storage : drop cheap_prepend (shrink reserve b).storage ≡ contents b ++ replicate reserve 0
  unfolding fresh
  drop-storage =
      ap (drop cheap_prepend) storage-shrink
      ∙ drop-append_le cheap_prepend (take cheap_prepend fresh ++ contents b) rest
          (omega (arith, front, length-append (take cheap_prepend fresh) (contents b)))
      ∙ ap₂ (λ k l. k ++ l)
          (drop-append_eq cheap_prepend (take cheap_prepend fresh) (contents b) (sym front))
          (drop-replicate (cheap_prepend + length (contents b)) reserve)
    where
      rest : List ℕ
      rest = drop (cheap_prepend + length (contents b)) fresh

      front : length (take cheap_prepend fresh) ≡ cheap_prepend
      front = omega (
        arith,
        length-take cheap_prepend fresh,
        length-zeros (cheap_prepend + length (contents b) + reserve),
      )

  contents-storage :
      contents (shrink reserve b)
      ≡ take (b.writer_index - b.reader_index) (drop b.reader_index (shrink reserve b).storage)
  unfolding contents shrink
  contents-storage = drop-take b.reader_index b.writer_index _ v.ordered

  -- The indices stay, so the readable part of the new vector begins as many bytes behind its first
  -- byte as had been consumed: these are lost, and zeros of the reserve follow.
  pub contents-shrink :
      cheap_prepend ≤ b.reader_index
      → contents (shrink reserve b)
        ≡ take
            (length (contents b))
            (drop (b.reader_index - cheap_prepend) (contents b ++ replicate reserve 0))
  contents-shrink k =
      contents-storage
      ∙ ap₂ (λ n l. take n l) (sym (length-contents b v))
          (ap (λ n. drop n (shrink reserve b).storage) whole
            ∙ sym (drop-drop (b.reader_index - cheap_prepend) cheap_prepend _)
            ∙ ap (drop (b.reader_index - cheap_prepend)) drop-storage)
    where
      whole : b.reader_index ≡ cheap_prepend + (b.reader_index - cheap_prepend)
      whole = omega (arith, k)

  -- `shrink` keeps the readable bytes where nothing has been consumed since the last `retrieveAll`.
  pub shrink_lem : b.reader_index ≡ cheap_prepend → contents (shrink reserve b) ≡ contents b
  shrink_lem k =
      contents-shrink (omega (arith, k))
      ∙ ap (λ n. take (length (contents b)) (drop n (contents b ++ replicate reserve 0))) none_used
      ∙ take-append_eq (contents b) (replicate reserve 0) (length (contents b)) refl
    where
      none_used : b.reader_index - cheap_prepend ≡ 0
      none_used = omega (arith, k)

  writer_index-shrink : (shrink reserve b).writer_index ≡ b.writer_index
  unfolding shrink
  writer_index-shrink = refl

  -- Of a valid buffer with more bytes consumed than are held in reserve, and with a size below 2^63
  -- after it, `shrink` leaves the write index behind the end of the vector.
  pub shrink-writer_index :
      cheap_prepend + reserve < b.reader_index
      → length (shrink reserve b).storage < (shrink reserve b).writer_index
  shrink-writer_index k =
      omega (arith, writer_index-shrink, length-shrink, length-contents b v, v.ordered, k)
