-- ===== src/LogStream/Bounds.antt =====
-- How long the text of a number is, and that the buffer of a line never overflows.
use cppnetool.Prelude.{
  ℕ, zero, suc, ◌+◌, ◌/◌, ◌≤◌, ◌<◌, ◌≡◌, refl, sym, ◌∙◌, ◌⊎◌, inl, inr, List, [], ◌∷◌, ◌++◌, ltb,
  leb, ◌==◌, if◌then◌else◌, length, Bool-cases, arith, append-nil, append_assoc, length-append,
}
use cppnetool.Prelude.Int.{ℤ, pos, negsuc}
use cppnetool.LogStream.{
  tenth, is_zero, minus, emit, reverse_onto, max_digits, convert, emit_hex, convert_hex,
  FixedBuffer, append, format_integer, format_pointer, Piece, text, flag, integer, pointer, put,
  put_all, max_numeric_size, avail, add,
}

length-emit : (fuel : ℕ) (i : ℤ) → length (emit fuel i) ≤ fuel
unfolding emit
length-emit zero i = omega arith
length-emit (suc fuel) i = elim (Bool-cases (is_zero (tenth i))) [
  | inl last ↦ rw last (omega arith)
  | inr more ↦ rw more (omega (arith, length-emit fuel (tenth i)))
]

length-emit_hex : (fuel i : ℕ) → length (emit_hex fuel i) ≤ fuel
unfolding emit_hex
length-emit_hex zero i = omega arith
length-emit_hex (suc fuel) i = elim (Bool-cases ((i / 16) == 0)) [
  | inl last ↦ rw last (omega arith)
  | inr more ↦ rw more (omega (arith, length-emit_hex fuel (i / 16)))
]

pub length-reverse_onto : (cs acc : List ℕ) → length (reverse_onto cs acc) ≡ length cs + length acc
unfolding reverse_onto
length-reverse_onto [] acc = omega arith
length-reverse_onto (c ∷ cs) acc = omega (arith, length-reverse_onto cs (c ∷ acc))

pub length-convert : (v : ℤ) → length (convert v) ≤ max_digits + 1
unfolding convert
length-convert (pos n) =
    let ds = emit max_digits (pos n) in
    omega (
      arith,
      length-reverse_onto (ds ++ []) [],
      length-append ds [],
      length-emit max_digits (pos n),
    )
length-convert (negsuc n) =
    let ds = emit max_digits (negsuc n) in
    omega (
      arith,
      length-reverse_onto (ds ++ minus ∷ []) [],
      length-append ds (minus ∷ []),
      length-emit max_digits (negsuc n),
    )

pub length-convert_hex : (v : ℕ) → length (convert_hex v) ≤ 16
unfolding convert_hex
length-convert_hex v = omega (arith, length-reverse_onto (emit_hex 16 v) [], length-emit_hex 16 v)

-- The text of a piece.
unfoldable pub text_of : Piece → List ℕ
text_of (text s) = s
text_of (flag v) = (if v then 49 else 48) ∷ []
text_of (integer v) = convert v
text_of (pointer v) = 48 ∷ 120 ∷ convert_hex v

-- There is room for a character behind the text.
abbrev pub HasRoom : FixedBuffer → Type 0
HasRoom b = length b.written < b.size

-- A piece is added whole or not at all.
pub record Put (p : Piece) (b b' : FixedBuffer) : Type 0 where
  pub room : HasRoom b'
  pub same_size : b'.size ≡ b.size
  pub whole : (b'.written ≡ b.written ++ text_of p) ⊎ (b'.written ≡ b.written)

append-Put :
    (p : Piece) (s : List ℕ) (b : FixedBuffer) → text_of p ≡ s → HasRoom b → Put p b (append s b)
unfolding append
append-Put p s b e h = elim (Bool-cases (ltb (length s) (avail b))) [
  | inl fits ↦
      rw (append, fits)
        (record {
          room = ground (arith, length-append b.written s, fits, h);
          same_size = refl;
          whole = inl (rw e refl);
        })
  | inr full ↦ rw (append, full) (record { room = h; same_size = refl; whole = inr refl })
]

-- Writing at `current()` what is no longer than 31 characters, if there is room for 32.
add-Put :
    (p : Piece) (s : List ℕ) (b : FixedBuffer)
    → text_of p ≡ s
    → length s < max_numeric_size
    → HasRoom b
    → Put p b (if leb max_numeric_size (avail b) then add s b else b)
add-Put p s b e short h = elim (Bool-cases (leb max_numeric_size (avail b))) [
  | inl fits ↦ rw fits (record {
    room = ground (arith, length-append b.written s, fits, h, short);
    same_size = refl;
    whole = inl (rw e refl);
  })
  | inr full ↦ rw full (record { room = h; same_size = refl; whole = inr refl })
]

put-Put : (p : Piece) (b : FixedBuffer) → HasRoom b → Put p b (put p b)
unfolding put text_of format_integer format_pointer
put-Put (text s) b h = append-Put (text s) s b refl h
put-Put (flag v) b h = append-Put (flag v) _ b refl h
put-Put (integer v) b h = add-Put (integer v) (convert v) b refl (omega (arith, length-convert v)) h
put-Put (pointer v) b h =
    add-Put (pointer v) (48 ∷ 120 ∷ convert_hex v) b refl (omega (arith, length-convert_hex v)) h

-- The texts of some of the pieces, in their order.
pub data Chosen : List Piece → List ℕ → Type 0 where
  nothing : Chosen [] []
  taken :
      (p : Piece) (ps : List Piece) (s : List ℕ) → Chosen ps s → Chosen (p ∷ ps) (text_of p ++ s)
  left_out : (p : Piece) (ps : List Piece) (s : List ℕ) → Chosen ps s → Chosen (p ∷ ps) s

-- However many pieces are put into a line with room for a character, the buffer does not overflow and keeps a character for the
-- closing zero, and the line is what it was, followed by the texts of some of the pieces in their
-- order, each of them whole.
pub put_all_lem :
    (ps : List Piece) (b : FixedBuffer)
    → HasRoom b
    → HasRoom (put_all ps b)
      × ((s : List ℕ) × Chosen ps s × ((put_all ps b).written ≡ b.written ++ s))
unfolding put_all
put_all_lem [] b h = (h, ([], nothing, sym (append-nil b.written)))
put_all_lem (p ∷ ps) b h =
    let one = put-Put p b h in
    let (room, (s, chosen, e)) = put_all_lem ps (put p b) one.room in
    elim one.whole [
      | inl added ↦ (
        room,
        (text_of p ++ s, taken p ps s chosen, e ∙ rw added (append_assoc b.written (text_of p) s)),
      )
      | inr same ↦ (room, (s, left_out p ps s chosen, e ∙ rw same refl))
    ]
