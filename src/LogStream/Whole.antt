-- ===== src/LogStream/Whole.antt =====
-- Pieces that fit into the buffer of a line, with the room that a number asks for, are all in it.
use cppnetool.Prelude.{
  ℕ, ◌+◌, ◌≤◌, ◌<◌, ◌≡◌, sym, ap, ◌∙◌, List, [], ◌∷◌, ◌++◌, length, arith, append-nil, append_assoc,
  length-append, true, false,
}
use cppnetool.LogStream.{
  FixedBuffer, Piece, text, flag, integer, pointer, append, put, put_all, format_integer,
  format_pointer, max_numeric_size,
}
use cppnetool.LogStream.Bounds.{text_of}

pub append-fits :
    (s : List ℕ) (b : FixedBuffer)
    → length b.written + length s < b.size
    → append s b ≡ record b { written = b.written ++ s }
unfolding append
append-fits s b h = ground (arith, h)

abbrev pub texts : List Piece → List ℕ
texts [] = []
texts (p ∷ ps) = text_of p ++ texts ps

put-fits :
    (p : Piece) (b : FixedBuffer)
    → length b.written + length (text_of p) + max_numeric_size ≤ b.size
    → put p b ≡ record b { written = b.written ++ text_of p }
unfolding put text_of format_integer format_pointer
put-fits (text s) b h = append-fits s b (omega (arith, h))
put-fits (flag true) b h = append-fits (49 ∷ []) b (omega (arith, h))
put-fits (flag false) b h = append-fits (48 ∷ []) b (omega (arith, h))
put-fits (integer v) b h = ground (arith, h)
put-fits (pointer v) b h = ground (arith, h)

pub put_all-fits :
    (ps : List Piece) (b : FixedBuffer)
    → length b.written + length (texts ps) + max_numeric_size ≤ b.size
    → put_all ps b ≡ record b { written = b.written ++ texts ps }
unfolding put_all
put_all-fits [] b h = ap (λ w. record b { written = w }) (sym (append-nil b.written))
put_all-fits (p ∷ ps) b h =
    let one = put-fits p b (omega (arith, length-append (text_of p) (texts ps), h)) in
    let more =
      put_all-fits ps (record b { written = b.written ++ text_of p })
        (omega
          (arith, length-append (text_of p) (texts ps), length-append b.written (text_of p), h)) in
    ap (put_all ps) one
    ∙ more
    ∙ ap (λ w. record b { written = w }) (append_assoc b.written (text_of p) (texts ps))
