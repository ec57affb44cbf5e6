-- ===== src/Pws/Tokenizer/Rewind.antt =====
-- What a word that is read and put back does to the stream
-- (code/pepper/cmtgkr/circuit/tokenizer.h).
use ginger_zaatar_allspice.Prelude.{
  ◌<◌, ◌≡◌, refl, Bool, true, false, List, [], ◌∷◌, ◌⊎◌, inl, inr, length, arith,
}
use ginger_zaatar_allspice.Pws.Primitives.{Text}
use ginger_zaatar_allspice.Pws.Tokenizer.{
  Piece, word, line_end, Tokenizer, has_next, read_word, next, rewind,
}

-- Where a word is found, the token that was there before plays no part, and the place before the
-- word is kept.
read_word_found :
    (start : List Piece) (token token' : Text) (ps : List Piece)
    → (read_word start token ps).1.eof ≡ false
    → (read_word start token' ps ≡ read_word start token ps)
      × ((read_word start token ps).1.last_pos ≡ start)
unfolding read_word
read_word_found start token token' [] h = absurd (grind arith)
read_word_found start token token' (word w ∷ ps) h = (refl, refl)
read_word_found start token token' (line_end ∷ ps) h = read_word_found start token token' ps h

rewind_at :
    (token token' : Text) (r p : List Piece) (e : Bool)
    → (next token (record { rest = r; last_pos = p; eof = e })).1.eof ≡ false
    → next token' (rewind (next token (record { rest = r; last_pos = p; eof = e })).1)
      ≡ next token (record { rest = r; last_pos = p; eof = e })
unfolding next rewind has_next
rewind_at token token' r p true h = absurd (grind arith)
rewind_at token token' r p false h =
    rw (h, (read_word_found r token token' r h).1) (read_word_found r token token' r h).0

-- If a read does not come to the end of the stream, putting its word back and reading again gives
-- the same word and the same stream, whatever the token was before.
pub next-rewind :
    (token token' : Text) (t : Tokenizer)
    → (next token t).1.eof ≡ false
    → next token' (rewind (next token t).1) ≡ next token t
unfolding next rewind has_next
next-rewind token token' t h = rewind_at token token' t.rest t.last_pos t.eof h

read_word_shortens :
    (start : List Piece) (token : Text) (ps : List Piece)
    → ((read_word start token ps).1.eof ≡ true)
      ⊎ (length (read_word start token ps).1.rest < length ps)
unfolding read_word
read_word_shortens start token [] = inl refl
read_word_shortens start token (word w ∷ ps) = inr (omega arith)
read_word_shortens start token (line_end ∷ ps) = elim (read_word_shortens start token ps) [
  | inl e ↦ inl e
  | inr l ↦ inr (omega arith)
]

-- A read shortens the stream or comes to its end.
pub next_shortens :
    (token : Text) (t : Tokenizer)
    → has_next t ≡ true
    → ((next token t).1.eof ≡ true) ⊎ (length (next token t).1.rest < length t.rest)
unfolding next has_next
next_shortens token t h = rw h (read_word_shortens t.rest token t.rest)
