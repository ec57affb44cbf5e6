-- ===== src/Pws/Tokenizer.antt =====
-- code/pepper/cmtgkr/circuit/tokenizer.h over a stream of words and line ends. The stream is a
-- file that ends with a line end, so a word is never ended by the end of the file: `eof` is set by
-- the first read that finds no word.
pub mod Rewind
use ginger_zaatar_allspice.Prelude.{Bool, true, false, not, List, [], ◌∷◌, if◌then◌else◌}
use ginger_zaatar_allspice.Pws.Primitives.{Text}

pub data Piece : Type 0 where
  word : Text → Piece
  line_end : Piece

pub record Tokenizer : Type 0 where
  pub rest : List Piece
  pub last_pos : List Piece
  pub eof : Bool

unfoldable pub has_next : Tokenizer → Bool
has_next t = not t.eof

-- `in >> var`: leading line ends are skipped; with no word left the variable keeps its value and
-- the stream is at its end.
unfoldable pub read_word : List Piece → Text → List Piece → Text × Tokenizer
read_word start token [] = (token, record { rest = []; last_pos = start; eof = true })
read_word start token (word w ∷ ps) = (w, record { rest = ps; last_pos = start; eof = false })
read_word start token (line_end ∷ ps) = read_word start token ps

-- `next`: at the end of the stream nothing is read.
unfoldable pub next : Text → Tokenizer → Text × Tokenizer
unfolding has_next read_word
next token t =
    if has_next t then read_word t.rest token t.rest else (token, record t { last_pos = t.rest })

-- `seekg` fails on a stream whose end-of-file flag is set.
unfoldable pub rewind : Tokenizer → Tokenizer
rewind t = if t.eof then t else record t { rest = t.last_pos }

unfoldable pub drop_line : List Piece → List Piece → Tokenizer
drop_line start [] = record { rest = []; last_pos = start; eof = true }
drop_line start (word w ∷ ps) = drop_line start ps
drop_line start (line_end ∷ ps) = record { rest = ps; last_pos = start; eof = false }

unfoldable pub ignore_line : Tokenizer → Tokenizer
unfolding drop_line
ignore_line t = if t.eof then t else drop_line t.rest t.rest
