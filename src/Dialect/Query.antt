-- ===== src/Dialect/Query.antt =====
-- A query text as the code puts it together: SQL words, and identifiers that `Quote` has quoted.
use data_profiler.Prelude.{List, [], ◌∷◌, ◌++◌, Str, String, lit}
use data_profiler.Dialect.{Dialect, quote}

pub data Piece : Type 0 where
  words : Str → Piece
  name : Str → Piece

abbrev pub Query : Type 0
Query = List Piece

abbrev pub sql : String → Query
sql s = words (lit s) ∷ []

abbrev pub named : Str → Query
named s = name s ∷ []

-- Go's `+`.
abbrev pub join : List Query → Query
join [] = []
join (q ∷ qs) = q ++ join qs

-- The text that is sent.
unfoldable pub text : Dialect → Query → Str
text d [] = []
text d (words s ∷ q) = s ++ text d q
text d (name s ∷ q) = quote d s ++ text d q
