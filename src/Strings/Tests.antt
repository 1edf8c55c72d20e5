-- ===== src/Strings/Tests.antt =====
-- The theorems of utils/strings.c on short strings.
use libnrm.Prelude.{◌≡◌, some, List, [], ◌∷◌, length}
use libnrm.Strings.{RealString, frombuf, vjoin, strlen}
use libnrm.Strings.Laws.{AllMeasured, frombuf-IsMeasured, separated, vjoin_lem}

abbrev cap : RealString
cap = frombuf (99 ∷ 97 ∷ [])

abbrev cape : RealString
cape = frombuf (99 ∷ 97 ∷ 112 ∷ [])

abbrev words : List RealString
words = cap ∷ frombuf [] ∷ cape ∷ []

words-AllMeasured : AllMeasured words
words-AllMeasured = (
  frombuf-IsMeasured (99 ∷ 97 ∷ []),
  (frombuf-IsMeasured [], (frombuf-IsMeasured (99 ∷ 97 ∷ 112 ∷ []), tt)),
)

vjoin_lem_example :
    ((vjoin 46 words).bytes ≡ separated 46 [] words)
    × (strlen (some (vjoin 46 words)) ≡ length (separated 46 [] words))
vjoin_lem_example = vjoin_lem 46 words words-AllMeasured
