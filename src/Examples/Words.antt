-- ===== src/Examples/Words.antt =====
-- Runs of the proquints and of the edit distance.
use nex_talk.Base.{◌≡◌, [], ◌∷◌, arith, codes, ok}
use nex_talk.Proquint.{to_proquint, from_proquint}
use nex_talk.Proquint.RoundTrip.{padded, from_proquint-to_proquint}
use nex_talk.Shell.Distance.{levenshtein}
use nex_talk.Shell.Distance.Reference.{distance, reverse, levenshtein-distance}

from_proquint-to_proquint_example :
    from_proquint (to_proquint (127 ∷ 0 ∷ 255 ∷ [])) ≡ ok (127 ∷ 0 ∷ 255 ∷ 0 ∷ [])
unfolding padded
from_proquint-to_proquint_example =
    from_proquint-to_proquint (127 ∷ 0 ∷ 255 ∷ []) (omega arith)
      (omega arith, (omega arith, (omega arith, tt)))

levenshtein-distance_example :
    levenshtein (codes "sned") (codes "send") ≡ distance (codes "dens") (codes "dnes")
unfolding reverse
levenshtein-distance_example = levenshtein-distance (codes "sned") (codes "send")
