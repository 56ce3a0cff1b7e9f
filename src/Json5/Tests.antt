-- ===== src/Json5/Tests.antt =====
-- Tests of the cleaning of JSON with comments.
use Prim.Native.Char.{code}
use ljfxznode.Common.{ℕ, ◌≡◌, refl, some, List, [], ◌∷◌, String, length, arith}
use ljfxznode.Json5.{prep}
use ljfxznode.Json5.Blanks.{Blanked}
use ljfxznode.Json5.Cleaning.{prep-Blanked}

abbrev codes : String → List ℕ
codes String.[] = []
codes (String.◌∷◌ c s) = code c ∷ codes s

prep_comma : prep 30 (codes "{\"a,//\": 1, /*x*/ }") ≡ some (codes "{\"a,//\": 1        }")
unfolding prep
prep_comma = refl

prep_line : prep 30 (codes "[1, // x\n]") ≡ some (codes "[1      \n]")
unfolding prep
prep_line = refl

-- The byte after a star stays, so that `**/` does not end a comment.
prep_star : prep 30 (codes "/*a*b*/1") ≡ some (codes "    b  1")
unfolding prep
prep_star = refl

prep_stars : prep 30 (codes "/**a**/1") ≡ some (codes "   a *  ")
unfolding prep
prep_stars = refl

prep-Blanked_example :
    (cleaned : List ℕ) × (prep 30 (codes "[1,]") ≡ some cleaned)
    × (length cleaned ≡ length (codes "[1,]"))
    × Blanked (codes "[1,]") cleaned
prep-Blanked_example = prep-Blanked 30 (codes "[1,]") (omega arith)
