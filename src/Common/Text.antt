-- ===== src/Common/Text.antt =====
-- `strings.TrimPrefix`, `strings.HasPrefix` on native texts.
use Prim.Native.Char.{code}
use Prim.Native.String.{String}
use mathlib.Core.Option.{Option, none, some}
use ljfxznode.Common.Tests.{nat_beq, if◌then◌else◌}
use ljfxznode.Common.Maps.{or_zero}

unfoldable pub cut_prefix : String → String → Option String
cut_prefix String.[] s = some s
cut_prefix (String.◌∷◌ c p) String.[] = none
cut_prefix (String.◌∷◌ c p) (String.◌∷◌ d s) =
    if nat_beq (code c) (code d) then cut_prefix p s else none

unfoldable pub trim_prefix : String → String → String
unfolding cut_prefix
trim_prefix s p = or_zero (cut_prefix p s) s
