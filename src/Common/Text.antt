-- ===== src/Common/Text.antt =====
-- Python's order on `str`: by code points, lexicographically, a proper prefix first.
use autonomous_rover_swarm_c.Common.Tests.{if◌then◌else◌, ltb, eqb}
use autonomous_rover_swarm_c.Common.Keys.{string_eq, ◌==◌}
use mathlib.Core.Option.{Option, none, some}
use Prim.Native.Char.{code}
use Prim.Native.String.{String}
use mathlib.Core.Path.{◌≡◌, refl, ap₂}
use mathlib.Core.Bool.{Bool, true, false}
use native.Mathlib.Omega.{arith}
use text.Mathlib.TextEquality.{Char-path}

-- `s < t`
unfoldable pub str_ltb : String → String → Bool
str_ltb s String.[] = false
str_ltb String.[] (String.◌∷◌ d t) = true
str_ltb (String.◌∷◌ c s) (String.◌∷◌ d t) =
    let rest = str_ltb s t in
    if ltb (code c) (code d) then true else if eqb (code c) (code d) then rest else false

pub str_ltb_irrefl : (s : String) → str_ltb s s ≡ false
unfolding str_ltb
str_ltb_irrefl String.[] = refl
str_ltb_irrefl (String.◌∷◌ c s) = ground (arith, str_ltb_irrefl s)

pub str_ltb_trans : (s t u : String) → str_ltb s t ≡ true → str_ltb t u ≡ true → str_ltb s u ≡ true
unfolding str_ltb
str_ltb_trans s t String.[] h k = cc
str_ltb_trans s String.[] (String.◌∷◌ e u) h k = cc
str_ltb_trans String.[] (String.◌∷◌ d t) (String.◌∷◌ e u) h k = refl
str_ltb_trans (String.◌∷◌ c s) (String.◌∷◌ d t) (String.◌∷◌ e u) h k =
    ground (arith, str_ltb_trans s t u)

-- The order is total.
pub str_ltb_antisym : (s t : String) → str_ltb s t ≡ false → str_ltb t s ≡ false → s ≡ t
unfolding str_ltb
str_ltb_antisym String.[] String.[] h k = refl
str_ltb_antisym String.[] (String.◌∷◌ d t) h k = cc
str_ltb_antisym (String.◌∷◌ c s) String.[] h k = cc
str_ltb_antisym (String.◌∷◌ c s) (String.◌∷◌ d t) h k =
    ap₂ String.◌∷◌ (Char-path c d (ground arith))
      (str_ltb_antisym s t (ground arith) (ground arith))

pub str_ltb_asym : (s t : String) → str_ltb s t ≡ true → str_ltb t s ≡ false
str_ltb_asym s t h = ground (arith, str_ltb_trans s t s h, str_ltb_irrefl s)

-- `a or b` on texts: a missing or empty text is false.
abbrev pub named : Option String → Option String
named none = none
named (some t) = if t == "" then none else some t
