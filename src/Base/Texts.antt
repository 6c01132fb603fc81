-- ===== src/Base/Texts.antt =====
-- `str.strip`, over the code points that Python counts as white space.
use Prim.Native.Nat.{ℕ}
use Prim.Native.Char.{Char, code}
use Prim.Native.String.{String}
use mathlib.Core.Bool.{Bool, ◌||◌, ◌&&◌}
use templehe_consign.Base.Tests.{leb, ◌==◌, nat_eq, if◌then◌else◌}

abbrev is_between : ℕ → ℕ → ℕ → Bool
is_between lo hi c = leb lo c && leb c hi

abbrev is_space : ℕ → Bool
is_space c =
    is_between 0x09 0x0d c
    || is_between 0x1c 0x20 c
    || (c == 0x85)
    || (c == 0xa0)
    || (c == 0x1680)
    || is_between 0x2000 0x200a c
    || is_between 0x2028 0x2029 c
    || (c == 0x202f)
    || (c == 0x205f)
    || (c == 0x3000)

pub strip_start : String → String
strip_start String.[] = ""
strip_start (String.◌∷◌ c s) =
    let rest = strip_start s in if is_space (code c) then rest else String.◌∷◌ c s

abbrev keep_unless_blank : Char → String → String
keep_unless_blank c String.[] = if is_space (code c) then "" else String.◌∷◌ c ""
keep_unless_blank c (String.◌∷◌ d s) = String.◌∷◌ c (String.◌∷◌ d s)

pub strip_end : String → String
strip_end String.[] = ""
strip_end (String.◌∷◌ c s) = keep_unless_blank c (strip_end s)

unfoldable pub strip : String → String
unfolding strip_start strip_end
strip s = strip_end (strip_start s)
