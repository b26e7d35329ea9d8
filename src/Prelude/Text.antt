-- ===== src/Prelude/Text.antt =====
-- `str::trim().is_empty()`: a text of white space alone.
use Prim.Native.Nat.{ℕ}
use Prim.Native.Char.{code}
use Prim.Native.String.{String}
use mathlib.Core.Bool.{Bool, true, ◌&&◌, ◌||◌}
use multichain_rs.Prelude.Tests.{leb, nat_beq}

-- `char::is_whitespace`: the code points of Unicode's White_Space.
abbrev pub is_whitespace : ℕ → Bool
is_whitespace c =
    leb 9 c && leb c 13
    || nat_beq c 32
    || nat_beq c 0x85
    || nat_beq c 0xa0
    || nat_beq c 0x1680
    || leb 0x2000 c && leb c 0x200a
    || nat_beq c 0x2028
    || nat_beq c 0x2029
    || nat_beq c 0x202f
    || nat_beq c 0x205f
    || nat_beq c 0x3000

unfoldable pub is_blank : String → Bool
is_blank String.[] = true
is_blank (String.◌∷◌ c s) = is_whitespace (code c) && is_blank s

-- `str::is_ascii`
unfoldable pub is_ascii : String → Bool
is_ascii String.[] = true
is_ascii (String.◌∷◌ c s) = leb (code c) 127 && is_ascii s
