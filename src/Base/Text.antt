-- ===== src/Base/Text.antt =====
-- Texts as bytes.
use Prim.Native.Nat.{ℕ}
use Prim.Native.Char.{code}
use Prim.Native.String.{String}
use mathlib.Core.List.{List, [], ◌∷◌}

-- A `str` or `String` is its UTF-8 bytes.
abbrev pub Str : Type 0
Str = List ℕ

-- A literal of ASCII characters.
abbrev pub str : String → Str
str String.[] = []
str (String.◌∷◌ c s) = code c ∷ str s
