-- ===== src/Prelude/Text.antt =====
-- The text methods that the program uses: `split(" ")`, `join(" ")`, `length` and character tests.
use Prim.Native.Char.{Char, code}
use Prim.Native.String
use Prim.Native.String.{String, [], ◌∷◌}
use mathlib.Core.Bool.{Bool, true, ◌&&◌, ◌||◌}
use mathlib.Core.List.{List}
use Prim.Native.Nat.{ℕ, ◌+◌}
use fullwell.Prelude.Tests.{nat_eq, leb, ltb, if◌then◌else◌}

-- `s.length`: a character beyond U+FFFF takes two code units.
unfoldable pub utf16_length : String → ℕ
utf16_length [] = 0
utf16_length (c ∷ s) = (if ltb (code c) 0x10000 then 1 else 2) + utf16_length s

-- s.length lies in lo..hi
unfoldable pub has_length : ℕ → ℕ → String → Bool
unfolding utf16_length
has_length lo hi s = leb lo (utf16_length s) && leb (utf16_length s) hi

unfoldable pub every_char : (ℕ → Bool) → String → Bool
every_char p [] = true
every_char p (c ∷ s) = p (code c) && every_char p s

-- [A-Za-z0-9]
abbrev pub is_alnum : ℕ → Bool
is_alnum c = leb b'A' c && leb c b'Z' || leb b'a' c && leb c b'z' || leb b'0' c && leb c b'9'

abbrev pub is_space : Char → Bool
is_space c = nat_eq (code c) b' '

abbrev pub prepend : Char → List String → List String
prepend c List.[] = List.◌∷◌ (c ∷ []) List.[]
prepend c (List.◌∷◌ w ws) = List.◌∷◌ (c ∷ w) ws

-- s.split(" ")
unfoldable pub split_space : String → List String
split_space [] = List.◌∷◌ [] List.[]
split_space (c ∷ s) =
    let rest = split_space s in if is_space c then List.◌∷◌ [] rest else prepend c rest

-- ws.join(" ")
unfoldable pub join_space : List String → String
join_space List.[] = []
join_space (List.◌∷◌ w List.[]) = w
join_space (List.◌∷◌ w (List.◌∷◌ v ws)) =
    String.◌++◌ w (String.◌++◌ " " (join_space (List.◌∷◌ v ws)))
