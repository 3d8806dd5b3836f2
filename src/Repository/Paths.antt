-- ===== src/Repository/Paths.antt =====
-- `validateRepositoryPath` of adapters/memory.ts.
use Prim.Native.Char.{code}
use Prim.Native.String.{[], ◌∷◌}
use fullwell.Prelude.{ℕ, String, Bool, false, not, ◌&&◌, ◌||◌, nat_eq, leb}
use fullwell.Prelude.Text.{is_alnum, every_char, utf16_length}

-- [a-zA-Z0-9._/-]
abbrev pub is_path_char : ℕ → Bool
is_path_char c = is_alnum c || nat_eq c b'.' || nat_eq c b'_' || nat_eq c b'/' || nat_eq c b'-'

abbrev pub starts_with : ℕ → String → Bool
starts_with k [] = false
starts_with k (c ∷ s) = nat_eq (code c) k

-- path.includes("..") and path.includes("//")
unfoldable pub has_double : ℕ → String → Bool
has_double k [] = false
has_double k (c ∷ s) = nat_eq (code c) k && starts_with k s || has_double k s

unfoldable pub ends_with : ℕ → String → Bool
ends_with k [] = false
ends_with k (c ∷ []) = nat_eq (code c) k
ends_with k (c ∷ d ∷ s) = ends_with k (d ∷ s)

-- ^[a-zA-Z0-9][a-zA-Z0-9._/-]{0,499}$
unfoldable pub has_path_chars : String → Bool
has_path_chars [] = false
has_path_chars (c ∷ s) = is_alnum (code c) && every_char is_path_char s && leb (utf16_length s) 499

unfoldable pub is_repository_path : String → Bool
unfolding has_path_chars has_double ends_with
is_repository_path path =
    has_path_chars path
    && not (has_double b'.' path)
    && not (has_double b'/' path)
    && not (starts_with b'/' path)
    && not (ends_with b'/' path)
