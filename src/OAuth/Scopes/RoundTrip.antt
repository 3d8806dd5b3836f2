-- ===== src/OAuth/Scopes/RoundTrip.antt =====
-- Scopes written by `join(" ")` are read back by `parseScopes`.
use Prim.Native.String
use Prim.Native.String.{String}
use text.Mathlib.TextLemmas.{nil-append, cons-append}
use mathlib.Core.List.{append-nil, append_assoc}
use fullwell.Prelude.{
  ◌≡◌, refl, ap, sym, ◌∙◌, false, not, some, List, [], ◌∷◌, ◌++◌, map, ◌==◌, eq_iff, arith, All,
  any, filter, ◌≢◌,
}
use fullwell.Prelude.Exec.{ok}
use fullwell.Prelude.Text.{is_space, split_space, join_space}
use fullwell.OAuth.Types.{OAuthScope, journal_read}
use fullwell.OAuth.Scopes.{
  scope_name, scope_of, includes_text, unique_from, all_scopes, parse_scopes, join_scopes,
}

-- A text with no space.
abbrev pub IsWord : String → Type 0
IsWord String.[] = Unit
IsWord (String.◌∷◌ c s) = (is_space c ≡ false) × IsWord s

split_space-word : (w : String) → IsWord w → split_space w ≡ w ∷ []
unfolding split_space
split_space-word String.[] h = refl
split_space-word (String.◌∷◌ c s) (p, h) = rw (p, split_space-word s h)

-- The first word of a text is split off.
split_space-append :
    (w s : String) → IsWord w → split_space (String.◌++◌ w (String.◌++◌ " " s)) ≡ w ∷ split_space s
unfolding split_space
split_space-append String.[] s h = rw nil-append (rw cons-append (rw nil-append refl))
split_space-append (String.◌∷◌ c w) s (p, h) = rw cons-append (rw (p, split_space-append w s h))

scope_name-IsWord : (s : OAuthScope) → IsWord (scope_name s)
unfolding scope_name
scope_name-IsWord journal_read = ground arith
scope_name-IsWord _ = ground arith

scope_name-ne-empty : (s : OAuthScope) → (scope_name s == "") ≡ false
unfolding scope_name
scope_name-ne-empty journal_read = refl
scope_name-ne-empty _ = refl

scope_of-scope_name : (s : OAuthScope) → scope_of (scope_name s) ≡ some s
unfolding scope_of scope_name
scope_of-scope_name journal_read = refl
scope_of-scope_name _ = refl

-- The names of a joined list are its non-empty words.
words-join :
    (l : List OAuthScope)
    → filter (λ w. not (w == "")) (split_space (join_space (map scope_name l))) ≡ map scope_name l
unfolding filter join_space
words-join [] = unfold split_space in refl
words-join (s ∷ []) =
    rw (split_space-word (scope_name s) (scope_name-IsWord s)) (rw (scope_name-ne-empty s))
words-join (s ∷ t ∷ l) =
    rw
      (split_space-append (scope_name s) (join_space (map scope_name (t ∷ l)))
        (scope_name-IsWord s))
      (rw (scope_name-ne-empty s) (ap (◌∷◌ (scope_name s)) (words-join (t ∷ l))))

-- Each element differs from all that come before it and from those in `seen`.
abbrev pub IsDistinct : List OAuthScope → Type 0
IsDistinct [] = Unit
IsDistinct (s ∷ l) = All (λ t. s ≢ t) l × IsDistinct l

scope_name-injective : (s t : OAuthScope) → scope_name s ≡ scope_name t → s ≡ t
scope_name-injective s t e = cc (scope_of-scope_name s, scope_of-scope_name t, e)

-- `x` stands in none of `xs`.
abbrev IsFresh : String → List String → Type 0
IsFresh x xs = All (λ y. y ≢ x) xs

includes_text-IsFresh : (xs : List String) (x : String) → IsFresh x xs → includes_text xs x ≡ false
unfolding includes_text any
includes_text-IsFresh [] x h = refl
includes_text-IsFresh (y ∷ xs) x (p, h) = ground (arith, eq_iff y x, includes_text-IsFresh xs x h)

IsFresh-append :
    (xs ys : List String) (x : String) → IsFresh x xs → IsFresh x ys → IsFresh x (xs ++ ys)
IsFresh-append [] ys x h k = k
IsFresh-append (y ∷ xs) ys x (p, h) k = (p, IsFresh-append xs ys x h k)

names-IsFresh :
    (s : OAuthScope) (l : List OAuthScope)
    → All (λ t. s ≢ t) l
    → IsFresh (scope_name s) (map scope_name l)
names-IsFresh s [] h = tt
names-IsFresh s (t ∷ l) (p, h) = (λ e. p (scope_name-injective s t (sym e)), names-IsFresh s l h)

-- `seen` with the name of `s` behind it has the name of no scope that differs from `s`.
seen-IsFresh :
    (seen : List String) (s : OAuthScope) (l : List OAuthScope)
    → All (λ t. IsFresh (scope_name t) seen) l
    → All (λ t. s ≢ t) l
    → All (λ t. IsFresh (scope_name t) (seen ++ scope_name s ∷ [])) l
seen-IsFresh seen s [] h k = tt
seen-IsFresh seen s (t ∷ l) (p, h) (q, k) = (
  IsFresh-append seen (scope_name s ∷ []) (scope_name t) p
      ((λ e. q (scope_name-injective s t e)), tt),
  seen-IsFresh seen s l h k,
)

unique_from-names :
    (seen : List String) (l : List OAuthScope)
    → IsDistinct l
    → All (λ t. IsFresh (scope_name t) seen) l
    → unique_from seen (map scope_name l) ≡ seen ++ map scope_name l
unfolding unique_from
unique_from-names seen [] d h = sym (append-nil seen)
unique_from-names seen (s ∷ l) (p, d) (q, h) =
    rw (includes_text-IsFresh seen (scope_name s) q, unique_from)
      (unique_from-names (seen ++ scope_name s ∷ []) l d (seen-IsFresh seen s l h p)
        ∙ append_assoc seen (scope_name s ∷ []) (map scope_name l))

all_scopes-names : (l : List OAuthScope) → all_scopes (map scope_name l) ≡ some l
unfolding all_scopes
all_scopes-names [] = refl
all_scopes-names (s ∷ l) = rw (scope_of-scope_name s, all_scopes-names l, all_scopes)

All-IsFresh-nil : (l : List OAuthScope) → All (λ t. IsFresh (scope_name t) []) l
All-IsFresh-nil [] = tt
All-IsFresh-nil (s ∷ l) = (tt, All-IsFresh-nil l)

-- A list of scopes with no repetition, written as a token response writes it, is read back as it
-- was: the same scopes in the same order.
pub parse_scopes-join_scopes :
    (l : List OAuthScope) → IsDistinct l → parse_scopes (join_scopes l) ≡ ok l
unfolding parse_scopes join_scopes
parse_scopes-join_scopes l d =
    rw
      (words-join l, unique_from-names [] l d (All-IsFresh-nil l), all_scopes-names l, parse_scopes)
