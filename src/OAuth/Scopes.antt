-- ===== src/OAuth/Scopes.antt =====
-- Scope lists as text: `parseScopes` and `hasSameScopes` of oauth/service.ts, and the enumeration
-- `OAuthScopeSchema` of packages/contracts/src/common.ts.
pub mod RoundTrip
use fullwell.Prelude.{
  String, Bool, true, false, not, ◌&&◌, Option, none, some, List, [], ◌∷◌, ◌++◌, map, ◌==◌,
  if◌then◌else◌, any, all, filter, nat_eq, length,
}
use fullwell.Prelude.Exec.{Result, ok, err}
use fullwell.Prelude.Text.{split_space, join_space}
use fullwell.OAuth.Types.{
  OAuthScope, journal_read, journal_write, household_manage, collection_share, journal_export,
  runner_messages, OAuthError, protocol, invalid_scope,
}

unfoldable pub scope_name : OAuthScope → String
scope_name journal_read = "journal:read"
scope_name journal_write = "journal:write"
scope_name household_manage = "household:manage"
scope_name collection_share = "collection:share"
scope_name journal_export = "journal:export"
scope_name runner_messages = "runner:messages"

-- OAuthScopeSchema.safeParse(s)
unfoldable pub scope_of : String → Option OAuthScope
scope_of s =
    if s == "journal:read"
    then some journal_read
    else if s == "journal:write"
    then some journal_write
    else if s == "household:manage"
    then some household_manage
    else if s == "collection:share"
    then some collection_share
    else if s == "journal:export"
    then some journal_export
    else if s == "runner:messages"
    then some runner_messages
    else none

-- set.has(s)
unfoldable pub includes_text : List String → String → Bool
includes_text xs s = any (λ x. x == s) xs

-- [...new Set(xs)]: the first of equal texts stays
unfoldable pub unique_from : List String → List String → List String
unique_from seen [] = seen
unique_from seen (x ∷ xs) = unique_from (if includes_text seen x then seen else seen ++ x ∷ []) xs

-- All scopes, or none if a name is unknown.
unfoldable pub all_scopes : List String → Option (List OAuthScope)
all_scopes [] = some []
all_scopes (x ∷ xs) = elim (scope_of x) [
  | none ↦ none
  | some s ↦ elim (all_scopes xs) [ none ↦ none | some ss ↦ some (s ∷ ss) ]
]

unfoldable pub parse_scopes : String → Result OAuthError (List OAuthScope)
parse_scopes value =
    elim (all_scopes (unique_from [] (filter (λ w. not (w == "")) (split_space value)))) [
      | none ↦ err (protocol invalid_scope 400)
      | some scopes ↦ ok scopes
    ]

-- scopes.join(" ")
unfoldable pub join_scopes : List OAuthScope → String
join_scopes scopes = join_space (map scope_name scopes)

abbrev pub same_scope : OAuthScope → OAuthScope → Bool
same_scope journal_read journal_read = true
same_scope journal_write journal_write = true
same_scope household_manage household_manage = true
same_scope collection_share collection_share = true
same_scope journal_export journal_export = true
same_scope runner_messages runner_messages = true
same_scope _ _ = false

-- scopes.includes(s)
unfoldable pub includes_scope : List OAuthScope → OAuthScope → Bool
includes_scope scopes s = any (λ t. same_scope t s) scopes

unfoldable pub has_same_scopes : List OAuthScope → List OAuthScope → Bool
unfolding includes_scope
has_same_scopes left right =
    nat_eq (length left) (length right) && all (λ s. includes_scope right s) left
