-- ===== src/Auth.antt =====
-- pkg/auth/scopes.go, without the plumbing of contexts and HTTP.
pub mod Order
pub mod Parsing
pub mod Keys
pub mod Issuing
pub mod History
pub mod Admission
mod Tests
use observe_x.Prelude.{
  ℕ, ◌+◌, Bool, true, false, not, ◌&&◌, ◌||◌, Option, none, some, List, [], ◌∷◌, ◌++◌, ltb, leb,
  ◌==◌, if◌then◌else◌, map,
}
use observe_x.Prelude.Text.{Text, codes, text_eq}

pub data Scope : Type 0 where
  ingest query alert_read alert_write tenant_admin : Scope

-- The canonical strings.
unfoldable pub scope_text : Scope → Text
scope_text ingest = codes "ingest"
scope_text query = codes "query"
scope_text alert_read = codes "alert.read"
scope_text alert_write = codes "alert.write"
scope_text tenant_admin = codes "tenant.admin"

abbrev pub all_scopes : List Scope
all_scopes = ingest ∷ query ∷ alert_read ∷ alert_write ∷ tenant_admin ∷ []

abbrev pub default_scopes : List Scope
default_scopes = ingest ∷ []

-- unicode.IsSpace.
unfoldable pub is_space : ℕ → Bool
is_space c =
    (leb 9 c && leb c 13)
    || (c == 32
        || (c == 133
            || (c == 160
                || (c == 5760
                    || ((leb 8192 c && leb c 8202)
                        || (c == 8232
                            || (c == 8233 || (c == 8239 || (c == 8287 || c == 12288)))))))))

unfoldable pub trim_left : Text → Text
trim_left [] = []
trim_left (c ∷ cs) = if is_space c then trim_left cs else c ∷ cs

unfoldable pub cons_unless_blank : ℕ → Text → Text
cons_unless_blank c [] = if is_space c then [] else c ∷ []
cons_unless_blank c (d ∷ ds) = c ∷ d ∷ ds

unfoldable pub trim_right : Text → Text
unfolding cons_unless_blank
trim_right [] = []
trim_right (c ∷ cs) = cons_unless_blank c (trim_right cs)

-- unicode.ToLower on the capitals whose lower case is an ASCII letter; no other can make a scope's name.
unfoldable pub lower_rune : ℕ → ℕ
lower_rune c =
    if leb b'A' c && leb c b'Z'
    then c + 32
    else if c == 304
    then b'i'
    else if c == 8490
    then b'k'
    else c

unfoldable pub scope_named : Text → Option Scope
unfolding text_eq scope_text
scope_named s =
    if text_eq s (scope_text ingest)
    then some ingest
    else if text_eq s (scope_text query)
    then some query
    else if text_eq s (scope_text alert_read)
    then some alert_read
    else if text_eq s (scope_text alert_write)
    then some alert_write
    else if text_eq s (scope_text tenant_admin)
    then some tenant_admin
    else none

-- ParseScope.
unfoldable pub parse_scope : Text → Option Scope
unfolding scope_named trim_left trim_right lower_rune is_space
parse_scope s = scope_named (map lower_rune (trim_left (trim_right s)))

unfoldable pub scope_eq : Scope → Scope → Bool
scope_eq ingest ingest = true
scope_eq query query = true
scope_eq alert_read alert_read = true
scope_eq alert_write alert_write = true
scope_eq tenant_admin tenant_admin = true
scope_eq _ _ = false

unfoldable pub has : Scope → List Scope → Bool
unfolding scope_eq
has s [] = false
has s (x ∷ xs) = scope_eq x s || has s xs

-- HasScope.
unfoldable pub has_scope : List Scope → List Scope → Bool
unfolding has
has_scope granted [] = true
has_scope granted (r ∷ rs) = has r granted && has_scope granted rs

-- The order of Go's strings.
unfoldable pub text_lt : Text → Text → Bool
text_lt [] [] = false
text_lt [] (_ ∷ _) = true
text_lt (_ ∷ _) [] = false
text_lt (a ∷ as') (b ∷ bs) = ltb a b || (a == b && text_lt as' bs)

abbrev pub scope_lt : Scope → Scope → Bool
scope_lt a b = text_lt (scope_text a) (scope_text b)

-- The loop of dedupSortScopes that drops what it has seen.
unfoldable pub dedup : List Scope → List Scope → List Scope
unfolding has
dedup seen [] = []
dedup seen (x ∷ xs) = if has x seen then dedup seen xs else x ∷ dedup (x ∷ seen) xs

unfoldable pub insert_scope : Scope → List Scope → List Scope
unfolding text_lt scope_text
insert_scope x [] = x ∷ []
insert_scope x (y ∷ ys) = if scope_lt y x then y ∷ insert_scope x ys else x ∷ y ∷ ys

unfoldable pub sort_scopes : List Scope → List Scope
unfolding insert_scope
sort_scopes [] = []
sort_scopes (x ∷ xs) = insert_scope x (sort_scopes xs)

unfoldable pub dedup_sort_scopes : List Scope → List Scope
unfolding dedup sort_scopes
dedup_sort_scopes xs = sort_scopes (dedup [] xs)

unfoldable pub parse_all : List Text → Option (List Scope)
unfolding parse_scope
parse_all [] = some []
parse_all (t ∷ ts) = elim (parse_scope t) [
  | none ↦ none
  | some s ↦ elim (parse_all ts) [ none ↦ none | some ss ↦ some (s ∷ ss) ]
]

-- ParseScopes; none is the error.
unfoldable pub parse_scopes : List Text → Option (List Scope)
unfolding parse_all dedup_sort_scopes
parse_scopes [] = some default_scopes
parse_scopes (t ∷ ts) = elim (parse_all (t ∷ ts)) [
  | none ↦ none
  | some ss ↦ some (dedup_sort_scopes ss)
]

unfoldable pub scopes_as_strings : List Scope → List Text
unfolding scope_text
scopes_as_strings = map scope_text

-- ScopesFromContext, on the scopes that the context carries, if it does.
unfoldable pub scopes_from_context : Option (List Scope) → List Scope
scopes_from_context none = default_scopes
scopes_from_context (some []) = default_scopes
scopes_from_context (some (s ∷ ss)) = s ∷ ss

-- RequireScope: whether the request goes on to the next handler; it is forbidden otherwise.
unfoldable pub require_scope : List Scope → Option (List Scope) → Bool
unfolding scopes_from_context has_scope
require_scope required carried = has_scope (scopes_from_context carried) required
