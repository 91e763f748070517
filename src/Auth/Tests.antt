-- ===== src/Auth/Tests.antt =====
-- Concrete runs of pkg/auth/scopes.go.
use observe_x.Prelude.{◌+◌, ◌%◌, map, ◌++◌, ◌≡◌, refl, false, ◌↔◌, ◌⊎◌, some, none, List, [], ◌∷◌}
use observe_x.Prelude.Text.{Text, codes, text_eq}
use observe_x.Auth.{
  all_scopes, Scope, ingest, query, alert_write, has, default_scopes, parse_scopes,
  scopes_as_strings, require_scope,
}
use observe_x.Auth.Order.{Ascending}
use observe_x.Auth.Keys.{
  KeyMetadata, KeyStore, scope_aware, tenant_only, unauthorized, forbidden, admitted, middleware,
  bearer_scheme, split_key, validate_key, tenant_of, new_memory_key_store, add_key,
  generate_api_key, stateless_validate,
}
use observe_x.Auth.Issuing.{has_colon, validate-generate}
use observe_x.Auth.History.{KeyOp, add_op, revoke_op, apply_ops, Stands, validate_key-Stands}
use observe_x.Auth.Admission.{Vouches, middleware-admitted}
use observe_x.Auth.Parsing.{parse_scopes-strings, parse_scopes-Ascending}

abbrev mixed : List Scope
mixed = query ∷ ingest ∷ query ∷ alert_write ∷ []

parse_scopes-strings_example :
    (rs : List Scope) × (parse_scopes (scopes_as_strings mixed) ≡ some rs)
    × Ascending rs
    × (((mixed ≡ []) × (rs ≡ default_scopes)) ⊎ ((s : Scope) → has s rs ≡ has s mixed))
parse_scopes-strings_example = parse_scopes-strings mixed

parse_scopes-Ascending_example : Ascending (ingest ∷ query ∷ [])
parse_scopes-Ascending_example =
    parse_scopes-Ascending (codes " Query " ∷ codes "ingest" ∷ codes "QUERY" ∷ [])
      (ingest ∷ query ∷ []) (unfold parse_scopes in refl)

unknown_refused : parse_scopes (codes "ingest" ∷ codes "root" ∷ []) ≡ none
unfolding parse_scopes
unknown_refused = refl

missing_scopes_ingest : require_scope (query ∷ []) none ≡ false
unfolding require_scope
missing_scopes_ingest = refl

abbrev sample_hash : Text → Text
sample_hash s = map (λ c. b'a' + c % 16) s

abbrev acme : KeyMetadata
acme = record { tenant_id = codes "acme"; scopes = query ∷ [] }

abbrev calls : List KeyOp
calls =
    add_op (codes "acme") (codes "k1") (query ∷ [])
    ∷ (add_op (codes "beta") (codes "k2") (ingest ∷ []) ∷ (revoke_op (codes "beta:lc") ∷ []))

validate_key-Stands_example :
    (validate_key (apply_ops sample_hash calls new_memory_key_store) (codes "acme:lb") ≡ some acme)
    ↔ ((digest : Text) × (split_key (codes "acme:lb") ≡ some (codes "acme", digest))
        × Stands sample_hash digest acme calls)
validate_key-Stands_example = validate_key-Stands sample_hash calls (codes "acme:lb") acme

validate-generate_example :
    (stateless_validate sample_hash
        (codes "s")
        (generate_api_key sample_hash (codes "s") (codes "acme"))
      ≡ some (record { tenant_id = codes "acme"; scopes = all_scopes }))
    ↔ (has_colon (codes "acme") ≡ false)
validate-generate_example = validate-generate sample_hash (codes "s") (codes "acme")

abbrev key_store : KeyStore
key_store = scope_aware (validate_key (apply_ops sample_hash calls new_memory_key_store))

middleware-admitted_example :
    (middleware key_store (codes "Bearer acme:lb") ≡ admitted acme)
    ↔ ((key : Text) × (codes "Bearer acme:lb" ≡ bearer_scheme ++ key) × Vouches key_store key acme)
middleware-admitted_example = middleware-admitted key_store (codes "Bearer acme:lb") acme

standing_admitted : middleware key_store (codes "Bearer acme:lb") ≡ admitted acme
unfolding middleware validate_key apply_ops text_eq
standing_admitted = refl

revoked_forbidden : middleware key_store (codes "Bearer beta:lc") ≡ forbidden
unfolding middleware validate_key apply_ops text_eq
revoked_forbidden = refl

basic_unauthorized : middleware key_store (codes "Basic acme:lb") ≡ unauthorized
unfolding middleware
basic_unauthorized = refl

-- The same raw key for a second tenant takes the entry of the first.
shared_key_taken :
    let first = (add_key sample_hash new_memory_key_store (codes "acme") (codes "k1")).0 in
    let second = (add_key sample_hash first (codes "beta") (codes "k1")).0 in
    middleware (tenant_only (λ key. tenant_of (validate_key second key))) (codes "Bearer acme:lb")
    ≡ forbidden
unfolding middleware validate_key add_key tenant_of text_eq
shared_key_taken = refl
