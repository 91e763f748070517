-- ===== src/Auth/Keys.antt =====
-- The key validators and the middleware of pkg/auth/auth.go. The hex digest of BLAKE3 is an argument.
use observe_x.Prelude.{Option, none, some, List, [], ◌∷◌, ◌++◌, ◌==◌, if◌then◌else◌}
use observe_x.Prelude.Text.{Text, codes, text_eq}
use observe_x.Auth.{Scope, all_scopes, default_scopes}

pub record KeyMetadata : Type 0 where
  pub tenant_id : Text
  pub scopes : List Scope

-- strings.SplitN(key, ":", 2), where it has two parts.
unfoldable pub split_key : Text → Option (Text × Text)
split_key [] = none
split_key (c ∷ cs) =
    let rest = split_key cs in
    if c == b':' then some ([], cs) else elim rest [ none ↦ none | some p ↦ some (c ∷ p.0, p.1) ]

abbrev pub wire_key : Text → Text → Text
wire_key tenant digest = tenant ++ (b':' ∷ digest)

-- The entries of the map, from digests; memEntry has the fields of KeyMetadata.
pub record MemoryKeyStore : Type 0 where
  pub entries : Text → Option KeyMetadata

-- NewMemoryKeyStore.
abbrev pub new_memory_key_store : MemoryKeyStore
new_memory_key_store = record { entries = λ _. none }

unfoldable pub entry_validates : Text → Option KeyMetadata → Option KeyMetadata
entry_validates tenant none = none
entry_validates tenant (some e) = if text_eq tenant e.tenant_id then some e else none

unfoldable pub revoke_digest : Option (Text × Text) → MemoryKeyStore → MemoryKeyStore
revoke_digest none s = s
revoke_digest (some p) s = record { entries = λ d. if text_eq p.1 d then none else s.entries d }

unfoldable pub revoke : MemoryKeyStore → Text → MemoryKeyStore
unfolding revoke_digest split_key
revoke s key = revoke_digest (split_key key) s

unfoldable pub validate_parts : MemoryKeyStore → Option (Text × Text) → Option KeyMetadata
unfolding entry_validates
validate_parts s none = none
validate_parts s (some p) = entry_validates p.0 (s.entries p.1)

-- MemoryKeyStore.ValidateKeyWithMetadata.
unfoldable pub validate_key : MemoryKeyStore → Text → Option KeyMetadata
unfolding validate_parts split_key
validate_key s key = validate_parts s (split_key key)

-- ValidateKey of both validators.
unfoldable pub tenant_of : Option KeyMetadata → Option Text
tenant_of none = none
tenant_of (some md) = some md.tenant_id

module _ (hex_hash : Text → Text) where
  -- AddWithScopes: the store and the key to show.
  unfoldable pub add_with_scopes : MemoryKeyStore → Text → Text → List Scope → MemoryKeyStore × Text
  add_with_scopes s tenant raw scopes =
      let digest = hex_hash raw in
      (
        record {
          entries = λ d.
              if text_eq digest d
              then some (record { tenant_id = tenant; scopes = scopes })
              else s.entries d;
        },
        wire_key tenant digest,
      )

  unfoldable pub add_key : MemoryKeyStore → Text → Text → MemoryKeyStore × Text
  unfolding add_with_scopes
  add_key s tenant raw = add_with_scopes s tenant raw default_scopes

  unfoldable pub compute_key_hash : Text → Text → Text
  compute_key_hash secret tenant = hex_hash (secret ++ (b':' ∷ tenant))

  unfoldable pub generate_api_key : Text → Text → Text
  unfolding compute_key_hash
  generate_api_key secret tenant = wire_key tenant (compute_key_hash secret tenant)

  unfoldable pub stateless_parts : Text → Option (Text × Text) → Option KeyMetadata
  unfolding compute_key_hash
  stateless_parts secret none = none
  stateless_parts secret (some p) =
      if text_eq p.1 (compute_key_hash secret p.0)
      then some (record { tenant_id = p.0; scopes = all_scopes })
      else none

  -- StatelessKeyValidator.ValidateKeyWithMetadata.
  unfoldable pub stateless_validate : Text → Text → Option KeyMetadata
  unfolding stateless_parts split_key
  stateless_validate secret key = stateless_parts secret (split_key key)

-- A KeyStore, with or without the method of a ScopeAwareKeyStore.
pub data KeyStore : Type 0 where
  scope_aware : (Text → Option KeyMetadata) → KeyStore
  tenant_only : (Text → Option Text) → KeyStore

-- What the middleware does with a request: the status of its own answer, or the tenant header and the scopes that the next handler sees.
pub data Admission : Type 0 where
  unauthorized forbidden : Admission
  admitted : KeyMetadata → Admission

unfoldable pub metadata_of : KeyStore → Text → Option KeyMetadata
metadata_of (scope_aware validate) key = validate key
metadata_of (tenant_only validate) key = elim (validate key) [
  | none ↦ none
  | some tenant ↦ some (record { tenant_id = tenant; scopes = default_scopes })
]

unfoldable pub admit_metadata : Option KeyMetadata → Admission
admit_metadata none = forbidden
admit_metadata (some md) = admitted md

abbrev pub bearer_scheme : Text
bearer_scheme = codes "Bearer "

-- strings.HasPrefix and the rest after the prefix.
unfoldable pub after_prefix : Text → Text → Option Text
after_prefix [] s = some s
after_prefix (p ∷ ps) [] = none
after_prefix (p ∷ ps) (c ∷ cs) = let rest = after_prefix ps cs in if p == c then rest else none

unfoldable pub admit_key : KeyStore → Option Text → Admission
unfolding metadata_of admit_metadata
admit_key store none = unauthorized
admit_key store (some key) = admit_metadata (metadata_of store key)

-- Middleware on the Authorization header, which is empty where it is missing.
unfoldable pub middleware : KeyStore → Text → Admission
unfolding after_prefix admit_key
middleware store [] = unauthorized
middleware store (c ∷ cs) = admit_key store (after_prefix bearer_scheme (c ∷ cs))
