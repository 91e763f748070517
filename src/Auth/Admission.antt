-- ===== src/Auth/Admission.antt =====
-- The requests that the middleware of pkg/auth/auth.go passes on.
use observe_x.Prelude.{Option, none, some, [], ◌∷◌, ◌++◌, ◌≡◌, ◌↔◌, refl, arith, ap, sym, ◌∙◌}
use mathlib.Core.Path.{ap₂}
use mathlib.Core.Option.{some-injective}
use observe_x.Prelude.Text.{Text}
use observe_x.Auth.{ingest, default_scopes}
use observe_x.Auth.Keys.{
  KeyMetadata, KeyStore, scope_aware, tenant_only, admitted, metadata_of, admit_metadata, admit_key,
  after_prefix, bearer_scheme, middleware,
}

after_prefix_iff : (ps s key : Text) → (after_prefix ps s ≡ some key) ↔ (s ≡ ps ++ key)
unfolding after_prefix
after_prefix_iff [] s key = (λ e. cc, λ e. cc)
after_prefix_iff (p ∷ ps) [] key = (λ e. cc, λ e. cc)
after_prefix_iff (p ∷ ps) (c ∷ cs) key = (
  λ e. ground (arith, after_prefix_iff ps cs key),
  λ e. ground (arith, after_prefix_iff ps cs key),
)

admit_metadata-admitted :
    (found : Option KeyMetadata) (md : KeyMetadata)
    → (admit_metadata found ≡ admitted md) ↔ (found ≡ some md)
unfolding admit_metadata
admit_metadata-admitted none md = (λ e. cc, λ e. cc)
admit_metadata-admitted (some m) md = (λ e. cc, λ e. cc)

-- That a store vouches for a key: a scope-aware store with its scopes, any other store with the tenant alone, which stands for the scope `ingest`.
unfoldable pub Vouches : KeyStore → Text → KeyMetadata → Type 0
Vouches (scope_aware validate) key md = validate key ≡ some md
Vouches (tenant_only validate) key md =
    (validate key ≡ some md.tenant_id) × (md.scopes ≡ ingest ∷ [])

metadata_of-Vouches :
    (store : KeyStore) (key : Text) (md : KeyMetadata)
    → (metadata_of store key ≡ some md) ↔ Vouches store key md
unfolding metadata_of Vouches
metadata_of-Vouches (scope_aware validate) key md = (λ e. e, λ e. e)
metadata_of-Vouches (tenant_only validate) key md = by_tenant (validate key)
  where
    by_tenant :
        (found : Option Text)
        → ((elim found [
          | none ↦ none
          | some tenant ↦ some (record { tenant_id = tenant; scopes = default_scopes })
        ])
            ≡ some md)
          ↔ ((found ≡ some md.tenant_id) × (md.scopes ≡ ingest ∷ []))
    by_tenant none = (λ e. cc, λ h. cc (h.0))
    by_tenant (some tenant) = (
      λ e.
          let same = some-injective _ _ e in
          (ap (λ m. some m.tenant_id) same, sym (ap (λ m. m.scopes) same)),
      λ h.
          ap₂ (λ t s. some (record { tenant_id = t; scopes = s })) (some-injective _ _ h.0)
            (sym h.1),
    )

-- The middleware passes a request on as a tenant with scopes exactly when its Authorization header is `Bearer `, with one space, and a key for which the store vouches: a scope-aware store gives that tenant and these scopes; a store without scopes gives that tenant, and the scopes are `ingest` alone.
pub middleware-admitted :
    (store : KeyStore) (header : Text) (md : KeyMetadata)
    → (middleware store header ≡ admitted md)
      ↔ ((key : Text) × (header ≡ bearer_scheme ++ key) × Vouches store key md)
unfolding middleware admit_key
middleware-admitted store [] md = (λ e. cc, λ h. cc (h.1))
middleware-admitted store (c ∷ cs) md = (
  by_key (after_prefix bearer_scheme (c ∷ cs)) refl,
  λ h.
      ap (admit_key store) ((after_prefix_iff bearer_scheme (c ∷ cs) h.0).1 h.1)
      ∙ (admit_metadata-admitted (metadata_of store h.0) md).1
          ((metadata_of-Vouches store h.0 md).1 h.2),
)
  where
    by_key :
        (key : Option Text)
        → after_prefix bearer_scheme (c ∷ cs) ≡ key
        → admit_key store key ≡ admitted md
        → (k : Text) × (c ∷ cs ≡ bearer_scheme ++ k) × Vouches store k md
    by_key none e h = cc
    by_key (some k) e h = (
      k,
      (after_prefix_iff bearer_scheme (c ∷ cs) k).0 e,
      (metadata_of-Vouches store k md).0 ((admit_metadata-admitted (metadata_of store k) md).0 h),
    )
