-- ===== src/Auth/Issuing.antt =====
-- The keys that GenerateAPIKey of pkg/auth/auth.go makes.
use observe_x.Prelude.{Bool, false, Option, none, some, [], ◌∷◌, ◌||◌, ◌==◌, ◌≡◌, ◌↔◌, refl, arith}
use observe_x.Prelude.Text.{Text, text_eq_refl}
use observe_x.Auth.{all_scopes}
use observe_x.Auth.Keys.{
  KeyMetadata, split_key, wire_key, generate_api_key, compute_key_hash, stateless_parts,
  stateless_validate,
}

unfoldable pub has_colon : Text → Bool
has_colon [] = false
has_colon (c ∷ cs) = c == b':' || has_colon cs

split_key-wire_key :
    (tenant digest : Text)
    → has_colon tenant ≡ false
    → split_key (wire_key tenant digest) ≡ some (tenant, digest)
unfolding split_key has_colon
split_key-wire_key [] digest h = refl
split_key-wire_key (c ∷ cs) digest h = ground (arith, split_key-wire_key cs digest)

-- The first part of a key has no colon.
split_key-colon : (key : Text) (p : Text × Text) → split_key key ≡ some p → has_colon p.0 ≡ false
unfolding split_key has_colon
split_key-colon [] p h = cc
split_key-colon (c ∷ cs) p h = by_rest (split_key cs) refl (split_key-colon cs)
  where
    by_rest :
        (rest : Option (Text × Text))
        → split_key cs ≡ rest
        → ((q : Text × Text) → split_key cs ≡ some q → has_colon q.0 ≡ false)
        → has_colon p.0 ≡ false
    by_rest none e colon = ground (arith, e, h)
    by_rest (some q) e colon = ground (arith, e, h, colon q e)

module _ (hex_hash : Text → Text) where
  stateless_parts-some :
      (secret : Text) (parts : Option (Text × Text)) (md : KeyMetadata)
      → stateless_parts hex_hash secret parts ≡ some md
      → (p : Text × Text) × (parts ≡ some p) × (p.0 ≡ md.tenant_id)
  unfolding stateless_parts
  stateless_parts-some secret none md h = cc
  stateless_parts-some secret (some p) md h = (p, refl, ground (arith, h))

  -- The key that GenerateAPIKey makes for a tenant validates as that tenant with all scopes exactly when the name of the tenant has no colon.
  pub validate-generate :
      (secret tenant : Text)
      → (stateless_validate hex_hash secret (generate_api_key hex_hash secret tenant)
          ≡ some (record { tenant_id = tenant; scopes = all_scopes }))
        ↔ (has_colon tenant ≡ false)
  unfolding stateless_validate generate_api_key stateless_parts
  validate-generate secret tenant = (
    λ e. from_accepted e,
    λ h. ground (
      arith,
      split_key-wire_key tenant (compute_key_hash hex_hash secret tenant) h,
      text_eq_refl (compute_key_hash hex_hash secret tenant),
    ),
  )
    where
      from_accepted :
          stateless_parts hex_hash secret (split_key (generate_api_key hex_hash secret tenant))
            ≡ some (record { tenant_id = tenant; scopes = all_scopes })
          → has_colon tenant ≡ false
      from_accepted e =
          let accepted =
            stateless_parts-some secret (split_key (generate_api_key hex_hash secret tenant))
              (record { tenant_id = tenant; scopes = all_scopes }) e in
          cc (
            split_key-colon (generate_api_key hex_hash secret tenant) accepted.0 accepted.1,
            accepted.2,
          )
