-- ===== src/Auth/History.antt =====
-- What the MemoryKeyStore of pkg/auth/auth.go holds after a sequence of calls.
use mathlib.Core.Path.{subst}
use mathlib.Core.Option.{some-injective}
use observe_x.Prelude.{
  Bool, true, false, Option, none, some, List, [], ◌∷◌, ◌||◌, ◌≡◌, ◌↔◌, ◌⊎◌, inl, inr, refl, arith,
  ap, sym, ◌∙◌,
}
use observe_x.Prelude.Text.{Text, text_eq, text_eq-eq, text_eq_refl}
use observe_x.Auth.{Scope}
use observe_x.Auth.Keys.{
  KeyMetadata, MemoryKeyStore, new_memory_key_store, split_key, add_with_scopes, revoke,
  revoke_digest, entry_validates, validate_parts, validate_key,
}

pub data KeyOp : Type 0 where
  add_op : Text → Text → List Scope → KeyOp
  revoke_op : Text → KeyOp

unfoldable names_digest : Option (Text × Text) → Text → Bool
names_digest none d = false
names_digest (some p) d = text_eq p.1 d

module _ (hex_hash : Text → Text) where
  unfoldable apply_op : KeyOp → MemoryKeyStore → MemoryKeyStore
  unfolding add_with_scopes revoke
  apply_op (add_op tenant raw scopes) s = (add_with_scopes hex_hash s tenant raw scopes).0
  apply_op (revoke_op key) s = revoke s key

  unfoldable pub apply_ops : List KeyOp → MemoryKeyStore → MemoryKeyStore
  unfolding apply_op
  apply_ops [] s = s
  apply_ops (op ∷ ops) s = apply_ops ops (apply_op op s)

  -- The operation adds or revokes the digest.
  unfoldable touches : Text → KeyOp → Bool
  unfolding names_digest
  touches d (add_op tenant raw scopes) = text_eq (hex_hash raw) d
  touches d (revoke_op key) = names_digest (split_key key) d

  unfoldable pub touches_any : Text → List KeyOp → Bool
  unfolding touches
  touches_any d [] = false
  touches_any d (op ∷ ops) = touches d op || touches_any d ops

  -- The entry was added under the digest, and no later operation adds or revokes it.
  pub data Stands (d : Text) (e : KeyMetadata) : List KeyOp → Type 0 where
    issued :
        (raw : Text) (ops : List KeyOp)
        → hex_hash raw ≡ d
        → touches_any d ops ≡ false
        → Stands d e (add_op e.tenant_id raw e.scopes ∷ ops)
    later : (op : KeyOp) (ops : List KeyOp) → Stands d e ops → Stands d e (op ∷ ops)

  untouched-kept :
      (op : KeyOp) (s : MemoryKeyStore) (d : Text)
      → touches d op ≡ false
      → (apply_op op s).entries d ≡ s.entries d
  unfolding apply_op touches names_digest add_with_scopes revoke revoke_digest
  untouched-kept (add_op tenant raw scopes) s d h = ground (arith, h)
  untouched-kept (revoke_op key) s d h = by_parts (split_key key) h
    where
      by_parts :
          (parts : Option (Text × Text))
          → names_digest parts d ≡ false
          → (revoke_digest parts s).entries d ≡ s.entries d
      by_parts none h = refl
      by_parts (some p) h = ground (arith, h)

  -- An operation that touches a digest adds the entry or leaves none.
  touched-added :
      (op : KeyOp) (ops : List KeyOp) (s : MemoryKeyStore) (d : Text) (e : KeyMetadata)
      → touches d op ≡ true
      → touches_any d ops ≡ false
      → (apply_op op s).entries d ≡ some e
      → Stands d e (op ∷ ops)
  unfolding apply_op touches names_digest add_with_scopes revoke revoke_digest
  touched-added (add_op tenant raw scopes) ops s d e h rest found =
      let same : some (record { tenant_id = tenant; scopes = scopes }) ≡ some e =
        ground (arith, h, found) in
      subst (λ x. Stands d x (add_op tenant raw scopes ∷ ops)) (some-injective _ _ same)
        (issued raw ops (text_eq-eq (hex_hash raw) d h) rest)
  touched-added (revoke_op key) ops s d e h rest found = by_parts (split_key key) h found
    where
      by_parts :
          (parts : Option (Text × Text))
          → names_digest parts d ≡ true
          → (revoke_digest parts s).entries d ≡ some e
          → Stands d e (revoke_op key ∷ ops)
      by_parts none h found = cc
      by_parts (some p) h found = ground (arith, h, found)

  all_untouched-kept :
      (ops : List KeyOp) (s : MemoryKeyStore) (d : Text)
      → touches_any d ops ≡ false
      → (apply_ops ops s).entries d ≡ s.entries d
  unfolding apply_ops touches_any
  all_untouched-kept [] s d h = refl
  all_untouched-kept (op ∷ ops) s d h =
      all_untouched-kept ops (apply_op op s) d (ground (arith, h))
      ∙ untouched-kept op s d (ground (arith, h))

  Stands-found :
      {d : Text} {e : KeyMetadata} {ops : List KeyOp} (s : MemoryKeyStore)
      → Stands d e ops
      → (apply_ops ops s).entries d ≡ some e
  unfolding apply_ops apply_op add_with_scopes
  Stands-found {e = e} s (issued raw ops same rest) = ground (
    arith,
    all_untouched-kept ops (apply_op (add_op e.tenant_id raw e.scopes) s) (hex_hash raw),
    text_eq_refl (hex_hash raw),
    same,
    rest,
  )
  Stands-found s (later op ops h) = Stands-found (apply_op op s) h

  found-Stands :
      (ops : List KeyOp) (s : MemoryKeyStore) (d : Text) (e : KeyMetadata)
      → (apply_ops ops s).entries d ≡ some e
      → Stands d e ops ⊎ ((touches_any d ops ≡ false) × (s.entries d ≡ some e))
  unfolding apply_ops touches_any
  found-Stands [] s d e found = inr (refl, found)
  found-Stands (op ∷ ops) s d e found =
      by_tail (found-Stands ops (apply_op op s) d e found) (touches d op) refl
    where
      by_tail :
          Stands d e ops ⊎ ((touches_any d ops ≡ false) × ((apply_op op s).entries d ≡ some e))
          → (test : Bool) → touches d op ≡ test
          → Stands d e (op ∷ ops)
            ⊎ ((touches d op || touches_any d ops ≡ false) × (s.entries d ≡ some e))
      by_tail (inl h) test t = inl (later op ops h)
      by_tail (inr h) true t = inl (touched-added op ops s d e t h.0 h.1)
      by_tail (inr h) false t = inr (cc (t, h.0), sym (untouched-kept op s d t) ∙ h.1)

  entry_validates-some :
      (tenant : Text) (entry : Option KeyMetadata) (md : KeyMetadata)
      → entry_validates tenant entry ≡ some md
      → (entry ≡ some md) × (tenant ≡ md.tenant_id)
  unfolding entry_validates
  entry_validates-some tenant none md h = cc
  entry_validates-some tenant (some e) md h = by_test (text_eq tenant e.tenant_id) refl
    where
      by_test :
          (test : Bool)
          → text_eq tenant e.tenant_id ≡ test
          → (some e ≡ some md) × (tenant ≡ md.tenant_id)
      by_test true t =
          let same : some e ≡ some md = ground (arith, t, h) in
          (same, text_eq-eq tenant e.tenant_id t ∙ ap (λ x. x.tenant_id) (some-injective e md same))
      by_test false t = ground (arith, t, h)

  validate_parts-some :
      (s : MemoryKeyStore) (parts : Option (Text × Text)) (md : KeyMetadata)
      → validate_parts s parts ≡ some md
      → (d : Text) × (parts ≡ some (md.tenant_id, d)) × (s.entries d ≡ some md)
  unfolding validate_parts
  validate_parts-some s none md h = cc
  validate_parts-some s (some p) md h =
      let found = entry_validates-some p.0 (s.entries p.1) md h in
      (p.1, ap (λ t. some (t, p.1)) found.1, found.0)

  -- After any sequence of additions and revocations of a new store, a key validates as a tenant with scopes exactly when it splits into that tenant and a digest under which an addition registered that tenant and these scopes, with no later addition or revocation of the digest.
  pub validate_key-Stands :
      (ops : List KeyOp) (key : Text) (md : KeyMetadata)
      → (validate_key (apply_ops ops new_memory_key_store) key ≡ some md)
        ↔ ((digest : Text) × (split_key key ≡ some (md.tenant_id, digest)) × Stands digest md ops)
  unfolding validate_key validate_parts entry_validates
  validate_key-Stands ops key md = (λ e. from_accepted e, λ h. from_standing h)
    where
      from_accepted :
          validate_key (apply_ops ops new_memory_key_store) key ≡ some md
          → (digest : Text) × (split_key key ≡ some (md.tenant_id, digest)) × Stands digest md ops
      from_accepted e =
          let found =
            validate_parts-some (apply_ops ops new_memory_key_store) (split_key key) md e in
          elim (found-Stands ops new_memory_key_store found.0 md found.2) [
            | inl h ↦ (found.0, found.1, h)
            | inr h ↦ cc (h.1)
          ]

      from_standing :
          (digest : Text) × (split_key key ≡ some (md.tenant_id, digest)) × Stands digest md ops
          → validate_key (apply_ops ops new_memory_key_store) key ≡ some md
      from_standing h =
          ground (arith, h.1, Stands-found new_memory_key_store h.2, text_eq_refl md.tenant_id)
