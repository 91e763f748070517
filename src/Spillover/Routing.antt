-- ===== src/Spillover/Routing.antt =====
-- Where a spilled signal of pkg/spillover/spillover.go comes out.
use observe_x.Prelude.{
  Bool, true, ◌&&◌, some, [], ◌∷◌, ◌++◌, take-append, drop-append, length-append, ◌≡◌, ◌≢◌, ◌↔◌,
  refl, arith,
}
use observe_x.Prelude.Text.{Text, text_eq_refl}
use observe_x.Spillover.{
  Spillover, Message, Codec, ack, ok, is_subject_byte, replace_bytes, sanitise, strip_prefix,
  subject_prefix, push, handle,
}

-- A tenant that is fit for a subject as it stands.
unfoldable pub is_subject : Text → Bool
is_subject [] = true
is_subject (c ∷ cs) = is_subject_byte c && is_subject cs

strip_prefix-append : (p s : Text) → strip_prefix (p ++ s) p ≡ s
unfolding strip_prefix
strip_prefix-append p s =
    grind (arith, take-append p s, drop-append p s, text_eq_refl p, length-append p s)

replace_bytes_same : (s : Text) → (replace_bytes s ≡ s) ↔ (is_subject s ≡ true)
unfolding replace_bytes is_subject
replace_bytes_same [] = (λ _. refl, λ _. refl)
replace_bytes_same (c ∷ cs) =
    (λ e. ground (arith, replace_bytes_same cs, e), λ e. ground (arith, replace_bytes_same cs, e))

sanitise_same : (s : Text) → (sanitise s ≡ s) ↔ ((is_subject s ≡ true) × (s ≢ []))
unfolding sanitise replace_bytes
sanitise_same [] = (λ e. cc, λ h. elim (h.1 refl) [ ])
sanitise_same (c ∷ cs) =
    (λ e. ((replace_bytes_same (c ∷ cs)).0 e, cc), λ h. (replace_bytes_same (c ∷ cs)).1 h.0)

replace_bytes-is_subject : (s : Text) → is_subject (replace_bytes s) ≡ true
unfolding replace_bytes is_subject
replace_bytes-is_subject [] = refl
replace_bytes-is_subject (c ∷ cs) = ground (arith, replace_bytes-is_subject cs)

-- The text that a subject has behind its prefix holds no byte that a subject gives a meaning to.
sanitise-is_subject : (s : Text) → is_subject (sanitise s) ≡ true
unfolding sanitise replace_bytes is_subject
sanitise-is_subject [] = refl
sanitise-is_subject (c ∷ cs) = replace_bytes-is_subject (c ∷ cs)

module _ {S : Type 0} (codec : Codec S) where
  -- A signal whose encoding decodes to it, and that Publish accepts, becomes a message that Consume routes and acknowledges. It goes to the sanitised tenant, which is the tenant itself exactly when that is a text of letters, digits, `-` and `_` and not empty.
  pub push-handle :
      (s consumer : Spillover) (tenant : Text) (sig : S) (payload : Text)
      → codec.marshal sig ≡ some payload
      → codec.unmarshal payload ≡ some sig
      → (msg : Message) × ((push codec true (some s) tenant sig).1 ≡ ok msg)
        × ((handle codec consumer msg).1 ≡ (some (sanitise tenant, sig), ack))
        × ((sanitise tenant ≡ tenant) ↔ ((is_subject tenant ≡ true) × (tenant ≢ [])))
  unfolding push handle
  push-handle s consumer tenant sig payload encoded decoded = (
    record { subject = subject_prefix ++ sanitise tenant; payload = payload },
    cc,
    cc (strip_prefix-append subject_prefix (sanitise tenant)),
    sanitise_same tenant,
  )
