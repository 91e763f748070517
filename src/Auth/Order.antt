-- ===== src/Auth/Order.antt =====
-- The sorting and the membership of the scopes of pkg/auth/scopes.go.
use observe_x.Prelude.{
  ◌≡◌, refl, ap, ◌∙◌, true, false, not, ◌&&◌, ◌||◌, List, [], ◌∷◌, arith, Bool-cases, inl, inr, ◌↔◌,
}
use observe_x.Auth.{
  Scope, ingest, query, alert_read, alert_write, tenant_admin, scope_text, scope_eq, has, has_scope,
  text_lt, scope_lt, dedup, insert_scope, sort_scopes, dedup_sort_scopes,
}

pub scope_eq-eq : (a b : Scope) → scope_eq a b ≡ true → a ≡ b
unfolding scope_eq
scope_eq-eq ingest ingest h = refl
scope_eq-eq query query h = refl
scope_eq-eq alert_read alert_read h = refl
scope_eq-eq alert_write alert_write h = refl
scope_eq-eq tenant_admin tenant_admin h = refl
scope_eq-eq _ _ h = cc

pub scope_eq_refl : (a : Scope) → scope_eq a a ≡ true
unfolding scope_eq
scope_eq_refl ingest = refl
scope_eq_refl query = refl
scope_eq_refl alert_read = refl
scope_eq_refl alert_write = refl
scope_eq_refl tenant_admin = refl

-- Each scope is less than the next one.
abbrev pub Ascending : List Scope → Type 0
Ascending [] = Unit {0}
Ascending (x ∷ []) = Unit {0}
Ascending (x ∷ (y ∷ ys)) = (scope_lt x y ≡ true) × Ascending (y ∷ ys)

insert-has :
    (s x : Scope) (ys : List Scope) → has s (insert_scope x ys) ≡ (scope_eq x s || has s ys)
unfolding insert_scope has
insert-has s x [] = refl
insert-has s x (y ∷ ys) = ground (arith, insert-has s x ys)

sort-has : (s : Scope) (xs : List Scope) → has s (sort_scopes xs) ≡ has s xs
unfolding sort_scopes has
sort-has s [] = refl
sort-has s (x ∷ xs) = ground (arith, sort-has s xs, insert-has s x (sort_scopes xs))

same_has : (a b : Scope) (xs : List Scope) → scope_eq a b ≡ true → has a xs ≡ has b xs
same_has a b xs h = ap (λ s. has s xs) (scope_eq-eq a b h)

dedup-has :
    (s : Scope) (seen xs : List Scope) → has s (dedup seen xs) ≡ (has s xs && not (has s seen))
unfolding dedup has
dedup-has s seen [] = refl
dedup-has s seen (x ∷ xs) =
    grind (arith, dedup-has s seen xs, dedup-has s (x ∷ seen) xs, same_has x s seen)

abbrev Distinct : List Scope → Type 0
Distinct [] = Unit {0}
Distinct (x ∷ xs) = (has x xs ≡ false) × Distinct xs

dedup-Distinct : (seen xs : List Scope) → Distinct (dedup seen xs)
unfolding dedup has
dedup-Distinct seen [] = tt
dedup-Distinct seen (x ∷ xs) = elim (Bool-cases (has x seen)) [
  | inl old ↦ rw (old, dedup) (dedup-Distinct seen xs)
  | inr new ↦
      rw (new, dedup)
        (grind (arith, dedup-has x (x ∷ seen) xs, scope_eq_refl x), dedup-Distinct (x ∷ seen) xs)
]

total_order : (a b : Scope) → scope_eq b a ≡ false → scope_lt b a ≡ false → scope_lt a b ≡ true
unfolding scope_eq text_lt scope_text
total_order alert_read alert_read e l = cc
total_order alert_read alert_write e l = refl
total_order alert_read ingest e l = refl
total_order alert_read query e l = refl
total_order alert_read tenant_admin e l = refl
total_order alert_write alert_read e l = cc
total_order alert_write alert_write e l = cc
total_order alert_write ingest e l = refl
total_order alert_write query e l = refl
total_order alert_write tenant_admin e l = refl
total_order ingest alert_read e l = cc
total_order ingest alert_write e l = cc
total_order ingest ingest e l = cc
total_order ingest query e l = refl
total_order ingest tenant_admin e l = refl
total_order query alert_read e l = cc
total_order query alert_write e l = cc
total_order query ingest e l = cc
total_order query query e l = cc
total_order query tenant_admin e l = refl
total_order tenant_admin alert_read e l = cc
total_order tenant_admin alert_write e l = cc
total_order tenant_admin ingest e l = cc
total_order tenant_admin query e l = cc
total_order tenant_admin tenant_admin e l = cc

insert-Ascending :
    (x : Scope) (ys : List Scope) → Ascending ys → has x ys ≡ false → Ascending (insert_scope x ys)
unfolding insert_scope has
insert-Ascending x [] a n = tt
insert-Ascending x (y ∷ []) a n = elim (Bool-cases (scope_lt y x)) [
  | inl l ↦ rw l (l, tt)
  | inr g ↦ rw g (total_order x y (ground arith) g, tt)
]
insert-Ascending x (y ∷ (z ∷ zs)) a n = elim (Bool-cases (scope_lt y x)) [
  | inl l ↦ elim (Bool-cases (scope_lt z x)) [
    | inl l' ↦ rw (l, l') (a.0, rw l' at (insert-Ascending x (z ∷ zs) a.1 (ground arith)))
    | inr g' ↦ rw (l, g') (l, (total_order x z (ground arith) g', a.1))
  ]
  | inr g ↦ rw g (total_order x y (ground arith) g, a)
]

sort-Ascending : (xs : List Scope) → Distinct xs → Ascending (sort_scopes xs)
unfolding sort_scopes
sort-Ascending [] d = tt
sort-Ascending (x ∷ xs) d =
    insert-Ascending x (sort_scopes xs) (sort-Ascending xs d.1) (sort-has x xs ∙ d.0)

-- dedupSortScopes: each scope is less than the next one, and the scopes are those that were given.
pub dedup_sort_scopes_lem :
    (xs : List Scope)
    → Ascending (dedup_sort_scopes xs) × ((s : Scope) → has s (dedup_sort_scopes xs) ≡ has s xs)
unfolding dedup_sort_scopes
dedup_sort_scopes_lem xs = (
  sort-Ascending (dedup [] xs) (dedup-Distinct [] xs),
  λ s. grind (arith, sort-has s (dedup [] xs), dedup-has s [] xs),
)

-- HasScope holds exactly if each scope that is required is granted.
pub has_scope_iff :
    (granted required : List Scope)
    → (has_scope granted required ≡ true)
      ↔ ((s : Scope) → has s required ≡ true → has s granted ≡ true)
unfolding has_scope has
has_scope_iff granted [] = (λ h s m. cc, λ h. refl)
has_scope_iff granted (r ∷ rs) = (
  λ h s m. elim (Bool-cases (scope_eq r s)) [
    | inl e ↦ grind (arith, same_has r s granted e)
    | inr n ↦ (has_scope_iff granted rs).0 (ground arith) s (ground arith)
  ],
  λ h.
      let rest = (has_scope_iff granted rs).1 (λ s m. h s (ground arith)) in
      let first = h r (grind (arith, scope_eq_refl r)) in ground arith,
)
