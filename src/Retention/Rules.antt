-- ===== src/Retention/Rules.antt =====
-- The statements of pkg/retention/retention.go and the characters in them.
use observe_x.Prelude.{
  ℕ, ◌≡◌, refl, ap, ◌∙◌, Bool, true, false, ◌&&◌, List, [], ◌∷◌, ◌++◌, length, ◌==◌, arith,
  Bool-cases, inl, inr, ◌⊎◌,
}
use observe_x.Prelude.Text.{Text, codes, join, count, count-append}
use observe_x.Auth.{is_space, trim_left, trim_right}
use observe_x.Retention.{
  ℤ, pos, Spec, is_positive, check_days, is_blank, validate, is_safe_char, all_safe, safe_tenant_id,
  decimal, hot_clause, total_clause, build_ttl_statement, is_zero, Row, rows_of, default_windows,
  apply_rows, apply, drop,
}

module _ (c : ℕ) (unsafe : is_safe_char c ≡ false) where
  safe-count : (id : Text) → all_safe id ≡ true → count c id ≡ 0
  unfolding all_safe count
  safe-count [] h = refl
  safe-count (x ∷ xs) h = elim (Bool-cases (x == c)) [
    | inl e ↦
        let same : x ≡ c = ground arith in
        let clash : true ≡ false = grind (arith, ap is_safe_char same) in cc
    | inr n ↦ rw (n, count) (safe-count xs (ground arith))
  ]

  under : (x y y' : Text) → count c y ≡ count c y' → count c (x ++ y) ≡ count c (x ++ y')
  under x y y' h = omega (arith, h, count-append c x y, count-append c x y')

  before : (x x' y : Text) → count c x ≡ count c x' → count c (x ++ y) ≡ count c (x' ++ y)
  before x x' y h = omega (arith, h, count-append c x y, count-append c x' y)

  clause-count :
      (col days tail id : Text)
      → all_safe id ≡ true
      → count c (
          codes "toDateTime("
          ++ (col ++ (codes ") + INTERVAL " ++ (days ++ (tail ++ (id ++ codes "'"))))))
        ≡ count c (
            codes "toDateTime("
            ++ (col ++ (codes ") + INTERVAL " ++ (days ++ (tail ++ ([] ++ codes "'"))))))
  unfolding count
  clause-count col days tail id h = under (codes "toDateTime(") _ _ (
      under col _ _ (
        under (codes ") + INTERVAL ") _ _
          (under days _ _ (under tail _ _ (before id [] (codes "'") (safe-count id h))))))

  -- The clauses of two tenants, joined.
  Alike : List Text → List Text → Type 0
  Alike [] [] = Unit {0}
  Alike [] (_ ∷ _) = ⊥
  Alike (_ ∷ _) [] = ⊥
  Alike (x ∷ xs) (y ∷ ys) = (count c x ≡ count c y) × Alike xs ys

  join-count :
      (sep : Text) (xs ys : List Text) → Alike xs ys → count c (join sep xs) ≡ count c (join sep ys)
  unfolding join Alike
  join-count sep [] [] a = refl
  join-count sep [] (_ ∷ _) a = absurd a
  join-count sep (_ ∷ _) [] a = absurd a
  join-count sep (x ∷ []) (y ∷ []) a = a.0
  join-count sep (x ∷ []) (y ∷ (_ ∷ _)) a = absurd a.1
  join-count sep (x ∷ (_ ∷ _)) (y ∷ []) a = absurd a.1
  join-count sep (x ∷ (x' ∷ xs)) (y ∷ (y' ∷ ys)) a =
      before x y _ a.0 ∙ under y _ _ (under sep _ _ (join-count sep (x' ∷ xs) (y' ∷ ys) a.1))

  clauses-Alike :
      (col id : Text) (hot total : ℤ)
      → all_safe id ≡ true
      → Alike
          (hot_clause col id hot ++ total_clause col id total)
          (hot_clause col [] hot ++ total_clause col [] total)
  unfolding Alike hot_clause total_clause
  clauses-Alike col id hot total h = elim (Bool-cases (is_positive hot)) [
    | inl p ↦ elim (Bool-cases (is_positive total)) [
      | inl q ↦
          rw (p, q)
            (
              clause-count col (decimal hot) (codes " DAY TO DISK 'cold_s3' WHERE tenant_id = '") id
                  h,
              (clause-count col (decimal total) (codes " DAY DELETE WHERE tenant_id = '") id h, tt),
            )
      | inr q ↦
          rw (p, q)
            (
              clause-count col (decimal hot) (codes " DAY TO DISK 'cold_s3' WHERE tenant_id = '") id
                  h,
              tt,
            )
    ]
    | inr p ↦ elim (Bool-cases (is_positive total)) [
      | inl q ↦
          rw (p, q)
            (clause-count col (decimal total) (codes " DAY DELETE WHERE tenant_id = '") id h, tt)
      | inr q ↦ rw (p, q) tt
    ]
  ]

  build-count :
      (table col id : Text) (hot total : ℤ)
      → all_safe id ≡ true
      → count c (build_ttl_statement table col id hot total)
        ≡ count c (build_ttl_statement table col [] hot total)
  unfolding build_ttl_statement
  build-count table col id hot total h = under (codes "ALTER TABLE ") _ _ (
      under table _ _ (
        under (codes " MODIFY TTL ") _ _
          (join-count (codes ", ") _ _ (clauses-Alike col id hot total h))))

  -- Every statement is the one of some row, with as many of the character as it has without the tenant.
  pub Contained : Text → List Text → Type 0
  Contained id [] = Unit {0}
  Contained id (stmt ∷ stmts) =
      ((r : Row) × (stmt ≡ build_ttl_statement r.table r.col id r.hot_days r.total_days)
        × (count c stmt ≡ count c (build_ttl_statement r.table r.col [] r.hot_days r.total_days)))
      × Contained id stmts

  module _ (exec : Text → Bool) where
    rows-Contained :
        (id : Text) (rs : List Row) → all_safe id ≡ true → Contained id (apply_rows exec id rs).0
    unfolding apply_rows Contained
    rows-Contained id [] h = tt
    rows-Contained id (r ∷ rs) h = elim (Bool-cases (is_zero r.hot_days && is_zero r.total_days)) [
      | inl z ↦ rw z (rows-Contained id rs h)
      | inr n ↦
          elim (Bool-cases (exec (build_ttl_statement r.table r.col id r.hot_days r.total_days))) [
            | inl e ↦
                rw (n, e)
                  (
                    (r, refl, build-count r.table r.col id r.hot_days r.total_days h),
                    rows-Contained id rs h,
                  )
            | inr f ↦
                rw (n, f) ((r, refl, build-count r.table r.col id r.hot_days r.total_days h), tt)
          ]
    ]

    -- Each statement that Apply executes has as many of a character that tenants must not have, a quote
    -- or a semicolon say, as it would have with an empty tenant, whatever the tenant of the spec is.
    pub apply-Contained : (s : Spec) → Contained s.tenant_id (apply exec s).0
    unfolding apply safe_tenant_id Contained
    apply-Contained s = elim (Bool-cases (validate s)) [
      | inr v ↦ rw v tt
      | inl v ↦ elim (Bool-cases (safe_tenant_id s.tenant_id)) [
        | inr u ↦ rw (v, u) tt
        | inl u ↦ rw (v, u) (rows-Contained s.tenant_id (rows_of s) (ground arith))
      ]
    ]

safe_not_space : (x : ℕ) → is_safe_char x ≡ true → is_space x ≡ false
unfolding is_safe_char is_space
safe_not_space x h = ground arith

safe_not_blank : (id : Text) → safe_tenant_id id ≡ true → is_blank id ≡ false
unfolding safe_tenant_id all_safe is_blank trim_right trim_left
safe_not_blank [] h = cc
safe_not_blank (x ∷ xs) h = ground (arith, safe_not_space x)

defaults-validate : (id : Text) → safe_tenant_id id ≡ true → validate (default_windows id) ≡ true
unfolding validate check_days
defaults-validate id h = rw (safe_not_blank id h)

all_executed :
    (exec : Text → Bool) (id : Text)
    → ((stmt : Text) → exec stmt ≡ true)
    → (length (apply_rows exec id (rows_of (default_windows id))).0 ≡ 3)
      × ((apply_rows exec id (rows_of (default_windows id))).1 ≡ true)
unfolding apply_rows rows_of is_zero
all_executed exec id ok =
    simp
      (
        ok (build_ttl_statement (codes "metrics") (codes "timestamp") id (pos 30) (pos 90)),
        ok (build_ttl_statement (codes "logs") (codes "timestamp") id (pos 14) (pos 30)),
        ok (build_ttl_statement (codes "traces") (codes "start_time") id (pos 7) (pos 30)),
      )
      (refl, refl)

-- Drop, for a safe tenant on a connection that executes everything, executes three statements and
-- succeeds; for another tenant it executes none and fails.
pub drop_lem :
    (exec : Text → Bool) (id : Text)
    → ((stmt : Text) → exec stmt ≡ true)
    → ((safe_tenant_id id ≡ true) × (length (drop exec id).0 ≡ 3) × ((drop exec id).1 ≡ true))
      ⊎ ((safe_tenant_id id ≡ false) × (drop exec id ≡ ([], false)))
unfolding drop apply
drop_lem exec id ok = elim (Bool-cases (safe_tenant_id id)) [
  | inr u ↦ inr (u, rw u)
  | inl u ↦
      (let (l, e) = all_executed exec id ok in
        inl (u, rw (u, defaults-validate id u) l, rw (u, defaults-validate id u) e))
]
