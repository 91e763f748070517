-- ===== src/PromQl/Binding.antt =====
-- The placeholders of the SQL that pkg/promql/translate.go builds, and the arguments bound to them.
use observe_x.Prelude.{ℕ, Bool, true, Option, some, List, [], ◌∷◌, ◌++◌, map, ◌≡◌, ◌≢◌, refl, arith}
use observe_x.Prelude.Text.{Text, codes, join, count, count-append, digits-count}
use observe_x.Prelude.Marks.{marks, total, join-marks}
use observe_x.PromQl.Run.{ok, out_of_fuel}
use observe_x.PromQl.Ast.{Matcher}
use observe_x.PromQl.Sql.{
  is_key, sql_escape, label_col, attribute_of, number, agg_sql, label_selects, rate_sql, bucket_sql,
  aggr_text, rate_text,
}
use observe_x.PromQl.Translate.{matcher_sql}

pub is_key-marks : (s : Text) → is_key s ≡ true → marks s ≡ 0
unfolding is_key count
is_key-marks [] h = refl
is_key-marks (c ∷ cs) h = ground (arith, is_key-marks cs)

sql_escape-marks : (s : Text) → marks (sql_escape s) ≡ 0
unfolding sql_escape count
sql_escape-marks s = ground (arith, is_key-marks s)

attribute_of-marks : (s : Text) → marks (attribute_of s) ≡ 0
unfolding count
attribute_of-marks s =
    omega (arith, sql_escape-marks s, count-append b'?' (sql_escape s) (codes "']"))

label_col-marks : (s : Text) → marks (label_col s) ≡ 0
unfolding label_col count
label_col-marks [] = refl
label_col-marks (c ∷ cs) = ground (arith, label_col-marks cs)

pub number-marks : (n : ℕ) → marks (number n) ≡ 0
number-marks n = digits-count b'?' n n refl

-- The texts around a text without placeholders add none.
pub around-marks : (s suffix : Text) → marks s ≡ 0 → marks suffix ≡ 0 → marks (s ++ suffix) ≡ 0
around-marks s suffix h h' = omega (arith, h, h', count-append b'?' s suffix)

label_selects-total : (labs : List Text) → total (label_selects labs) ≡ 0
unfolding label_selects count
label_selects-total [] = refl
label_selects-total (lab ∷ labs) = omega (
  arith,
  label_selects-total labs,
  attribute_of-marks lab,
  label_col-marks lab,
  count-append b'?' (attribute_of lab) (codes " AS " ++ label_col lab),
)

label_cols-total : (labs : List Text) → total (map label_col labs) ≡ 0
label_cols-total [] = refl
label_cols-total (lab ∷ labs) = omega (arith, label_cols-total labs, label_col-marks lab)

-- The text of an aggregation has the placeholders of its clauses.
pub aggr_text-marks :
    (agg : Text) (by wheres : List Text) (step : ℕ)
    → marks agg ≡ 0
    → marks (aggr_text agg by wheres step) ≡ total wheres
unfolding count
aggr_text-marks agg by wheres step h =
    let selects = bucket_sql step ∷ (agg ++ codes " AS v") ∷ label_selects by in
    let groups = codes "t" ∷ map label_col by in
    omega (
      arith,
      h,
      number-marks step,
      label_selects-total by,
      label_cols-total by,
      join-marks (codes ", ") selects refl,
      join-marks (codes " AND ") wheres refl,
      join-marks (codes ", ") groups refl,
      around-marks agg (codes " AS v") h refl,
      count-append b'?' (number step) (codes " SECOND) AS t"),
      count-append b'?' (join (codes ", ") groups) (codes " ORDER BY t"),
      count-append b'?' (join (codes " AND ") wheres)
          (codes " GROUP BY " ++ (join (codes ", ") groups ++ codes " ORDER BY t")),
      count-append b'?' (join (codes ", ") selects) (
          codes " FROM metrics WHERE "
          ++ (join (codes " AND ") wheres
              ++ (codes " GROUP BY " ++ (join (codes ", ") groups ++ codes " ORDER BY t")))),
    )

-- The text of a rate has the placeholders of its clauses.
pub rate_text-marks :
    (expr : Text) (wheres : List Text) (step : ℕ)
    → marks expr ≡ 0
    → marks (rate_text expr wheres step) ≡ total wheres
unfolding count
rate_text-marks expr wheres step h =
    let clauses = join (codes " AND ") wheres ++ codes " GROUP BY t ORDER BY t" in
    omega (
      arith,
      h,
      number-marks step,
      join-marks (codes " AND ") wheres refl,
      count-append b'?' (number step) (codes " SECOND) AS t"),
      count-append b'?' (join (codes " AND ") wheres) (codes " GROUP BY t ORDER BY t"),
      count-append b'?' expr (codes " AS v FROM metrics WHERE " ++ clauses),
      count-append b'?' (bucket_sql step)
          (codes ", " ++ (expr ++ (codes " AS v FROM metrics WHERE " ++ clauses))),
    )

pub agg_sql-fueled : (op : Text) (phi : Option Text) → agg_sql op phi ≢ out_of_fuel
unfolding agg_sql
agg_sql-fueled op phi = ground arith

pub agg_sql-marks :
    (op : Text) (phi : Option Text)
    → ((x : Text) → phi ≡ some x → marks x ≡ 0)
    → (s : Text) → agg_sql op phi ≡ ok s
    → marks s ≡ 0
unfolding agg_sql count
agg_sql-marks op phi h s e = grind (arith, h, count-append b'?')

pub rate_sql-marks :
    (name : Text) (step : ℕ) (expr : Text) → rate_sql name step ≡ some expr → marks expr ≡ 0
unfolding rate_sql count
rate_sql-marks name step expr h = ground (arith, number-marks step)

pub matcher_sql-fueled :
    (compiles : Text → Bool) (m : Matcher) → matcher_sql compiles m ≢ out_of_fuel
unfolding matcher_sql
matcher_sql-fueled compiles m = ground arith

pub matcher_sql-marks :
    (compiles : Text → Bool) (m : Matcher) (s : Text) → matcher_sql compiles m ≡ ok s → marks s ≡ 1
unfolding matcher_sql count
matcher_sql-marks compiles m s e = grind (
  arith,
  attribute_of-marks m.name,
  count-append b'?' (attribute_of m.name) (codes " = ?"),
  count-append b'?' (attribute_of m.name) (codes " != ?"),
  count-append b'?' (attribute_of m.name) (codes ", ?)"),
)
