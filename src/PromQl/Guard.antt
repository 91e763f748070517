-- ===== src/PromQl/Guard.antt =====
-- runProm and withTenant of services/query-engine/cmd/shims.go, up to the call of the store.
use observe_x.Prelude.{
  ℕ, Bool, true, false, List, [], ◌∷◌, ◌++◌, length, length-append, ◌≡◌, ◌≢◌, refl, arith,
}
use observe_x.Prelude.Text.{Text, codes, text_eq, count, count-append}
use observe_x.Prelude.Marks.{marks}
use observe_x.PromQl.Run.{Error, Result, ok, err, out_of_fuel}
use observe_x.PromQl.Ast.{Floats}
use observe_x.PromQl.Sql.{QueryParams, Arg, text_arg, Translation}
use observe_x.PromQl.Translate.{translate}
use observe_x.PromQl.Total.{translate-fueled, translate-marks}

-- withTenant.
unfoldable pub with_tenant : Text → Text → List Arg → Text × List Arg
unfolding text_eq
with_tenant sql tenant args = elim (text_eq tenant []) [
  | true ↦ (sql, args)
  | false ↦ (
    codes "SELECT * FROM (" ++ (sql ++ codes ") WHERE tenant_id = ?"),
    args ++ text_arg tenant ∷ [],
  )
]

-- What runProm does: it answers 400 or 401, or it queries the store.
pub data Answer : Type 0 where
  bad_data : Error → Answer
  unauthorized : Answer
  queries : Text × List Arg → Answer
  stuck : Answer

unfoldable pub run_prom : (Text → Bool) → {F : Type 0} → Floats F → ℕ → Text → QueryParams → Answer
unfolding with_tenant
run_prom compiles floats now tenant p = elim (translate compiles floats now p) [
  | err e ↦ bad_data e
  | ok t ↦ elim (text_eq tenant []) [
    | true ↦ unauthorized
    | false ↦ queries (with_tenant t.sql tenant t.args)
  ]
  | out_of_fuel ↦ stuck
]

-- The answers of runProm for a tenant: a query has one argument for each placeholder, the tenant as the last one.
pub data IsGuarded (tenant : Text) : Answer → Type 0 where
  refused : {e : Error} → IsGuarded tenant (bad_data e)
  anonymous : tenant ≡ [] → IsGuarded tenant unauthorized
  guarded :
      (sql : Text) (args : List Arg)
      → tenant ≢ []
      → marks sql ≡ length (args ++ text_arg tenant ∷ [])
      → IsGuarded tenant (queries (sql, args ++ text_arg tenant ∷ []))

with_tenant-marks :
    (sql : Text) (args : List Arg) (tenant : Text)
    → marks sql ≡ length args
    → marks (codes "SELECT * FROM (" ++ (sql ++ codes ") WHERE tenant_id = ?"))
      ≡ length (args ++ text_arg tenant ∷ [])
unfolding count
with_tenant-marks sql args tenant h = omega (
  arith,
  h,
  count-append b'?' sql (codes ") WHERE tenant_id = ?"),
  length-append args (text_arg tenant ∷ []),
)

guard :
    (tenant : Text) (t : Translation) (test : Bool)
    → text_eq tenant [] ≡ test
    → marks t.sql ≡ length t.args
    → IsGuarded tenant
        (elim test [ true ↦ unauthorized | false ↦ queries (with_tenant t.sql tenant t.args) ])
unfolding with_tenant
guard [] t true e h = anonymous refl
guard [] t false e h = cc
guard (c ∷ cs) t true e h = cc
guard (c ∷ cs) t false e h = guarded _ t.args (cc) (with_tenant-marks t.sql t.args (c ∷ cs) h)

-- If %g writes no number with a question mark, then runProm answers every request: it refuses the query, or asks for the tenant if there is none, or queries the store with one argument for each placeholder of the SQL, the last of them the tenant.
pub run_prom-IsGuarded :
    (compiles : Text → Bool) {F : Type 0} (floats : Floats F)
    → ((x : F) → marks (floats.format_float x) ≡ 0)
    → (now : ℕ) (tenant : Text) (p : QueryParams)
    → IsGuarded tenant (run_prom compiles floats now tenant p)
unfolding run_prom
run_prom-IsGuarded compiles floats plain now tenant p =
    by_result (translate compiles floats now p) refl
  where
    by_result :
        (r : Result Translation)
        → translate compiles floats now p ≡ r
        → IsGuarded tenant (elim r [
          | err e ↦ bad_data e
          | ok t ↦ elim (text_eq tenant []) [
            | true ↦ unauthorized
            | false ↦ queries (with_tenant t.sql tenant t.args)
          ]
          | out_of_fuel ↦ stuck
        ])
    by_result (err e) h = refused
    by_result (ok t) h =
        guard tenant t (text_eq tenant []) refl (translate-marks compiles floats plain now p t h)
    by_result out_of_fuel h = elim (translate-fueled compiles floats now p h) [ ]
