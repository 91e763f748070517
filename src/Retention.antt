-- ===== src/Retention.antt =====
-- pkg/retention/retention.go, over the connection that executes the statements, which is an argument.
pub mod Rules
mod Tests
use observe_x.Prelude.{
  ℕ, zero, suc, ◌+◌, ◌*◌, ◌/◌, ◌%◌, Bool, true, false, not, ◌&&◌, ◌||◌, Option, none, some, List,
  [], ◌∷◌, ◌++◌, length, ltb, leb, ◌==◌, if◌then◌else◌,
}
use observe_x.Prelude.Text.{digits, Text, codes, join}
use observe_x.Auth.{trim_left, trim_right}

-- Go's int, without its bound: every number of days is compared with small constants only.
pub data ℤ : Type 0 where
  pos : ℕ → ℤ
  negsuc : ℕ → ℤ

pub record Spec : Type 0 where
  pub tenant_id : Text
  pub metrics_hot_days : ℤ
  pub logs_hot_days : ℤ
  pub traces_hot_days : ℤ
  pub metrics_total_days : ℤ
  pub logs_total_days : ℤ
  pub traces_total_days : ℤ

unfoldable pub in_range : ℤ → ℕ → Bool
in_range (negsuc n) max' = false
in_range (pos n) max' = leb n max'

unfoldable pub is_positive : ℤ → Bool
is_positive (negsuc n) = false
is_positive (pos n) = ltb 0 n

unfoldable pub less : ℤ → ℤ → Bool
less (pos a) (pos b) = ltb a b
less (pos a) (negsuc b) = false
less (negsuc a) (pos b) = true
less (negsuc a) (negsuc b) = ltb b a

-- One round of the loop of Validate.
unfoldable pub check_days : ℤ → ℤ → ℕ → Bool
unfolding in_range is_positive less
check_days hot total max_day =
    in_range hot max_day
    && (in_range total max_day && not (is_positive hot && (is_positive total && less total hot)))

unfoldable pub is_blank : Text → Bool
unfolding trim_left trim_right
is_blank s = elim (trim_left (trim_right s)) [ [] ↦ true | _ ∷ _ ↦ false ]

-- Validate: whether there is no error.
unfoldable pub validate : Spec → Bool
unfolding check_days is_blank
validate s =
    not (is_blank s.tenant_id)
    && (check_days s.metrics_hot_days s.metrics_total_days 3650
        && (check_days s.logs_hot_days s.logs_total_days 730
            && check_days s.traces_hot_days s.traces_total_days 730))

unfoldable pub is_safe_char : ℕ → Bool
is_safe_char r =
    (leb b'a' r && leb r b'z') || ((leb b'0' r && leb r b'9') || (r == b'_' || r == b'-'))

unfoldable pub all_safe : Text → Bool
unfolding is_safe_char
all_safe [] = true
all_safe (c ∷ cs) = is_safe_char c && all_safe cs

-- safeTenantID: whether there is no error. The length is in bytes, which for safe characters is the
-- number of code points; a text with others is refused either way.
unfoldable pub safe_tenant_id : Text → Bool
unfolding all_safe
safe_tenant_id id = ltb 0 (length id) && (leb (length id) 63 && all_safe id)

unfoldable pub decimal : ℤ → Text
unfolding digits
decimal (pos n) = digits n n
decimal (negsuc n) = b'-' ∷ digits (suc n) (suc n)

unfoldable pub hot_clause : Text → Text → ℤ → List Text
unfolding is_positive decimal
hot_clause col tenant_id days =
    if is_positive days
    then (codes "toDateTime("
        ++ (col
            ++ (codes ") + INTERVAL "
                ++ (decimal days
                    ++ (codes " DAY TO DISK 'cold_s3' WHERE tenant_id = '"
                        ++ (tenant_id ++ codes "'"))))))
      ∷ []
    else []

unfoldable pub total_clause : Text → Text → ℤ → List Text
unfolding is_positive decimal
total_clause col tenant_id days =
    if is_positive days
    then (codes "toDateTime("
        ++ (col
            ++ (codes ") + INTERVAL "
                ++ (decimal days
                    ++ (codes " DAY DELETE WHERE tenant_id = '" ++ (tenant_id ++ codes "'"))))))
      ∷ []
    else []

-- buildTTLStatement.
unfoldable pub build_ttl_statement : Text → Text → Text → ℤ → ℤ → Text
unfolding join hot_clause total_clause
build_ttl_statement table col tenant_id hot_days total_days =
    codes "ALTER TABLE "
    ++ (table
        ++ (codes " MODIFY TTL "
            ++ join (codes ", ")
                (hot_clause col tenant_id hot_days ++ total_clause col tenant_id total_days)))

unfoldable pub is_zero : ℤ → Bool
is_zero (pos n) = n == 0
is_zero (negsuc n) = false

pub record Row : Type 0 where
  pub table : Text
  pub col : Text
  pub hot_days : ℤ
  pub total_days : ℤ

unfoldable pub rows_of : Spec → List Row
rows_of s =
    record {
      table = codes "metrics";
      col = codes "timestamp";
      hot_days = s.metrics_hot_days;
      total_days = s.metrics_total_days;
    }
    ∷ record {
      table = codes "logs";
      col = codes "timestamp";
      hot_days = s.logs_hot_days;
      total_days = s.logs_total_days;
    }
    ∷ record {
      table = codes "traces";
      col = codes "start_time";
      hot_days = s.traces_hot_days;
      total_days = s.traces_total_days;
    }
    ∷ []

-- The windows that Drop sets.
abbrev pub default_windows : Text → Spec
default_windows tenant_id = record {
  tenant_id = tenant_id;
  metrics_hot_days = pos 30;
  metrics_total_days = pos 90;
  logs_hot_days = pos 14;
  logs_total_days = pos 30;
  traces_hot_days = pos 7;
  traces_total_days = pos 30;
}

-- `exec` says whether the connection executes a statement. The result is the statements that it was
-- asked to execute, the last of which failed if the flag is false.
module _ (exec : Text → Bool) where
  -- The loop of Apply.
  unfoldable pub apply_rows : Text → List Row → List Text × Bool
  unfolding build_ttl_statement is_zero
  apply_rows tenant_id [] = ([], true)
  apply_rows tenant_id (r ∷ rs) =
      let rest = apply_rows tenant_id rs in
      let stmt = build_ttl_statement r.table r.col tenant_id r.hot_days r.total_days in
      if is_zero r.hot_days && is_zero r.total_days
      then rest
      else if exec stmt
      then (stmt ∷ rest.0, rest.1)
      else (stmt ∷ [], false)

  -- Apply.
  unfoldable pub apply : Spec → List Text × Bool
  unfolding validate safe_tenant_id apply_rows rows_of
  apply s =
      if not (validate s)
      then ([], false)
      else if not (safe_tenant_id s.tenant_id)
      then ([], false)
      else apply_rows s.tenant_id (rows_of s)

  -- Drop.
  unfoldable pub drop : Text → List Text × Bool
  unfolding apply
  drop tenant_id =
      if not (safe_tenant_id tenant_id) then ([], false) else apply (default_windows tenant_id)
