-- ===== src/Retention/Tests.antt =====
-- Concrete runs of pkg/retention/retention.go.
use observe_x.Prelude.{◌≡◌, refl, Bool, true, false}
use observe_x.Prelude.Text.{Text, codes}
use observe_x.Retention.{pos, default_windows, build_ttl_statement, apply, is_safe_char}
use observe_x.Retention.Rules.{Contained, apply-Contained}

abbrev always : Text → Bool
always stmt = true

quote_unsafe : is_safe_char b'\'' ≡ false
unfolding is_safe_char
quote_unsafe = refl

apply-Contained_example :
    Contained b'\'' quote_unsafe (codes "acme") (apply always (default_windows (codes "acme"))).0
apply-Contained_example = apply-Contained b'\'' quote_unsafe always (default_windows (codes "acme"))

both_clauses :
    build_ttl_statement (codes "metrics") (codes "timestamp") (codes "acme") (pos 30) (pos 90)
    ≡ codes
        "ALTER TABLE metrics MODIFY TTL toDateTime(timestamp) + INTERVAL 30 DAY TO DISK 'cold_s3' WHERE tenant_id = 'acme', toDateTime(timestamp) + INTERVAL 90 DAY DELETE WHERE tenant_id = 'acme'"
unfolding build_ttl_statement
both_clauses = refl
