-- ===== src/Signal.antt =====
-- pkg/signal/signal.go.
use Prim.Native.String.{String}
use observe_x.Prelude.{ℕ, List, Bool, true, false}

pub data SignalType : Type 0 where
  metric log trace profile : SignalType

-- Times are nanoseconds of the Unix clock.
pub record Signal : Type 0 where
  pub tenant_id : String
  pub signal_type : SignalType
  pub payload : List ℕ
  pub attributes : List (String × String)
  pub received_at : ℕ

unfoldable pub is_trace : SignalType → Bool
is_trace trace = true
is_trace _ = false
