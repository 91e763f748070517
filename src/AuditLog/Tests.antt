-- ===== src/AuditLog/Tests.antt =====
-- Concrete runs of pkg/auditlog/auditlog.go.
use observe_x.Prelude.{ℕ, Bool, List, arith, true, false, [], ◌∷◌, ◌++◌, ◌≡◌, refl}
use observe_x.AuditLog.{
  finished, Buffered, new_buffered, append, close_start, Reach, at_start, taken, refused, stopping,
  by_caller, by_worker, waiting,
}
use observe_x.AuditLog.Conservation.{caller_records, worker_records}
use observe_x.AuditLog.Drain.{run_turns, Reach-Returns, finished-Strands}

abbrev with_one : Buffered ℕ
with_one = record {
  size = 1;
  buf = 7 ∷ [];
  worker = waiting;
  calls = [];
  stopped = false;
  closes = 0;
}

-- A record that the buffer takes, one that it does not, and the start of Close.
abbrev closing_one : Buffered ℕ
closing_one = record {
  size = 1;
  buf = 7 ∷ [];
  worker = waiting;
  calls = by_caller 8 true ∷ [];
  stopped = true;
  closes = 0;
}

closing_one-Reach : Reach (new_buffered 1) (7 ∷ []) ((8, true) ∷ []) closing_one
unfolding new_buffered append close_start
closing_one-Reach = stopping (refused true 8 (taken {next = with_one} true 7 at_start refl) refl)

-- Five turns: the call of inner.Append fails, and the goroutine goes on.
abbrev five_turns : List (Bool × Bool)
five_turns =
    (false, true) ∷ ((false, false) ∷ ((false, true) ∷ ((true, true) ∷ ((true, true) ∷ []))))

Reach-Returns_example :
    ((run_turns five_turns closing_one).worker ≡ finished)
    × ((run_turns five_turns closing_one).buf ≡ [])
    × (worker_records (run_turns five_turns closing_one).calls ≡ 7 ∷ [])
Reach-Returns_example =
    Reach-Returns 1 (7 ∷ []) ((8, true) ∷ []) closing_one five_turns closing_one-Reach refl
      (λ e. cc) (omega arith)

failed_call_lost :
    (run_turns five_turns closing_one).calls ≡ by_caller 8 true ∷ (by_worker 7 false ∷ [])
unfolding run_turns
failed_call_lost = refl

-- After the goroutine has returned, the buffer still takes a record.
abbrev returned : Buffered ℕ
returned = record { size = 1; buf = []; worker = finished; calls = []; stopped = true; closes = 1 }

abbrev with_stranded : Buffered ℕ
with_stranded = record {
  size = 1;
  buf = 9 ∷ [];
  worker = finished;
  calls = [];
  stopped = true;
  closes = 1;
}

finished-Strands_example :
    (with_stranded.worker ≡ finished)
    × (with_stranded.buf ≡ returned.buf ++ 9 ∷ [])
    × (worker_records with_stranded.calls ≡ worker_records returned.calls)
    × (caller_records with_stranded.calls ≡ caller_records returned.calls ++ [])
unfolding append
finished-Strands_example =
    finished-Strands returned (9 ∷ []) [] with_stranded refl (taken true 9 at_start refl)
