-- ===== src/AuditLog.antt =====
-- The buffered exporter of pkg/auditlog/auditlog.go, over the calls of the exporter that it wraps. `R` is the type of records.
pub mod Conservation
pub mod Drain
mod Tests
use observe_x.Prelude.{
  ℕ, zero, suc, ◌<◌, ◌≤◌, Bool, true, false, Option, none, some, List, [], ◌∷◌, ◌++◌, length, ltb,
  ◌==◌, if◌then◌else◌, ◌≡◌,
}

-- Where the goroutine of run stands: in its select, in the call of inner.Append with a record, in the same two places of the
-- drain behind stopCh, or returned.
pub data Worker {ℓ} (R : Type ℓ) : Type ℓ where
  waiting finished draining : Worker R
  exporting drain_exporting : R → Worker R

-- A call of inner.Append, by the goroutine or by a caller of Append, and whether it returned without an error.
pub data Call {ℓ} (R : Type ℓ) : Type ℓ where
  by_worker by_caller : R → Bool → Call R

-- What Append returns: nil from its buffer, or the answer of inner.Append, whether it had no error.
pub data Reply : Type 0 where
  buffered : Reply
  answered : Bool → Reply

-- `calls` are the calls of inner.Append so far, `stopped` is whether stopCh is closed, `closes` counts the calls of inner.Close.
pub record Buffered {ℓ} (R : Type ℓ) : Type ℓ where
  pub size : ℕ
  pub buf : List R
  pub worker : Worker R
  pub calls : List (Call R)
  pub stopped : Bool
  pub closes : ℕ

-- NewBufferedExporter; 0 stands for any size that is not positive.
unfoldable pub new_buffered {ℓ} : {R : Type ℓ} → ℕ → Buffered R
new_buffered size = record {
  size = if size == 0 then 1024 else size;
  buf = [];
  worker = waiting;
  calls = [];
  stopped = false;
  closes = 0;
}

-- Append. If the buffer does not take the record, it is the caller that calls inner.Append; `answer` is whether that call succeeds.
unfoldable pub append {ℓ} : {R : Type ℓ} → Bool → Buffered R → R → Reply × Buffered R
append answer b r =
    if ltb (length b.buf) b.size
    then (buffered, record b { buf = b.buf ++ r ∷ [] })
    else (answered answer, record b { calls = b.calls ++ by_caller r answer ∷ [] })

-- A step of the goroutine. `sees_stop` is the choice of the select between a record and stopCh, and `answer` is whether the
-- call of inner.Append that the step ends succeeds; the goroutine goes on in the same way if not.
unfoldable pub run_step {ℓ} : {R : Type ℓ} → Bool → Bool → Buffered R → Option (Buffered R)
run_step sees_stop answer b = elim b.worker [
  | waiting ↦
      if sees_stop
      then (if b.stopped then some (record b { worker = draining }) else none)
      else elim b.buf [
        | [] ↦ none
        | r ∷ rest ↦ some (record b { buf = rest; worker = exporting r })
      ]
  | exporting r ↦ some (record b { worker = waiting; calls = b.calls ++ by_worker r answer ∷ [] })
  | draining ↦ elim b.buf [
    | [] ↦ some (record b { worker = finished })
    | r ∷ rest ↦ some (record b { buf = rest; worker = drain_exporting r })
  ]
  | drain_exporting r ↦
      some (record b { worker = draining; calls = b.calls ++ by_worker r answer ∷ [] })
  | finished ↦ none
]

-- The start of Close, which closes stopCh once, and its end, when the goroutine has returned.
unfoldable pub close_start {ℓ} : {R : Type ℓ} → Buffered R → Buffered R
close_start b = record b { stopped = true }

unfoldable pub close_end {ℓ} : {R : Type ℓ} → Buffered R → Option (Buffered R)
close_end b = elim b.worker [ finished ↦ some (record b { closes = suc b.closes }) | _ ↦ none ]

-- The states that calls of Append and Close and steps of the goroutine reach in any order, with the records that the buffer
-- took, and those that it refused with the answers that their callers got, both in the order of their calls.
pub data Reach {ℓ} {R : Type ℓ} (start : Buffered R)
    : List R → List (R × Bool) → Buffered R → Type ℓ where
  at_start : Reach start [] [] start
  taken :
      {accepted : List R} {direct : List (R × Bool)} {b next : Buffered R} (answer : Bool) (r : R)
      → Reach start accepted direct b
      → append answer b r ≡ (buffered, next)
      → Reach start (accepted ++ r ∷ []) direct next
  refused :
      {accepted : List R} {direct : List (R × Bool)} {b next : Buffered R} (answer : Bool) (r : R)
      → Reach start accepted direct b
      → append answer b r ≡ (answered answer, next)
      → Reach start accepted (direct ++ (r, answer) ∷ []) next
  stepped :
      {accepted : List R} {direct : List (R × Bool)} {b next : Buffered R} (sees_stop answer : Bool)
      → Reach start accepted direct b
      → run_step sees_stop answer b ≡ some next
      → Reach start accepted direct next
  stopping :
      {accepted : List R} {direct : List (R × Bool)} {b : Buffered R}
      → Reach start accepted direct b
      → Reach start accepted direct (close_start b)
  closing :
      {accepted : List R} {direct : List (R × Bool)} {b next : Buffered R}
      → Reach start accepted direct b
      → close_end b ≡ some next
      → Reach start accepted direct next
