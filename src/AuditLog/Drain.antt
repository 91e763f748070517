-- ===== src/AuditLog/Drain.antt =====
-- What the goroutine of the buffered exporter of pkg/auditlog/auditlog.go does behind Close.
use mathlib.Core.Path.{subst}
use observe_x.Prelude.{
  ℕ, ◌+◌, ◌*◌, ◌≤◌, Bool, true, false, not, Option, none, some, List, [], ◌∷◌, ◌++◌, length,
  append-nil, append_assoc, arith, ◌≡◌, ◌≢◌, ◌∙◌, ap, sym, refl,
}
use observe_x.AuditLog.{
  Worker, waiting, finished, draining, exporting, drain_exporting, Call, by_worker, by_caller,
  buffered, answered, Buffered, new_buffered, append, run_step, close_start, close_end, Reach,
  at_start, taken, refused, stepped, stopping, closing,
}
use observe_x.AuditLog.Conservation.{
  Keeps, Reach-Keeps, stepped-Keeps, worker_records, worker_records-append, caller_records,
  caller_records-append, in_hand,
}

module _ {ℓ} {R : Type ℓ} where
  -- One turn of the goroutine. Where its select has a single ready case it takes that one, else the preferred one; with none it waits.
  unfoldable pub turn : Bool → Bool → Buffered R → Buffered R
  unfolding run_step
  turn prefers_stop answer b = elim (run_step prefers_stop answer b) [
    | some next ↦ next
    | none ↦ elim (run_step (not prefers_stop) answer b) [ some next ↦ next | none ↦ b ]
  ]

  -- The turns for any choices of the select and any answers of inner.Append.
  unfoldable pub run_turns : List (Bool × Bool) → Buffered R → Buffered R
  unfolding turn
  run_turns [] b = b
  run_turns (c ∷ cs) b = run_turns cs (turn c.0 c.1 b)

  -- How many turns the goroutine is away from its return, apart from the buffer.
  unfoldable pub turns_left : Worker R → ℕ
  turns_left finished = 0
  turns_left draining = 1
  turns_left (drain_exporting r) = 2
  turns_left waiting = 2
  turns_left (exporting r) = 3

  turns_left-bound : (w : Worker R) → turns_left w ≤ 3
  unfolding turns_left
  turns_left-bound finished = omega arith
  turns_left-bound draining = omega arith
  turns_left-bound waiting = omega arith
  turns_left-bound (exporting r) = omega arith
  turns_left-bound (drain_exporting r) = omega arith

  turn-Keeps :
      {accepted : List R} {direct : List (R × Bool)} (prefers_stop answer : Bool) (b : Buffered R)
      → Keeps accepted direct b
      → Keeps accepted direct (turn prefers_stop answer b)
  unfolding turn
  turn-Keeps {accepted} {direct} prefers_stop answer b k =
      by_first (run_step prefers_stop answer b) refl
    where
      by_first :
          (first : Option (Buffered R))
          → run_step prefers_stop answer b ≡ first
          → Keeps accepted direct (elim first [
            | some next ↦ next
            | none ↦ elim (run_step (not prefers_stop) answer b) [ some next ↦ next | none ↦ b ]
          ])
      by_first (some next) e =
          stepped-Keeps prefers_stop answer b.size b.buf b.worker b.calls b.stopped b.closes next k
            e
      by_first none e = by_second (run_step (not prefers_stop) answer b) refl
        where
          by_second :
              (second : Option (Buffered R))
              → run_step (not prefers_stop) answer b ≡ second
              → Keeps accepted direct (elim second [ some next ↦ next | none ↦ b ])
          by_second (some next) e' =
              stepped-Keeps (not prefers_stop) answer b.size b.buf b.worker b.calls b.stopped
                b.closes next k e'
          by_second none e' = k

  run_turns-Keeps :
      {accepted : List R} {direct : List (R × Bool)} (cs : List (Bool × Bool)) (b : Buffered R)
      → Keeps accepted direct b
      → Keeps accepted direct (run_turns cs b)
  unfolding run_turns
  run_turns-Keeps [] b k = k
  run_turns-Keeps (c ∷ cs) b k = run_turns-Keeps cs (turn c.0 c.1 b) (turn-Keeps c.0 c.1 b k)

  -- The goroutine has returned, the buffer empty.
  Returned : Buffered R → Type ℓ
  Returned b = (b.worker ≡ finished) × (b.buf ≡ [])

  finished-Returned :
      (cs : List (Bool × Bool)) (size : ℕ) (calls : List (Call R)) (closes : ℕ)
      → Returned (
          run_turns cs (record {
            size = size;
            buf = [];
            worker = finished;
            calls = calls;
            stopped = true;
            closes = closes;
          }))
  unfolding Returned run_turns turn run_step
  finished-Returned [] size calls closes = (refl, refl)
  finished-Returned ((true, answer) ∷ cs) size calls closes = finished-Returned cs size calls closes
  finished-Returned ((false, answer) ∷ cs) size calls closes =
      finished-Returned cs size calls closes

  turns-Returned :
      (cs : List (Bool × Bool)) (size : ℕ) (buf : List R) (w : Worker R) (calls : List (Call R))
      (closes : ℕ)
      → w ≢ finished
      → turns_left w + 2 * length buf ≤ length cs
      → Returned (
          run_turns cs (record {
            size = size;
            buf = buf;
            worker = w;
            calls = calls;
            stopped = true;
            closes = closes;
          }))
  unfolding run_turns turn run_step turns_left
  turns-Returned [] size buf waiting calls closes h enough = absurd (omega arith)
  turns-Returned [] size buf draining calls closes h enough = absurd (omega arith)
  turns-Returned [] size buf (exporting r) calls closes h enough = absurd (omega arith)
  turns-Returned [] size buf (drain_exporting r) calls closes h enough = absurd (omega arith)
  turns-Returned cs size buf finished calls closes h enough = elim (h refl) [ ]
  turns-Returned ((true, answer) ∷ cs) size buf waiting calls closes h enough =
      turns-Returned cs size buf draining calls closes (λ e. cc) (omega arith)
  turns-Returned ((false, answer) ∷ cs) size [] waiting calls closes h enough =
      turns-Returned cs size [] draining calls closes (λ e. cc) (omega arith)
  turns-Returned ((false, answer) ∷ cs) size (r ∷ rest) waiting calls closes h enough =
      turns-Returned cs size rest (exporting r) calls closes (λ e. cc) (omega arith)
  turns-Returned ((stop, answer) ∷ cs) size buf (exporting r) calls closes h enough =
      turns-Returned cs size buf waiting (calls ++ by_worker r answer ∷ []) closes (λ e. cc)
        (omega arith)
  turns-Returned ((stop, answer) ∷ cs) size buf (drain_exporting r) calls closes h enough =
      turns-Returned cs size buf draining (calls ++ by_worker r answer ∷ []) closes (λ e. cc)
        (omega arith)
  turns-Returned ((stop, answer) ∷ cs) size [] draining calls closes h enough =
      finished-Returned cs size calls closes
  turns-Returned ((stop, answer) ∷ cs) size (r ∷ rest) draining calls closes h enough =
      turns-Returned cs size rest (drain_exporting r) calls closes (λ e. cc) (omega arith)

  all_given :
      (calls : List (Call R)) (w : Worker R) (buf accepted : List R)
      → w ≡ finished
      → buf ≡ []
      → worker_records calls ++ (in_hand w ++ buf) ≡ accepted
      → worker_records calls ≡ accepted
  unfolding in_hand
  all_given calls w buf accepted done empty ordered =
      sym (append-nil (worker_records calls))
      ∙ (ap (λ t. worker_records calls ++ t) (sym (ap (λ v. in_hand v ++ buf) done ∙ empty))
          ∙ ordered)

  -- Once Close has closed stopCh, and if the goroutine has not returned yet, it returns within two turns for each buffered record and three more, if no caller appends meanwhile: whichever ready cases its select chooses and whichever calls of inner.Append fail. The buffer is then empty, and each record that it took has been given to inner.Append, in the order in which they came and each once.
  pub Reach-Returns :
      (size : ℕ) (accepted : List R) (direct : List (R × Bool)) (b : Buffered R)
      (choices : List (Bool × Bool))
      → Reach (new_buffered size) accepted direct b
      → b.stopped ≡ true
      → b.worker ≢ finished
      → 2 * length b.buf + 3 ≤ length choices
      → ((run_turns choices b).worker ≡ finished)
        × ((run_turns choices b).buf ≡ [])
        × (worker_records (run_turns choices b).calls ≡ accepted)
  unfolding Returned
  Reach-Returns size accepted direct b choices reach stop running enough =
      let returned : Returned (run_turns choices b) =
        subst
          (λ flag. Returned (
            run_turns choices (record {
              size = b.size;
              buf = b.buf;
              worker = b.worker;
              calls = b.calls;
              stopped = flag;
              closes = b.closes;
            })))
          (sym stop)
          (turns-Returned choices b.size b.buf b.worker b.calls b.closes running
            (omega (arith, turns_left-bound b.worker))) in
      let last = run_turns choices b in
      let k = run_turns-Keeps choices b (Reach-Keeps size accepted direct b reach) in
      (
        returned.0,
        returned.1,
        all_given last.calls last.worker last.buf accepted returned.0 returned.1 k.ordered,
      )

  append-buffered :
      (answer : Bool) (b next : Buffered R) (r : R)
      → append answer b r ≡ (buffered, next)
      → (next.worker ≡ b.worker) × (next.buf ≡ b.buf ++ r ∷ []) × (next.calls ≡ b.calls)
  unfolding append
  append-buffered answer b next r e = ground (arith, e)

  append-answered :
      (answer : Bool) (b next : Buffered R) (r : R)
      → append answer b r ≡ (answered answer, next)
      → (next.worker ≡ b.worker)
        × (next.buf ≡ b.buf)
        × (next.calls ≡ b.calls ++ by_caller r answer ∷ [])
  unfolding append
  append-answered answer b next r e = ground (arith, e)

  run_step-finished :
      (sees_stop answer : Bool) (b next : Buffered R)
      → b.worker ≡ finished
      → run_step sees_stop answer b ≢ some next
  unfolding run_step
  run_step-finished sees_stop answer b next done e = ground (arith, done, e)

  close_end-same :
      (b next : Buffered R)
      → close_end b ≡ some next
      → (next.worker ≡ b.worker) × (next.buf ≡ b.buf) × (next.calls ≡ b.calls)
  unfolding close_end
  close_end-same b next e = ground (arith, e)

  -- When the goroutine has returned, a record that the buffer takes later stays in it, behind what it held, and is never given to inner.Append, whatever calls of Append and Close follow. The only later calls of inner.Append are those of callers whose record the buffer refused, one for each.
  pub finished-Strands :
      (b : Buffered R) (accepted : List R) (direct : List (R × Bool)) (last : Buffered R)
      → b.worker ≡ finished
      → Reach b accepted direct last
      → (last.worker ≡ finished)
        × (last.buf ≡ b.buf ++ accepted)
        × (worker_records last.calls ≡ worker_records b.calls)
        × (caller_records last.calls ≡ caller_records b.calls ++ direct)
  unfolding close_start worker_records caller_records
  finished-Strands b _ _ _ done at_start =
      (done, sym (append-nil b.buf), refl, sym (append-nil (caller_records b.calls)))
  finished-Strands b _ _ _ done (taken {accepted} {direct} {b = before} {next} answer r reach e) =
      let ih = finished-Strands b accepted direct before done reach in
      let same = append-buffered answer before next r e in
      (
        same.0 ∙ ih.0,
        same.1 ∙ (ap (λ t. t ++ r ∷ []) ih.1 ∙ append_assoc b.buf accepted (r ∷ [])),
        ap worker_records same.2 ∙ ih.2,
        ap caller_records same.2 ∙ ih.3,
      )
  finished-Strands b _ _ _ done (refused {accepted} {direct} {b = before} {next} answer r reach e) =
      let ih = finished-Strands b accepted direct before done reach in
      let same = append-answered answer before next r e in
      (
        same.0 ∙ ih.0,
        same.1 ∙ ih.1,
        ap worker_records same.2
            ∙ (worker_records-append before.calls (by_caller r answer ∷ [])
                ∙ (append-nil (worker_records before.calls) ∙ ih.2)),
        ap caller_records same.2
            ∙ (caller_records-append before.calls (by_caller r answer ∷ [])
                ∙ (ap (λ t. t ++ (r, answer) ∷ []) ih.3
                    ∙ append_assoc (caller_records b.calls) direct ((r, answer) ∷ []))),
      )
  finished-Strands b _ _ _ done
        (stepped {accepted} {direct} {b = before} {next} sees_stop answer reach e) =
      let ih = finished-Strands b accepted direct before done reach in
      elim (run_step-finished sees_stop answer before next ih.0 e) [ ]
  finished-Strands b _ _ _ done (stopping {accepted} {direct} {b = before} reach) =
      finished-Strands b accepted direct before done reach
  finished-Strands b _ _ _ done (closing {accepted} {direct} {b = before} {next} reach e) =
      let ih = finished-Strands b accepted direct before done reach in
      let same = close_end-same before next e in
      (
        same.0 ∙ ih.0,
        same.1 ∙ ih.1,
        ap worker_records same.2 ∙ ih.2,
        ap caller_records same.2 ∙ ih.3,
      )
