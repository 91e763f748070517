-- ===== src/AuditLog/Conservation.antt =====
-- What becomes of the records of the buffered exporter of pkg/auditlog/auditlog.go.
use mathlib.Core.Path.{subst}
use observe_x.Prelude.{
  ℕ, suc, ◌≤◌, Bool, true, false, none, some, List, [], ◌∷◌, ◌++◌, append_assoc, append-nil, length,
  length-append, ltb, if◌then◌else◌, ◌≡◌, ◌∙◌, ap, sym, refl, arith,
}
use observe_x.AuditLog.{
  Worker, waiting, finished, draining, exporting, drain_exporting, Call, by_worker, by_caller,
  Reply, buffered, answered, Buffered, new_buffered, append, run_step, close_start, close_end,
  Reach, at_start, taken, refused, stepped, stopping, closing,
}

module _ {ℓ} {R : Type ℓ} where
  -- The records that the goroutine gave to inner.Append, whatever the answers, and those that callers gave to it, with the answers.
  unfoldable pub worker_records : List (Call R) → List R
  worker_records [] = []
  worker_records (by_worker r _ ∷ cs) = r ∷ worker_records cs
  worker_records (by_caller r _ ∷ cs) = worker_records cs

  unfoldable pub caller_records : List (Call R) → List (R × Bool)
  caller_records [] = []
  caller_records (by_worker r _ ∷ cs) = caller_records cs
  caller_records (by_caller r answer ∷ cs) = (r, answer) ∷ caller_records cs

  -- The record that the goroutine has taken and not yet given on.
  unfoldable pub in_hand : Worker R → List R
  in_hand (exporting r) = r ∷ []
  in_hand (drain_exporting r) = r ∷ []
  in_hand waiting = []
  in_hand draining = []
  in_hand finished = []

  pub worker_records-append :
      (cs ds : List (Call R)) → worker_records (cs ++ ds) ≡ worker_records cs ++ worker_records ds
  unfolding worker_records
  worker_records-append [] ds = refl
  worker_records-append (by_worker r _ ∷ cs) ds = ap (◌∷◌ r) (worker_records-append cs ds)
  worker_records-append (by_caller r _ ∷ cs) ds = worker_records-append cs ds

  pub caller_records-append :
      (cs ds : List (Call R)) → caller_records (cs ++ ds) ≡ caller_records cs ++ caller_records ds
  unfolding caller_records
  caller_records-append [] ds = refl
  caller_records-append (by_worker r _ ∷ cs) ds = caller_records-append cs ds
  caller_records-append (by_caller r answer ∷ cs) ds =
      ap (◌∷◌ (r, answer)) (caller_records-append cs ds)

  -- The records that the buffer took are given on, in hand or buffered, in order; the callers got the answers to the others.
  pub record Keeps (accepted : List R) (direct : List (R × Bool)) (b : Buffered R) : Type ℓ where
    pub ordered : worker_records b.calls ++ (in_hand b.worker ++ b.buf) ≡ accepted
    pub by_callers : caller_records b.calls ≡ direct
    pub fits : length b.buf ≤ b.size

  same-Keeps :
      {accepted : List R} {direct : List (R × Bool)} {b next : Buffered R}
      → b ≡ next
      → Keeps accepted direct b
      → Keeps accepted direct next
  same-Keeps {accepted} {direct} e k = subst (Keeps accepted direct) e k

  step-Keeps :
      {accepted : List R} {direct : List (R × Bool)} {b next : Buffered R}
      → some b ≡ some next
      → Keeps accepted direct b
      → Keeps accepted direct next
  step-Keeps e k = same-Keeps (cc) k

  taken-Keeps :
      (accepted : List R) (direct : List (R × Bool)) (b : Buffered R) (answer : Bool) (r : R)
      (next : Buffered R)
      → Keeps accepted direct b
      → append answer b r ≡ (buffered, next)
      → Keeps (accepted ++ r ∷ []) direct next
  unfolding append
  taken-Keeps accepted direct b answer r next k e = by_room (ltb (length b.buf) b.size) refl e
    where
      longer : Buffered R
      longer = record b { buf = b.buf ++ r ∷ [] }

      by_room :
          (room : Bool)
          → ltb (length b.buf) b.size ≡ room
          → ◌≡◌ {A = Reply × Buffered R}
              (if room
                then (buffered, longer)
                else (answered answer, record b { calls = b.calls ++ by_caller r answer ∷ [] }))
              (buffered, next)
          → Keeps (accepted ++ r ∷ []) direct next
      by_room true room e = same-Keeps (ap (λ p. p.1) e) (record {
        ordered =
            sym (
              append_assoc (worker_records b.calls) (in_hand b.worker ++ b.buf) (r ∷ [])
              ∙ ap (λ t. worker_records b.calls ++ t)
                  (append_assoc (in_hand b.worker) b.buf (r ∷ [])))
            ∙ ap (λ t. t ++ r ∷ []) k.ordered;
        by_callers = k.by_callers;
        fits = ground (arith, room, length-append b.buf (r ∷ []));
      })
      by_room false room e = cc

  refused-Keeps :
      (accepted : List R) (direct : List (R × Bool)) (b : Buffered R) (answer : Bool) (r : R)
      (next : Buffered R)
      → Keeps accepted direct b
      → append answer b r ≡ (answered answer, next)
      → Keeps accepted (direct ++ (r, answer) ∷ []) next
  unfolding append worker_records caller_records
  refused-Keeps accepted direct b answer r next k e = by_room (ltb (length b.buf) b.size) e
    where
      called : Buffered R
      called = record b { calls = b.calls ++ by_caller r answer ∷ [] }

      by_room :
          (room : Bool)
          → ◌≡◌ {A = Reply × Buffered R}
              (if room
                then (buffered, record b { buf = b.buf ++ r ∷ [] })
                else (answered answer, called))
              (answered answer, next)
          → Keeps accepted (direct ++ (r, answer) ∷ []) next
      by_room true e = cc
      by_room false e = same-Keeps (ap (λ p. p.1) e) (record {
        ordered =
            ap (λ t. t ++ (in_hand b.worker ++ b.buf))
              (worker_records-append b.calls (by_caller r answer ∷ [])
                ∙ append-nil (worker_records b.calls))
            ∙ k.ordered;
        by_callers =
            caller_records-append b.calls (by_caller r answer ∷ [])
            ∙ ap (λ t. t ++ (r, answer) ∷ []) k.by_callers;
        fits = k.fits;
      })

  exported-Keeps :
      {accepted : List R} {direct : List (R × Bool)} (size : ℕ) (buf : List R)
      (calls : List (Call R)) (r : R) (answer : Bool) (w w' : Worker R) (stopped : Bool)
      (closes : ℕ)
      → in_hand w ≡ r ∷ []
      → in_hand w' ≡ []
      → Keeps accepted direct (record {
        size = size;
        buf = buf;
        worker = w;
        calls = calls;
        stopped = stopped;
        closes = closes;
      })
      → Keeps accepted direct (record {
        size = size;
        buf = buf;
        worker = w';
        calls = calls ++ by_worker r answer ∷ [];
        stopped = stopped;
        closes = closes;
      })
  unfolding worker_records caller_records
  exported-Keeps size buf calls r answer w w' stopped closes held free k = record {
    ordered =
        ap (λ t. worker_records (calls ++ by_worker r answer ∷ []) ++ (t ++ buf)) free
        ∙ (ap (λ t. t ++ buf) (worker_records-append calls (by_worker r answer ∷ []))
            ∙ (append_assoc (worker_records calls) (r ∷ []) buf
                ∙ (ap (λ t. worker_records calls ++ (t ++ buf)) (sym held) ∙ k.ordered)));
    by_callers =
        caller_records-append calls (by_worker r answer ∷ [])
        ∙ (append-nil (caller_records calls) ∙ k.by_callers);
    fits = k.fits;
  }

  pub stepped-Keeps :
      {accepted : List R} {direct : List (R × Bool)} (sees_stop answer : Bool) (size : ℕ)
      (buf : List R) (w : Worker R) (calls : List (Call R)) (stopped : Bool) (closes : ℕ)
      (next : Buffered R)
      → Keeps accepted direct (record {
        size = size;
        buf = buf;
        worker = w;
        calls = calls;
        stopped = stopped;
        closes = closes;
      })
      → run_step sees_stop answer (record {
        size = size;
        buf = buf;
        worker = w;
        calls = calls;
        stopped = stopped;
        closes = closes;
      })
        ≡ some next
      → Keeps accepted direct next
  unfolding run_step in_hand
  stepped-Keeps true answer size buf waiting calls true closes next k e =
      step-Keeps e (record { ordered = k.ordered; by_callers = k.by_callers; fits = k.fits })
  stepped-Keeps true answer size buf waiting calls false closes next k e = cc
  stepped-Keeps false answer size [] waiting calls stopped closes next k e = cc
  stepped-Keeps false answer size (r ∷ rest) waiting calls stopped closes next k e =
      step-Keeps e
        (record { ordered = k.ordered; by_callers = k.by_callers; fits = omega (arith, k.fits) })
  stepped-Keeps sees_stop answer size buf (exporting r) calls stopped closes next k e =
      step-Keeps e
        (exported-Keeps size buf calls r answer (exporting r) waiting stopped closes refl refl k)
  stepped-Keeps sees_stop answer size [] draining calls stopped closes next k e =
      step-Keeps e (record { ordered = k.ordered; by_callers = k.by_callers; fits = k.fits })
  stepped-Keeps sees_stop answer size (r ∷ rest) draining calls stopped closes next k e =
      step-Keeps e
        (record { ordered = k.ordered; by_callers = k.by_callers; fits = omega (arith, k.fits) })
  stepped-Keeps sees_stop answer size buf (drain_exporting r) calls stopped closes next k e =
      step-Keeps e (
        exported-Keeps size buf calls r answer (drain_exporting r) draining stopped closes refl refl
          k)
  stepped-Keeps sees_stop answer size buf finished calls stopped closes next k e = cc

  closing-Keeps :
      {accepted : List R} {direct : List (R × Bool)} (b : Buffered R) (w : Worker R)
      (next : Buffered R)
      → Keeps accepted direct b
      → elim w [ finished ↦ some (record b { closes = suc b.closes }) | _ ↦ none ] ≡ some next
      → Keeps accepted direct next
  closing-Keeps b finished next k e =
      step-Keeps e (record { ordered = k.ordered; by_callers = k.by_callers; fits = k.fits })
  closing-Keeps b _ next k e = cc

  pub Reach-Keeps :
      (size : ℕ) (accepted : List R) (direct : List (R × Bool)) (b : Buffered R)
      → Reach (new_buffered size) accepted direct b
      → Keeps accepted direct b
  unfolding new_buffered worker_records caller_records in_hand close_start close_end
  Reach-Keeps size _ _ _ at_start = record { ordered = refl; by_callers = refl; fits = omega arith }
  Reach-Keeps size _ _ _ (taken {accepted} {direct} {b} {next} answer r reach e) =
      taken-Keeps accepted direct b answer r next (Reach-Keeps size accepted direct b reach) e
  Reach-Keeps size _ _ _ (refused {accepted} {direct} {b} {next} answer r reach e) =
      refused-Keeps accepted direct b answer r next (Reach-Keeps size accepted direct b reach) e
  Reach-Keeps size _ _ _ (stepped {accepted} {direct} {b} {next} sees_stop answer reach e) =
      stepped-Keeps sees_stop answer b.size b.buf b.worker b.calls b.stopped b.closes next
        (Reach-Keeps size accepted direct b reach) e
  Reach-Keeps size _ _ _ (stopping {accepted} {direct} {b} reach) =
      let k = Reach-Keeps size accepted direct b reach in
      record { ordered = k.ordered; by_callers = k.by_callers; fits = k.fits }
  Reach-Keeps size _ _ _ (closing {accepted} {direct} {b} {next} reach e) =
      closing-Keeps b b.worker next (Reach-Keeps size accepted direct b reach) e
