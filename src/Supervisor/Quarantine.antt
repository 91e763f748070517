-- ===== src/Supervisor/Quarantine.antt =====
-- Quarantine in pkg/supervisor/supervisor.go.
use observe_x.Prelude.{
  ℕ, ◌+◌, ◌≤◌, ◌<◌, ◌≡◌, true, false, List, [], ◌∷◌, ◌++◌, arith, length, length-append,
}
use observe_x.Supervisor.{ManagedActor, Options, sweep_one}
use observe_x.Supervisor.Backoff.{Timeline, Timeline-append}
use observe_x.Supervisor.Backoff.{Timeline-le, trim_before-recent}

module _ {R O : Type 0} (jittered : ℕ → ℕ) (o : Options O) where
  -- The sweeps at some times, over one entry of the map.
  pub sweep_all : List ℕ → ManagedActor R O → ManagedActor R O
  sweep_all [] m = m
  sweep_all (t ∷ ts) m = sweep_all ts (sweep_one jittered o t m).0

  -- A sweep that finds an actor stopped counts one more restart, also if the restart of the last count is
  -- still waiting for its delay.
  sweep_one-counts :
      (lo hi now : ℕ) (m : ManagedActor R O)
      → m.quarantined ≡ false
      → m.actor.running ≡ false
      → Timeline lo hi m.restarts
      → now ≤ lo + o.restart_window
      → length m.restarts < o.max_restarts
      → let m' = (sweep_one jittered o now m).0 in
        (m'.quarantined ≡ false)
        × (m'.actor.running ≡ false)
        × (m'.restarts ≡ m.restarts ++ now ∷ [])
  unfolding sweep_one
  sweep_one-counts lo hi now m q r h w l = ground (
    arith,
    trim_before-recent o.restart_window lo hi now m.restarts h w,
    length-append m.restarts (now ∷ []),
  )

  sweep_one-quarantines :
      (lo hi now : ℕ) (m : ManagedActor R O)
      → m.quarantined ≡ false
      → m.actor.running ≡ false
      → Timeline lo hi m.restarts
      → now ≤ lo + o.restart_window
      → length m.restarts ≡ o.max_restarts
      → (sweep_one jittered o now m).0.quarantined ≡ true
  unfolding sweep_one
  sweep_one-quarantines lo hi now m q r h w l = ground (
    arith,
    trim_before-recent o.restart_window lo hi now m.restarts h w,
    length-append m.restarts (now ∷ []),
  )

  -- One crash is enough for quarantine: an actor that stops once and is not restarted while as many
  -- sweeps pass as its history lacks to more than the allowed restarts, all within the window, is
  -- quarantined, although no restart was tried.
  pub one_crash_quarantines :
      (lo hi : ℕ) (m : ManagedActor R O) (ts : List ℕ)
      → m.quarantined ≡ false
      → m.actor.running ≡ false
      → Timeline lo hi m.restarts
      → Timeline hi (lo + o.restart_window) ts
      → length m.restarts + length ts ≡ o.max_restarts + 1
      → 0 < length ts
      → (sweep_all ts m).quarantined ≡ true
  unfolding sweep_all
  one_crash_quarantines lo hi m [] q r h w l pos = absurd (omega arith)
  one_crash_quarantines lo hi m (t ∷ []) q r h w l pos =
      sweep_one-quarantines lo hi t m q r h w.1 (omega arith)
  one_crash_quarantines lo hi m (t ∷ (t' ∷ ts)) q r h w l pos =
      let (q', r', e) =
        sweep_one-counts lo hi t m q r h (Timeline-le t _ (t' ∷ ts) w.1) (omega arith) in
      one_crash_quarantines lo t (sweep_one jittered o t m).0 (t' ∷ ts) q' r'
        (rw e (Timeline-append lo hi t m.restarts h w.0)) w.1
        (rw e (omega (arith, length-append m.restarts (t ∷ [])))) (omega arith)
