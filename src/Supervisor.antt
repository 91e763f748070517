-- ===== src/Supervisor.antt =====
-- pkg/supervisor/supervisor.go.
-- A managed actor is shared by the map and by the goroutines that wait to restart it: its `serial`
-- stands for the pointer. Restarts of an actor that the map has lost have no effect on the
-- supervisor. Times are nanoseconds; the clock, the jitter and the spillover's answer are arguments.
pub mod Backoff
pub mod Routing
pub mod Invariant
pub mod Preserve
pub mod Reach
pub mod Quarantine
mod Tests
use Prim.Native.String.{String}
use observe_x.Prelude.{
  ℕ, suc, ◌+◌, ◌-◌, ◌*◌, Bool, true, false, not, Option, none, some, List, [], ◌∷◌, ◌++◌, length,
  ltb, leb, ◌==◌, ◌&&◌, ◌||◌, if◌then◌else◌,
}
use observe_x.Prelude.Dict.{lookup, insert, delete}
use observe_x.Signal.{Signal}
use observe_x.Actor.{TenantActor, Sent, delivered, full, new_tenant_actor, start, stop, send}

pub record Options (O : Type 0) : Type 0 where
  pub mailbox_size : ℕ
  pub max_restarts : ℕ
  pub restart_window : ℕ
  pub backoff_min : ℕ
  pub backoff_max : ℕ
  pub health_interval : ℕ
  pub actor_options : O
  pub has_spillover : Bool

abbrev or_default : ℕ → ℕ → ℕ
or_default d n = if n == 0 then d else n

-- Options.withDefaults.
unfoldable pub with_defaults : {O : Type 0} → Options O → Options O
with_defaults o = record o {
  mailbox_size = or_default 4096 o.mailbox_size;
  max_restarts = or_default 5 o.max_restarts;
  restart_window = or_default 60000000000 o.restart_window;
  backoff_min = or_default 250000000 o.backoff_min;
  backoff_max = or_default 30000000000 o.backoff_max;
  health_interval = or_default 5000000000 o.health_interval;
}

pub record ManagedActor (R O : Type 0) : Type 0 where
  pub serial : ℕ
  pub actor : TenantActor R O
  pub restarts : List ℕ
  pub backoff_next : ℕ
  pub quarantined : Bool

-- A goroutine that restarts the managed actor at a time.
pub record PendingRestart : Type 0 where
  pub target : ℕ
  pub at : ℕ

pub record Supervisor (R O : Type 0) : Type 0 where
  pub opts : Options O
  pub actors : List (String × ManagedActor R O)
  pub next_serial : ℕ
  pub pending : List PendingRestart
  pub total_routed : ℕ
  pub total_dropped : ℕ
  pub total_spilled : ℕ
  pub total_restarts : ℕ
  pub started : Bool
  pub stopped : Bool
  pub last_health_at : ℕ

unfoldable pub trim_before : List ℕ → ℕ → List ℕ
trim_before [] cutoff = []
trim_before (t ∷ ts) cutoff = if ltb t cutoff then trim_before ts cutoff else t ∷ ts

-- `jittered n` is n with the random jitter added, which is never negative.
unfoldable pub next_backoff : (ℕ → ℕ) → ℕ → ℕ → ℕ
next_backoff jittered curr max' =
    if ltb max' (jittered (curr * 2)) then max' else jittered (curr * 2)

abbrev pub cons_pending : Option PendingRestart → List PendingRestart → List PendingRestart
cons_pending none ps = ps
cons_pending (some p) ps = p ∷ ps

module _ {R O : Type 0} where
  unfoldable pub new_supervisor : Options O → Supervisor R O
  unfolding with_defaults
  new_supervisor opts = record {
    opts = with_defaults opts;
    actors = [];
    next_serial = 0;
    pending = [];
    total_routed = 0;
    total_dropped = 0;
    total_spilled = 0;
    total_restarts = 0;
    started = false;
    stopped = false;
    last_health_at = 0;
  }

  -- Start, without the monitor's loop.
  unfoldable pub start_monitor : Supervisor R O → Supervisor R O
  start_monitor s = if s.started then s else record s { started = true }

  -- Stop: the actors are stopped and forgotten, and the waiting goroutines end.
  unfoldable pub stop_all : Supervisor R O → Supervisor R O
  stop_all s = if s.stopped then s else record s { stopped = true; actors = []; pending = [] }

  unfoldable pub set_actor_options : O → Supervisor R O → Supervisor R O
  set_actor_options o s = record s { opts = record s.opts { actor_options = o } }

  -- What sweep does with one entry of the map: the entry, how many restarts it counts, and the
  -- goroutine that it starts.
  unfoldable pub sweep_one :
      (ℕ → ℕ) → Options O → ℕ → ManagedActor R O → ManagedActor R O × ℕ × Option PendingRestart
  unfolding trim_before next_backoff
  sweep_one jittered o now m =
      let recent = trim_before m.restarts (now - o.restart_window) in
      if m.quarantined
      then (m, 0, none)
      else if m.actor.running
      then (record m { restarts = recent }, 0, none)
      else if ltb o.max_restarts (length (recent ++ now ∷ []))
      then (record m { restarts = recent ++ now ∷ []; quarantined = true }, 1, none)
      else (
        record m {
          restarts = recent ++ now ∷ [];
          backoff_next = next_backoff jittered m.backoff_next o.backoff_max;
        },
        1,
        some (record { target = m.serial; at = now + m.backoff_next }),
      )

  -- The loop of sweep over the map.
  unfoldable pub sweep_entries :
      (ℕ → ℕ)
      → Options O
      → ℕ
      → List (String × ManagedActor R O)
      → List (String × ManagedActor R O) × ℕ × List PendingRestart
  sweep_entries jittered o now [] = ([], 0, [])
  sweep_entries jittered o now ((k, m) ∷ rest) =
      let (m', n, p) = sweep_one jittered o now m in
      let (rest', n', ps) = sweep_entries jittered o now rest in
      ((k, m') ∷ rest', n + n', cons_pending p ps)

  unfoldable pub sweep : (ℕ → ℕ) → ℕ → Supervisor R O → Supervisor R O
  sweep jittered now s =
      let (actors', n, ps) = sweep_entries jittered s.opts now s.actors in
      record s {
        actors = actors';
        total_restarts = s.total_restarts + n;
        pending = s.pending ++ ps;
        last_health_at = now;
      }

  count_quarantined : List (String × ManagedActor R O) → ℕ
  count_quarantined [] = 0
  count_quarantined ((_, m) ∷ rest) =
      let n = count_quarantined rest in if m.quarantined then suc n else n

  -- Stats, without the totals, which are fields.
  unfoldable pub stats : Supervisor R O → ℕ × ℕ
  unfolding count_quarantined
  stats s = (length s.actors, count_quarantined s.actors)

  unfoldable pub release_quarantine : String → Supervisor R O → Supervisor R O
  release_quarantine tenant_id s = record s { actors = delete tenant_id s.actors }

module _ {R O : Type 0} (rules_of : String → O → List R) where
  unfoldable pub restart_one : Options O → String → ManagedActor R O → ManagedActor R O
  restart_one o tenant_id m = if m.quarantined || m.actor.running then m else record m {
    actor = start rules_of (new_tenant_actor tenant_id o.mailbox_size o.actor_options);
  }

  -- restartActor, for the entry that holds the pointer.
  unfoldable pub restart_entries :
      Options O → ℕ → List (String × ManagedActor R O) → List (String × ManagedActor R O)
  unfolding restart_one
  restart_entries o target [] = []
  restart_entries o target ((k, m) ∷ rest) =
      (k, if m.serial == target then restart_one o k m else m) ∷ restart_entries o target rest

  unfoldable pub restart_actor : ℕ → Supervisor R O → Supervisor R O
  restart_actor target s = record s { actors = restart_entries s.opts target s.actors }

  fresh_managed : String → Supervisor R O → ManagedActor R O
  fresh_managed tenant_id s = record {
    serial = s.next_serial;
    actor = start rules_of (new_tenant_actor tenant_id s.opts.mailbox_size s.opts.actor_options);
    restarts = [];
    backoff_next = s.opts.backoff_min;
    quarantined = false;
  }

  -- getOrCreate; none stands for nil.
  unfoldable pub get_or_create :
      String → Supervisor R O → Supervisor R O × Option (ManagedActor R O)
  unfolding fresh_managed
  get_or_create tenant_id s = elim (lookup tenant_id s.actors) [
    | some m ↦ if m.quarantined then (s, none) else (s, some m)
    | none ↦ (
      record s {
        actors = insert tenant_id (fresh_managed tenant_id s) s.actors;
        next_serial = suc s.next_serial;
      },
      some (fresh_managed tenant_id s),
    )
  ]

  -- GetOrCreateActor.
  unfoldable pub get_or_create_actor :
      String → Supervisor R O → Supervisor R O × Option (TenantActor R O)
  unfolding get_or_create
  get_or_create_actor tenant_id s =
      let (s', m) = get_or_create tenant_id s in
      elim m [ none ↦ (s', none) | some m' ↦ (s', some m'.actor) ]

  pub data Routed : Type 0 where
    done : Supervisor R O → Routed
    panic : Routed

  abbrev pub deliver :
      String → ManagedActor R O → Bool → Sent (TenantActor R O) → Supervisor R O → Routed
  deliver tenant_id m push_ok (delivered a) s = done (record s {
    actors = insert tenant_id (record m { actor = a }) s.actors;
    total_routed = s.total_routed + 1;
  })
  deliver tenant_id m push_ok full s =
      if s.opts.has_spillover && push_ok
      then done (record s { total_spilled = s.total_spilled + 1 })
      else done (record s { total_dropped = s.total_dropped + 1 })
  deliver tenant_id m push_ok Sent.panic s = panic

  -- RouteToTenant; `push_ok` says whether the spillover, if it is asked, takes the signal.
  unfoldable pub route_to_tenant : Bool → String → Signal → Supervisor R O → Routed
  unfolding send
  route_to_tenant push_ok tenant_id sig s =
      let (s', m) = get_or_create tenant_id s in
      elim m [
        | none ↦ done (record s' { total_dropped = s'.total_dropped + 1 })
        | some m' ↦ deliver tenant_id m' push_ok (send sig m'.actor) s'
      ]
