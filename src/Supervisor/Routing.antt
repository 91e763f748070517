-- ===== src/Supervisor/Routing.antt =====
-- Routing in pkg/supervisor/supervisor.go.
use Prim.Native.String.{String}
use text.Mathlib.Text.{◌==◌ as str_eq}
use text.Mathlib.TextPositions.{eq_refl}
use observe_x.Prelude.{
  suc, ◌+◌, ◌<◌, ◌≡◌, refl, Bool, true, false, ◌&&◌, none, some, List, [], ◌∷◌, ◌++◌, arith, length,
  ltb, if◌then◌else◌,
}
use observe_x.Prelude.Dict.{
  lookup, insert, delete, lookup-insert, lookup-delete, lookup-insert_self,
}
use observe_x.Signal.{Signal}
use observe_x.Actor.{new_tenant_actor, start}
use observe_x.Supervisor.{
  Supervisor, ManagedActor, Routed, done, panic, route_to_tenant, get_or_create, release_quarantine,
  fresh_managed,
}

module _ {R O : Type 0} (rules_of : String → O → List R) where
  -- Each call that returns counts its signal exactly once, as routed, spilled or dropped, and counts no
  -- restart.
  pub route_counts :
      (push_ok : Bool) (tenant : String) (sig : Signal) (s s' : Supervisor R O)
      → route_to_tenant rules_of push_ok tenant sig s ≡ done s'
      → (s'.total_routed + s'.total_dropped + s'.total_spilled
          ≡ s.total_routed + s.total_dropped + s.total_spilled + 1)
        × (s'.total_restarts ≡ s.total_restarts)
  unfolding route_to_tenant get_or_create
  route_counts push_ok tenant sig s s' h = ground arith

  -- A signal for a quarantined tenant is dropped, and nothing else changes.
  pub route_quarantined :
      (push_ok : Bool) (tenant : String) (sig : Signal) (s : Supervisor R O) (m : ManagedActor R O)
      → lookup tenant s.actors ≡ some m
      → m.quarantined ≡ true
      → route_to_tenant rules_of push_ok tenant sig s
        ≡ done (record s { total_dropped = s.total_dropped + 1 })
  unfolding route_to_tenant get_or_create
  route_quarantined push_ok tenant sig s m found q = ground arith

  -- What a delivery to the managed actor does.
  abbrev deliver_spec :
      String → ManagedActor R O → Bool → Signal → Supervisor R O → Routed {R = R} {O = O} rules_of
  deliver_spec tenant m push_ok sig s =
      if m.actor.inbox_closed
      then panic
      else if ltb (length m.actor.inbox) m.actor.buffer_size
      then done (record s {
        actors =
            insert tenant
              (record m { actor = record m.actor { inbox = m.actor.inbox ++ sig ∷ [] } }) s.actors;
        total_routed = s.total_routed + 1;
      })
      else if s.opts.has_spillover && push_ok
      then done (record s { total_spilled = s.total_spilled + 1 })
      else done (record s { total_dropped = s.total_dropped + 1 })

  -- A signal for a tenant with an actor that is not quarantined goes to the end of its mailbox if that
  -- has room. To a full mailbox it is spilled if there is a spillover that takes it, and dropped
  -- otherwise. If the mailbox is closed the send panics.
  pub route_existing :
      (push_ok : Bool) (tenant : String) (sig : Signal) (s : Supervisor R O) (m : ManagedActor R O)
      → lookup tenant s.actors ≡ some m
      → m.quarantined ≡ false
      → route_to_tenant rules_of push_ok tenant sig s ≡ deliver_spec tenant m push_ok sig s
  unfolding route_to_tenant get_or_create
  route_existing push_ok tenant sig s m found q = ground arith

  -- The actor that is started, with its first signal.
  first_managed : String → Signal → Supervisor R O → ManagedActor R O
  unfolding fresh_managed
  first_managed tenant sig s =
      let m = fresh_managed rules_of tenant s in
      record m { actor = record m.actor { inbox = sig ∷ [] } }

  -- A signal for a tenant without an actor starts one and is the first in its mailbox, if mailboxes have
  -- room for one signal.
  pub route_creates :
      (push_ok : Bool) (tenant : String) (sig : Signal) (s : Supervisor R O)
      → lookup tenant s.actors ≡ none
      → 0 < s.opts.mailbox_size
      → (s' : Supervisor R O) × (m : ManagedActor R O) × (route_to_tenant rules_of push_ok tenant
            sig s
          ≡ done s')
        × (lookup tenant s'.actors ≡ some m)
        × (m.actor.running ≡ true)
        × (m.quarantined ≡ false)
        × (m.actor.inbox ≡ sig ∷ [])
        × (s'.total_routed ≡ s.total_routed + 1)
  unfolding route_to_tenant get_or_create first_managed new_tenant_actor start
  route_creates push_ok tenant sig s missing room = (
    record s {
      actors =
          insert tenant (first_managed tenant sig s)
            (insert tenant (fresh_managed rules_of tenant s) s.actors);
      next_serial = suc s.next_serial;
      total_routed = s.total_routed + 1;
    },
    first_managed tenant sig s,
    ground arith,
    lookup-insert_self tenant (first_managed tenant sig s) _,
    refl,
    refl,
    refl,
    refl,
  )

  -- Whatever was routed before, release_quarantine lets the next signal of the tenant start a fresh actor.
  pub release_then_route :
      (push_ok : Bool) (tenant : String) (sig : Signal) (s : Supervisor R O)
      → 0 < s.opts.mailbox_size
      → (s' : Supervisor R O) × (m : ManagedActor R O) × (route_to_tenant rules_of push_ok tenant
            sig
            (release_quarantine tenant s)
          ≡ done s')
        × (lookup tenant s'.actors ≡ some m)
        × (m.actor.running ≡ true)
        × (m.quarantined ≡ false)
        × (m.actor.inbox ≡ sig ∷ [])
        × (s'.total_routed ≡ s.total_routed + 1)
  unfolding release_quarantine
  release_then_route push_ok tenant sig s room =
      route_creates push_ok tenant sig (record s { actors = delete tenant s.actors })
        (simp (lookup-delete, eq_refl)) room

  insert_other :
      (tenant other : String) (m : ManagedActor R O) (actors : List (String × ManagedActor R O))
      → str_eq tenant other ≡ false
      → lookup other (insert tenant m actors) ≡ lookup other actors
  insert_other tenant other m actors ne = rw (lookup-insert tenant other m actors, ne)

  -- Routing to one tenant leaves the entry of every other tenant as it was.
  pub route_isolated :
      (push_ok : Bool) (tenant other : String) (sig : Signal) (s s' : Supervisor R O)
      → str_eq tenant other ≡ false
      → route_to_tenant rules_of push_ok tenant sig s ≡ done s'
      → lookup other s'.actors ≡ lookup other s.actors
  unfolding route_to_tenant get_or_create
  route_isolated push_ok tenant other sig s s' ne h = grind (arith, insert_other)
