-- ===== src/Actor/Laws.antt =====
-- The mailbox and the loop of pkg/actor/actor.go.
use mathlib.Core.Path.{subst, ap₂}
use mathlib.Core.Option.{some-injective}
use Prim.Native.String.{String}
use observe_x.Prelude.{
  ℕ, Bool, true, false, if◌then◌else◌, ◌+◌, ◌≤◌, ◌≡◌, ◌∙◌, ap, sym, refl, Option, none, some, List,
  [], ◌∷◌, ◌++◌, length, arith, length-append, append_assoc, map,
}
use observe_x.Signal.{Signal}
use observe_x.Actor.{
  Event, TenantActor, Loop, selecting, holding, returned, delivered, full, process, process_signal,
  receive, receive_from, send, stop, start, new_tenant_actor,
}
use observe_x.Actor.Replay.{to_list, replay, replay-append, map-append, last_type, last_type-append}

-- The signal that the goroutine has received and not yet processed.
unfoldable pub held : Loop → List Signal
held selecting = []
held returned = []
held (holding sig) = sig ∷ []

module _ {R O : Type 0} (rules_of : String → O → List R)
    (evaluate : R → ℕ → Signal → R × Option Event) where
  -- A life of an actor that is started once: where its goroutine stands, the signals that its mailbox took, those that processSignal was called with, each at its time, and the events that it published.
  pub data Life (rules : List R)
      : TenantActor R O → Loop → List Signal → List (ℕ × Signal) → List Event → Type 0 where
    born :
        (tenant : String) (size : ℕ) (o : O)
        → rules_of tenant o ≡ rules
        → Life rules (start rules_of (new_tenant_actor tenant size o)) selecting [] [] []
    took :
        {a a' : TenantActor R O} {loop : Loop} {taken : List Signal} {handled : List (ℕ × Signal)}
        {published : List Event} (sig : Signal)
        → Life rules a loop taken handled published
        → send sig a ≡ delivered a'
        → Life rules a' loop (taken ++ sig ∷ []) handled published
    refused :
        {a : TenantActor R O} {loop : Loop} {taken : List Signal} {handled : List (ℕ × Signal)}
        {published : List Event} (sig : Signal)
        → Life rules a loop taken handled published
        → send sig a ≡ full
        → Life rules a loop taken handled published
    received :
        {a a' : TenantActor R O} {loop : Loop} {taken : List Signal} {handled : List (ℕ × Signal)}
        {published : List Event}
        → Life rules a selecting taken handled published
        → receive a ≡ some (a', loop)
        → Life rules a' loop taken handled published
    processed_one :
        {a : TenantActor R O} {taken : List Signal} {handled : List (ℕ × Signal)}
        {published : List Event} (now : ℕ) (sig : Signal)
        → Life rules a (holding sig) taken handled published
        → Life rules
            (process_signal evaluate now sig a).0
            selecting
            taken
            (handled ++ (now, sig) ∷ [])
            (published ++ to_list (process_signal evaluate now sig a).1)
    cancelled :
        {a : TenantActor R O} {taken : List Signal} {handled : List (ℕ × Signal)}
        {published : List Event}
        → Life rules a selecting taken handled published
        → Life rules a returned taken handled published
    ended :
        {a : TenantActor R O} {loop : Loop} {taken : List Signal} {handled : List (ℕ × Signal)}
        {published : List Event}
        → Life rules a loop taken handled published
        → Life rules (stop a) loop taken handled published

  -- Nothing is lost, doubled or reordered, the mailbox is bounded, and the counters, rules and events are those of the signals processed.
  pub record IsQueued (rules : List R) (a : TenantActor R O) (loop : Loop) (taken : List Signal)
      (handled : List (ℕ × Signal)) (published : List Event) : Type 0 where
    pub in_order : taken ≡ map (λ h. h.1) handled ++ (held loop ++ a.inbox)
    pub counted : a.processed ≡ length handled
    pub bounded : length a.inbox ≤ a.buffer_size
    pub replayed : replay evaluate rules handled ≡ (a.rules, published)
    pub latest : a.last_signal_type ≡ last_type none handled

  born-IsQueued :
      (rules : List R) (tenant : String) (size : ℕ) (o : O)
      → rules_of tenant o ≡ rules
      → IsQueued rules (start rules_of (new_tenant_actor tenant size o)) selecting [] [] []
  unfolding start new_tenant_actor replay last_type held
  born-IsQueued rules tenant size o e = record {
    in_order = refl;
    counted = refl;
    bounded = omega arith;
    replayed = cc;
    latest = refl;
  }

  send-delivered :
      (a a' : TenantActor R O) (sig : Signal)
      → send sig a ≡ delivered a'
      → (a'.inbox ≡ a.inbox ++ sig ∷ [])
        × (a'.processed ≡ a.processed)
        × (length a'.inbox ≤ a'.buffer_size)
        × (a'.rules ≡ a.rules)
        × (a'.last_signal_type ≡ a.last_signal_type)
  unfolding send
  send-delivered a a' sig e = (
    ground (arith, e),
    ground (arith, e),
    grind (arith, e, length-append a.inbox (sig ∷ [])),
    ground (arith, e),
    ground (arith, e),
  )

  module _ (rules : List R) (a : TenantActor R O) (taken : List Signal)
      (handled : List (ℕ × Signal)) (published : List Event) where
    send-IsQueued :
        (a' : TenantActor R O) (loop : Loop) (sig : Signal)
        → IsQueued rules a loop taken handled published
        → send sig a ≡ delivered a'
        → IsQueued rules a' loop (taken ++ sig ∷ []) handled published
    send-IsQueued a' loop sig q e =
        let sent = send-delivered a a' sig e in
        record {
          in_order =
              ap (λ t. t ++ sig ∷ []) q.in_order
              ∙ append_assoc (map (λ h. h.1) handled) (held loop ++ a.inbox) (sig ∷ [])
              ∙ ap (λ t. map (λ h. h.1) handled ++ t)
                  (append_assoc (held loop) a.inbox (sig ∷ [])
                    ∙ ap (λ t. held loop ++ t) (sym sent.0));
          counted = sent.1 ∙ q.counted;
          bounded = sent.2;
          replayed = q.replayed ∙ ap (λ rs. (rs, published)) (sym sent.3);
          latest = sent.4 ∙ q.latest;
        }

    receive-IsQueued :
        (a' : TenantActor R O) (loop : Loop)
        → IsQueued rules a selecting taken handled published
        → receive a ≡ some (a', loop)
        → IsQueued rules a' loop taken handled published
    unfolding receive held
    receive-IsQueued a' loop q e = by_inbox a.inbox refl e
      where
        by_inbox :
            (inbox : List Signal)
            → a.inbox ≡ inbox
            → receive_from inbox a ≡ some (a', loop)
            → IsQueued rules a' loop taken handled published
        by_inbox [] empty f = by_closed a.inbox_closed f
          where
            by_closed :
                (closed : Bool)
                → if◌then◌else◌ {A = Option (TenantActor R O × Loop)} closed
                    (some (a, returned))
                    none
                  ≡ some (a', loop)
                → IsQueued rules a' loop taken handled published
            by_closed false f = cc
            by_closed true f =
                subst (λ p. IsQueued rules p.0 p.1 taken handled published) (some-injective _ _ f)
                  (record {
                    in_order = q.in_order;
                    counted = q.counted;
                    bounded = q.bounded;
                    replayed = q.replayed;
                    latest = q.latest;
                  })
        by_inbox (sig ∷ rest) front f =
            subst (λ p. IsQueued rules p.0 p.1 taken handled published) (some-injective _ _ f)
              (record {
                in_order = q.in_order ∙ ap (λ t. map (λ h. h.1) handled ++ t) front;
                counted = q.counted;
                bounded = omega (arith, q.bounded, ap length front);
                replayed = q.replayed;
                latest = q.latest;
              })

    process_signal-kept :
        (now : ℕ) (sig : Signal)
        → ((process_signal evaluate now sig a).0.inbox ≡ a.inbox)
          × ((process_signal evaluate now sig a).0.processed ≡ a.processed + 1)
          × ((process_signal evaluate now sig a).0.buffer_size ≡ a.buffer_size)
          × ((process_signal evaluate now sig a).0.rules ≡ (process evaluate a.rules now sig).0)
          × ((process_signal evaluate now sig a).0.last_signal_type ≡ some sig.signal_type)
          × ((process_signal evaluate now sig a).1 ≡ (process evaluate a.rules now sig).1)
    unfolding process_signal
    process_signal-kept now sig =
        (ground arith, ground arith, ground arith, ground arith, ground arith, ground arith)

    process_signal-IsQueued :
        (now : ℕ) (sig : Signal)
        → IsQueued rules a (holding sig) taken handled published
        → IsQueued rules
            (process_signal evaluate now sig a).0
            selecting
            taken
            (handled ++ (now, sig) ∷ [])
            (published ++ to_list (process_signal evaluate now sig a).1)
    unfolding held
    process_signal-IsQueued now sig q =
        let kept = process_signal-kept now sig in
        record {
          in_order =
              q.in_order
              ∙ sym (append_assoc (map (λ h. h.1) handled) (sig ∷ []) a.inbox)
              ∙ ap (λ t. t ++ a.inbox) (sym (map-append handled (now, sig)))
              ∙ ap (λ t. map (λ h. h.1) (handled ++ (now, sig) ∷ []) ++ t) (sym kept.0);
          counted = omega (arith, kept.1, q.counted, length-append handled ((now, sig) ∷ []));
          bounded = omega (arith, q.bounded, kept.2, ap length kept.0);
          replayed =
              replay-append evaluate rules handled (now, sig)
              ∙ ap
                  (λ p. (
                    (process evaluate p.0 now sig).0,
                    p.1 ++ to_list (process evaluate p.0 now sig).1,
                  ))
                  q.replayed
              ∙ ap₂ (λ rs ev. (rs, published ++ to_list ev)) (sym kept.3) (sym kept.5);
          latest = kept.4 ∙ sym (last_type-append none handled (now, sig));
        }

    stop-IsQueued :
        (loop : Loop)
        → IsQueued rules a loop taken handled published
        → IsQueued rules (stop a) loop taken handled published
    unfolding stop
    stop-IsQueued loop q = by_stopped a.stopped
      where
        by_stopped :
            (stopped : Bool)
            → IsQueued rules
                (if stopped
                  then a
                  else record a { stopped = true; running = false; inbox_closed = true })
                loop
                taken
                handled
                published
        by_stopped true = q
        by_stopped false = record {
          in_order = q.in_order;
          counted = q.counted;
          bounded = q.bounded;
          replayed = q.replayed;
          latest = q.latest;
        }

  -- However the life of an actor goes, the signals that its mailbox took are those that it has processed, the one that its goroutine holds, and those that wait, in the order in which they came, each once. The states of its rules and the events that it has published are what Engine.Process makes of the processed signals in that order, from the rules that it started with. Its counter is their number and its last type that of the last one, and no more signals wait than the mailbox is large.
  pub Life-IsQueued :
      (rules : List R) (a : TenantActor R O) (loop : Loop) (taken : List Signal)
      (handled : List (ℕ × Signal)) (published : List Event)
      → Life rules a loop taken handled published
      → IsQueued rules a loop taken handled published
  unfolding held
  Life-IsQueued rules _ _ _ _ _ (born tenant size o e) = born-IsQueued rules tenant size o e
  Life-IsQueued rules _ _ _ _ _ (took {a} {a'} {loop} {taken} {handled} {published} sig l e) =
      send-IsQueued rules a taken handled published a' loop sig
        (Life-IsQueued rules a loop taken handled published l) e
  Life-IsQueued rules _ _ _ _ _ (refused {a} {loop} {taken} {handled} {published} sig l e) =
      Life-IsQueued rules a loop taken handled published l
  Life-IsQueued rules _ _ _ _ _ (received {a} {a'} {loop} {taken} {handled} {published} l e) =
      receive-IsQueued rules a taken handled published a' loop
        (Life-IsQueued rules a selecting taken handled published l) e
  Life-IsQueued rules _ _ _ _ _ (processed_one {a} {taken} {handled} {published} now sig l) =
      process_signal-IsQueued rules a taken handled published now sig
        (Life-IsQueued rules a (holding sig) taken handled published l)
  Life-IsQueued rules _ _ _ _ _ (cancelled {a} {taken} {handled} {published} l) =
      let q = Life-IsQueued rules a selecting taken handled published l in
      record {
        in_order = q.in_order;
        counted = q.counted;
        bounded = q.bounded;
        replayed = q.replayed;
        latest = q.latest;
      }
  Life-IsQueued rules _ _ _ _ _ (ended {a} {loop} {taken} {handled} {published} l) =
      stop-IsQueued rules a taken handled published loop
        (Life-IsQueued rules a loop taken handled published l)
