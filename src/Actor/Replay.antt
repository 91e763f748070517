-- ===== src/Actor/Replay.antt =====
-- What the CEP rules of an actor of pkg/actor/actor.go make of a sequence of signals.
use observe_x.Prelude.{
  ℕ, ◌≡◌, ◌∙◌, ap, sym, refl, Option, none, some, List, [], ◌∷◌, ◌++◌, append_assoc, append-nil,
  map,
}
use observe_x.Signal.{Signal, SignalType}
use observe_x.Actor.{Event, process}

-- The event, if there is one.
unfoldable pub to_list {ℓ} : {A : Type ℓ} → Option A → List A
to_list none = []
to_list (some a) = a ∷ []

module _ {R : Type 0} (evaluate : R → ℕ → Signal → R × Option Event) where
  -- What the CEP rules make of a sequence of signals, each at a time: their states, and the events in order.
  unfoldable pub replay : List R → List (ℕ × Signal) → List R × List Event
  unfolding to_list
  replay rules [] = (rules, [])
  replay rules (h ∷ hs) =
      let asked = process evaluate rules h.0 h.1 in
      let rest = replay asked.0 hs in (rest.0, to_list asked.1 ++ rest.1)

  pub replay-append :
      (rules : List R) (hs : List (ℕ × Signal)) (h : ℕ × Signal)
      → replay rules (hs ++ h ∷ []) ≡ (
        (process evaluate (replay rules hs).0 h.0 h.1).0,
        (replay rules hs).1 ++ to_list (process evaluate (replay rules hs).0 h.0 h.1).1,
      )
  unfolding replay
  replay-append rules [] h = ap (λ es. ((process evaluate rules h.0 h.1).0, es)) (append-nil _)
  replay-append rules (x ∷ xs) h =
      let front = to_list (process evaluate rules x.0 x.1).1 in
      let rules' = (process evaluate rules x.0 x.1).0 in
      let ih = replay-append rules' xs h in
      ap (λ p. (p.0, front ++ p.1)) ih
      ∙ ap (λ es. ((process evaluate (replay rules' xs).0 h.0 h.1).0, es))
          (sym (
            append_assoc front (replay rules' xs).1
              (to_list (process evaluate (replay rules' xs).0 h.0 h.1).1)))

pub map-append :
    (hs : List (ℕ × Signal)) (h : ℕ × Signal)
    → map (λ x. x.1) (hs ++ h ∷ []) ≡ map (λ x. x.1) hs ++ h.1 ∷ []
map-append [] h = refl
map-append (x ∷ xs) h = ap (◌∷◌ x.1) (map-append xs h)

-- The type of the last signal.
unfoldable pub last_type : Option SignalType → List (ℕ × Signal) → Option SignalType
last_type seen [] = seen
last_type seen (h ∷ hs) = last_type (some h.1.signal_type) hs

pub last_type-append :
    (seen : Option SignalType) (hs : List (ℕ × Signal)) (h : ℕ × Signal)
    → last_type seen (hs ++ h ∷ []) ≡ some h.1.signal_type
unfolding last_type
last_type-append seen [] h = refl
last_type-append seen (x ∷ xs) h = last_type-append (some x.1.signal_type) xs h
