-- ===== src/Sloburn/Decisions.antt =====
-- What Evaluate of pkg/sloburn/sloburn.go decides.
use Prim.Native.String.{String}
use mathlib.Core.List.{Memᴰ}
use observe_x.Prelude.{
  ℕ, ◌≤◌, Bool, true, false, some, List, [], ◌∷◌, ltb, if◌then◌else◌, ◌≡◌, ◌⊎◌, inl, inr, ◌∙◌, ap,
  refl, arith,
}
use observe_x.Prelude.Dict.{lookup}
use observe_x.Sloburn.State.{Severity, sev_ok, WindowPair, SloState, Evaluator, Floats, ok}
use observe_x.Sloburn.Evaluate.{
  severity_rank, Decision, insert_pair, sort_pairs, burn_rate_over, trips, walk_pairs, initial,
  evaluate,
}

abbrev pub rank : {F : Type 0} → WindowPair F → ℕ
rank p = severity_rank p.severity

module _ {F : Type 0} where
  -- No pair behind another has a higher rank.
  data IsFalling : List (WindowPair F) → Type 0 where
    falling_nil : IsFalling []
    falling_cons :
        {p : WindowPair F} {ps : List (WindowPair F)}
        → ((q : WindowPair F) → Memᴰ q ps → rank q ≤ rank p)
        → IsFalling ps
        → IsFalling (p ∷ ps)

  insert_pair-Memᴰ :
      (p q : WindowPair F) (ps : List (WindowPair F)) → Memᴰ q (insert_pair p ps) → Memᴰ q (p ∷ ps)
  unfolding insert_pair
  insert_pair-Memᴰ p q [] m = m
  insert_pair-Memᴰ p q (x ∷ xs) m = by_rank (ltb (rank p) (rank x)) (insert_pair-Memᴰ p q xs) m
    where
      by_rank :
          (test : Bool)
          → (Memᴰ q (insert_pair p xs) → Memᴰ q (p ∷ xs))
          → Memᴰ q (if test then x ∷ insert_pair p xs else p ∷ (x ∷ xs))
          → Memᴰ q (p ∷ (x ∷ xs))
      by_rank true later (Memᴰ.head e) = Memᴰ.tail (Memᴰ.head e)
      by_rank true later (Memᴰ.tail m) = elim (later m) [
        | Memᴰ.head e ↦ Memᴰ.head e
        | Memᴰ.tail m' ↦ Memᴰ.tail (Memᴰ.tail m')
      ]
      by_rank false later m = m

  Memᴰ-insert_pair :
      (p q : WindowPair F) (ps : List (WindowPair F)) → Memᴰ q (p ∷ ps) → Memᴰ q (insert_pair p ps)
  unfolding insert_pair
  Memᴰ-insert_pair p q [] m = m
  Memᴰ-insert_pair p q (x ∷ xs) m = by_rank (ltb (rank p) (rank x)) (Memᴰ-insert_pair p q xs) m
    where
      by_rank :
          (test : Bool)
          → (Memᴰ q (p ∷ xs) → Memᴰ q (insert_pair p xs))
          → Memᴰ q (p ∷ (x ∷ xs))
          → Memᴰ q (if test then x ∷ insert_pair p xs else p ∷ (x ∷ xs))
      by_rank true later (Memᴰ.head e) = Memᴰ.tail (later (Memᴰ.head e))
      by_rank true later (Memᴰ.tail (Memᴰ.head e)) = Memᴰ.head e
      by_rank true later (Memᴰ.tail (Memᴰ.tail m)) = Memᴰ.tail (later (Memᴰ.tail m))
      by_rank false later m = m

  sort_pairs-Memᴰ :
      (q : WindowPair F) (ps : List (WindowPair F)) → Memᴰ q (sort_pairs ps) → Memᴰ q ps
  unfolding sort_pairs
  sort_pairs-Memᴰ q [] m = m
  sort_pairs-Memᴰ q (p ∷ ps) m = elim (insert_pair-Memᴰ p q (sort_pairs ps) m) [
    | Memᴰ.head e ↦ Memᴰ.head e
    | Memᴰ.tail m' ↦ Memᴰ.tail (sort_pairs-Memᴰ q ps m')
  ]

  Memᴰ-sort_pairs :
      (q : WindowPair F) (ps : List (WindowPair F)) → Memᴰ q ps → Memᴰ q (sort_pairs ps)
  unfolding sort_pairs
  Memᴰ-sort_pairs q [] m = m
  Memᴰ-sort_pairs q (p ∷ ps) (Memᴰ.head e) = Memᴰ-insert_pair p q (sort_pairs ps) (Memᴰ.head e)
  Memᴰ-sort_pairs q (p ∷ ps) (Memᴰ.tail m) =
      Memᴰ-insert_pair p q (sort_pairs ps) (Memᴰ.tail (Memᴰ-sort_pairs q ps m))

  insert_pair-IsFalling :
      (p : WindowPair F) (ps : List (WindowPair F)) → IsFalling ps → IsFalling (insert_pair p ps)
  unfolding insert_pair
  insert_pair-IsFalling p [] falling_nil = falling_cons (λ q m. elim m [ ]) falling_nil
  insert_pair-IsFalling p (x ∷ xs) (falling_cons top rest) =
      by_rank (ltb (rank p) (rank x)) refl (insert_pair-IsFalling p xs rest)
    where
      below : {q : WindowPair F} → ltb (rank p) (rank x) ≡ true → q ≡ p → rank q ≤ rank x
      below low e = ground (arith, low, ap rank e)

      by_rank :
          (test : Bool)
          → ltb (rank p) (rank x) ≡ test
          → IsFalling (insert_pair p xs)
          → IsFalling (if test then x ∷ insert_pair p xs else p ∷ (x ∷ xs))
      by_rank true low later =
          falling_cons {p = x}
            (λ q m. elim (insert_pair-Memᴰ p q xs m) [
              | Memᴰ.head e ↦ below low e
              | Memᴰ.tail m' ↦ top q m'
            ])
            later
      by_rank false high later =
          falling_cons {p = p}
            (λ q m. elim m [
              | Memᴰ.head e ↦ ground (arith, high, ap rank e)
              | Memᴰ.tail m' ↦ ground (arith, high, top q m')
            ])
            (falling_cons top rest)

  sort_pairs-IsFalling : (ps : List (WindowPair F)) → IsFalling (sort_pairs ps)
  unfolding sort_pairs
  sort_pairs-IsFalling [] = falling_nil
  sort_pairs-IsFalling (p ∷ ps) = insert_pair-IsFalling p (sort_pairs ps) (sort_pairs-IsFalling ps)

  module _ (floats : Floats F) (s : SloState F) (now : ℕ) (budget : F) where
    -- A pair of the list trips, and the decision is the one of a pair of the highest rank among those that do.
    pub data Fires (ps : List (WindowPair F)) (d : Decision F) : Type 0 where
      fires :
          (p : WindowPair F)
          → Memᴰ p ps
          → trips floats s now budget p ≡ true
          → d.pair ≡ some p
          → d.severity ≡ p.severity
          → ((q : WindowPair F) → Memᴰ q ps → trips floats s now budget q ≡ true → rank q ≤ rank p)
          → Fires ps d

    -- The two outcomes of the loop, from the severity it starts with.
    abbrev pub Decides : List (WindowPair F) → Severity → Decision F → Type 0
    Decides ps start d =
        Fires ps d
        ⊎ (((q : WindowPair F) → Memᴰ q ps → trips floats s now budget q ≡ false)
            × (d.severity ≡ start))

    skip-Decides :
        (p : WindowPair F) (ps : List (WindowPair F)) (start : Severity) (d : Decision F)
        → trips floats s now budget p ≡ false
        → Decides ps start d
        → Decides (p ∷ ps) start d
    skip-Decides p ps start d calm (inl (fires q m t pair severity best)) = inl (
        fires q (Memᴰ.tail m) t pair severity
          (λ q' m' t'. elim m' [ Memᴰ.head e ↦ never e t' | Memᴰ.tail m'' ↦ best q' m'' t' ]))
      where
        never :
            {q' : WindowPair F} → q' ≡ p → trips floats s now budget q' ≡ true → rank q' ≤ rank q
        never e t' = ground (arith, ap (trips floats s now budget) e, t', calm)
    skip-Decides p ps start d calm (inr (none_trips, same)) = inr (
      λ q m. elim m [
        | Memᴰ.head e ↦ ap (trips floats s now budget) e ∙ calm
        | Memᴰ.tail m' ↦ none_trips q m'
      ],
      same,
    )

    walk_pairs-Decides :
        (ps : List (WindowPair F)) (start : Severity) (d : Decision F)
        → IsFalling ps
        → d.severity ≡ start
        → Decides ps start (walk_pairs floats s now budget ps d)
    unfolding walk_pairs
    walk_pairs-Decides [] start d falling same = inr (λ q m. elim m [ ], same)
    walk_pairs-Decides (p ∷ ps) start d (falling_cons top rest) same =
        by_trip (trips floats s now budget p) refl (walk_pairs-Decides ps start _ rest same)
          (walk_pairs-Decides ps start d rest same)
      where
        seen : Decision F
        seen = record d {
          burn_long = burn_rate_over floats s p.long now budget;
          burn_short = burn_rate_over floats s p.short now budget;
          pair = some p;
        }

        by_trip :
            (t : Bool)
            → trips floats s now budget p ≡ t
            → Decides ps start (walk_pairs floats s now budget ps seen)
            → Decides ps start (walk_pairs floats s now budget ps d)
            → Decides (p ∷ ps) start (elim t [
              | true ↦ record seen { severity = p.severity }
              | false ↦ elim (floats.less d.burn_long seen.burn_long) [
                | true ↦ walk_pairs floats s now budget ps seen
                | false ↦ walk_pairs floats s now budget ps d
              ]
            ])
        by_trip true trip louder calmer = inl (
            fires p (Memᴰ.head refl) trip refl refl (λ q m t. elim m [
              | Memᴰ.head e ↦ omega (arith, ap rank e)
              | Memᴰ.tail m' ↦ top q m'
            ]))
        by_trip false calm louder calmer = by_noise (floats.less d.burn_long seen.burn_long)
          where
            by_noise :
                (noise : Bool)
                → Decides (p ∷ ps) start (elim noise [
                  | true ↦ walk_pairs floats s now budget ps seen
                  | false ↦ walk_pairs floats s now budget ps d
                ])
            by_noise true = skip-Decides p ps start _ calm louder
            by_noise false = skip-Decides p ps start _ calm calmer

    fires-sort_pairs :
        (ps : List (WindowPair F)) (start : Severity) (d : Decision F)
        → Decides (sort_pairs ps) start d
        → Decides ps start d
    fires-sort_pairs ps start d (inl (fires p m trip pair severity best)) = inl (
        fires p (sort_pairs-Memᴰ p ps m) trip pair severity
          (λ q m' t. best q (Memᴰ-sort_pairs q ps m') t))
    fires-sort_pairs ps start d (inr (none_trips, same)) =
        inr (λ q m. none_trips q (Memᴰ-sort_pairs q ps m), same)

  -- Evaluate on a registered SLO gives a decision. Either it is the one of a window pair that trips, of the highest severity among the pairs that trip, or no pair trips and its severity is ok.
  pub evaluate-Decides :
      (floats : Floats F) (evaluator : Evaluator F) (name : String) (s : SloState F) (now : ℕ)
      → lookup name evaluator ≡ some s
      → (d : Decision F) × (evaluate floats evaluator name now ≡ ok d)
        × Decides floats s now (floats.rest_of_one s.slo.target) s.slo.window_pairs sev_ok d
  unfolding evaluate
  evaluate-Decides floats evaluator name s now found =
      let budget = floats.rest_of_one s.slo.target in
      let sorted = sort_pairs s.slo.window_pairs in
      let d = walk_pairs floats s now budget sorted (initial floats budget) in
      (
        d,
        cc,
        fires-sort_pairs floats s now budget s.slo.window_pairs sev_ok d (
            walk_pairs-Decides floats s now budget sorted sev_ok _
              (sort_pairs-IsFalling s.slo.window_pairs) refl),
      )
