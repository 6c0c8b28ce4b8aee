-- ===== src/EventLoop/Invariant.antt =====
-- What every function of the rules keeps, `wait_next_event` keeps.
use cs144_intro2network.Prelude.{
  ℕ, suc, Bool, true, false, not, Bool-cases, ◌&&◌, ◌||◌, ◌==◌, Option, none, some, List, [], ◌∷◌,
  inl, inr, if◌then◌else◌,
}
use cs144_intro2network.EventLoop.{
  Files, Rule, Polling, Poll, Polled, ready, failed, Revents, Returned, eintr, exit, set_up,
  something_to_poll, handle, rules_of, after_poll, wait_next_event, keep, put, finished, poll_ready,
  asked, service_count, succeeded,
}

module _ {Fd W : Type 0} (files : Files Fd W) (Inv : W → Type 0) where
  abbrev pub After : Option W → Type 0
  After none = Unit
  After (some w) = Inv w

  -- The functions of the rule keep the invariant.
  pub record Keeping (r : Rule Fd W) : Type 0 where
    pub callback : (w : W) → Inv w → After (r.callback w)
    pub cancel : (w : W) → Inv w → After (r.cancel w)

  abbrev pub AllKeeping : List (Rule Fd W) → Type 0
  AllKeeping [] = Unit
  AllKeeping (r ∷ rules) = Keeping r × AllKeeping rules

  abbrev SetUp : Option (List (Polling Fd W) × W) → Type 0
  SetUp none = Unit
  SetUp (some (ps, w)) = AllKeeping (rules_of ps) × Inv w

  abbrev Handled : Option (List (Rule Fd W) × W) → Type 0
  Handled none = Unit
  Handled (some (rules, w)) = AllKeeping rules × Inv w

  abbrev pub Waited : Returned Fd W → Type 0
  Waited none = Unit
  Waited (some (result, rules, w)) = AllKeeping rules × Inv w

  put-SetUp :
      (p : Polling Fd W) (o : Option (List (Polling Fd W) × W))
      → Keeping p.0
      → SetUp o
      → SetUp (put p o)
  put-SetUp (r, d) none h k = tt
  put-SetUp (r, d) (some (ps, w)) h k = ((h, k.0), k.1)

  keep-Handled :
      (r : Rule Fd W) (o : Option (List (Rule Fd W) × W))
      → Keeping r
      → Handled o
      → Handled (keep r o)
  keep-Handled r none h k = tt
  keep-Handled r (some (rules, w)) h k = ((h, k.0), k.1)

  set_up-SetUp :
      (rules : List (Rule Fd W)) (w : W) → AllKeeping rules → Inv w → SetUp (set_up files rules w)
  unfolding set_up
  set_up-SetUp [] w h i = (tt, i)
  set_up-SetUp (r ∷ rules) w h i = elim (Bool-cases (finished files r w)) [
    | inl gone ↦
        rw gone (cancelled (r.cancel w) (h.0.cancel w i) (λ v j. set_up-SetUp rules v h.1 j))
    | inr stays ↦ rw stays (put-SetUp (r, _) _ h.0 (set_up-SetUp rules w h.1 i))
  ]
    where
      cancelled :
          (o : Option W)
          → After o
          → ((v : W) → Inv v → SetUp (set_up files rules v))
          → SetUp (elim o [ none ↦ none | some w' ↦ set_up files rules w' ])
      cancelled none a f = tt
      cancelled (some v) a f = f v a

  handle-Handled :
      (revents : ℕ → Revents) (idx : ℕ) (ps : List (Polling Fd W)) (w : W)
      → AllKeeping (rules_of ps)
      → Inv w
      → Handled (handle files revents idx ps w)
  unfolding handle
  handle-Handled revents idx [] w h i = (tt, i)
  handle-Handled revents idx ((r, events) ∷ ps) w h i =
      if_Handled ((revents idx).pollerr || (revents idx).pollnval) none _ tt (
        if_Handled
          ((revents idx).pollhup && (asked events && not (poll_ready events (revents idx)))) _ _
          (cancelled (r.cancel w) (h.0.cancel w i)
            (λ v j. handle-Handled revents (suc idx) ps v h.1 j))
          (if_Handled (poll_ready events (revents idx)) _ _
            (called (r.callback w) (h.0.callback w i)
              (λ v j. handle-Handled revents (suc idx) ps v h.1 j))
            (keep-Handled r _ h.0 (handle-Handled revents (suc idx) ps w h.1 i))))
    where
      if_Handled :
          (b : Bool) (x y : Option (List (Rule Fd W) × W))
          → Handled x
          → Handled y
          → Handled (if b then x else y)
      if_Handled true x y f g = f
      if_Handled false x y f g = g

      cancelled :
          (o : Option W)
          → After o
          → ((v : W) → Inv v → Handled (handle files revents (suc idx) ps v))
          → Handled (elim o [ none ↦ none | some w' ↦ handle files revents (suc idx) ps w' ])
      cancelled none a f = tt
      cancelled (some v) a f = f v a

      called :
          (o : Option W)
          → After o
          → ((v : W) → Inv v → Handled (handle files revents (suc idx) ps v))
          → Handled (elim o [
            | none ↦ none
            | some w' ↦
                if service_count files r w == service_count files r w' && r.interest w'
                then none
                else keep r (handle files revents (suc idx) ps w')
          ])
      called none a f = tt
      called (some v) a f =
          if_Handled (service_count files r w == service_count files r v && r.interest v) none _ tt
            (keep-Handled r _ h.0 (f v a))

  succeeded-Waited : (o : Option (List (Rule Fd W) × W)) → Handled o → Waited (succeeded o)
  succeeded-Waited none h = tt
  succeeded-Waited (some (rules, w)) h = h

  after_poll-Waited :
      (ps : List (Polling Fd W)) (polled : Polled) (w : W)
      → AllKeeping (rules_of ps)
      → Inv w
      → Waited (after_poll files ps (polled, w))
  unfolding after_poll
  after_poll-Waited ps (ready n revents) w h i = elim (Bool-cases (n == 0)) [
    | inl none_ready ↦ rw none_ready (h, i)
    | inr some_ready ↦ rw some_ready (succeeded-Waited _ (handle-Handled revents 0 ps w h i))
  ]
  after_poll-Waited ps (failed errno revents) w h i = elim (Bool-cases (errno == eintr)) [
    | inl interrupted ↦ rw interrupted (h, i)
    | inr other ↦ rw other (succeeded-Waited _ (handle-Handled revents 0 ps w h i))
  ]

  -- If `poll` and the functions of all rules keep an invariant, so does `wait_next_event`, and the rules
  -- that are left keep it too.
  pub wait-Waited :
      (poll : Poll Fd W) (rules : List (Rule Fd W)) (w : W)
      → ((ps : List (Polling Fd W)) (v : W) → Inv v → Inv (poll ps v).1)
      → AllKeeping rules
      → Inv w
      → Waited (wait_next_event files poll rules w)
  unfolding wait_next_event
  wait-Waited poll rules w polls h i = go (set_up files rules w) (set_up-SetUp rules w h i)
    where
      go :
          (o : Option (List (Polling Fd W) × W))
          → SetUp o
          → Waited (elim o [
            | none ↦ none
            | some (ps, w') ↦
                if something_to_poll ps
                then after_poll files ps (poll ps w')
                else some (exit, rules_of ps, w')
          ])
      go none k = tt
      go (some (ps, v)) k = elim (Bool-cases (something_to_poll ps)) [
        | inl some_asked ↦
            rw some_asked (after_poll-Waited ps (poll ps v).0 (poll ps v).1 k.0 (polls ps v k.1))
        | inr idle ↦ rw idle k
      ]
