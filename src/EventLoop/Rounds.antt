-- ===== src/EventLoop/Rounds.antt =====
-- What a round of the event loop of libsponge/util/eventloop.cc keeps.
use csed353_sponge.Common.{
  ◌==◌, Bool-cases, OnSuccess, OnSuccess-if, OnSuccess-bind, All, drop, ◌≡◌, refl, inl, inr, true,
  false, not, ◌&&◌, Option, none, some, List, [], ◌∷◌, arith,
}
use csed353_sponge.EventLoop.{
  Direction, in_, out, Rule, Polled, Revents, PollResult, nothing, interrupted, failed, ready,
  success, is_over, poll_too, set_up, something_to_poll, rules_of, keep_rule, serve, dispatch,
  finish, first_revents, asked, service_count, poll_round, wait_next_event, no_revents,
}

asked-no_revents : (d : Direction) → asked d no_revents ≡ false
asked-no_revents in_ = refl
asked-no_revents out = refl

module _ {S : Type 0} where
  -- The callbacks of a rule keep a property of the state, unless they throw.
  pub record Keeps (I : S → Type 0) (rule : Rule S) : Type 0 where
    pub callback : (s : S) → I s → OnSuccess I (rule.callback s)
    pub cancel : (s : S) → I s → OnSuccess I (rule.cancel s)

  module _ (I : S → Type 0) where
    abbrev AllKeep : List (Polled S) → Type 0
    AllKeep [] = Unit {0}
    AllKeep (p ∷ ps) = Keeps I p.0 × AllKeep ps

    AllKeep-rules_of : (ps : List (Polled S)) → AllKeep ps → All (Keeps I) (rules_of ps)
    AllKeep-rules_of [] k = tt
    AllKeep-rules_of (p ∷ ps) k = (k.0, AllKeep-rules_of ps k.1)

    abbrev Set : S × List (Polled S) → Type 0
    Set r = I r.0 × AllKeep r.1

    abbrev Left : S × List (Rule S) → Type 0
    Left r = I r.0 × All (Keeps I) r.1

    poll_too-Set :
        (p : Polled S) (o : Option (S × List (Polled S)))
        → Keeps I p.0
        → OnSuccess Set o
        → OnSuccess Set (poll_too p o)
    poll_too-Set p none k o = tt
    poll_too-Set p (some (s, ps)) k o = (o.0, (k, o.1))

    keep_rule-Left :
        (rule : Rule S) (o : Option (S × List (Rule S)))
        → Keeps I rule
        → OnSuccess Left o
        → OnSuccess Left (keep_rule rule o)
    keep_rule-Left rule none k o = tt
    keep_rule-Left rule (some (s, rules)) k o = (o.0, (k, o.1))

    set_up-Set :
        (rules : List (Rule S)) (s : S) → All (Keeps I) rules → I s → OnSuccess Set (set_up rules s)
    unfolding set_up
    set_up-Set [] s k i = (i, tt)
    set_up-Set (rule ∷ rules) s k i = elim (Bool-cases (is_over rule s)) [
      | inl h ↦ rw h (
          OnSuccess-bind I Set (rule.cancel s) (set_up rules) (k.0.cancel s i)
            (λ t j. set_up-Set rules t k.1 j))
      | inr h ↦
          rw h
            (poll_too-Set (rule, rule.interest s) (set_up rules s) k.0 (set_up-Set rules s k.1 i))
    ]

    serve-Keeps : (rule : Rule S) (s : S) → Keeps I rule → I s → OnSuccess I (serve rule s)
    serve-Keeps rule s k i = OnSuccess-bind I I (rule.callback s) _ (k.callback s i) (λ t j.
        OnSuccess-if I ((service_count rule s == service_count rule t) && rule.interest t) none
          (some t) tt j)

    dispatch-Left :
        (ps : List (Polled S)) (revents : List Revents) (s : S)
        → AllKeep ps
        → I s
        → OnSuccess Left (dispatch ps revents s)
    unfolding dispatch
    dispatch-Left [] revents s k i = (i, tt)
    dispatch-Left ((rule, interested) ∷ ps) revents s k i =
        let r = first_revents revents in
        let is_ready = interested && asked rule.direction r in
        OnSuccess-if Left r.poll_error none _ tt (
          OnSuccess-if Left (r.poll_hup && interested && not is_ready) _ _
            (OnSuccess-bind I Left (rule.cancel s) (dispatch ps (drop 1 revents)) (k.0.cancel s i)
              (λ t j. dispatch-Left ps (drop 1 revents) t k.1 j))
            (OnSuccess-if Left is_ready _ _
              (OnSuccess-bind I Left (serve rule s)
                (λ t. keep_rule rule (dispatch ps (drop 1 revents) t)) (serve-Keeps rule s k.0 i)
                (λ t j.
                  keep_rule-Left rule (dispatch ps (drop 1 revents) t) k.0
                    (dispatch-Left ps (drop 1 revents) t k.1 j)))
              (keep_rule-Left rule (dispatch ps (drop 1 revents) s) k.0
                (dispatch-Left ps (drop 1 revents) s k.1 i))))

    finish-Left :
        (o : Option (S × List (Rule S)))
        → OnSuccess Left o
        → OnSuccess (λ r. I r.0 × All (Keeps I) r.1) (finish o)
    finish-Left none o = tt
    finish-Left (some (s, rules)) o = o

    poll_round-Keeps :
        (p : PollResult) (s : S) (ps : List (Polled S))
        → AllKeep ps
        → I s
        → OnSuccess (λ r. I r.0 × All (Keeps I) r.1) (poll_round p s ps)
    poll_round-Keeps nothing s ps k i = (i, AllKeep-rules_of ps k)
    poll_round-Keeps interrupted s ps k i = (i, AllKeep-rules_of ps k)
    poll_round-Keeps failed s ps k i = finish-Left (dispatch ps [] s) (dispatch-Left ps [] s k i)
    poll_round-Keeps (ready revents) s ps k i =
        finish-Left (dispatch ps revents s) (dispatch-Left ps revents s k i)

    -- A property of the state that the callbacks of all rules keep, whether or not their rules are
    -- interested, is kept by a round of the loop that does not throw, whatever `poll` returns; the
    -- rules that are left still keep it.
    pub wait_next_event-Keeps :
        (poll : List (Polled S) → PollResult) (rules : List (Rule S)) (s : S)
        → All (Keeps I) rules
        → I s
        → OnSuccess (λ r. I r.0 × All (Keeps I) r.1) (wait_next_event poll rules s)
    unfolding wait_next_event
    wait_next_event-Keeps poll rules s k i =
        OnSuccess-bind Set (λ r. I r.0 × All (Keeps I) r.1) (set_up rules s) _
          (set_up-Set rules s k i)
          (λ r j.
            OnSuccess-if (λ r. I r.0 × All (Keeps I) r.1) (not (something_to_poll r.1)) _ _
              (j.0, AllKeep-rules_of r.1 j.1) (poll_round-Keeps (poll r.1) r.0 r.1 j.1 j.0))

  dispatch-idle : (ps : List (Polled S)) (s : S) → dispatch ps [] s ≡ some (s, rules_of ps)
  unfolding dispatch
  dispatch-idle [] s = refl
  dispatch-idle (p ∷ ps) s =
      let e : (p.1 && asked p.0.direction no_revents) ≡ false =
        ground (arith, asked-no_revents p.0.direction) in
      rw (e, dispatch-idle ps s) refl

  -- When `poll` fails for another reason than an interruption, while there is something to poll, the
  -- round succeeds: no callback is called after the first loop, and no exception is thrown.
  pub poll_failure_ignored :
      (poll : List (Polled S) → PollResult) (rules : List (Rule S)) (s t : S)
      (polled : List (Polled S))
      → set_up rules s ≡ some (t, polled)
      → something_to_poll polled ≡ true
      → poll polled ≡ failed
      → wait_next_event poll rules s ≡ some (t, rules_of polled, success)
  unfolding wait_next_event
  poll_failure_ignored poll rules s t polled up some_rule bad =
      rw (up, some_rule, bad, dispatch-idle polled t, wait_next_event) refl
