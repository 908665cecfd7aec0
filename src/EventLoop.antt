-- ===== src/EventLoop.antt =====
-- libsponge/util/eventloop.hh and eventloop.cc: rules on file descriptors, and one round of waiting
-- for them. What `poll(2)` returns is an argument; the rules work on a state `S` that holds their
-- descriptors, since descriptors are shared.
pub mod Rounds
mod Tests
use csed353_sponge.Common.{
  ◌==◌, if◌then◌else◌, drop, ℕ, Bool, true, false, not, ◌&&◌, ◌||◌, Option, none, some, List, [],
  ◌∷◌, ◌++◌,
}
use csed353_sponge.FileDescriptor.{FileDescriptor}

pub data Direction : Type 0 where
  in_ : Direction
  out : Direction

abbrev pub is_in : Direction → Bool
is_in in_ = true
is_in out = false

-- `fd` finds the descriptor in the state. A callback gives the new state, or `none` for an exception.
pub record Rule (S : Type 0) : Type 0 where
  pub fd : S → FileDescriptor
  pub direction : Direction
  pub callback : S → Option S
  pub interest : S → Bool
  pub cancel : S → Option S

-- `EventLoop::Result`
pub data Result : Type 0 where
  success : Result
  timeout : Result
  exit : Result

abbrev pub is_exit : Result → Bool
is_exit success = false
is_exit timeout = false
is_exit exit = true

-- What `poll` reports of a descriptor: POLLERR or POLLNVAL, POLLHUP, POLLIN and POLLOUT.
pub record Revents : Type 0 where
  pub poll_error : Bool
  pub poll_hup : Bool
  pub readable : Bool
  pub writable : Bool

-- The call of `poll`: it timed out, was interrupted (EINTR), failed in another way, or gave the
-- events, in the order of the descriptors.
pub data PollResult : Type 0 where
  nothing : PollResult
  interrupted : PollResult
  failed : PollResult
  ready : List Revents → PollResult

abbrev pub no_revents : Revents
no_revents = record { poll_error = false; poll_hup = false; readable = false; writable = false }

-- The events of the descriptor that are left at 0 when `poll` fails, and after the last one.
abbrev pub first_revents : List Revents → Revents
first_revents [] = no_revents
first_revents (r ∷ rs) = r

abbrev pub asked : Direction → Revents → Bool
asked in_ r = r.readable
asked out r = r.writable

-- A rule that is polled, with whether its `pollfd` asks for its event.
abbrev pub Polled : Type 0 → Type 0
Polled S = Rule S × Bool

module _ {S : Type 0} where
  abbrev pub service_count : Rule S → S → ℕ
  service_count rule s =
      if is_in rule.direction then (rule.fd s).read_count else (rule.fd s).write_count

  abbrev pub add_rule : Rule S → List (Rule S) → List (Rule S)
  add_rule rule rules = rules ++ rule ∷ []

  abbrev pub is_over : Rule S → S → Bool
  is_over rule s = (is_in rule.direction && (rule.fd s).eof) || (rule.fd s).closed

  abbrev pub poll_too : Polled S → Option (S × List (Polled S)) → Option (S × List (Polled S))
  poll_too p none = none
  poll_too p (some (s, ps)) = some (s, p ∷ ps)

  -- The first loop: rules of descriptors that are over are cancelled, the others are polled.
  unfoldable pub set_up : List (Rule S) → S → Option (S × List (Polled S))
  set_up [] s = some (s, [])
  set_up (rule ∷ rules) s =
      let kept = poll_too (rule, rule.interest s) (set_up rules s) in
      let cancelled : Option (S × List (Polled S)) = elim (rule.cancel s) [
        | none ↦ none
        | some t ↦ set_up rules t
      ] in
      if is_over rule s then cancelled else kept

  abbrev pub something_to_poll : List (Polled S) → Bool
  something_to_poll [] = false
  something_to_poll (p ∷ ps) = p.1 || something_to_poll ps

  abbrev pub rules_of : List (Polled S) → List (Rule S)
  rules_of [] = []
  rules_of (p ∷ ps) = p.0 ∷ rules_of ps

  abbrev pub keep_rule : Rule S → Option (S × List (Rule S)) → Option (S × List (Rule S))
  keep_rule rule none = none
  keep_rule rule (some (s, rules)) = some (s, rule ∷ rules)

  -- The callback of a rule that is ready, with the test for a busy wait.
  abbrev pub serve : Rule S → S → Option S
  serve rule s = elim (rule.callback s) [
    | none ↦ none
    | some t ↦
        if (service_count rule s == service_count rule t) && rule.interest t then none else some t
  ]

  -- The second loop, over the results of `poll`.
  unfoldable pub dispatch : List (Polled S) → List Revents → S → Option (S × List (Rule S))
  dispatch [] revents s = some (s, [])
  dispatch ((rule, interested) ∷ ps) revents s =
      let r = first_revents revents in
      let is_ready = interested && asked rule.direction r in
      let idle = keep_rule rule (dispatch ps (drop 1 revents) s) in
      let cancelled : Option (S × List (Rule S)) = elim (rule.cancel s) [
        | none ↦ none
        | some t ↦ dispatch ps (drop 1 revents) t
      ] in
      let served : Option (S × List (Rule S)) = elim (serve rule s) [
        | none ↦ none
        | some t ↦ keep_rule rule (dispatch ps (drop 1 revents) t)
      ] in
      if r.poll_error
      then none
      else if r.poll_hup && interested && not is_ready
      then cancelled
      else if is_ready
      then served
      else idle

  abbrev pub finish : Option (S × List (Rule S)) → Option (S × List (Rule S) × Result)
  finish none = none
  finish (some (s, rules)) = some (s, rules, success)

  -- What follows the first loop. Of the failures of `poll`, only an interruption is looked at.
  abbrev pub poll_round : PollResult → S → List (Polled S) → Option (S × List (Rule S) × Result)
  poll_round nothing s polled = some (s, rules_of polled, timeout)
  poll_round interrupted s polled = some (s, rules_of polled, exit)
  poll_round failed s polled = finish (dispatch polled [] s)
  poll_round (ready revents) s polled = finish (dispatch polled revents s)

  -- `poll` gets which descriptors are asked for. The new state, the rules that are left and the
  -- result; `none` is an exception.
  unfoldable pub wait_next_event :
      (List (Polled S) → PollResult) → List (Rule S) → S → Option (S × List (Rule S) × Result)
  wait_next_event poll rules s = elim (set_up rules s) [
    | none ↦ none
    | some (t, polled) ↦
        if not (something_to_poll polled)
        then some (t, rules_of polled, exit)
        else poll_round (poll polled) t polled
  ]
