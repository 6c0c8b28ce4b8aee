-- ===== src/EventLoop.antt =====
-- libsponge/util/eventloop.hh and eventloop.cc: `EventLoop`. The descriptors, `poll` with its timeout
-- and the rules' functions are parameters over a state that they share; an interest is a test of it.
pub mod Invariant
use cs144_intro2network.Prelude.{
  ℕ, suc, Bool, true, false, not, ◌++◌, ◌&&◌, ◌||◌, Option, none, some, List, [], ◌∷◌, ◌==◌,
  if◌then◌else◌,
}

pub data Direction : Type 0 where
  dir_in : Direction
  dir_out : Direction

-- What the loop asks of a `FileDescriptor`.
pub record Files (Fd W : Type 0) : Type 0 where
  pub eof : Fd → W → Bool
  pub closed : Fd → W → Bool
  pub read_count : Fd → W → ℕ
  pub write_count : Fd → W → ℕ

-- A function that throws gives `none`.
pub record Rule (Fd W : Type 0) : Type 0 where
  pub fd : Fd
  pub direction : Direction
  pub callback : W → Option W
  pub interest : W → Bool
  pub cancel : W → Option W

pub data Result : Type 0 where
  success : Result
  timeout : Result
  exit : Result

-- The bits of `revents`.
pub record Revents : Type 0 where
  pub pollin : Bool
  pub pollout : Bool
  pub pollerr : Bool
  pub pollhup : Bool
  pub pollnval : Bool

-- What `poll` returns: how many descriptors are ready, and the `revents` at each index, or an errno with what is then there.
pub data Polled : Type 0 where
  ready : ℕ → (ℕ → Revents) → Polled
  failed : ℕ → (ℕ → Revents) → Polled

-- A rule with the `events` of its `pollfd`; `none` is the placeholder.
abbrev pub Polling : Type 0 → Type 0 → Type 0
Polling Fd W = Rule Fd W × Option Direction

abbrev pub Poll : Type 0 → Type 0 → Type 0
Poll Fd W = List (Polling Fd W) → W → Polled × W

abbrev pub eintr : ℕ
eintr = 4

abbrev pub count_in : {Fd W : Type 0} → Files Fd W → Direction → Fd → W → ℕ
count_in files dir_in fd w = files.read_count fd w
count_in files dir_out fd w = files.write_count fd w

-- `Rule::service_count`.
abbrev pub service_count : {Fd W : Type 0} → Files Fd W → Rule Fd W → W → ℕ
service_count files r w = count_in files r.direction r.fd w

abbrev pub is_in : Direction → Bool
is_in dir_in = true
is_in dir_out = false

-- The tests that cancel a rule before it is polled.
abbrev pub finished : {Fd W : Type 0} → Files Fd W → Rule Fd W → W → Bool
finished files r w = (is_in r.direction && files.eof r.fd w) || files.closed r.fd w

abbrev pub put :
    {Fd W : Type 0}
    → Polling Fd W
    → Option (List (Polling Fd W) × W)
    → Option (List (Polling Fd W) × W)
put p none = none
put p (some (ps, w)) = some (p ∷ ps, w)

-- The first loop: the rules that are left, with what each is polled for.
unfoldable pub set_up :
    {Fd W : Type 0} → Files Fd W → List (Rule Fd W) → W → Option (List (Polling Fd W) × W)
set_up files [] w = some ([], w)
set_up files (r ∷ rules) w =
    if finished files r w
    then elim (r.cancel w) [ none ↦ none | some w' ↦ set_up files rules w' ]
    else put (r, (if r.interest w then some r.direction else none)) (set_up files rules w)

-- `something_to_poll`.
unfoldable pub something_to_poll : {Fd W : Type 0} → List (Polling Fd W) → Bool
something_to_poll [] = false
something_to_poll ((r, none) ∷ ps) = something_to_poll ps
something_to_poll ((r, some d) ∷ ps) = true

-- `revents & events`.
abbrev pub poll_ready : Option Direction → Revents → Bool
poll_ready none rev = false
poll_ready (some dir_in) rev = rev.pollin
poll_ready (some dir_out) rev = rev.pollout

abbrev pub asked : Option Direction → Bool
asked none = false
asked (some d) = true

abbrev pub keep :
    {Fd W : Type 0} → Rule Fd W → Option (List (Rule Fd W) × W) → Option (List (Rule Fd W) × W)
keep r none = none
keep r (some (rules, w)) = some (r ∷ rules, w)

-- The second loop, from `idx` on: the rules that are left. `none` where it throws.
unfoldable pub handle :
    {Fd W : Type 0}
    → Files Fd W
    → (ℕ → Revents)
    → ℕ
    → List (Polling Fd W)
    → W
    → Option (List (Rule Fd W) × W)
handle files revents idx [] w = some ([], w)
handle files revents idx ((r, events) ∷ ps) w =
    let rev = revents idx in
    if rev.pollerr || rev.pollnval
    then none
    else if rev.pollhup && (asked events && not (poll_ready events rev))
    then elim (r.cancel w) [ none ↦ none | some w' ↦ handle files revents (suc idx) ps w' ]
    else if poll_ready events rev
    then elim (r.callback w) [
      | none ↦ none
      | some w' ↦
          if service_count files r w == service_count files r w' && r.interest w'
          then none
          else keep r (handle files revents (suc idx) ps w')
    ]
    else keep r (handle files revents (suc idx) ps w)

abbrev pub rules_of : {Fd W : Type 0} → List (Polling Fd W) → List (Rule Fd W)
rules_of [] = []
rules_of ((r, _) ∷ ps) = r ∷ rules_of ps

abbrev pub Returned : Type 0 → Type 0 → Type 0
Returned Fd W = Option (Result × List (Rule Fd W) × W)

abbrev pub succeeded : {Fd W : Type 0} → Option (List (Rule Fd W) × W) → Returned Fd W
succeeded none = none
succeeded (some (rules, w)) = some (success, rules, w)

-- After `poll`. The exception of one that failed is caught; unless a signal interrupted it, the code goes on.
abbrev pub after_poll :
    {Fd W : Type 0} → Files Fd W → List (Polling Fd W) → Polled × W → Returned Fd W
unfolding handle
after_poll files ps (ready n revents, w) =
    if n == 0 then some (timeout, rules_of ps, w) else succeeded (handle files revents 0 ps w)
after_poll files ps (failed errno revents, w) =
    if errno == eintr then some (exit, rules_of ps, w) else succeeded (handle files revents 0 ps w)

unfoldable pub wait_next_event :
    {Fd W : Type 0} → Files Fd W → Poll Fd W → List (Rule Fd W) → W → Returned Fd W
unfolding set_up something_to_poll handle
wait_next_event files poll rules w = elim (set_up files rules w) [
  | none ↦ none
  | some (ps, w') ↦
      if something_to_poll ps
      then after_poll files ps (poll ps w')
      else some (exit, rules_of ps, w')
]

-- `add_rule`; the copy of the descriptor stands for the same file.
abbrev pub add_rule : {Fd W : Type 0} → Rule Fd W → List (Rule Fd W) → List (Rule Fd W)
add_rule r rules = rules ++ r ∷ []
