-- ===== src/Peer/Grant.antt =====
-- crates/machine-fabric-peer/src/lease.rs: the lifetime of a channel. `instant` is a reading of the
-- monotonic clock and `now` one of the wall clock, both in milliseconds; `horizon` is the largest
-- instant that `Instant::checked_add` can make.
use Prim.Native.Char.{Char, code}
use machine_fabric.Base.{
  ℕ, ◌+◌, ◌-◌, ◌≤◌, ◌<◌, String, ◌≡◌, ◌↔◌, Bool, true, false, ◌&&◌, ◌||◌, not, Option, none, some,
  List, [], ◌∷◌, ◌∙◌, arith, ltb, leb, nat_eq, is_some, if◌then◌else◌, Result, ok, err, ◌==◌,
}

pub data Ended : Type 0 where
  revoked expired : Ended

pub data GrantError : Type 0 where
  invalid_identity already_expired out_of_range not_renewable would_shorten : GrantError

pub record State : Type 0 where
  pub deadline : ℕ
  pub expires_at_ms : ℕ
  pub ended : Option Ended

-- `char::is_control`: the code points of the general category Cc.
unfoldable pub is_control : Char → Bool
is_control c = ltb (code c) 32 || leb 127 (code c) && leb (code c) 159

unfoldable pub any_control : String → Bool
unfolding is_control
any_control String.[] = false
any_control (String.◌∷◌ c s) = is_control c || any_control s

-- `str::len`: the bytes of a text in UTF-8.
unfoldable pub utf8_width : Char → ℕ
utf8_width c =
    if ltb (code c) 128
    then 1
    else if ltb (code c) 2048
    then 2
    else if ltb (code c) 65536
    then 3
    else 4

unfoldable pub byte_len : String → ℕ
unfolding utf8_width
byte_len String.[] = 0
byte_len (String.◌∷◌ c s) = utf8_width c + byte_len s

unfoldable pub valid_identity : String → Bool
unfolding any_control byte_len
valid_identity id = not (id == "" || ltb 256 (byte_len id) || any_control id)

unfoldable pub checked_add : ℕ → ℕ → ℕ → Option ℕ
checked_add horizon instant ms = if leb (instant + ms) horizon then some (instant + ms) else none

abbrev pub begin : ℕ → Option ℕ → Result GrantError State
begin expires_at_ms none = err out_of_range
begin expires_at_ms (some deadline) =
    ok (record { deadline = deadline; expires_at_ms = expires_at_ms; ended = none })

unfoldable pub new : ℕ → String → ℕ → ℕ → ℕ → Result GrantError State
unfolding valid_identity checked_add
new horizon id expires_at_ms now instant =
    let remaining = expires_at_ms - now in
    if not (valid_identity id)
    then err invalid_identity
    else if nat_eq remaining 0
    then err already_expired
    else begin expires_at_ms (checked_add horizon instant remaining)

unfoldable pub revoke : State → State
revoke state = record state { ended = some revoked }

-- The grant has run out by either clock.
unfoldable pub lapsed : State → ℕ → ℕ → Bool
lapsed state instant now = leb state.deadline instant || leb state.expires_at_ms now

unfoldable pub ended : State → ℕ → ℕ → Option Ended × State
unfolding lapsed
ended state instant now =
    let state' =
      if not (is_some state.ended) && lapsed state instant now
      then record state { ended = some expired }
      else state in
    (state'.ended, state')

-- `get_or_insert("expired")`.
abbrev pub or_expired : Option Ended → Option Ended
or_expired none = some expired
or_expired (some e) = some e

abbrev pub extend : State → ℕ → Option ℕ → Result GrantError (Unit {0}) × State
extend state expires_at_ms none = (err out_of_range, state)
extend state expires_at_ms (some deadline) =
    (ok tt, record state { expires_at_ms = expires_at_ms; deadline = deadline })

unfoldable pub renew : ℕ → State → ℕ → ℕ → ℕ → Result GrantError (Unit {0}) × State
unfolding lapsed checked_add
renew horizon state expires_at_ms instant now =
    if is_some state.ended || lapsed state instant now
    then (err not_renewable, record state { ended = or_expired state.ended })
    else if ltb expires_at_ms state.expires_at_ms
    then (err would_shorten, state)
    else extend state expires_at_ms
        (checked_add horizon state.deadline (expires_at_ms - state.expires_at_ms))

-- One call from any holder of the shared grant, with the readings of the clocks that it makes.
pub data Call : Type 0 where
  revokes : Call
  asks : ℕ → ℕ → Call
  renews : ℕ → ℕ → ℕ → Call

pub step : ℕ → State → Call → State
unfolding revoke ended renew
step horizon state revokes = revoke state
step horizon state (asks instant now) = (ended state instant now).1
step horizon state (renews expires_at_ms instant now) =
    (renew horizon state expires_at_ms instant now).1

pub run : ℕ → State → List Call → State
run horizon state [] = state
run horizon state (call ∷ calls) = run horizon (step horizon state call) calls

-- What each call keeps: an end is for ever, the wall-clock end never falls, and the monotonic
-- deadline moves by exactly as much as it.
record Keeps (s t : State) : Type 0 where
  ends : is_some s.ended ≡ true → is_some t.ended ≡ true
  grows : s.expires_at_ms ≤ t.expires_at_ms
  exact : t.deadline + s.expires_at_ms ≡ s.deadline + t.expires_at_ms
  frozen : is_some s.ended ≡ true → t.expires_at_ms ≡ s.expires_at_ms

step-Keeps : (horizon : ℕ) (s : State) (call : Call) → Keeps s (step horizon s call)
unfolding step
step-Keeps horizon s revokes = ground arith
step-Keeps horizon s (asks instant now) = ground arith
step-Keeps horizon s (renews expires_at_ms instant now) = ground arith

run-Keeps : (horizon : ℕ) (s : State) (calls : List Call) → Keeps s (run horizon s calls)
unfolding run
run-Keeps horizon s [] = ground arith
run-Keeps horizon s (call ∷ calls) =
    let one = step-Keeps horizon s call in
    let rest = run-Keeps horizon (step horizon s call) calls in
    record {
      ends = λ h. rest.ends (one.ends h);
      grows = omega (arith, one.grows, rest.grows);
      exact = omega (arith, one.exact, rest.exact);
      frozen = λ h. omega (arith, one.frozen h, rest.frozen (one.ends h));
    }

-- Whatever calls are made and whatever the clocks show, the wall-clock end of a grant never falls,
-- and its monotonic deadline has moved by exactly the same amount: a renewal that is repeated, or
-- made after the wall clock went back, gains no lifetime.
pub run_exact :
    (horizon : ℕ) (s : State) (calls : List Call)
    → (s.expires_at_ms ≤ (run horizon s calls).expires_at_ms)
      × ((run horizon s calls).deadline + s.expires_at_ms
          ≡ s.deadline + (run horizon s calls).expires_at_ms)
run_exact horizon s calls = let k = run-Keeps horizon s calls in (k.grows, k.exact)

ended-ended :
    (s : State) (instant now : ℕ)
    → is_some (ended s instant now).0 ≡ true
    → (is_some (ended s instant now).1.ended ≡ true)
      × ((ended s instant now).1.expires_at_ms ≡ s.expires_at_ms)
unfolding ended
ended-ended s instant now h = ground arith

ended_stays :
    (horizon : ℕ) (t : State) (instant now expires_at_ms : ℕ)
    → is_some t.ended ≡ true
    → (is_some (ended t instant now).0 ≡ true)
      × ((renew horizon t expires_at_ms instant now).0 ≡ err not_renewable)
unfolding ended renew
ended_stays horizon t instant now expires_at_ms h = ground arith

-- Once `ended` has reported an end, every later `ended` reports one and every later `renew` fails,
-- whatever calls lie between and whatever the clocks show, and the end is not moved.
pub ended_forever :
    (horizon : ℕ) (s : State) (instant now : ℕ) (calls : List Call)
    (instant' now' expires_at_ms : ℕ)
    → is_some (ended s instant now).0 ≡ true
    → let t = run horizon (ended s instant now).1 calls in
      (is_some (ended t instant' now').0 ≡ true)
      × ((renew horizon t expires_at_ms instant' now').0 ≡ err not_renewable)
      × (t.expires_at_ms ≡ s.expires_at_ms)
ended_forever horizon s instant now calls instant' now' expires_at_ms h =
    let k = run-Keeps horizon (ended s instant now).1 calls in
    let e = ended-ended s instant now h in
    let live =
      ended_stays horizon (run horizon (ended s instant now).1 calls) instant' now' expires_at_ms
        (k.ends e.0) in
    (live.0, live.1, k.frozen e.0 ∙ e.1)

-- `ended` reports no end exactly while the grant was not ended before and both clocks are before
-- their limits.
pub ended_none :
    (s : State) (instant now : ℕ)
    → ((ended s instant now).0 ≡ none)
      ↔ ((s.ended ≡ none) × (instant < s.deadline) × (now < s.expires_at_ms))
unfolding ended
ended_none s instant now = (λ h. ground arith, λ h. ground arith)
