-- ===== src/Executor/Capacity.antt =====
-- crates/machine-fabric-runtime/src/executor.rs: the admission of calls, `ExecutionCapacity`. A thread
-- that waits takes one step each time that it has the lock.
use machine_fabric.Base.{
  ℕ, zero, suc, ◌+◌, ◌-◌, String, Bool, true, false, ◌&&◌, ◌||◌, not, Option, none, some, List, [],
  ◌∷◌, ◌++◌, map, any, keep, length, take, position, leb, nat_eq, is_some, saturating_add,
  if◌then◌else◌, Result, ok, err, ◌==◌,
}
use machine_fabric.BTreeMap.{BTreeMap, get, insert, remove}

pub record ExecutionCapacity : Type 0 where
  pub maximum : ℕ
  pub maximum_queue : ℕ
  pub wait_timeout : ℕ

pub record WaitingExecution : Type 0 where
  pub ticket : ℕ
  pub resources : List String

-- A `BTreeSet` of texts is a map to nothing.
pub record ExecutionState : Type 0 where
  pub active : ℕ
  pub held_resources : BTreeMap (Unit {0})
  pub waiting : List WaitingExecution
  pub next_ticket : ℕ

pub data CapacityError : Type 0 where
  executor_queue_full executor_queue_timeout : CapacityError

abbrev pub idle : ExecutionState
idle = record { active = 0; held_resources = []; waiting = []; next_ticket = 0 }

abbrev pub contains : String → BTreeMap (Unit {0}) → Bool
contains resource held = is_some (get resource held)

-- `held_resources.extend`.
unfoldable pub extend : List String → BTreeMap (Unit {0}) → BTreeMap (Unit {0})
extend [] held = held
extend (resource ∷ resources) held = insert resource tt (extend resources held)

unfoldable pub remove_each : List String → BTreeMap (Unit {0}) → BTreeMap (Unit {0})
remove_each [] held = held
remove_each (resource ∷ resources) held = remove_each resources (remove resource held)

-- `resources.sort()` and `resources.dedup()`: each text once, in ascending order.
unfoldable pub sort_dedup : List String → List String
unfolding extend
sort_dedup resources = map (λ entry. entry.0) (extend resources [])

abbrev pub has : String → List String → Bool
has resource resources = any (λ other. other == resource) resources

-- An earlier call that waits for one of the resources.
abbrev pub conflicts : List String → WaitingExecution → Bool
conflicts resources earlier = any (λ resource. has resource resources) earlier.resources

abbrev pub may_go : ExecutionState → List String → Option ℕ → Bool
may_go state resources none = false
may_go state resources (some position) =
    not (any (conflicts resources) (take position state.waiting))

abbrev pub is_none_waiting : List WaitingExecution → Bool
is_none_waiting [] = true
is_none_waiting (w ∷ ws) = false

abbrev pub in_turn : ExecutionState → List String → Option ℕ → Bool
in_turn state resources none = is_none_waiting state.waiting
in_turn state resources (some ticket) =
    may_go state resources (position (λ w. nat_eq w.ticket ticket) state.waiting)

unfoldable pub can_grant : ExecutionCapacity → ExecutionState → List String → Option ℕ → Bool
can_grant capacity state resources ticket =
    if leb capacity.maximum state.active
      || any (λ resource. contains resource state.held_resources) resources
    then false
    else in_turn state resources ticket

-- `acquire` until its loop: the ticket under which the call waits.
unfoldable pub enter :
    ExecutionCapacity → ExecutionState → List String → Result CapacityError ℕ × ExecutionState
unfolding can_grant sort_dedup
enter capacity state resources =
    let sorted = sort_dedup resources in
    let state' = record state { next_ticket = saturating_add state.next_ticket 1 } in
    if not (can_grant capacity state' sorted none)
      && leb capacity.maximum_queue (length state.waiting)
    then (err executor_queue_full, state')
    else (
      ok state.next_ticket,
      record state' {
        waiting = state.waiting ++ record { ticket = state.next_ticket; resources = sorted } ∷ [];
      },
    )

abbrev pub remove_at {ℓ} : {A : Type ℓ} → ℕ → List A → List A
remove_at n [] = []
remove_at zero (x ∷ xs) = xs
remove_at (suc n) (x ∷ xs) = x ∷ remove_at n xs

abbrev pub remove_position : Option ℕ → List WaitingExecution → List WaitingExecution
remove_position none waiting = waiting
remove_position (some p) waiting = remove_at p waiting

-- One round of the loop of `acquire`: the permit, if it is granted.
unfoldable pub try_grant :
    ExecutionCapacity → ExecutionState → ℕ → List String → Option ExecutionState
unfolding can_grant extend
try_grant capacity state ticket resources =
    if can_grant capacity state resources (some ticket)
    then some (record state {
      waiting =
          remove_position (position (λ w. nat_eq w.ticket ticket) state.waiting) state.waiting;
      active = state.active + 1;
      held_resources = extend resources state.held_resources;
    })
    else none

-- A call whose deadline has passed leaves with `executor_queue_timeout`.
unfoldable pub give_up : ExecutionState → ℕ → ExecutionState
give_up state ticket = record state {
  waiting = keep (λ w. not (nat_eq w.ticket ticket)) state.waiting;
}

-- The drop of a permit.
unfoldable pub release : ExecutionState → List String → ExecutionState
unfolding remove_each
release state resources = record state {
  active = state.active - 1;
  held_resources = remove_each resources state.held_resources;
}
