-- ===== src/Tests/Executor.antt =====
-- Calls that share a resource, at a capacity of two.
use machine_fabric.Base.{◌≡◌, refl, List, [], ◌∷◌, arith, err}
use machine_fabric.BTreeMap.{get, insert, remove}
use machine_fabric.Executor.Capacity.{
  ExecutionCapacity, WaitingExecution, idle, enter, try_grant, release, executor_queue_full,
}
use machine_fabric.Executor.Permits.{
  System, Call, enters, tries, gives_up, drops, step, run, IsSound, run-IsSound, head_granted,
}

abbrev two : ExecutionCapacity
two = record { maximum = 2; maximum_queue = 3; wait_timeout = 1000 }

abbrev start : System
start = record { state = idle; permits = [] }

start-IsSound : IsSound two start
unfolding get
start-IsSound = record { counted = refl; bounded = omega arith; held = λ r. refl; apart = tt }

abbrev calls : List Call
calls =
    enters ("b" ∷ "a" ∷ "b" ∷ [])
    ∷ tries 0
    ∷ enters ("a" ∷ [])
    ∷ enters ("c" ∷ [])
    ∷ tries 0
    ∷ tries 1
    ∷ gives_up 1
    ∷ drops 1
    ∷ []

-- The second call waits for "a", the third passes it; then the second gives up and the first ends.
run-calls : (run two start calls).permits ≡ ("c" ∷ []) ∷ []
unfolding run enter insert get try_grant release remove
run-calls = refl

queue_full :
    (enter (record { maximum = 0; maximum_queue = 0; wait_timeout = 1000 }) idle []).0
    ≡ err executor_queue_full
unfolding enter
queue_full = refl

run-IsSound_example : IsSound two (run two start calls)
run-IsSound_example = run-IsSound two start calls start-IsSound

abbrev call_a : WaitingExecution
call_a = record { ticket = 4; resources = "a" ∷ [] }

abbrev one_waits : System
one_waits = record { state = record idle { waiting = call_a ∷ []; next_ticket = 5 }; permits = [] }

one_waits-IsSound : IsSound two one_waits
unfolding get
one_waits-IsSound = record { counted = refl; bounded = omega arith; held = λ r. refl; apart = tt }

head_granted_example : (step two one_waits (tries 0)).permits ≡ ("a" ∷ []) ∷ []
head_granted_example =
    head_granted two one_waits call_a [] one_waits-IsSound refl refl (omega arith)
