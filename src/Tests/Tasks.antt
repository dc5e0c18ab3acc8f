-- ===== src/Tests/Tasks.antt =====
-- The task table at concrete inputs; a payload is a number.
use machine_fabric.Base.{
  ℕ, ◌≡◌, ◌≢◌, refl, true, false, inl, none, some, [], ◌∷◌, Bool, ◌⊎◌, take, drop, keep, length,
  String,
}
use machine_fabric.BTreeMap.{get, insert}
use machine_fabric.Schema.{
  Task, TaskPayloadRef, queued, running, succeeded, failed, cancelled, outcome_unknown,
}
use machine_fabric.Tasks.Table.{
  TaskTable, empty, key_of, get_task, scoped_idempotency_key, snapshot, from_tasks, nul_text, ◌⊕◌,
}
use machine_fabric.Tasks.Lifecycle.{submit_traced, transition, recover_orphans}
use machine_fabric.Tasks.Upkeep.{page_by, prune_terminal_before}
use machine_fabric.Tasks.Consistent.{IsConsistent}
use machine_fabric.Tasks.Methods.{transition-IsConsistent}
use machine_fabric.Tasks.Evolution.{Later}
use machine_fabric.Tasks.Steps.{
  Step, Reach, here, next, submits, transitions, recovers, Reach-IsConsistent, empty-IsConsistent,
}
use machine_fabric.Tasks.History.{Step-Later}
use machine_fabric.Tasks.Events.{IsAudited, Reach-IsAudited}
use machine_fabric.Tasks.Submission.{Answers, submit-Answers, submit_twice, submit_nul_collision}
use machine_fabric.Tasks.Key.{scoped_key_inj}
use machine_fabric.Tasks.History.{Prunes}
use machine_fabric.Tasks.Final.{final_stays, recover_exact}
use machine_fabric.Tasks.Page.{page_by-eq}
use machine_fabric.Tasks.Prune.{unpruned, prune_exact}
use machine_fabric.Tasks.Restore.{from_tasks-snapshot}

abbrev start : TaskTable ℕ
start = empty

-- A build that was submitted at time 10.
abbrev build : Task ℕ
build = record {
  id = "task_a";
  correlation_id = none;
  request_id = none;
  workspace_session_id = "s";
  executor_id = "e";
  capability = "artifact.build";
  input = 7;
  input_ref = none;
  output = none;
  output_ref = none;
  error = none;
  idempotency_key = "k";
  state = queued;
  attempt = 0;
  revision = 1;
  created_at = 10;
  updated_at = 10;
  events = record { sequence = 1; timestamp = 11; event_type = "task.queued"; details = 0 } ∷ [];
}

abbrev submitted : TaskTable ℕ
submitted = record { tasks = ("task_a", build) ∷ []; idempotency = (key_of build, "task_a") ∷ [] }

submit_runs :
    submit_traced 0 start "s" "e" "artifact.build" 7 "k" none none 10 11 "a"
    ≡ some ((build, false), submitted)
unfolding submit_traced get insert scoped_idempotency_key
submit_runs = refl

submitted-Reach : Reach 0 start submitted
unfolding get
submitted-Reach =
    next here
      (submits "s" "e" "artifact.build" 7 "k" none none 10 11 "a" (build, false) refl submit_runs)

submitted-IsConsistent : IsConsistent submitted
submitted-IsConsistent = Reach-IsConsistent 0 (empty-IsConsistent 0) submitted-Reach

Reach-IsConsistent_example : IsConsistent submitted
Reach-IsConsistent_example = Reach-IsConsistent 0 (empty-IsConsistent 0) submitted-Reach

submit-Answers_example :
    (answer : Task ℕ × Bool) × (table' : TaskTable ℕ) × (submit_traced 0 submitted "s" "e"
        "artifact.build" 8 "k" none none 20 21 "b"
      ≡ some (answer, table'))
    × Answers submitted (scoped_idempotency_key "s" "e" "artifact.build" "k") answer table'
submit-Answers_example =
    submit-Answers 0 submitted "s" "e" "artifact.build" 8 "k" none none 20 21 "b"
      submitted-IsConsistent

submit_twice_example :
    submit_traced 0 submitted "s" "e" "artifact.build" 9 "k" none none 20 21 "b"
    ≡ some ((build, true), submitted)
submit_twice_example =
    submit_twice 0 start submitted (build, false) "s" "e" "artifact.build" 7 "k" none none 10 11 "a"
      "s" "e" "artifact.build" 9 "k" none none 20 21 "b" (empty-IsConsistent 0) submit_runs refl

-- A submission whose session holds a NUL.
abbrev odd_task : Task ℕ
odd_task = record build { workspace_session_id = "x" ⊕ nul_text ⊕ "y" }

abbrev odd_table : TaskTable ℕ
odd_table = record {
  tasks = ("task_a", odd_task) ∷ [];
  idempotency = (key_of odd_task, "task_a") ∷ [];
}

odd_runs :
    submit_traced 0 start ("x" ⊕ nul_text ⊕ "y") "e" "artifact.build" 7 "k" none none 10 11 "a"
    ≡ some ((odd_task, false), odd_table)
unfolding submit_traced get insert scoped_idempotency_key
odd_runs = refl

submit_nul_collision_example :
    submit_traced 0 odd_table "x" "y" ("e" ⊕ nul_text ⊕ "artifact.build") 8 "k" none none 20 21 "b"
    ≡ some ((odd_task, true), odd_table)
submit_nul_collision_example =
    submit_nul_collision 0 start odd_table (odd_task, false) "x" "y" "e" "artifact.build" "k" 7 8 10
      11 20 21 "a" "b" (empty-IsConsistent 0) odd_runs

scoped_key_inj_example :
    ◌≡◌ {A = String} "s" "s"
    × ◌≡◌ {A = String} "e" "e"
    × ◌≡◌ {A = String} "c" "c"
    × ◌≡◌ {A = String} "k" "k"
scoped_key_inj_example =
    scoped_key_inj "s" "e" "c" "k" "s" "e" "c" "k" (refl, tt) (refl, tt) (refl, tt) (refl, tt)
      (refl, tt) (refl, tt) refl

submitted_get : get_task submitted "task_a" ≡ some build
unfolding get
submitted_get = refl

Step-Later_example :
    Later (transition 0 submitted "task_a" running none none 20 21).1 "task_a" build
Step-Later_example =
    Step-Later 0 "task_a" build (transitions "task_a" running none none 20 21 refl) submitted_get

Reach-IsAudited_example : IsAudited build
Reach-IsAudited_example = Reach-IsAudited 0 submitted "task_a" build submitted-Reach submitted_get

abbrev done_table : TaskTable ℕ
done_table = record submitted { tasks = ("task_a", record build { state = succeeded }) ∷ [] }

abbrev recovery : Step 0 done_table (recover_orphans 0 done_table (λ n. n)).1
recovery = recovers (λ n. n) refl

final_stays_example :
    let table' = (recover_orphans 0 done_table (λ n. n)).1 in
    ((task' : Task ℕ) × (get_task table' "task_a" ≡ some task') × (task'.state ≡ succeeded))
    ⊎ (Prunes 0 recovery × (get_task table' "task_a" ≡ none))
unfolding get
final_stays_example =
    final_stays 0 "task_a" (record build { state = succeeded }) recovery refl (inl refl)

abbrev failed_table : TaskTable ℕ
failed_table = record submitted { tasks = ("task_a", record build { state = failed }) ∷ [] }

abbrev reference : TaskPayloadRef
reference = record { digest = "d"; bytes = 5; locator = "l"; chunk = none }

recover_exact_example :
    let table' = (recover_orphans 0 submitted (λ n. n)).1 in
    ((get_task submitted "task_b" ≡ none) × (get_task table' "task_b" ≡ none))
    ⊎ ((task : Task ℕ) × (task' : Task ℕ) × (get_task submitted "task_b" ≡ some task)
        × (get_task table' "task_b" ≡ some task')
        × (task'.state ≢ queued)
        × (task'.state ≢ running)
        × ((task.state ≡ queued) ⊎ (task.state ≡ running) → task'.state ≡ outcome_unknown)
        × (task.state ≢ queued → task.state ≢ running → task' ≡ task))
recover_exact_example = recover_exact 0 submitted (λ n. n) "task_b"

page_by-eq_example : page_by submitted 0 5 (λ task. true) ≡ (
  length (keep (λ task. true) (snapshot submitted)),
  take 5 (drop 0 (keep (λ task. true) (snapshot submitted))),
)
page_by-eq_example = page_by-eq submitted 0 5 (λ task. true)

prune_exact_example :
    get_task (prune_terminal_before submitted 30).1 "task_a"
    ≡ unpruned 30 (get_task submitted "task_a")
prune_exact_example = prune_exact submitted 30 "task_a" submitted-IsConsistent

done-IsConsistent : IsConsistent (transition 0 submitted "task_a" cancelled none none 20 21).1
done-IsConsistent =
    transition-IsConsistent 0 submitted "task_a" cancelled none none 20 21 submitted-IsConsistent

from_tasks-snapshot_example : from_tasks (snapshot submitted) ≡ submitted
from_tasks-snapshot_example = from_tasks-snapshot submitted submitted-IsConsistent
