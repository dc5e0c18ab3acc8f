-- ===== src/Tests/Fences.antt =====
-- An executor that issues authorities, over a failed write and a restart.
use machine_fabric.Base.{◌<◌, ◌≡◌, refl, false, ◌⊎◌, Option, some, [], ◌∷◌, All, u64_max, arith, ok}
use machine_fabric.BTreeMap.{get, insert}
use machine_fabric.Executor.Fences.{Contract, Fences, written, unwritten, issue_authority, reopen}
use machine_fabric.Executor.Authority.{issues, restarts, IsKept, step, run, later_exceeds}

abbrev writes : Option Contract
writes = some (record { read_only = false; resources = ok ("port:1" ∷ "disk" ∷ []) })

abbrev no_fences : Fences
no_fences = record { resources = []; file = [] }

no_fences-IsKept : IsKept no_fences
unfolding get
no_fences-IsKept = record { fits = λ r. omega arith; behind = λ r. omega arith }

-- A write fails, the executor restarts: the next fence is above the one that was given.
run-fences :
    (step "x"
      (run "x"
        (step "x" no_fences (issues writes written)).1
        (issues writes unwritten ∷ restarts ∷ []))
      (issues writes written)).0
    ≡ record { controller_id = "executor:x"; resource = "port:1"; fence = 2 }
      ∷ record { controller_id = "executor:x"; resource = "disk"; fence = 2 }
      ∷ []
unfolding run issue_authority insert get reopen
run-fences = refl

later_exceeds_example :
    All
      (λ b.
        All
          (λ a. a.resource ≡ b.resource → (a.fence < b.fence) ⊎ (b.fence ≡ u64_max))
          (step "x" no_fences (issues writes written)).0)
      (step "x"
        (run "x"
          (step "x" no_fences (issues writes written)).1
          (issues writes unwritten ∷ restarts ∷ []))
        (issues writes written)).0
later_exceeds_example =
    later_exceeds "x" no_fences (issues writes written) (issues writes written)
      (issues writes unwritten ∷ restarts ∷ []) no_fences-IsKept
