-- ===== src/Executor/Authority.antt =====
-- crates/machine-fabric-runtime/src/executor.rs: the authorities that an executor issues, over failed
-- writes and restarts.
use machine_fabric.Base.{
  All-map, subst, ◌≤◌, ◌<◌, String, ◌≡◌, ◌⊎◌, inl, inr, Option, none, some, List, [], ◌∷◌, All,
  u64_max, arith, Result, ok, err, Bool-cases,
}
use machine_fabric.BTreeMap.{BTreeMap}
use machine_fabric.Tasks.Table.{◌⊕◌}
use machine_fabric.Executor.Fences.{
  FenceRecord, Authority, AuthorityError, Contract, Fences, Writing, written, unwritten, torn,
  issue_each, persisted, issue_for, issue_authority, reopen,
}
use machine_fabric.Executor.Issue.{floor, Fits, Below, Above, Above-weaken, issue_each-Above}

pub data Call : Type 0 where
  issues : Option Contract → Writing → Call
  restarts : Call

abbrev given : Result AuthorityError (List Authority) → List Authority
given (err e) = []
given (ok authorities) = authorities

-- The authorities that a call gives out, and the fences after it.
unfoldable pub step : String → Fences → Call → List Authority × Fences
unfolding issue_authority reopen
step id fences (issues contract writing) =
    let (answer, fences') = issue_authority id fences contract writing in (given answer, fences')
step id fences restarts = ([], reopen fences)

unfoldable pub run : String → Fences → List Call → Fences
unfolding step
run id fences [] = fences
run id fences (call ∷ calls) = run id (step id fences call).1 calls

-- Fences are u64, and the file is not ahead of the memory.
pub record IsKept (fences : Fences) : Type 0 where
  pub fits : Fits fences.resources
  pub behind : Below fences.file fences.resources

-- What a call does: the file only rises, and the authorities given are above it and then in it.
record Rises (before : Fences) (answer : List Authority × Fences) : Type 0 where
  kept : IsKept answer.1
  rises : Below before.file answer.1.file
  above : All (Above before.file answer.1.file) answer.0

same-Rises : (fences : Fences) → IsKept fences → Rises fences ([], fences)
same-Rises fences k = record { kept = k; rises = λ r. omega arith; above = tt }

answered : Result AuthorityError (List Authority) × Fences → List Authority × Fences
answered (answer, fences) = (given answer, fences)

persisted-Rises :
    (id : String) (fences : Fences) (resources : List String) (writing : Writing)
    → IsKept fences
    → Rises fences (answered (persisted writing fences (issue_each id fences.resources resources)))
unfolding answered
persisted-Rises id fences resources written k =
    let (fits, below, all) = issue_each-Above id fences.resources resources k.fits in
    record {
      kept = record { fits = fits; behind = λ r. omega arith };
      rises = λ r. omega (arith, k.behind r, below r);
      above = All-map (Above-weaken fences.file fences.resources _ k.behind) _ all;
    }
persisted-Rises id fences resources unwritten k =
    let (fits, below, all) = issue_each-Above id fences.resources resources k.fits in
    record {
      kept = record { fits = fits; behind = λ r. omega (arith, k.behind r, below r) };
      rises = λ r. omega arith;
      above = tt;
    }
persisted-Rises id fences resources torn k =
    let (fits, below, all) = issue_each-Above id fences.resources resources k.fits in
    record {
      kept = record { fits = fits; behind = λ r. omega arith };
      rises = λ r. omega (arith, k.behind r, below r);
      above = tt;
    }

issue_for-Rises :
    (id : String) (fences : Fences) (writing : Writing)
    (resources : Result AuthorityError (List String))
    → IsKept fences
    → Rises fences (answered (issue_for id fences writing resources))
unfolding answered
issue_for-Rises id fences writing (err e) k = same-Rises fences k
issue_for-Rises id fences writing (ok resources) k =
    persisted-Rises ("executor:" ⊕ id) fences resources writing k

step-Rises :
    (id : String) (fences : Fences) (call : Call)
    → IsKept fences
    → Rises fences (step id fences call)
unfolding step issue_authority reopen answered
step-Rises id fences restarts k = record {
  kept = record { fits = λ r. omega (arith, k.fits r, k.behind r); behind = λ r. omega arith };
  rises = λ r. omega arith;
  above = tt;
}
step-Rises id fences (issues none writing) k = same-Rises fences k
step-Rises id fences (issues (some contract) writing) k = elim (Bool-cases contract.read_only) [
  | inl e ↦ rw e (same-Rises fences k)
  | inr e ↦ rw e (issue_for-Rises id fences writing contract.resources k)
]

run-Below :
    (id : String) (fences : Fences) (calls : List Call)
    → IsKept fences
    → IsKept (run id fences calls) × Below fences.file (run id fences calls).file
unfolding run
run-Below id fences [] k = (k, λ r. omega arith)
run-Below id fences (call ∷ calls) k =
    let s = step-Rises id fences call k in
    let (kept, below) = run-Below id (step id fences call).1 calls s.kept in
    (kept, λ r. omega (arith, s.rises r, below r))

exceeds :
    (x y : BTreeMap FenceRecord)
    → Below x y
    → (a b : Authority) → a.resource ≡ b.resource
    → a.fence ≤ floor x a.resource
    → (floor y b.resource < b.fence) ⊎ (b.fence ≡ u64_max)
    → (a.fence < b.fence) ⊎ (b.fence ≡ u64_max)
exceeds x y below a b same held fresh =
    let held' = subst (λ r. a.fence ≤ floor x r) same held in
    elim fresh [ inl h ↦ inl (omega (arith, h, held', below b.resource)) | inr h ↦ inr h ]

-- Of two calls on one executor, with any calls, failed writes and restarts between them, an authority
-- that the later call gives for a resource has a larger fence than each one that the earlier call gave
-- for it, unless it has the largest u64.
pub later_exceeds :
    (id : String) (fences : Fences) (earlier later : Call) (between : List Call)
    → IsKept fences
    → All
        (λ b.
          All
            (λ a. a.resource ≡ b.resource → (a.fence < b.fence) ⊎ (b.fence ≡ u64_max))
            (step id fences earlier).0)
        (step id (run id (step id fences earlier).1 between) later).0
later_exceeds id fences earlier later between k =
    let first = step-Rises id fences earlier k in
    let (kept, below) = run-Below id (step id fences earlier).1 between first.kept in
    let second = step-Rises id (run id (step id fences earlier).1 between) later kept in
    All-map (λ b h. All-map (λ a g same. exceeds _ _ below a b same g.1 h.0) _ first.above) _
      second.above
