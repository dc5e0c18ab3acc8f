-- ===== src/Desktop/Ages.antt =====
-- crates/machine-fabric-runtime/src/desktop.rs: the jobs before and after `promote` has expired some, and
-- what bars a grant.
use machine_fabric.Base.{
  ℕ, ◌≤◌, String, ◌≡◌, refl, ap, true, false, ◌⊎◌, inl, inr, Option, none, some, List, [], ◌∷◌, map,
  any, arith, get_elem?, any-get_elem?, Pairs, both_empty, both_more, Bool-cases,
}
use machine_fabric.Desktop.Queue.{
  Job, queued, active, draining, expired, DesktopQueue, is_live, is_queued, overdue, owns_desktop,
}
use machine_fabric.Desktop.Promotion.{expires_now, expire, is_free}

-- A job that waits and whose deadline has come.
pub record IsOverdue (now : ℕ) (job : Job) : Type 0 where
  pub waits : job.state ≡ queued
  pub deadline : ℕ
  pub has : job.deadline_at ≡ some deadline
  pub passed : deadline ≤ now

-- A job is as it was, or it was overdue and has expired.
pub data Aged (now : ℕ) (job : Job) : Job → Type 0 where
  same : Aged now job job
  ended : IsOverdue now job → Aged now job (record job { state = expired })

is_queued-eq : (job : Job) → is_queued job ≡ true → job.state ≡ queued
is_queued-eq job h = ground (arith, h)

overdue-some :
    (deadline : Option ℕ) (now : ℕ)
    → overdue deadline now ≡ true
    → (at : ℕ) × (deadline ≡ some at) × (at ≤ now)
overdue-some none now h = absurd (cc h)
overdue-some (some at) now h = (at, refl, ground (arith, h))

expires_now-IsOverdue : (now : ℕ) (job : Job) → expires_now now job ≡ true → IsOverdue now job
expires_now-IsOverdue now job h =
    let (at, has, passed) = overdue-some job.deadline_at now (ground (arith, h)) in
    record {
      waits = is_queued-eq job (ground (arith, h));
      deadline = at;
      has = has;
      passed = passed;
    }

pub expire-Aged : (now : ℕ) (job : Job) → Aged now job (expire now job)
expire-Aged now job = elim (Bool-cases (expires_now now job)) [
  | inl p ↦ rw p (ended (expires_now-IsOverdue now job p))
  | inr p ↦ rw p same
]

pub map-expire-Aged : (now : ℕ) (jobs : List Job) → Pairs (Aged now) jobs (map (expire now) jobs)
map-expire-Aged now [] = both_empty
map-expire-Aged now (job ∷ jobs) = both_more (expire-Aged now job) (map-expire-Aged now jobs)

pub unchanged-Aged : (now : ℕ) (jobs : List Job) → Pairs (Aged now) jobs jobs
unchanged-Aged now [] = both_empty
unchanged-Aged now (job ∷ jobs) = both_more same (unchanged-Aged now jobs)

-- What bars a grant: maintenance, a block, an action in flight, an inspection, or a session that has
-- the desktop.
pub data IsBarred (q : DesktopQueue) : Type 0 where
  maintained : (owner : String) → q.maintenance_owner ≡ some owner → IsBarred q
  is_blocked : q.blocked ≡ true → IsBarred q
  flies : q.in_flight ≡ true → IsBarred q
  inspected : q.recovery_inspection_active ≡ true → IsBarred q
  owned :
      (i : ℕ) (job : Job)
      → get_elem? q.jobs i ≡ some job
      → (job.state ≡ active) ⊎ (job.state ≡ draining)
      → IsBarred q

owner-live : (job : Job) → (job.state ≡ active) ⊎ (job.state ≡ draining) → is_live job ≡ true
owner-live job (inl e) = ap owns_desktop e
owner-live job (inr e) = ap owns_desktop e

pub barred-busy :
    (q : DesktopQueue) → IsBarred q → (q.recovery_inspection_active ≡ true) ⊎ (is_free q ≡ false)
unfolding is_free
barred-busy q (inspected e) = inl e
barred-busy q (maintained owner e) = inr (rw e refl)
barred-busy q (is_blocked e) = inr (ground (arith, e))
barred-busy q (flies e) = inr (ground (arith, e))
barred-busy q (owned i job e s) = inr (elim (Bool-cases (any is_live q.jobs)) [
  | inl p ↦ ground (arith, p)
  | inr p ↦ absurd (cc (any-get_elem? is_live q.jobs i job p e, owner-live job s))
])
