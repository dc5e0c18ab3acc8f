-- ===== src/Desktop/Turns.antt =====
-- crates/machine-fabric-runtime/src/desktop.rs: the job that waits longest is given the desktop.
use machine_fabric.Base.{
  ℕ, ◌+◌, ◌%◌, ◌^◌, ◌<◌, ◌≡◌, ◌≢◌, refl, ap, ◌∙◌, Bool, true, false, ◌||◌, not, ◌⊎◌, inl, inr,
  Option, none, some, List, [], ◌∷◌, ◌++◌, map, All, arith, get_elem?, position, update_at, length,
  Pairs, saturating_add, ok,
}
use machine_fabric.Desktop.Queue.{
  Job, JobState, queued, active, draining, completed, cancelled, expired, interrupted, other,
  DesktopQueue, is_queued, overdue,
}
use machine_fabric.Desktop.Gate.{availability}
use machine_fabric.Desktop.Promotion.{
  Readings, expire, candidate, is_free, gated, activate, grant_saving, grant_at, grant_next,
  promote,
}
use machine_fabric.Desktop.Ages.{IsOverdue, Aged, map-expire-Aged}
use machine_fabric.Desktop.Grants.{promote-eq}
use machine_fabric.Desktop.Idle.{
  Opens, Opens-availability, IsIdle, idle-live, AllWritten, refreshed, refresh-ok, expire_all-ok,
}

-- An earlier job does not wait, or not for long any more.
abbrev pub Passed : ℕ → Job → Type 0
Passed now job = (job.state ≢ queued) ⊎ IsOverdue now job

abbrev is_waiting : JobState → Bool
is_waiting queued = true
is_waiting _ = false

not_waiting_state : (state : JobState) → state ≢ queued → is_waiting state ≡ false
not_waiting_state queued h = absurd (h refl)
not_waiting_state active h = refl
not_waiting_state draining h = refl
not_waiting_state completed h = refl
not_waiting_state cancelled h = refl
not_waiting_state expired h = refl
not_waiting_state interrupted h = refl
not_waiting_state (other text) h = refl

not_waiting : (job : Job) → job.state ≢ queued → is_queued job ≡ false
not_waiting job h = not_waiting_state job.state h

Passed-gone : (now : ℕ) (job : Job) → Passed now job → is_queued (expire now job) ≡ false
Passed-gone now job (inl away) = let stays = not_waiting job away in ground (arith, stays)
Passed-gone now job (inr o) =
    let late : overdue job.deadline_at now ≡ true = rw o.has (ground (arith, o.passed)) in
    let waits : is_queued job ≡ true = ap is_waiting o.waits in rw (waits, late) refl

position-after :
    (now : ℕ) (earlier rest : List Job) (job : Job)
    → All (Passed now) earlier
    → is_queued job ≡ true
    → position is_queued (map (expire now) earlier ++ job ∷ rest) ≡ some (length earlier)
position-after now [] rest job h w = rw w refl
position-after now (e ∷ earlier) rest job h w =
    rw (Passed-gone now e h.0, position-after now earlier rest job h.1 w) refl

get-after :
    (f : Job → Job) (earlier rest : List Job) (job : Job)
    → get_elem? (map f earlier ++ job ∷ rest) (length earlier) ≡ some job
get-after f [] rest job = refl
get-after f (e ∷ earlier) rest job = get-after f earlier rest job

update-after :
    (f g : Job → Job) (earlier rest : List Job) (job : Job)
    → update_at (length earlier) g (map f earlier ++ job ∷ rest) ≡ map f earlier ++ g job ∷ rest
update-after f g [] rest job = refl
update-after f g (e ∷ earlier) rest job = ap (λ js. f e ∷ js) (update-after f g earlier rest job)

map-split :
    (f : Job → Job) (xs ys : List Job) (x : Job) → map f (xs ++ x ∷ ys) ≡ map f xs ++ f x ∷ map f ys
map-split f [] ys x = refl
map-split f (y ∷ xs) ys x = ap (λ js. f y ∷ js) (map-split f xs ys x)

not_overdue :
    (deadline : Option ℕ) (now : ℕ)
    → ((at : ℕ) → deadline ≡ some at → now < at)
    → overdue deadline now ≡ false
not_overdue none now h = refl
not_overdue (some at) now h = ground (arith, h at refl)

-- The queue that is free, with the head of those that wait behind those that passed.
module _ (r : Readings) (q : DesktopQueue) (earlier rest : List Job) (job : Job)
    (listed : q.jobs ≡ map (expire r.now) earlier ++ job ∷ map (expire r.now) rest)
    (passed : All (Passed r.now) earlier) (waits : is_queued job ≡ true) where
  candidate-head :
      not (gated q job) || availability r.snapshot r.snapshot_now ≡ true
      → candidate r q ≡ some (length earlier)
  unfolding candidate
  candidate-head opens =
      rw
        (
          listed,
          position-after r.now earlier (map (expire r.now) rest) job passed waits,
          get-after (expire r.now) earlier (map (expire r.now) rest) job,
          opens,
        )
        refl

  grant_next-head :
      not (gated q job) || availability r.snapshot r.snapshot_now ≡ true
      → is_free q ≡ true
      → r.grant_saved ≡ true
      → grant_next r q ≡ (
        ok tt,
        record q {
          epoch = (q.epoch + 1) % 2 ^ 64;
          jobs =
              map (expire r.now) earlier
              ++ activate ((q.epoch + 1) % 2 ^ 64) r.granted_at job ∷ map (expire r.now) rest;
        },
      )
  unfolding grant_next grant_at grant_saving
  grant_next-head opens free saved =
      rw
        (
          free,
          candidate-head opens,
          listed,
          get-after (expire r.now) earlier (map (expire r.now) rest) job,
          saved,
          update-after (expire r.now) (activate ((q.epoch + 1) % 2 ^ 64) r.granted_at) earlier
              (map (expire r.now) rest) job,
        )
        refl

-- The job may be given the desktop: nothing asks for a snapshot, or the snapshot opens it.
abbrev pub May : Readings → DesktopQueue → Job → Type 0
May r q job =
    ((job.requires_availability ≡ false)
      × (q.availability_required ≡ false)
      × (r.provider_file ≡ false))
    ⊎ Opens r.snapshot r.snapshot_now

May-opens :
    (r : Readings) (q : DesktopQueue) (job : Job)
    → May r q job
    → not (gated (refreshed r.provider_file q) job) || availability r.snapshot r.snapshot_now ≡ true
May-opens r q job (inl (free, required, file)) = rw (free, required, file) refl
May-opens r q job (inr opens) =
    let a = Opens-availability r.snapshot r.snapshot_now opens in ground (arith, a)

-- The queue once its jobs were expired.
abbrev aged : Readings → DesktopQueue → DesktopQueue
aged r q = record (refreshed r.provider_file q) { jobs = map (expire r.now) q.jobs }

aged-free : (r : Readings) (q : DesktopQueue) → IsIdle q → is_free (aged r q) ≡ true
unfolding is_free
aged-free r q idle =
    rw
      (
        idle.not_maintained,
        idle.not_blocked,
        idle.not_flying,
        idle-live r.now q.jobs idle.not_owned,
      )
      refl

aged-jobs :
    (r : Readings) (q : DesktopQueue) (earlier rest : List Job) (job : Job)
    → q.jobs ≡ earlier ++ job ∷ rest
    → ((at : ℕ) → job.deadline_at ≡ some at → r.now < at)
    → map (expire r.now) q.jobs ≡ map (expire r.now) earlier ++ job ∷ map (expire r.now) rest
aged-jobs r q earlier rest job listed early =
    let stays = not_overdue job.deadline_at r.now early in
    let kept : expire r.now job ≡ job = ground (arith, stays) in
    ap (map (expire r.now)) listed
    ∙ map-split (expire r.now) earlier rest job
    ∙ ap (λ j. map (expire r.now) earlier ++ j ∷ map (expire r.now) rest) kept

promote-aged :
    (r : Readings) (q : DesktopQueue)
    → IsIdle q
    → AllWritten r
    → promote r q ≡ grant_next r (aged r q)
promote-aged r q idle written =
    promote-eq r q idle.not_inspected
    ∙ rw
        (
          refresh-ok r.provider_file r.policy_saved q written.policy,
          expire_all-ok r.now r.expiry_saved (refreshed r.provider_file q) written.expiry,
        )
        refl

-- Where no session has the desktop, no maintenance, block, action or inspection is under way, and every
-- write succeeds, `promote` gives the desktop to the first waiting job that has not reached its
-- deadline, if it needs no snapshot or the snapshot opens the desktop. The job is then active, with the next epoch, until its time
-- to live after the grant has passed; every other job is as it was or has expired.
pub promote_grants :
    (r : Readings) (q : DesktopQueue) (earlier rest : List Job) (job : Job)
    → IsIdle q
    → AllWritten r
    → q.jobs ≡ earlier ++ job ∷ rest
    → All (Passed r.now) earlier
    → job.state ≡ queued
    → ((at : ℕ) → job.deadline_at ≡ some at → r.now < at)
    → May r q job
    → ((promote r q).0 ≡ ok tt)
      × ((promote r q).1.epoch ≡ (q.epoch + 1) % 2 ^ 64)
      × (earlier' : List Job) × (rest' : List Job) × ((promote r q).1.jobs
          ≡ earlier'
            ++ record job {
              epoch = (q.epoch + 1) % 2 ^ 64;
              state = active;
              expires_at = saturating_add r.granted_at job.ttl_ms;
            }
              ∷ rest')
      × Pairs (Aged r.now) earlier earlier'
      × Pairs (Aged r.now) rest rest'
promote_grants r q earlier rest job idle written listed passed waits early may =
    let done =
      promote-aged r q idle written
      ∙ grant_next-head r (aged r q) earlier rest job (aged-jobs r q earlier rest job listed early)
          passed (ap is_waiting waits) (May-opens r q job may) (aged-free r q idle) written.grant in
    (
      ap (λ x. x.0) done,
      ap (λ x. x.1.epoch) done,
      map (expire r.now) earlier,
      map (expire r.now) rest,
      ap (λ x. x.1.jobs) done,
      map-expire-Aged r.now earlier,
      map-expire-Aged r.now rest,
    )
