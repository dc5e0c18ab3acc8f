-- ===== src/Desktop/Exclusive.antt =====
-- crates/machine-fabric-runtime/src/desktop.rs: at most one session has the desktop, after every
-- method in every order, whatever the clocks and the files show.
use machine_fabric.Base.{
  any-get_elem?, ℕ, ◌+◌, ◌%◌, ◌^◌, ◌≤◌, ◌≡◌, refl, Bool, true, false, Option, none, some, List, [],
  ◌∷◌, any, arith, update_at, update_first, Bool-cases, inl, inr, ◌==◌,
}
use machine_fabric.Desktop.Queue.{
  Job, JobState, DesktopQueue, is_live, queued, active, draining, completed, cancelled, expired,
  interrupted, other, owns_desktop,
}
use machine_fabric.Desktop.Promotion.{
  Readings, expire, candidate, is_free, activate, grant_saving, grant_at, elem_at, grant_next,
}
use machine_fabric.Desktop.Commands.{stopped}
use machine_fabric.Desktop.Stable.{Stable}
use machine_fabric.Desktop.Runs.{Call, run, run-keeps}
use machine_fabric.Desktop.Live.{
  live_count, IsExclusive, live_count-none, live_count-append, live_count-map, live_count-update_at,
  live_count-update_first,
}

expire-live : (now : ℕ) (job : Job) → is_live (expire now job) ≡ true → is_live job ≡ true
expire-live now job h = ground (arith, h)

is_free-idle : (q : DesktopQueue) → is_free q ≡ true → any is_live q.jobs ≡ false
unfolding is_free
is_free-idle q h = ground (arith, h)

grant_at-IsExclusive :
    (r : Readings) (q : DesktopQueue) (i : Option ℕ) (job : Option Job)
    → any is_live q.jobs ≡ false
    → elem_at i q.jobs ≡ job
    → IsExclusive (grant_at r q i job).1
unfolding grant_at grant_saving
grant_at-IsExclusive r q none job h e = omega (arith, live_count-none q.jobs h)
grant_at-IsExclusive r q (some i) none h e = omega (arith, live_count-none q.jobs h)
grant_at-IsExclusive r q (some i) (some job) h e =
    let jobs' = update_at i (activate ((q.epoch + 1) % 2 ^ 64) r.granted_at) q.jobs in
    let idle = any-get_elem? is_live q.jobs i job h e in
    let back =
      live_count-update_first (λ j. j.id == job.id) (λ _. job) jobs'
        (λ _ _ l. absurd (cc (l, idle))) in
    let up = live_count-update_at i (activate ((q.epoch + 1) % 2 ^ 64) r.granted_at) q.jobs in
    elim (Bool-cases r.grant_saved) [
      | inl s ↦ rw s (omega (arith, live_count-none q.jobs h, up))
      | inr s ↦ rw s (omega (arith, live_count-none q.jobs h, up, back))
    ]

grant_next-IsExclusive :
    (r : Readings) (q : DesktopQueue) → IsExclusive q → IsExclusive (grant_next r q).1
unfolding grant_next
grant_next-IsExclusive r q h = elim (Bool-cases (is_free q)) [
  | inl p ↦ rw p (
      grant_at-IsExclusive r q (candidate r q) (elem_at (candidate r q) q.jobs) (is_free-idle q p)
        refl)
  | inr p ↦ rw p h
]

-- A change of the first job that passes a test, which makes no job live that was not.
update_first-IsLone :
    (p : Job → Bool) (f : Job → Job) (jobs : List Job)
    → ((job : Job) → p job ≡ true → is_live (f job) ≡ true → is_live job ≡ true)
    → live_count jobs ≤ 1
    → live_count (update_first p f jobs) ≤ 1
update_first-IsLone p f jobs k h = omega (arith, h, live_count-update_first p f jobs k)

stopped-live : (state : JobState) → owns_desktop (stopped state) ≡ true → owns_desktop state ≡ true
stopped-live queued l = absurd (cc l)
stopped-live active l = refl
stopped-live draining l = refl
stopped-live completed l = l
stopped-live cancelled l = l
stopped-live expired l = l
stopped-live interrupted l = l
stopped-live (other s) l = l

queued-weight : (job : Job) → job.state ≡ queued → live_count (job ∷ []) ≡ 0
queued-weight job e = rw e refl

exclusive-Stable : Stable (λ jobs. live_count jobs ≤ 1)
exclusive-Stable = record {
  expires = λ now jobs h. omega (arith, h, live_count-map (expire now) jobs (expire-live now));
  grants = λ r q h. grant_next-IsExclusive r q h;
  drains = λ now later jobs h. update_first-IsLone _ _ jobs (λ job l _. l) h;
  cleans = λ blocked now jobs h. update_first-IsLone _ _ jobs (λ job l _. l) h;
  interrupts = λ jobs h. update_first-IsLone _ _ jobs (λ job l _. l) h;
  claims = λ owner token consumer jobs h. update_first-IsLone _ _ jobs (λ job _ l. l) h;
  extends = λ owner token now jobs h. update_first-IsLone _ _ jobs (λ job _ l. l) h;
  stops =
      λ owner token jobs h. update_first-IsLone _ _ jobs (λ job _ l. stopped-live job.state l) h;
  adds = λ job jobs e h. omega (arith, h, live_count-append jobs (job ∷ []), queued-weight job e);
}

-- At most one session has the desktop, after every sequence of calls from a queue where at most one
-- has it, whatever the clocks, the files and the failed writes are.
pub run-IsExclusive :
    (q : DesktopQueue) (calls : List Call) → IsExclusive q → IsExclusive (run q calls)
run-IsExclusive q calls h = run-keeps (λ jobs. live_count jobs ≤ 1) exclusive-Stable q calls h
