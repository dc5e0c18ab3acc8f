-- ===== src/Desktop/Live.antt =====
-- crates/machine-fabric-runtime/src/desktop.rs: how many sessions own the desktop.
use machine_fabric.Base.{
  ℕ, zero, suc, ◌+◌, ◌≤◌, ◌≡◌, refl, Bool, true, false, List, [], ◌∷◌, ◌++◌, map, any, arith,
  update_at, update_first, if◌then◌else◌, Result, ok, err, after, Bool-cases, inl, inr,
}
use machine_fabric.Desktop.Queue.{Job, DesktopQueue, DesktopError, is_live}

-- The number of jobs that are active or draining.
abbrev pub live_count : List Job → ℕ
live_count [] = 0
live_count (job ∷ jobs) = (if is_live job then 1 else 0) + live_count jobs

-- At most one session has the desktop.
abbrev pub IsExclusive : DesktopQueue → Type 0
IsExclusive queue = live_count queue.jobs ≤ 1

pub live_count-none : (jobs : List Job) → any is_live jobs ≡ false → live_count jobs ≡ 0
live_count-none [] h = refl
live_count-none (job ∷ jobs) h = ground (arith, h, live_count-none jobs)

pub live_count-append :
    (jobs more : List Job) → live_count (jobs ++ more) ≡ live_count jobs + live_count more
live_count-append [] more = omega arith
live_count-append (job ∷ jobs) more = omega (arith, live_count-append jobs more)

weight-le :
    (a b : Job)
    → (is_live b ≡ true → is_live a ≡ true)
    → (if is_live b then 1 else 0) ≤ (if is_live a then 1 else 0)
weight-le a b h = elim (Bool-cases (is_live b)) [
  | inl p ↦ rw (p, h p) (omega arith)
  | inr p ↦ rw p (omega arith)
]

pub live_count-map :
    (f : Job → Job) (jobs : List Job)
    → ((job : Job) → is_live (f job) ≡ true → is_live job ≡ true)
    → live_count (map f jobs) ≤ live_count jobs
live_count-map f [] h = omega arith
live_count-map f (job ∷ jobs) h =
    omega (arith, weight-le job (f job) (h job), live_count-map f jobs h)

weight-le-one : (b : Bool) → (if b then 1 else 0) ≤ 1
weight-le-one true = omega arith
weight-le-one false = omega arith

pub live_count-update_at :
    (i : ℕ) (f : Job → Job) (jobs : List Job)
    → live_count (update_at i f jobs) ≤ live_count jobs + 1
live_count-update_at i f [] = omega arith
live_count-update_at zero f (job ∷ jobs) = omega (arith, weight-le-one (is_live (f job)))
live_count-update_at (suc i) f (job ∷ jobs) = omega (arith, live_count-update_at i f jobs)

pub live_count-update_first :
    (p : Job → Bool) (f : Job → Job) (jobs : List Job)
    → ((job : Job) → p job ≡ true → is_live (f job) ≡ true → is_live job ≡ true)
    → live_count (update_first p f jobs) ≤ live_count jobs
live_count-update_first p f [] h = omega arith
live_count-update_first p f (job ∷ jobs) h = elim (Bool-cases (p job)) [
  | inl e ↦ rw e (omega (arith, weight-le job (f job) (h job e)))
  | inr e ↦ rw e (omega (arith, live_count-update_first p f jobs h))
]

-- What the first part of a chain establishes, and the second makes of it.
pub after_leads {ℓ κ μ ν} :
    {A : Type ℓ} {B : Type κ} (P : DesktopQueue → Type μ) (Q : DesktopQueue → Type ν)
    (r : Result DesktopError A × DesktopQueue)
    (f : A → DesktopQueue → Result DesktopError B × DesktopQueue)
    → P r.1
    → ((queue : DesktopQueue) → P queue → Q queue)
    → ((a : A) (queue : DesktopQueue) → P queue → Q (f a queue).1)
    → Q (after r f).1
after_leads P Q (ok a, queue) f h w k = k a queue h
after_leads P Q (err e, queue) f h w k = w queue h
