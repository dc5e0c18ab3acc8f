-- ===== src/Desktop/Idle.antt =====
-- crates/machine-fabric-runtime/src/desktop.rs: what a grant needs, and `promote` up to the choice.
use machine_fabric.Base.{
  ℕ, ◌+◌, ◌≤◌, ◌<◌, String, ◌≡◌, ◌≢◌, refl, ap, Bool, true, false, ◌&&◌, ◌||◌, not, Option, none,
  some, List, [], ◌∷◌, map, any, All, arith, ok, if_elim, ◌==◌,
}
use machine_fabric.Peer.Grant.{byte_len}
use machine_fabric.Desktop.Queue.{
  Job, JobState, queued, active, draining, completed, cancelled, expired, interrupted, other,
  DesktopQueue, is_live, owns_desktop,
}
use machine_fabric.Desktop.Gate.{Snapshot, availability, allows_between, has_text}
use machine_fabric.Desktop.Promotion.{
  Readings, refresh_availability_policy, expires_now, expire, expire_all, Answer,
}

-- A snapshot that opens the desktop: all that the provider has to write, and the clock.
pub record Opens (snapshot : Option Snapshot) (now : ℕ) : Type 0 where
  pub it : Snapshot
  pub found : snapshot ≡ some it
  pub schema : it.schema_version_is_1 ≡ true
  pub provider : it.provider ≡ some "away-guard"
  pub armed : it.state ≡ some "armed"
  pub generation : String
  pub generated : it.generation ≡ some generation
  pub not_blank : generation == "" ≡ false
  pub not_long : byte_len generation ≤ 256
  pub sequence : ℕ
  pub numbered : it.sequence ≡ some sequence
  pub positive : 1 ≤ sequence
  pub available : it.available ≡ true
  pub observed : ℕ
  pub seen : it.observed_at_ms ≡ some observed
  pub past : observed ≤ now
  pub fresh : now ≤ observed + 10000
  pub expires : ℕ
  pub ends : it.expires_at_ms ≡ some expires
  pub in_time : now < expires
  pub brief : expires ≤ observed + 10000

pub Opens-availability :
    (snapshot : Option Snapshot) (now : ℕ) → Opens snapshot now → availability snapshot now ≡ true
unfolding availability allows_between has_text
Opens-availability snapshot now o =
    rw
      (o.found, o.seen, o.ends, o.schema, o.provider, o.armed, o.generated, o.numbered, o.available)
      (ground (arith, o.not_blank, o.not_long, o.positive, o.past, o.fresh, o.in_time, o.brief))

-- Nobody has the desktop and nothing keeps it from being given.
pub record IsIdle (q : DesktopQueue) : Type 0 where
  pub not_inspected : q.recovery_inspection_active ≡ false
  pub not_maintained : q.maintenance_owner ≡ none
  pub not_blocked : q.blocked ≡ false
  pub not_flying : q.in_flight ≡ false
  pub not_owned : All (λ job. (job.state ≢ active) × (job.state ≢ draining)) q.jobs

not_owner : (state : JobState) → state ≢ active → state ≢ draining → owns_desktop state ≡ false
not_owner queued a d = refl
not_owner active a d = absurd (a refl)
not_owner draining a d = absurd (d refl)
not_owner completed a d = refl
not_owner cancelled a d = refl
not_owner expired a d = refl
not_owner interrupted a d = refl
not_owner (other text) a d = refl

pub not_live : (job : Job) → job.state ≢ active → job.state ≢ draining → is_live job ≡ false
not_live job a d = not_owner job.state a d

pub idle-live :
    (now : ℕ) (jobs : List Job)
    → All (λ job. (job.state ≢ active) × (job.state ≢ draining)) jobs
    → any is_live (map (expire now) jobs) ≡ false
idle-live now [] h = refl
idle-live now (job ∷ jobs) h = ground (arith, not_live job h.0.0 h.0.1, idle-live now jobs h.1)

-- The readings of one `promote` in which every write succeeds.
pub record AllWritten (r : Readings) : Type 0 where
  pub policy : r.policy_saved ≡ true
  pub expiry : r.expiry_saved ≡ true
  pub grant : r.grant_saved ≡ true

-- The queue once the policy was refreshed.
abbrev pub refreshed : Bool → DesktopQueue → DesktopQueue
refreshed file q = record q { availability_required = q.availability_required || file }

pub refresh-ok :
    (file saved : Bool) (q : DesktopQueue)
    → saved ≡ true
    → refresh_availability_policy file saved q ≡ (ok tt, refreshed file q)
unfolding refresh_availability_policy
refresh-ok file saved q s =
    if_elim (λ (x : Answer (Unit {0})). x ≡ (ok tt, refreshed file q))
      (not q.availability_required && file) _ _
      (λ h. rw s (ap (λ b. (ok tt, record q { availability_required = b })) (ground (arith, h))))
      (λ h. ap (λ b. (ok tt, record q { availability_required = b })) (ground (arith, h)))

pub expire_all-ok :
    (now : ℕ) (saved : Bool) (q : DesktopQueue)
    → saved ≡ true
    → expire_all now saved q ≡ (ok tt, record q { jobs = map (expire now) q.jobs })
unfolding expire_all
expire_all-ok now saved q s =
    if_elim (λ (x : Answer (Unit {0})). x ≡ (ok tt, record q { jobs = map (expire now) q.jobs }))
      (any (expires_now now) q.jobs) _ _ (λ h. rw s refl) (λ h. refl)
