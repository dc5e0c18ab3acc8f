-- ===== src/Desktop/Permission.antt =====
-- crates/machine-fabric-runtime/src/desktop.rs: what an action needs that is let through, as facts of
-- the files and the clocks that were read.
use machine_fabric.Base.{
  ℕ, ◌+◌, ◌-◌, ◌%◌, ◌≤◌, ◌<◌, String, ◌≡◌, refl, ap, Bool, true, ◌&&◌, Option, none, some, arith,
  leb, ltb, is_some, eq_iff,
}
use machine_fabric.Desktop.Queue.{Job}
use machine_fabric.Desktop.Gate.{
  Snapshot, Receipt, is_text, same_text, has_text, allows_between, availability, grants,
  user_authorization,
}

-- A snapshot of the provider that is armed, says that the desktop is available, was taken in the last
-- ten seconds and has not ended.
pub record Armed (snapshot : Option Snapshot) (now : ℕ) : Type 0 where
  pub it : Snapshot
  pub found : snapshot ≡ some it
  pub provider : it.provider ≡ some "away-guard"
  pub armed : it.state ≡ some "armed"
  pub available : it.available ≡ true
  pub observed : ℕ
  pub seen : it.observed_at_ms ≡ some observed
  pub past : observed ≤ now
  pub fresh : now ≤ observed + 10000
  pub expires : ℕ
  pub ends : it.expires_at_ms ≡ some expires
  pub in_time : now < expires

-- A private file of the user that names this job, its owner, its token and the running boot, and that
-- has begun and not ended.
pub record Authorized (boot_id : Option String) (job : Job) (receipt : Option Receipt) (now : ℕ)
    : Type 0 where
  pub it : Receipt
  pub found : receipt ≡ some it
  pub private : it.mode % 512 ≡ 384
  pub own : it.own ≡ true
  pub source : it.source ≡ some "explicit-user"
  pub job_id : it.job_id ≡ some job.id
  pub owner : it.owner ≡ some job.owner
  pub token : it.sha_matches ≡ true
  pub boot : String
  pub booted : boot_id ≡ some boot
  pub same_boot : it.boot_id ≡ some boot
  pub granted : ℕ
  pub begins : it.granted_at_ms ≡ some granted
  pub past : granted ≤ now
  pub expires : ℕ
  pub ends : it.expires_at_ms ≡ some expires
  pub in_time : now < expires

pub is_text-eq : (t : Option String) (s : String) → is_text t s ≡ true → t ≡ some s
is_text-eq none s h = absurd (cc h)
is_text-eq (some t) s h = ap some ((eq_iff t s).0 h)

both_texts :
    (t b : Option String)
    → same_text t b ≡ true
    → is_some b ≡ true
    → (s : String) × (b ≡ some s) × (t ≡ some s)
both_texts (some t) (some b) h k = (b, refl, ap some ((eq_iff t b).0 h))
both_texts none none h k = absurd (cc k)
both_texts (some t) none h k = absurd (cc k)
both_texts none (some b) h k = absurd (cc h)

between-Armed :
    (v : Snapshot) (o e : Option ℕ) (now : ℕ)
    → v.observed_at_ms ≡ o
    → v.expires_at_ms ≡ e
    → allows_between v o e now ≡ true
    → Armed (some v) now
unfolding allows_between
between-Armed v none e now p q h = absurd (cc h)
between-Armed v (some o) none now p q h = absurd (cc h)
between-Armed v (some o) (some e) now p q h = record {
  it = v;
  found = refl;
  provider = is_text-eq v.provider "away-guard" (ground (arith, h));
  armed = is_text-eq v.state "armed" (ground (arith, h));
  available = ground (arith, h);
  observed = o;
  seen = p;
  past = ground (arith, h);
  fresh = ground (arith, h);
  expires = e;
  ends = q;
  in_time = ground (arith, h);
}

pub availability-Armed :
    (snapshot : Option Snapshot) (now : ℕ) → availability snapshot now ≡ true → Armed snapshot now
unfolding availability
availability-Armed none now h = absurd (cc h)
availability-Armed (some v) now h = between-Armed v v.observed_at_ms v.expires_at_ms now refl refl h

-- The times of a receipt, among the other conditions.
receipt_times :
    (granted expires now : ℕ) (before short uuid reason : Bool)
    → before && leb granted now && ltb now expires && short && uuid && reason ≡ true
    → (granted ≤ now) × (now < expires)
receipt_times granted expires now before short uuid reason h =
    (ground (arith, h), ground (arith, h))

grants-Authorized :
    (v : Receipt) (boot_id : Option String) (job : Job) (g e : Option ℕ) (now : ℕ)
    → v.granted_at_ms ≡ g
    → v.expires_at_ms ≡ e
    → v.mode % 512 ≡ 384
    → v.own ≡ true
    → grants v boot_id job g e now ≡ true
    → Authorized boot_id job (some v) now
unfolding grants
grants-Authorized v boot_id job none e now p q m o h = absurd (cc h)
grants-Authorized v boot_id job (some g) none now p q m o h = absurd (cc h)
grants-Authorized v boot_id job (some g) (some e) now p q m o h =
    let (boot, booted, same_boot) =
      both_texts v.boot_id boot_id (ground (arith, h)) (ground (arith, h)) in
    let (begun, open_still) =
      receipt_times g e now
        (v.schema_version_is_1
          && is_text v.source "explicit-user"
          && is_text v.job_id job.id
          && is_text v.owner job.owner
          && is_text v.request_key job.request_key
          && v.sha_matches
          && same_text v.boot_id boot_id
          && is_some boot_id)
        (leb (e - g) 900000) v.is_uuid (has_text v.reason 512) h in
    record {
      it = v;
      found = refl;
      private = m;
      own = o;
      source = is_text-eq v.source "explicit-user" (ground (arith, h));
      job_id = is_text-eq v.job_id job.id (ground (arith, h));
      owner = is_text-eq v.owner job.owner (ground (arith, h));
      token = ground (arith, h);
      boot = boot;
      booted = booted;
      same_boot = same_boot;
      granted = g;
      begins = p;
      past = begun;
      expires = e;
      ends = q;
      in_time = open_still;
    }

pub user_authorization-Authorized :
    (boot_id : Option String) (job : Job) (receipt : Option Receipt) (now : ℕ)
    → user_authorization boot_id job receipt now ≡ true
    → Authorized boot_id job receipt now
unfolding user_authorization
user_authorization-Authorized boot_id job none now h = absurd (cc h)
user_authorization-Authorized boot_id job (some v) now h =
    grants-Authorized v boot_id job v.granted_at_ms v.expires_at_ms now refl refl
      (ground (arith, h)) (ground (arith, h)) (ground (arith, h))
