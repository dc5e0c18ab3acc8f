-- ===== src/Desktop/Admission.antt =====
-- crates/machine-fabric-runtime/src/desktop.rs: what `begin` lets through, and what the opening of a
-- stored queue makes of an action that was interrupted.
use mathlib.Core.Option.{some-injective}
use machine_fabric.Base.{
  ◌<◌, ◌≢◌, ◌==◌, ◌&&◌, not, is_some, eq_iff, Bool-cases, ℕ, String, ◌≡◌, refl, ap, ◌∙◌, Bool, true,
  false, ◌||◌, Option, none, some, List, [], ◌∷◌, map, any, arith, ◌⊎◌, inl, inr, find, sym, subst,
  if◌then◌else◌, if_elim, Result, ok, err, after,
}
use machine_fabric.Desktop.Queue.{
  Job, DesktopQueue, busy, recovery_required, is_live, is_active, active, overdue,
}
use machine_fabric.Desktop.Gate.{is_text, availability}
use machine_fabric.Desktop.Permission.{
  Armed, Authorized, is_text-eq, availability-Armed, user_authorization-Authorized,
}
use machine_fabric.Desktop.Promotion.{
  gated, authorized, Readings, refresh_availability_policy, retire, reopened, restarted,
  open_with_boot_id,
}
use machine_fabric.Desktop.Commands.{is_over}
use machine_fabric.Desktop.Dispatch.{Credentials, admits, admits_legacy, admission, begin, fly}

after-ok {ℓ κ μ ν} :
    {E : Type ℓ} {A : Type κ} {B : Type μ} {S : Type ν} (r : Result E A × S)
    (f : A → S → Result E B × S) (b : B) (t : S)
    → after r f ≡ (ok b, t)
    → (a : A) × (s : S) × (r ≡ (ok a, s)) × (f a s ≡ (ok b, t))
after-ok (ok a, s) f b t h = (a, s, refl, h)
after-ok (err e, s) f b t h = absurd (cc h)

guard-ok {ℓ κ μ} :
    {E : Type ℓ} {A : Type κ} {S : Type μ} (b : Bool) (e : E) (s : S) (y : Result E A × S) (a : A)
    (t : S)
    → (if b then (err e, s) else y) ≡ (ok a, t)
    → (b ≡ false) × (y ≡ (ok a, t))
guard-ok true e s y a t h = absurd (cc h)
guard-ok false e s y a t h = (refl, h)

-- What the policy is once it was refreshed, and what else stays as it is.
record Refreshed (file : Bool) (q t : DesktopQueue) : Type 0 where
  jobs : t.jobs ≡ q.jobs
  blocked : t.blocked ≡ q.blocked
  owner : t.maintenance_owner ≡ q.maintenance_owner
  boot : t.boot_id ≡ q.boot_id
  required : t.availability_required ≡ q.availability_required || file

refresh-Refreshed :
    (file saved : Bool) (q t : DesktopQueue)
    → refresh_availability_policy file saved q ≡ (ok tt, t)
    → Refreshed file q t
unfolding refresh_availability_policy
refresh-Refreshed file saved q t h = record {
  jobs = ground (arith, h);
  blocked = ground (arith, h);
  owner = ground (arith, h);
  boot = ground (arith, h);
  required = ground (arith, h);
}

fly-ok :
    (saved : Bool) (q t : DesktopQueue)
    → fly saved q ≡ (ok tt, t)
    → (t.in_flight ≡ true) × (t.blocked ≡ q.blocked)
fly-ok saved q t h = (ground (arith, h), ground (arith, h))

begin-busy :
    (q : DesktopQueue) (action : String) (who : Credentials) (r : Readings) (later : ℕ)
    (saved : Bool)
    → q.blocked ≡ false
    → q.in_flight ≡ true
    → begin q action who r later saved ≡ (err busy, q)
unfolding begin
begin-busy q action who r later saved b f =
    if_elim (λ x. x ≡ (err busy, q)) q.blocked _ _ (λ h. absurd (cc (h, b)))
      λ _. if_elim (λ x. x ≡ (err busy, q)) q.in_flight _ _ (λ _. refl) (λ h. absurd (cc (h, f)))

-- The session that the caller may act for: active, before its end and its deadline, with the caller's
-- token and owner. Where the job or the node asks for a permission, the provider gives one or the user
-- has given one for this job.
pub record Serves (q : DesktopQueue) (who : Credentials) (r : Readings) (later : ℕ) (job : Job)
    : Type 0 where
  pub serving : job.state ≡ active
  pub in_time : r.now < job.expires_at
  pub in_deadline : (at : ℕ) → job.deadline_at ≡ some at → later < at
  pub token : who.token ≡ some job.token
  pub owner : who.owner ≡ some job.owner
  pub permitted :
      job.requires_availability || (q.availability_required || r.provider_file) ≡ true
      → Armed r.snapshot r.snapshot_now
        ⊎ Authorized q.boot_id job (r.receipt job) (r.receipt_now job)

-- An action that needs no session: no maintenance, no policy that asks for a permission, no session
-- named, and not a call of the computer.
pub record IsFree (q : DesktopQueue) (action : String) (who : Credentials) (r : Readings)
    : Type 0 where
  pub unowned : find is_live q.jobs ≡ none
  pub no_maintenance : q.maintenance_owner ≡ none
  pub no_policy : q.availability_required ≡ false
  pub no_provider : r.provider_file ≡ false
  pub no_call : action ≢ "computer-use.call"
  pub unnamed : who.has_desktop ≡ false

is_active-eq : (job : Job) → is_active job ≡ true → job.state ≡ active
is_active-eq job h = ground (arith, h)

before-deadline :
    (deadline_at : Option ℕ) (later : ℕ)
    → overdue deadline_at later ≡ false
    → (at : ℕ) → deadline_at ≡ some at
    → later < at
before-deadline none later h at e = absurd (cc e)
before-deadline (some d) later h at e =
    subst (λ x. later < x) (some-injective d at e) (ground (arith, h))

-- What `admits` has tested.
admits-tests :
    (q : DesktopQueue) (who : Credentials) (r : Readings) (later : ℕ) (job : Job)
    → admits q who r later job ≡ ok tt
    → (is_active job ≡ true)
      × (is_over job r.now later ≡ false)
      × (is_text who.token job.token ≡ true)
      × (is_text who.owner job.owner ≡ true)
      × (gated q job && not (availability r.snapshot r.snapshot_now) && not (authorized r q job)
          ≡ false)
unfolding admits
admits-tests q who r later job h = ground (arith, h)

admits-Serves :
    (q t : DesktopQueue) (who : Credentials) (r : Readings) (later : ℕ) (job : Job)
    → Refreshed r.provider_file q t
    → admits t who r later job ≡ ok tt
    → Serves q who r later job
admits-Serves q t who r later job same h =
    let (serving, over, token, owner, barred) = admits-tests t who r later job h in
    record {
      serving = is_active-eq job serving;
      in_time = ground (arith, over);
      in_deadline = before-deadline job.deadline_at later (ground (arith, over));
      token = is_text-eq who.token job.token token;
      owner = is_text-eq who.owner job.owner owner;
      permitted = λ needed.
          let required : gated t job ≡ true = rw same.required needed in
          elim (Bool-cases (availability r.snapshot r.snapshot_now)) [
            | inl p ↦ inl (availability-Armed r.snapshot r.snapshot_now p)
            | inr p ↦
                let given : authorized r t job ≡ true = ground (arith, barred, required, p) in
                inr (
                  subst (λ boot. Authorized boot job (r.receipt job) (r.receipt_now job)) same.boot
                    (user_authorization-Authorized t.boot_id job (r.receipt job) (r.receipt_now job)
                      given))
          ];
    }

-- What `admits_legacy` has tested.
legacy-tests :
    (q : DesktopQueue) (action : String) (who : Credentials)
    → admits_legacy q action who ≡ ok tt
    → (is_some q.maintenance_owner ≡ false)
      × (q.availability_required ≡ false)
      × ((action == "computer-use.call") ≡ false)
      × (who.has_desktop ≡ false)
unfolding admits_legacy
legacy-tests q action who h = ground (arith, h)

none-is_some : (o : Option String) → is_some o ≡ false → o ≡ none
none-is_some none h = refl
none-is_some (some x) h = absurd (cc h)

legacy-IsFree :
    (q t : DesktopQueue) (action : String) (who : Credentials) (r : Readings)
    → Refreshed r.provider_file q t
    → find is_live q.jobs ≡ none
    → admits_legacy t action who ≡ ok tt
    → IsFree q action who r
legacy-IsFree q t action who r same idle h =
    let (owner, policy, call, unnamed) = legacy-tests t action who h in
    let required : q.availability_required || r.provider_file ≡ false =
      sym same.required ∙ policy in
    record {
      unowned = idle;
      no_maintenance = sym same.owner ∙ none-is_some t.maintenance_owner owner;
      no_policy = ground (arith, required);
      no_provider = ground (arith, required);
      no_call = λ e. ground (arith, call, (eq_iff action "computer-use.call").1 e);
      unnamed = unnamed;
    }

-- For whom an action may start.
abbrev pub Admits : DesktopQueue → String → Credentials → Readings → ℕ → Type 0
Admits q action who r later =
    IsFree q action who r
    ⊎ ((job : Job) × (find is_live q.jobs ≡ some job) × Serves q who r later job)

admission-Admits :
    (q t : DesktopQueue) (action : String) (who : Credentials) (r : Readings) (later : ℕ)
    (live : Option Job)
    → Refreshed r.provider_file q t
    → find is_live q.jobs ≡ live
    → admission t action who r later live ≡ ok tt
    → Admits q action who r later
unfolding admission
admission-Admits q t action who r later none same e h =
    inl (legacy-IsFree q t action who r same e h)
admission-Admits q t action who r later (some job) same e h =
    inr (job, e, admits-Serves q t who r later job same h)

-- When `begin` lets an action through, the queue was not blocked and no action was in flight. Either a
-- session has the desktop: it is active, before its end and its deadline, the caller named its token
-- and owner, and a permission that it needs is there. Or none has it, and the action needs none: there
-- is no maintenance, no availability policy, no session named, and it is no call of the computer. The
-- action is in flight then, and every further `begin` is refused.
pub begin-Admits :
    (q t : DesktopQueue) (action : String) (who : Credentials) (r : Readings) (later : ℕ)
    (saved : Bool)
    → begin q action who r later saved ≡ (ok tt, t)
    → (q.blocked ≡ false)
      × (q.in_flight ≡ false)
      × Admits q action who r later
      × ((action' : String) (who' : Credentials) (r' : Readings) (later' : ℕ) (saved' : Bool)
          → begin t action' who' r' later' saved' ≡ (err busy, t))
unfolding begin
begin-Admits q t action who r later saved h =
    let (open_queue, h₁) = guard-ok q.blocked recovery_required q _ tt t h in
    let (landed, h₂) = guard-ok q.in_flight busy q _ tt t h₁ in
    let (_, q', refreshed, h₃) =
      after-ok (refresh_availability_policy r.provider_file r.policy_saved q) _ tt t h₂ in
    let (_, q'', admitted, h₄) =
      after-ok (admission q' action who r later (find is_live q'.jobs), q') _ tt t h₃ in
    let same = refresh-Refreshed r.provider_file r.policy_saved q q' refreshed in
    let flying = fly-ok saved q'' t h₄ in
    let still : t.blocked ≡ false =
      flying.1 ∙ sym (ap (λ x. x.1.blocked) admitted) ∙ same.blocked ∙ open_queue in
    (
      open_queue,
      landed,
      admission-Admits q q' action who r later (find is_live q'.jobs) same
          (ap (λ jobs. find is_live jobs) (sym same.jobs)) (ap (λ x. x.0) admitted),
      λ action' who' r' later' saved'. begin-busy t action' who' r' later' saved' still flying.0,
    )

retired-idle : (jobs : List Job) → any is_live (map retire jobs) ≡ false
retired-idle [] = refl
retired-idle (job ∷ jobs) = ground (arith, retired-idle jobs)

-- However a stored queue was left, no action is in flight once it is opened. After a restart of the
-- system it is not blocked and no session has the desktop; without evidence of one, an action that
-- was in flight or a session that had the desktop leaves it blocked.
pub reopened_safe :
    (stored q : DesktopQueue) (path : String) (boot_id : Option String) (now : ℕ) (saved : Bool)
    → open_with_boot_id (ok (some stored)) path boot_id now saved ≡ ok q
    → (q.in_flight ≡ false)
      × (restarted stored.boot_id boot_id ≡ true
          → (q.blocked ≡ false) × (any is_live q.jobs ≡ false))
      × (restarted stored.boot_id boot_id ≡ false
          → stored.in_flight || any is_live stored.jobs ≡ true
          → q.blocked ≡ true)
unfolding open_with_boot_id reopened
reopened_safe stored q path boot_id now saved h = (
  ground (arith, h),
  (λ r. ground (arith, h, retired-idle stored.jobs)),
  λ r i. ground (arith, h),
)
