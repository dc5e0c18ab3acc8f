-- ===== src/Desktop/Stable.antt =====
-- crates/machine-fabric-runtime/src/desktop.rs: a property of the list of jobs that every change of
-- the list keeps is kept by every method.
use machine_fabric.Base.{
  ℕ, String, ◌≡◌, Bool, true, false, Option, none, some, List, [], ◌∷◌, ◌++◌, map, find,
  update_first, any, if_elim, if◌then◌else◌, Result, ok, err, after, saturating_add, refl, not,
  ◌&&◌, ◌||◌, leb, length,
}
use machine_fabric.Desktop.Queue.{
  is_active, Job, DesktopQueue, DesktopError, is_live, queued, field,
}
use machine_fabric.Desktop.Gate.{availability}
use machine_fabric.Desktop.Promotion.{
  gated, authorized, Readings, saving, refresh_availability_policy, expires_now, expire, expire_all,
  grant_next, promote, drain_if_over, needs_cleanup, cleaned, cleanup_done, worker_reconcile,
}
use machine_fabric.Desktop.Commands.{
  owned_by_other, or_default, submit_found, claim_found, session_found, Params, Inputs,
  SessionAction, gets, renews, finishes, cancels, set_maintenance, with_field, maintenance, flag_or,
  future, same_request, add_job, submit_new, submit, holds, is_over, claim_saving, claim_by,
  claim_job, claim, stopped, session_job, session, interrupt, recover,
}

pub record Stable {ℓ} (P : List Job → Type ℓ) : Type ℓ where
  pub expires : (now : ℕ) (jobs : List Job) → P jobs → P (map (expire now) jobs)
  pub grants : (r : Readings) (q : DesktopQueue) → P q.jobs → P (grant_next r q).1.jobs
  pub drains :
      (now later : ℕ) (jobs : List Job)
      → P jobs
      → P (update_first is_live (drain_if_over now later) jobs)
  pub cleans :
      (blocked : Bool) (now : ℕ) (jobs : List Job)
      → P jobs
      → P (update_first is_live (cleaned blocked now) jobs)
  pub interrupts : (jobs : List Job) → P jobs → P (update_first is_live interrupt jobs)
  pub claims :
      (owner token consumer : String) (jobs : List Job)
      → P jobs
      → P (update_first (holds owner token) (claim_by consumer) jobs)
  pub extends :
      (owner token : String) (now : ℕ) (jobs : List Job)
      → P jobs
      → P (
          update_first
            (holds owner token)
            (λ job. record job { expires_at = saturating_add now job.ttl_ms })
            jobs)
  pub stops :
      (owner token : String) (jobs : List Job)
      → P jobs
      → P (update_first (holds owner token) (λ job. record job { state = stopped job.state }) jobs)
  pub adds : (job : Job) (jobs : List Job) → job.state ≡ queued → P jobs → P (jobs ++ job ∷ [])

module _ {ℓ} (P : List Job → Type ℓ) (stable : Stable P) where
  abbrev On : DesktopQueue → Type ℓ
  On q = P q.jobs

  -- The queue that an answer leaves has the property.
  pub record Ends {κ} {A : Type κ} (r : Result DesktopError A × DesktopQueue) : Type ℓ where
    pub kept : P r.1.jobs

  pub ends {κ} : {A : Type κ} {r : Result DesktopError A × DesktopQueue} → P r.1.jobs → Ends r
  ends h = record { kept = h }

  pub after-Ends {κ μ} :
      {A : Type κ} {B : Type μ} (r : Result DesktopError A × DesktopQueue)
      {f : A → DesktopQueue → Result DesktopError B × DesktopQueue}
      → Ends r
      → ((a : A) (q : DesktopQueue) → On q → Ends (f a q))
      → Ends (after r f)
  after-Ends (ok a, q) h k = k a q h.kept
  after-Ends (err e, q) h k = ends h.kept

  pub if-Ends {κ} :
      {A : Type κ} (b : Bool) {x y : Result DesktopError A × DesktopQueue}
      → Ends x
      → Ends y
      → Ends (if b then x else y)
  if-Ends true h k = h
  if-Ends false h k = k

  saves-Ends :
      (saved : Bool) (old new : DesktopQueue) → On new → On old → Ends (claim_saving saved old new)
  saves-Ends true old new h k = ends h
  saves-Ends false old new h k = ends k

  pub refresh-keeps :
      (file saved : Bool) (q : DesktopQueue)
      → On q
      → Ends (refresh_availability_policy file saved q)
  unfolding refresh_availability_policy
  refresh-keeps file saved q h = if-Ends (not q.availability_required && file) (ends h) (ends h)

  expire_all-keeps :
      (now : ℕ) (saved : Bool) (q : DesktopQueue) → On q → Ends (expire_all now saved q)
  unfolding expire_all
  expire_all-keeps now saved q h =
      if-Ends (any (expires_now now) q.jobs) (ends (stable.expires now q.jobs h))
        (ends (stable.expires now q.jobs h))

  pub promote-keeps : (r : Readings) (q : DesktopQueue) → On q → Ends (promote r q)
  unfolding promote
  promote-keeps r q h = if-Ends q.recovery_inspection_active (ends h) (
      after-Ends (refresh_availability_policy r.provider_file r.policy_saved q)
        (refresh-keeps r.provider_file r.policy_saved q h)
        λ _ q' h'.
          after-Ends (expire_all r.now r.expiry_saved q')
            (expire_all-keeps r.now r.expiry_saved q' h')
            λ _ q'' h''. ends (stable.grants r q'' h''))

  pub needs_cleanup-keeps :
      (q : DesktopQueue) (now later : ℕ) → On q → P (needs_cleanup q now later).1.jobs
  unfolding needs_cleanup
  needs_cleanup-keeps q now later h =
      if_elim (λ (x : Bool × DesktopQueue). P x.1.jobs) q.in_flight _ _ (λ _. h)
        (λ _. stable.drains now later q.jobs h)

  pub cleanup_done-keeps :
      (q : DesktopQueue) (success : Bool) (now : ℕ) (saved : Bool) (r : Readings)
      → On q
      → Ends (cleanup_done q success now saved r)
  unfolding cleanup_done
  cleanup_done-keeps q true now saved r h =
      after-Ends (saving saved _) (ends (stable.cleans q.blocked now q.jobs h))
        λ _ q' h'. promote-keeps r q' h'
  cleanup_done-keeps q false now saved r h =
      after-Ends (saving saved _) (ends h) λ _ q' h'. promote-keeps r q' h'

  pub worker_reconcile-keeps :
      (q : DesktopQueue) (notification : Bool) (r : Readings)
      → On q
      → Ends (worker_reconcile q notification r)
  unfolding worker_reconcile
  worker_reconcile-keeps q true r h = promote-keeps r _ h
  worker_reconcile-keeps q false r h = promote-keeps r _ h

  with_field-keeps {κ} :
      {A : Type κ} (s : Option String) (q : DesktopQueue)
      {f : String → Result DesktopError A × DesktopQueue}
      → On q
      → ((text : String) → Ends (f text))
      → Ends (with_field s q f)
  with_field-keeps s q {f} h k = elim (field s) as (λ r. Ends (after (r, q) λ text _. f text)) [
    | ok text ↦ k text
    | err e ↦ ends h
  ]

  set_maintenance-keeps :
      (q : DesktopQueue) (owner : String) (enabled : Option Bool) (i : Inputs)
      → On q
      → Ends (set_maintenance q owner enabled i)
  set_maintenance-keeps q owner none i h = ends h
  set_maintenance-keeps q owner (some enabled) i h =
      if-Ends (owned_by_other q.maintenance_owner owner) (ends h)
        (after-Ends (saving i.saved _) (ends h) λ _ q' h'. promote-keeps i.next q' h')

  pub maintenance-keeps :
      (params : Params) (i : Inputs) (q : DesktopQueue) → On q → Ends (maintenance params i q)
  unfolding maintenance
  maintenance-keeps params i q h =
      with_field-keeps params.owner q h λ owner. set_maintenance-keeps q owner params.enabled i h

  add_job-keeps :
      (q : DesktopQueue) (owner key : String) (ttl : ℕ) (requires : Bool) (deadline : Option ℕ)
      (i : Inputs)
      → On q
      → Ends (add_job q owner key ttl requires deadline i)
  unfolding add_job
  add_job-keeps q owner key ttl requires deadline i h =
      after-Ends (saving i.saved _) (ends (stable.adds _ q.jobs refl h))
        λ _ q' h'. promote-keeps i.next q' h'

  submit_new-keeps :
      (q : DesktopQueue) (owner key : String) (params : Params) (i : Inputs)
      → On q
      → Ends (submit_new q owner key params i)
  unfolding submit_new
  submit_new-keeps q owner key params i h =
      let ttl = or_default params.ttl_ms 900000 in
      if-Ends (leb 10000 (length q.jobs)) (ends h) (
        if-Ends (not (leb 1000 ttl && leb ttl 3600000)) (ends h) (
          after-Ends (flag_or params.requires_availability false, q) (ends h)
            λ requires q' h'.
              after-Ends (future params.deadline_at i.now, q) (ends h)
                λ deadline q'' h''. add_job-keeps q owner key ttl requires deadline i h))

  pub submit-keeps :
      (params : Params) (i : Inputs) (q : DesktopQueue) → On q → Ends (submit params i q)
  unfolding submit
  submit-keeps params i q h = with_field-keeps params.owner q h λ owner.
      with_field-keeps params.request_key q h λ key.
        elim (find (same_request owner key) q.jobs)
          as (λ found. Ends (submit_found q owner key params i found)) [
            | some job ↦ ends h
            | none ↦
                after-Ends (submit_new q owner key params i)
                  (submit_new-keeps q owner key params i h) λ _ q' h'. ends h'
          ]

  claim_job-keeps :
      (q : DesktopQueue) (owner token consumer : String) (i : Inputs) (job : Job)
      → On q
      → Ends (claim_job q owner token consumer i job)
  unfolding claim_job
  claim_job-keeps q owner token consumer i job h =
      let available = availability i.next.snapshot i.next.snapshot_now || authorized i.next q job in
      if-Ends (q.blocked || not (is_active job) || is_over job i.now i.later) (ends h) (
        if-Ends (gated q job && not available) (ends h) (
          if-Ends (owned_by_other job.claimed_by consumer) (ends h)
            (saves-Ends i.saved _ _ (stable.claims owner token consumer q.jobs h) h)))

  pub claim-keeps :
      (params : Params) (i : Inputs) (q : DesktopQueue) → On q → Ends (claim params i q)
  unfolding claim
  claim-keeps params i q h = with_field-keeps params.owner q h λ owner.
      with_field-keeps params.token q h λ token. with_field-keeps params.consumer_id q h λ consumer.
        elim (find (holds owner token) q.jobs)
          as (λ found. Ends (claim_found q owner token consumer i found)) [
            | none ↦ ends h
            | some job ↦ claim_job-keeps q owner token consumer i job h
          ]

  session_job-keeps :
      (q : DesktopQueue) (action : SessionAction) (owner token : String) (i : Inputs) (job : Job)
      → On q
      → Ends (session_job q action owner token i job)
  unfolding session_job
  session_job-keeps q gets owner token i job h = ends h
  session_job-keeps q renews owner token i job h =
      if-Ends (not (is_active job) || is_over job i.now i.later || q.blocked) (ends h)
        (ends (stable.extends owner token i.stamped q.jobs h))
  session_job-keeps q finishes owner token i job h = ends (stable.stops owner token q.jobs h)
  session_job-keeps q cancels owner token i job h = ends (stable.stops owner token q.jobs h)

  pub session-keeps :
      (action : SessionAction) (params : Params) (i : Inputs) (q : DesktopQueue)
      → On q
      → Ends (session action params i q)
  unfolding session
  session-keeps action params i q h = with_field-keeps params.token q h λ token.
      with_field-keeps params.owner q h λ owner.
        elim (find (holds owner token) q.jobs)
          as (λ found. Ends (session_found q action owner token i found)) [
            | none ↦ ends h
            | some job ↦ session_job-keeps q action owner token i job h
          ]

  pub recover-keeps :
      (params : Params) (i : Inputs) (q : DesktopQueue) → On q → Ends (recover params i q)
  unfolding recover
  recover-keeps params i q h =
      if-Ends (not q.blocked || q.in_flight || not params.confirm_desktop_reset) (ends h) (
        after-Ends (saving i.saved _) (ends (stable.interrupts q.jobs h))
          λ _ q' h'. promote-keeps i.next q' h')
