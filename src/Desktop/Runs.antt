-- ===== src/Desktop/Runs.antt =====
-- crates/machine-fabric-runtime/src/desktop.rs: the queue under any sequence of calls. A property that
-- every change of the list of jobs keeps holds after every sequence.
use machine_fabric.Base.{
  ℕ, String, Bool, true, List, [], ◌∷◌, find, Result, ok, err, not, ◌&&◌, ◌||◌,
}
use machine_fabric.Desktop.Queue.{Job, DesktopQueue, DesktopError, is_live}
use machine_fabric.Desktop.Promotion.{
  Readings, refresh_availability_policy, promote, needs_cleanup, cleanup_done, worker_reconcile,
}
use machine_fabric.Desktop.Commands.{
  Params, Inputs, flag_or, maintenance, submit, claim, session, recover,
}
use machine_fabric.Desktop.Dispatch.{
  Action, maintains, submits, claims, recovers, unknown, lists, on_session, reads_only, Reply,
  replies, perform, command, Credentials, admission, begin, end, begin_recovery_inspection,
  end_recovery_inspection,
}
use machine_fabric.Desktop.Stable.{
  Stable, Ends, ends, after-Ends, if-Ends, refresh-keeps, promote-keeps, needs_cleanup-keeps,
  cleanup_done-keeps, worker_reconcile-keeps, maintenance-keeps, submit-keeps, claim-keeps,
  session-keeps, recover-keeps,
}

-- A call of a method, with what it reads.
pub data Call : Type 0 where
  commands : Action → Params → Inputs → Call
  cleans_up : (now later : ℕ) → Call
  cleaned_up : (success : Bool) (now : ℕ) (saved : Bool) → Readings → Call
  reconciles : (notification : Bool) → Readings → Call
  begins : String → Credentials → Readings → (later : ℕ) (saved : Bool) → Call
  ends_action : (uncertain saved : Bool) → Call
  inspects : Result DesktopError (Unit {0}) → Call
  inspected : Call

pub step : DesktopQueue → Call → DesktopQueue
step q (commands action params i) = (command action params i q).1
step q (cleans_up now later) = (needs_cleanup q now later).1
step q (cleaned_up success now saved r) = (cleanup_done q success now saved r).1
step q (reconciles notification r) = (worker_reconcile q notification r).1
step q (begins action who r later saved) = (begin q action who r later saved).1
step q (ends_action uncertain saved) = (end q uncertain saved).1
step q (inspects valid) = (begin_recovery_inspection q valid).1
step q inspected = end_recovery_inspection q

pub run : DesktopQueue → List Call → DesktopQueue
run q [] = q
run q (call ∷ calls) = run (step q call) calls

module _ {ℓ} (P : List Job → Type ℓ) (stable : Stable P) where
  replies-Ends {κ} :
      {A : Type κ} (f : A → DesktopQueue → Reply) (r : Result DesktopError A × DesktopQueue)
      → Ends P stable r
      → Ends P stable (replies f r)
  replies-Ends f (ok a, q) h = ends P stable h.kept
  replies-Ends f (err e, q) h = ends P stable h.kept

  perform-keeps :
      (action : Action) (params : Params) (i : Inputs) (q : DesktopQueue)
      → P q.jobs
      → Ends P stable (perform action params i q)
  unfolding perform
  perform-keeps maintains params i q h =
      after-Ends P stable (maintenance params i q) (maintenance-keeps P stable params i q h)
        λ _ q' h'.
          after-Ends P stable (promote i.last q') (promote-keeps P stable i.last q' h')
            λ _ q'' h''. ends P stable h''
  perform-keeps submits params i q h =
      replies-Ends _ (submit params i q) (submit-keeps P stable params i q h)
  perform-keeps claims params i q h =
      replies-Ends _ (claim params i q) (claim-keeps P stable params i q h)
  perform-keeps recovers params i q h =
      replies-Ends _ (recover params i q) (recover-keeps P stable params i q h)
  perform-keeps unknown params i q h = ends P stable h
  perform-keeps (lists include) params i q h =
      after-Ends P stable (flag_or include true, q) (ends P stable h) λ _ q' h'. ends P stable h'
  perform-keeps (on_session action) params i q h =
      replies-Ends _ (session action params i q) (session-keeps P stable action params i q h)

  command-keeps :
      (action : Action) (params : Params) (i : Inputs) (q : DesktopQueue)
      → P q.jobs
      → Ends P stable (command action params i q)
  unfolding command
  command-keeps action params i q h =
      if-Ends P stable (q.recovery_inspection_active && not (reads_only action)) (ends P stable h) (
        after-Ends P stable (promote i.before q) (promote-keeps P stable i.before q h)
          λ _ q' h'. perform-keeps action params i q' h')

  begin-keeps :
      (q : DesktopQueue) (action : String) (who : Credentials) (r : Readings) (later : ℕ)
      (saved : Bool)
      → P q.jobs
      → Ends P stable (begin q action who r later saved)
  unfolding begin
  begin-keeps q action who r later saved h = if-Ends P stable q.blocked (ends P stable h) (
      if-Ends P stable q.in_flight (ends P stable h) (
        after-Ends P stable (refresh_availability_policy r.provider_file r.policy_saved q)
          (refresh-keeps P stable r.provider_file r.policy_saved q h)
          λ _ q' h'.
            after-Ends P stable (admission q' action who r later (find is_live q'.jobs), q')
              (ends P stable h') λ _ q'' h''. ends P stable h''))

  begin_recovery_inspection-keeps :
      (q : DesktopQueue) (valid : Result DesktopError (Unit {0}))
      → P q.jobs
      → Ends P stable (begin_recovery_inspection q valid)
  unfolding begin_recovery_inspection
  begin_recovery_inspection-keeps q valid h =
      after-Ends P stable (valid, q) (ends P stable h)
        λ _ q' h'.
          if-Ends P stable q'.recovery_inspection_active (ends P stable h') (
            if-Ends P stable (not q'.blocked || q'.in_flight) (ends P stable h') (ends P stable h'))

  step-keeps : (q : DesktopQueue) (call : Call) → P q.jobs → P (step q call).jobs
  unfolding step end end_recovery_inspection
  step-keeps q (commands action params i) h = (command-keeps action params i q h).kept
  step-keeps q (cleans_up now later) h = needs_cleanup-keeps P stable q now later h
  step-keeps q (cleaned_up success now saved r) h =
      (cleanup_done-keeps P stable q success now saved r h).kept
  step-keeps q (reconciles notification r) h =
      (worker_reconcile-keeps P stable q notification r h).kept
  step-keeps q (begins action who r later saved) h = (begin-keeps q action who r later saved h).kept
  step-keeps q (ends_action uncertain saved) h = h
  step-keeps q (inspects valid) h = (begin_recovery_inspection-keeps q valid h).kept
  step-keeps q inspected h = h

  pub run-keeps : (q : DesktopQueue) (calls : List Call) → P q.jobs → P (run q calls).jobs
  unfolding run
  run-keeps q [] h = h
  run-keeps q (call ∷ calls) h = run-keeps (step q call) calls (step-keeps q call h)
