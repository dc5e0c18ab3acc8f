-- ===== src/Desktop/Grants.antt =====
-- crates/machine-fabric-runtime/src/desktop.rs: when the desktop is given to the next session, and
-- when to none.
use machine_fabric.Desktop.Ages.{Aged, map-expire-Aged, unchanged-Aged, IsBarred, barred-busy}
use machine_fabric.Desktop.Live.{after_leads}
use machine_fabric.Base.{
  subst, sym, Pairs, if_elim, ℕ, ◌≡◌, refl, ap, Bool, true, false, ◌&&◌, not, List, [], ◌∷◌, map,
  any, arith, ◌⊎◌, inl, inr, ok, after, Bool-cases,
}
use machine_fabric.Desktop.Queue.{Job, DesktopQueue, is_live}
use machine_fabric.Desktop.Promotion.{
  Readings, Answer, refresh_availability_policy, expires_now, expire, expire_all, is_free,
  grant_next, promote,
}

pub promote-eq :
    (r : Readings) (q : DesktopQueue)
    → q.recovery_inspection_active ≡ false
    → promote r q
      ≡ after
          (refresh_availability_policy r.provider_file r.policy_saved q)
          λ _ q'. after (expire_all r.now r.expiry_saved q') λ _ q''. grant_next r q''
unfolding promote
promote-eq r q idle =
    if_elim
      (λ x.
        x
        ≡ after (refresh_availability_policy r.provider_file r.policy_saved q)
            λ _ q'. after (expire_all r.now r.expiry_saved q') λ _ q''. grant_next r q'')
      q.recovery_inspection_active _ _ (λ h. absurd (cc (h, idle))) (λ _. refl)

promote-idle :
    (r : Readings) (q : DesktopQueue)
    → q.recovery_inspection_active ≡ true
    → promote r q ≡ (ok tt, q)
unfolding promote
promote-idle r q busy = rw busy refl

any-expire : (now : ℕ) (jobs : List Job) → any is_live (map (expire now) jobs) ≡ any is_live jobs
any-expire now [] = refl
any-expire now (job ∷ jobs) = ground (arith, any-expire now jobs)

-- A queue that is not free, with the jobs given and the epoch of another.
record Waits (q : DesktopQueue) (jobs : List Job) (t : DesktopQueue) : Type 0 where
  closed : is_free t ≡ false
  same : t.jobs ≡ jobs
  epoch : t.epoch ≡ q.epoch

refresh-Waits :
    (file saved : Bool) (q : DesktopQueue)
    → is_free q ≡ false
    → Waits q q.jobs (refresh_availability_policy file saved q).1
unfolding refresh_availability_policy is_free
refresh-Waits file saved q h =
    if_elim (λ (x : Answer (Unit {0})). Waits q q.jobs x.1) (not q.availability_required && file) _
      _ (λ _. record { closed = h; same = refl; epoch = refl })
      (λ _. record { closed = h; same = refl; epoch = refl })

expired-Waits :
    (now : ℕ) (q t : DesktopQueue)
    → Waits q q.jobs t
    → Waits q (map (expire now) q.jobs) (record t { jobs = map (expire now) t.jobs })
unfolding is_free
expired-Waits now q t w = record {
  closed = rw (any-expire now t.jobs) w.closed;
  same = ap (map (expire now)) w.same;
  epoch = w.epoch;
}

expire_all-Waits :
    (now : ℕ) (saved : Bool) (q t : DesktopQueue)
    → Waits q q.jobs t
    → Waits q (map (expire now) q.jobs) (expire_all now saved t).1
unfolding expire_all
expire_all-Waits now saved q t w =
    if_elim (λ (x : Answer (Unit {0})). Waits q (map (expire now) q.jobs) x.1)
      (any (expires_now now) t.jobs) _ _ (λ _. expired-Waits now q t w)
      (λ _. expired-Waits now q t w)

grant_next-none : (r : Readings) (q : DesktopQueue) → is_free q ≡ false → (grant_next r q).1 ≡ q
unfolding grant_next
grant_next-none r q h = rw h refl

abbrev Barred : Readings → DesktopQueue → DesktopQueue → Type 0
Barred r q t = ((t.jobs ≡ q.jobs) ⊎ (t.jobs ≡ map (expire r.now) q.jobs)) × (t.epoch ≡ q.epoch)

promote-Barred : (r : Readings) (q : DesktopQueue) → is_free q ≡ false → Barred r q (promote r q).1
promote-Barred r q h = elim (Bool-cases q.recovery_inspection_active) [
  | inl p ↦ rw (promote-idle r q p) (inl refl, refl)
  | inr p ↦ rw (promote-eq r q p) (
      after_leads (Waits q q.jobs) (Barred r q)
        (refresh_availability_policy r.provider_file r.policy_saved q) _
        (refresh-Waits r.provider_file r.policy_saved q h) (λ t w. (inl w.same, w.epoch))
        λ _ t w.
          after_leads (Waits q (map (expire r.now) q.jobs)) (Barred r q)
            (expire_all r.now r.expiry_saved t) _ (expire_all-Waits r.now r.expiry_saved q t w)
            (λ u v. (inr v.same, v.epoch))
            λ _ u v. rw (grant_next-none r u v.closed) (inr v.same, v.epoch))
]

-- While there is maintenance, a block, an action in flight, an inspection or a session that is active or
-- draining, `promote` gives the desktop to nobody: each job is as it was, or it waited beyond its
-- deadline and has expired, and the epoch is the same.
pub promote_bars :
    (r : Readings) (q : DesktopQueue)
    → IsBarred q
    → Pairs (Aged r.now) q.jobs (promote r q).1.jobs × ((promote r q).1.epoch ≡ q.epoch)
promote_bars r q barred = elim (barred-busy q barred) [
  | inl p ↦ rw (promote-idle r q p) (unchanged-Aged r.now q.jobs, refl)
  | inr p ↦
      let (jobs, epoch) = promote-Barred r q p in
      (
        elim jobs [
          | inl e ↦ subst (Pairs (Aged r.now) q.jobs) (sym e) (unchanged-Aged r.now q.jobs)
          | inr e ↦ subst (Pairs (Aged r.now) q.jobs) (sym e) (map-expire-Aged r.now q.jobs)
        ],
        epoch,
      )
]
