-- ===== src/Executor/Permits.antt =====
-- crates/machine-fabric-runtime/src/executor.rs: the permits that are out, in any order of arrivals,
-- grants, timeouts and drops.
use mathlib.Core.Option.{some-injective}
use machine_fabric.Base.{
  subst, any-get_elem?, ℕ, zero, suc, ◌+◌, ◌≤◌, ◌<◌, String, ◌≡◌, refl, ap, ◌∙◌, sym, Bool, true,
  false, ◌&&◌, ◌||◌, not, Option, none, some, List, [], ◌∷◌, any, length, get_elem?, leb, arith,
  eq_iff, Bool-cases, inl, inr,
}
use machine_fabric.BTreeMap.{BTreeMap, remove, get-insert, get-remove}
use machine_fabric.Executor.Capacity.{
  ExecutionCapacity, WaitingExecution, ExecutionState, contains, extend, remove_each, has,
  can_grant, enter, remove_at, try_grant, give_up, release,
}

-- The state and the resources of each permit that was not dropped yet.
pub record System : Type 0 where
  pub state : ExecutionState
  pub permits : List (List String)

pub data Call : Type 0 where
  enters : List String → Call
  -- The call at that place of the queue has the lock.
  tries : ℕ → Call
  gives_up : (ticket : ℕ) → Call
  drops : ℕ → Call

abbrev pub granted : System → List String → Option ExecutionState → System
granted s resources none = s
granted s resources (some state) = record { state = state; permits = resources ∷ s.permits }

abbrev pub tried : ExecutionCapacity → System → Option WaitingExecution → System
tried capacity s none = s
tried capacity s (some w) = granted s w.resources (try_grant capacity s.state w.ticket w.resources)

abbrev pub dropped : System → ℕ → Option (List String) → System
dropped s i none = s
dropped s i (some resources) = record {
  state = release s.state resources;
  permits = remove_at i s.permits;
}

unfoldable pub step : ExecutionCapacity → System → Call → System
step capacity s (enters resources) = record s { state = (enter capacity s.state resources).1 }
step capacity s (tries i) = tried capacity s (get_elem? s.state.waiting i)
step capacity s (gives_up ticket) = record s { state = give_up s.state ticket }
step capacity s (drops i) = dropped s i (get_elem? s.permits i)

unfoldable pub run : ExecutionCapacity → System → List Call → System
unfolding step
run capacity s [] = s
run capacity s (call ∷ calls) = run capacity (step capacity s call) calls

abbrev pub held_by : List (List String) → String → Bool
held_by permits resource = any (has resource) permits

-- No resource stands in two permits.
abbrev pub Apart : List (List String) → Type 0
Apart [] = Unit
Apart (p ∷ ps) =
    ((resource : String) → has resource p ≡ true → held_by ps resource ≡ false) × Apart ps

-- The number of permits is what the state counts and within the capacity; the resources that it holds
-- are those of the permits, and no two permits share one.
pub record IsSound (capacity : ExecutionCapacity) (s : System) : Type 0 where
  pub counted : s.state.active ≡ length s.permits
  pub bounded : s.state.active ≤ capacity.maximum
  pub held :
      (resource : String) → contains resource s.state.held_resources ≡ held_by s.permits resource
  pub apart : Apart s.permits

contains-extend :
    (resource : String) (resources : List String) (held : BTreeMap (Unit {0}))
    → contains resource (extend resources held) ≡ has resource resources || contains resource held
unfolding extend
contains-extend resource [] held = refl
contains-extend resource (r ∷ rs) held =
    ground (arith, get-insert r resource tt (extend rs held), contains-extend resource rs held)

contains-remove_each :
    (resource : String) (resources : List String) (held : BTreeMap (Unit {0}))
    → contains resource (remove_each resources held)
      ≡ not (has resource resources) && contains resource held
unfolding remove_each
contains-remove_each resource [] held = refl
contains-remove_each resource (r ∷ rs) held =
    ground (arith, get-remove r resource held, contains-remove_each resource rs (remove r held))

any-has :
    (resource : String) (resources : List String) (held : BTreeMap (Unit {0}))
    → any (λ r. contains r held) resources ≡ false
    → has resource resources ≡ true
    → contains resource held ≡ false
any-has resource [] held h k = absurd (cc k)
any-has resource (r ∷ rs) held h k =
    ground (arith, h, k, eq_iff r resource, any-has resource rs held)

can_grant-free :
    (capacity : ExecutionCapacity) (state : ExecutionState) (resources : List String)
    (ticket : Option ℕ)
    → can_grant capacity state resources ticket ≡ true
    → (state.active < capacity.maximum)
      × (any (λ r. contains r state.held_resources) resources ≡ false)
unfolding can_grant
can_grant-free capacity state resources ticket h = (ground (arith, h), ground (arith, h))

granted-IsSound :
    (capacity : ExecutionCapacity) (s : System) (ticket : ℕ) (resources : List String)
    → IsSound capacity s
    → IsSound capacity (granted s resources (try_grant capacity s.state ticket resources))
unfolding try_grant
granted-IsSound capacity s ticket resources w =
    elim (Bool-cases (can_grant capacity s.state resources (some ticket))) [
      | inr p ↦ rw p w
      | inl p ↦
          let free = can_grant-free capacity s.state resources (some ticket) p in
          rw p (record {
            counted = omega (arith, w.counted);
            bounded = omega (arith, free.0);
            held = λ r.
                contains-extend r resources s.state.held_resources
                ∙ ap (λ b. has r resources || b) (w.held r);
            apart = (
              λ r k. sym (w.held r) ∙ any-has r resources s.state.held_resources free.1 k,
              w.apart,
            );
          })
    ]

length-remove_at {ℓ} :
    {A : Type ℓ} (i : ℕ) (xs : List A) (x : A)
    → get_elem? xs i ≡ some x
    → length xs ≡ length (remove_at i xs) + 1
length-remove_at i [] x h = absurd (cc h)
length-remove_at zero (y ∷ ys) x h = omega arith
length-remove_at (suc i) (y ∷ ys) x h = omega (arith, length-remove_at i ys x h)

held_by-remove_at :
    (i : ℕ) (ps : List (List String)) (p : List String) (r : String)
    → Apart ps
    → get_elem? ps i ≡ some p
    → held_by (remove_at i ps) r ≡ not (has r p) && held_by ps r
held_by-remove_at i [] p r a h = absurd (cc h)
held_by-remove_at zero (q ∷ qs) p r a h =
    let same : q ≡ p = some-injective q p h in
    subst (λ x. held_by qs r ≡ not (has r x) && held_by (q ∷ qs) r) same
      (elim (Bool-cases (has r q)) [ inl e ↦ rw e (a.0 r e) | inr e ↦ rw e refl ])
held_by-remove_at (suc i) (q ∷ qs) p r a h = elim (Bool-cases (has r q)) [
  | inl e ↦
      let other : has r p ≡ false = any-get_elem? (has r) qs i p (a.0 r e) h in rw (e, other) refl
  | inr e ↦ rw e (held_by-remove_at i qs p r a.1 h)
]

none-remove_at :
    (i : ℕ) (ps : List (List String)) (r : String)
    → held_by ps r ≡ false
    → held_by (remove_at i ps) r ≡ false
none-remove_at i [] r h = h
none-remove_at zero (q ∷ qs) r h = ground (arith, h)
none-remove_at (suc i) (q ∷ qs) r h = ground (arith, h, none-remove_at i qs r)

Apart-remove_at : (i : ℕ) (ps : List (List String)) → Apart ps → Apart (remove_at i ps)
Apart-remove_at i [] a = a
Apart-remove_at zero (q ∷ qs) a = a.1
Apart-remove_at (suc i) (q ∷ qs) a =
    ((λ r k. none-remove_at i qs r (a.0 r k)), Apart-remove_at i qs a.1)

dropped-IsSound :
    (capacity : ExecutionCapacity) (s : System) (i : ℕ) (p : Option (List String))
    → get_elem? s.permits i ≡ p
    → IsSound capacity s
    → IsSound capacity (dropped s i p)
unfolding release
dropped-IsSound capacity s i none e w = w
dropped-IsSound capacity s i (some p) e w = record {
  counted = omega (arith, w.counted, length-remove_at i s.permits p e);
  bounded = omega (arith, w.bounded);
  held = λ r.
      contains-remove_each r p s.state.held_resources
      ∙ ap (λ b. not (has r p) && b) (w.held r)
      ∙ sym (held_by-remove_at i s.permits p r w.apart e);
  apart = Apart-remove_at i s.permits w.apart;
}

tried-IsSound :
    (capacity : ExecutionCapacity) (s : System) (w : Option WaitingExecution)
    → IsSound capacity s
    → IsSound capacity (tried capacity s w)
tried-IsSound capacity s none h = h
tried-IsSound capacity s (some w) h = granted-IsSound capacity s w.ticket w.resources h

enter-same :
    (capacity : ExecutionCapacity) (state : ExecutionState) (resources : List String)
    → ((enter capacity state resources).1.active ≡ state.active)
      × ((enter capacity state resources).1.held_resources ≡ state.held_resources)
unfolding enter
enter-same capacity state resources = (ground arith, ground arith)

step-IsSound :
    (capacity : ExecutionCapacity) (s : System) (call : Call)
    → IsSound capacity s
    → IsSound capacity (step capacity s call)
unfolding step give_up
step-IsSound capacity s (enters resources) w =
    let same = enter-same capacity s.state resources in
    record {
      counted = same.0 ∙ w.counted;
      bounded = omega (arith, same.0, w.bounded);
      held = λ r. ap (contains r) same.1 ∙ w.held r;
      apart = w.apart;
    }
step-IsSound capacity s (tries i) w = tried-IsSound capacity s (get_elem? s.state.waiting i) w
step-IsSound capacity s (gives_up ticket) w = record {
  counted = w.counted;
  bounded = w.bounded;
  held = w.held;
  apart = w.apart;
}
step-IsSound capacity s (drops i) w = dropped-IsSound capacity s i (get_elem? s.permits i) refl w

-- Whatever the order of arrivals, grants, timeouts and drops, the permits that are out are as many as
-- the state counts and at most the capacity, the resources that it holds are theirs, and no two
-- permits share a resource.
pub run-IsSound :
    (capacity : ExecutionCapacity) (s : System) (calls : List Call)
    → IsSound capacity s
    → IsSound capacity (run capacity s calls)
unfolding run
run-IsSound capacity s [] w = w
run-IsSound capacity s (call ∷ calls) w =
    run-IsSound capacity (step capacity s call) calls (step-IsSound capacity s call w)

none-held :
    (resources : List String) (held : BTreeMap (Unit {0}))
    → ((r : String) → contains r held ≡ false)
    → any (λ r. contains r held) resources ≡ false
none-held [] held h = refl
none-held (r ∷ rs) held h = ground (arith, h r, none-held rs held h)

can_grant-head :
    (capacity : ExecutionCapacity) (state : ExecutionState) (first : WaitingExecution)
    (rest : List WaitingExecution)
    → state.active < capacity.maximum
    → any (λ r. contains r state.held_resources) first.resources ≡ false
    → state.waiting ≡ first ∷ rest
    → can_grant capacity state first.resources (some first.ticket) ≡ true
unfolding can_grant
can_grant-head capacity state first rest room free head =
    let open_slot : leb capacity.maximum state.active ≡ false = ground (arith, room) in
    rw (open_slot, free, head) (ground arith)

try_grant-permits :
    (capacity : ExecutionCapacity) (s : System) (first : WaitingExecution)
    → can_grant capacity s.state first.resources (some first.ticket) ≡ true
    → (tried capacity s (some first)).permits ≡ first.resources ∷ s.permits
unfolding try_grant
try_grant-permits capacity s first h = rw h refl

-- When every permit was dropped, the call that waits longest is granted at its next try, if the
-- capacity is not 0.
pub head_granted :
    (capacity : ExecutionCapacity) (s : System) (first : WaitingExecution)
    (rest : List WaitingExecution)
    → IsSound capacity s
    → s.permits ≡ []
    → s.state.waiting ≡ first ∷ rest
    → 1 ≤ capacity.maximum
    → (step capacity s (tries 0)).permits ≡ first.resources ∷ []
unfolding step
head_granted capacity s first rest w none_out head room =
    let idle_state : (r : String) → contains r s.state.held_resources ≡ false =
      λ r. w.held r ∙ ap (λ ps. held_by ps r) none_out in
    let unused : s.state.active ≡ 0 = w.counted ∙ ap (λ ps. length ps) none_out in
    let goes =
      can_grant-head capacity s.state first rest (omega (arith, unused, room))
        (none-held first.resources s.state.held_resources idle_state) head in
    ap (λ ws. (tried capacity s (get_elem? ws 0)).permits) head
    ∙ try_grant-permits capacity s first goes
    ∙ ap (λ ps. first.resources ∷ ps) none_out
