-- ===== src/Tests/Leases.antt =====
-- The lease table at concrete inputs.
use machine_fabric.Base.{
  ◌≤◌, ◌<◌, ◌≡◌, ◌≢◌, ◌<◌, ◌⊎◌, ◌↔◌, refl, none, some, [], ◌∷◌, arith, String, ok, eq_iff,
  false≢true,
}
use machine_fabric.BTreeMap.{get, insert, remove}
use machine_fabric.Schema.{Lease, driver}
use machine_fabric.Leases.Table.{
  LeaseTable, acquire, take_handoff, handoff, release, validate, reap_expired, snapshot,
  fence_snapshot, from_snapshot, check,
}
use machine_fabric.Leases.Consistent.{IsConsistent, from_snapshot-snapshot}
use machine_fabric.Leases.Fences.{
  fencing, Step-Keeps, Keeps, Grants, by_acquire, Reach, here, next, acquires, releases,
}
use machine_fabric.Leases.Holding.{
  Held, Refused, Granted, Hands, acquire_excludes, validate_iff, stale_writer, handoff-Hands,
  reap_exact,
}

abbrev start : LeaseTable
start = record { leases = []; fences = [] }

start-IsConsistent : IsConsistent start
unfolding get
start-IsConsistent = record {
  leases_sorted = tt;
  fences_sorted = tt;
  keyed = λ r l h. cc;
  fenced = λ r l h. absurd (cc h);
}

abbrev first : Lease
first = record {
  id = "lease_1";
  kind = driver;
  resource = "w";
  owner = "a";
  token = "token_1";
  fence = 1;
  acquired_at = 10;
  updated_at = 10;
  expires_at = 70;
  handoff_to = none;
}

abbrev held : LeaseTable
held = record { leases = ("w", first) ∷ []; fences = ("w", 1) ∷ [] }

acquire_runs : acquire start driver "w" "a" 60 10 "1" "1" ≡ (ok first, held)
unfolding acquire get insert
acquire_runs = refl

first_grant : Grants start "w" first held
unfolding get
first_grant = by_acquire driver "a" 60 10 "1" "1" (omega arith) acquire_runs

held_step : Keeps start held
unfolding get acquire insert
held_step = Step-Keeps (acquires driver "w" "a" 60 10 "1" "1" (omega arith) refl) start-IsConsistent

abbrev second : Lease
second = record first {
  id = "lease_2";
  owner = "b";
  token = "token_2";
  fence = 2;
  acquired_at = 20;
  updated_at = 20;
  expires_at = 80;
}

abbrev released : LeaseTable
released = record { leases = []; fences = ("w", 1) ∷ [] }

abbrev held_again : LeaseTable
held_again = record { leases = ("w", second) ∷ []; fences = ("w", 2) ∷ [] }

released-Reach : Reach held released
unfolding release get check remove
released-Reach = next here (releases "w" "a" "token_1" 15 refl)

second_grant : Grants released "w" second held_again
unfolding get acquire insert
second_grant = by_acquire driver "b" 60 20 "2" "2" (omega arith) refl

fencing_example : first.fence < second.fence
fencing_example =
    fencing start held released held_again "w" first second start-IsConsistent first_grant
      released-Reach second_grant

acquire_excludes_example :
    let answer = acquire held driver "w" "b" 60 20 "2" "2" in
    Refused held "w" 20 answer ⊎ Granted held "w" "b" 60 20 answer
acquire_excludes_example = acquire_excludes held driver "w" "b" 60 20 "2" "2"

validate_iff_example :
    (validate held "w" "a" "token_1" 20 ≡ ok first)
    ↔ (Held held "w" 20 first × (first.owner ≡ "a") × (first.token ≡ "token_1"))
validate_iff_example = validate_iff held "w" "a" "token_1" 20 first

abbrev offered_table : LeaseTable
offered_table = record held { leases = ("w", record first { handoff_to = some "b" }) ∷ [] }

tokens_differ : ◌≢◌ {A = String} "token_2" "token_1"
tokens_differ e = false≢true ((eq_iff "token_2" "token_1").1 e)

stale_writer_example :
    validate (take_handoff offered_table "w" "b" 60 20 "2").1 "w" "a" "token_1" 21 ≢ ok first
unfolding take_handoff get
stale_writer_example =
    stale_writer offered_table "w" "b" "a" "token_1" 60 20 21 "2" _ refl tokens_differ first

abbrev offered_at_21 : LeaseTable
offered_at_21 = record held {
  leases = ("w", record first { handoff_to = some "b"; updated_at = 21 }) ∷ [];
}

handoff-Hands_example : Hands offered_at_21 "w" "b" 60 90 "2"
unfolding handoff get insert check
handoff-Hands_example =
    handoff-Hands held offered_at_21 "w" "a" "token_1" "b" 20 21 60 90 "2" _ refl

reap_exact_example :
    ((lease : Lease)
      → get "w" held.leases ≡ some lease
      → lease.expires_at ≤ 80
      → get "w" (reap_expired held 80).1.leases ≡ none)
    × ((lease : Lease)
        → get "w" held.leases ≡ some lease
        → 80 < lease.expires_at
        → get "w" (reap_expired held 80).1.leases ≡ some lease)
    × (get "w" held.leases ≡ none → get "w" (reap_expired held 80).1.leases ≡ none)
    × ((reap_expired held 80).1.fences ≡ held.fences)
reap_exact_example = reap_exact held 80 "w" held_step.consistent

from_snapshot-snapshot_example : from_snapshot (snapshot held) (fence_snapshot held) ≡ held
from_snapshot-snapshot_example = from_snapshot-snapshot held held_step.consistent
