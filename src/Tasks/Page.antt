-- ===== src/Tasks/Page.antt =====
-- crates/machine-fabric-core/src/task.rs: `page_by` counts every match and returns a window of them.
use mathlib.Core.List.{append-nil, append_assoc}
use native.Mathlib.Nat.{zero-add, sub-zero}
use machine_fabric.Base.{
  ℕ, zero, suc, ◌+◌, ◌-◌, ◌<◌, ◌≡◌, refl, ap, ap₂, ◌∙◌, sym, Bool, ◌&&◌, inl, inr, List, [], ◌∷◌,
  ◌++◌, keep, arith, if◌then◌else◌, Bool-cases, leb, ltb, length, take, drop, length-append,
}
use machine_fabric.BTreeMap.{values}
use machine_fabric.Schema.{Task}
use machine_fabric.Tasks.Table.{TaskTable, snapshot}
use machine_fabric.Tasks.Upkeep.{page_loop, page_by}

-- The part of a page that is still to come, by the matches left to skip and the room left.
abbrev window {ℓ} : {A : Type ℓ} → ℕ → ℕ → List A → List A
window skip room xs = take room (drop skip xs)

window-nil {ℓ} : {A : Type ℓ} (skip room : ℕ) → window {A = A} skip room [] ≡ []
window-nil zero zero = refl
window-nil zero (suc room) = refl
window-nil (suc skip) zero = refl
window-nil (suc skip) (suc room) = refl

module _ {Value : Type 0} where
  page_loop-total :
      (cursor limit total : ℕ) (page tasks : List (Task Value))
      → (page_loop cursor limit total page tasks).0 ≡ total + length tasks
  unfolding page_loop
  page_loop-total cursor limit total page [] = omega arith
  page_loop-total cursor limit total page (task ∷ tasks) = omega (
    arith,
    page_loop-total cursor limit (total + 1)
        (if leb cursor total && ltb (length page) limit then page ++ task ∷ [] else page) tasks,
  )

  -- The page after a round in which the cursor was reached and there was room.
  window_taken :
      (limit : ℕ) (page : List (Task Value)) (task : Task Value) (tasks : List (Task Value))
      → length page < limit
      → (page ++ task ∷ []) ++ window 0 (limit - length (page ++ task ∷ [])) tasks
        ≡ page ++ window 0 (limit - length page) (task ∷ tasks)
  window_taken limit page task tasks h =
      let room : limit - length page ≡ suc (limit - length (page ++ task ∷ [])) =
        omega (arith, length-append page (task ∷ [])) in
      rw room (append_assoc page (task ∷ []) (window 0 (limit - length (page ++ task ∷ [])) tasks))

  page_loop-page :
      (cursor limit total : ℕ) (page tasks : List (Task Value))
      → (page_loop cursor limit total page tasks).1
        ≡ page ++ window (cursor - total) (limit - length page) tasks
  unfolding page_loop
  page_loop-page cursor limit total page [] =
      sym (
        ap (λ xs. page ++ xs) (window-nil (cursor - total) (limit - length page)) ∙ append-nil page)
  page_loop-page cursor limit total page (task ∷ tasks) =
      let full = page_loop-page cursor limit (total + 1) page tasks in
      let more = page_loop-page cursor limit (total + 1) (page ++ task ∷ []) tasks in
      elim (Bool-cases (leb cursor total)) [
        | inr e ↦
            let skip : cursor - total ≡ suc (cursor - (total + 1)) = ground arith in
            rw skip (ground (arith, full))
        | inl e ↦
            let skip : cursor - total ≡ 0 = ground arith in
            let skip' : cursor - (total + 1) ≡ 0 = ground arith in
            elim (Bool-cases (ltb (length page) limit)) [
              | inl f ↦
                  let taken =
                    rw skip' at more ∙ window_taken limit page task tasks (ground arith) in
                  rw skip (ground (arith, taken))
              | inr f ↦
                  let room : limit - length page ≡ 0 = ground arith in
                  let stays = rw room at full in rw room (ground (arith, stays))
            ]
      ]

  -- `page_by` returns the number of tasks that satisfy the predicate, and of those, in the order of
  -- their ids, at most `limit` after the first `cursor`.
  pub page_by-eq :
      (table : TaskTable Value) (cursor limit : ℕ) (predicate : Task Value → Bool)
      → let matches = keep predicate (snapshot table) in
        page_by table cursor limit predicate ≡ (length matches, take limit (drop cursor matches))
  unfolding page_by snapshot
  page_by-eq table cursor limit predicate =
      let matches = keep predicate (values table.tasks) in
      λ i. (
        (page_loop-total cursor limit 0 [] matches ∙ zero-add (length matches)) i,
        (page_loop-page cursor limit 0 [] matches
              ∙ ap₂ (λ skip room. window skip room matches) (sub-zero cursor) (sub-zero limit))
            i,
      )
