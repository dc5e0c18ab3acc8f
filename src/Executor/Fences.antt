-- ===== src/Executor/Fences.antt =====
-- crates/machine-fabric-runtime/src/executor.rs: `ExecutorFences` and `issue_authority`. The capability
-- that an action names stands with its resources, which are those of `execution_resources`.
use machine_fabric.Base.{
  ℕ, String, Bool, Option, none, some, List, [], ◌∷◌, saturating_add, if◌then◌else◌, Result, ok,
  err,
}
use machine_fabric.BTreeMap.{BTreeMap, get, insert}
use machine_fabric.Tasks.Table.{◌⊕◌}

pub record FenceRecord : Type 0 where
  pub controller_id : String
  pub fence : ℕ

pub record Authority : Type 0 where
  pub controller_id : String
  pub resource : String
  pub fence : ℕ

pub data AuthorityError : Type 0 where
  invalid_resources fence_state_failed : AuthorityError

pub record Contract : Type 0 where
  pub read_only : Bool
  pub resources : Result AuthorityError (List String)

-- The table in memory and the one in the file.
pub record Fences : Type 0 where
  pub resources : BTreeMap FenceRecord
  pub file : BTreeMap FenceRecord

-- What becomes of the file; `torn` is an error that is reported after the file was replaced.
pub data Writing : Type 0 where
  written unwritten torn : Writing

abbrev pub next_fence : Option FenceRecord → ℕ
next_fence none = 1
next_fence (some current) = saturating_add current.fence 1

abbrev pub new_record : String → BTreeMap FenceRecord → String → FenceRecord
new_record controller_id table resource = record {
  controller_id = controller_id;
  fence = next_fence (get resource table);
}

-- The loop of `issue_authority`.
unfoldable pub issue_each :
    String → BTreeMap FenceRecord → List String → List Authority × BTreeMap FenceRecord
unfolding get insert
issue_each controller_id table [] = ([], table)
issue_each controller_id table (resource ∷ resources) =
    let issued = new_record controller_id table resource in
    let (authorities, table') = issue_each controller_id (insert resource issued table) resources in
    (
      record { controller_id = controller_id; resource = resource; fence = issued.fence }
          ∷ authorities,
      table',
    )

-- `persist_fences(&table)?` and the answer.
abbrev pub persisted :
    Writing
    → Fences
    → List Authority × BTreeMap FenceRecord
    → Result AuthorityError (List Authority) × Fences
persisted written fences (authorities, table) =
    (ok authorities, record { resources = table; file = table })
persisted unwritten fences (authorities, table) =
    (err fence_state_failed, record fences { resources = table })
persisted torn fences (authorities, table) =
    (err fence_state_failed, record { resources = table; file = table })

abbrev pub issue_for :
    String
    → Fences
    → Writing
    → Result AuthorityError (List String)
    → Result AuthorityError (List Authority) × Fences
issue_for id fences writing (err e) = (err e, fences)
issue_for id fences writing (ok resources) =
    persisted writing fences (issue_each ("executor:" ⊕ id) fences.resources resources)

-- `issue_authority` of the executor `id`, where it has fences: the authorities for `_authority`.
unfoldable pub issue_authority :
    String → Fences → Option Contract → Writing → Result AuthorityError (List Authority) × Fences
unfolding issue_each
issue_authority id fences none writing = (ok [], fences)
issue_authority id fences (some contract) writing =
    if contract.read_only then (ok [], fences) else issue_for id fences writing contract.resources

-- `open_with_policy`: the table is read from the file.
unfoldable pub reopen : Fences → Fences
reopen fences = record fences { resources = fences.file }
