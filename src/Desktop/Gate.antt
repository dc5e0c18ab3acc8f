-- ===== src/Desktop/Gate.antt =====
-- crates/machine-fabric-runtime/src/desktop.rs: what lets a session use the desktop, a snapshot of a
-- local provider or a receipt of the user. The fields are what serde_json's `as_u64` and `as_str`
-- give for them, and a flag is a comparison with a JSON constant.
use machine_fabric.Base.{
  ℕ, ◌-◌, ◌%◌, String, Bool, true, false, ◌&&◌, not, Option, none, some, ltb, leb, nat_eq, is_some,
  ◌==◌,
}
use machine_fabric.Peer.Grant.{byte_len}
use machine_fabric.Desktop.Queue.{Job, JobState, queued, active}

pub record Snapshot : Type 0 where
  pub schema_version_is_1 : Bool
  pub provider : Option String
  pub state : Option String
  pub generation : Option String
  pub sequence : Option ℕ
  pub available : Bool
  pub observed_at_ms : Option ℕ
  pub expires_at_ms : Option ℕ

abbrev pub availability_max_age_ms : ℕ
availability_max_age_ms = 10000

abbrev pub availability_max_lifetime_ms : ℕ
availability_max_lifetime_ms = 10000

-- A text field that equals a text.
abbrev pub is_text : Option String → String → Bool
is_text none s = false
is_text (some t) s = t == s

-- A text field of 1 to `most` bytes.
unfoldable pub has_text : Option String → ℕ → Bool
has_text none most = false
has_text (some s) most = not (s == "") && leb (byte_len s) most

abbrev pub is_positive : Option ℕ → Bool
is_positive none = false
is_positive (some n) = ltb 0 n

unfoldable pub allows_between : Snapshot → Option ℕ → Option ℕ → ℕ → Bool
unfolding has_text
allows_between v (some observed) (some expires) now =
    v.schema_version_is_1
    && is_text v.provider "away-guard"
    && is_text v.state "armed"
    && has_text v.generation 256
    && is_positive v.sequence
    && v.available
    && leb observed now
    && leb (now - observed) availability_max_age_ms
    && ltb now expires
    && leb (expires - observed) availability_max_lifetime_ms
allows_between v none expires now = false
allows_between v (some observed) none now = false

unfoldable pub snapshot_allows_input : Snapshot → ℕ → Bool
unfolding allows_between
snapshot_allows_input v now = allows_between v v.observed_at_ms v.expires_at_ms now

-- `availability`, from the snapshot that was read, if any of at most 4096 bytes was.
unfoldable pub availability : Option Snapshot → ℕ → Bool
unfolding snapshot_allows_input
availability none now = false
availability (some v) now = snapshot_allows_input v now

-- The user's receipt and the attributes of its file. `sha_matches` and `is_uuid` are what the sha2
-- and uuid libraries answer for `tokenSha256` and `authorizationId`.
pub record Receipt : Type 0 where
  pub is_file : Bool
  pub len : ℕ
  pub mode : ℕ
  pub own : Bool
  pub granted_at_ms : Option ℕ
  pub expires_at_ms : Option ℕ
  pub schema_version_is_1 : Bool
  pub source : Option String
  pub job_id : Option String
  pub owner : Option String
  pub request_key : Option String
  pub sha_matches : Bool
  pub boot_id : Option String
  pub is_uuid : Bool
  pub reason : Option String

abbrev pub same_text : Option String → Option String → Bool
same_text none none = true
same_text none (some s) = false
same_text (some s) none = false
same_text (some s) (some t) = s == t

abbrev pub may_be_authorized : JobState → Bool
may_be_authorized queued = true
may_be_authorized active = true
may_be_authorized _ = false

unfoldable pub grants : Receipt → Option String → Job → Option ℕ → Option ℕ → ℕ → Bool
unfolding has_text
grants v boot_id job (some granted) (some expires) now =
    v.schema_version_is_1
    && is_text v.source "explicit-user"
    && is_text v.job_id job.id
    && is_text v.owner job.owner
    && is_text v.request_key job.request_key
    && v.sha_matches
    && same_text v.boot_id boot_id
    && is_some boot_id
    && leb granted now
    && ltb now expires
    && leb (expires - granted) 900000
    && v.is_uuid
    && has_text v.reason 512
grants v boot_id job none expires now = false
grants v boot_id job (some granted) none now = false

-- `user_authorization` on unix, from the receipt that was read, if any was.
unfoldable pub user_authorization : Option String → Job → Option Receipt → ℕ → Bool
unfolding grants
user_authorization boot_id job none now = false
user_authorization boot_id job (some v) now =
    may_be_authorized job.state
    && v.is_file
    && leb v.len 4096
    && nat_eq (v.mode % 512) 384
    && v.own
    && grants v boot_id job v.granted_at_ms v.expires_at_ms now
