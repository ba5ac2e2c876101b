-- ===== src/Lease.antt =====
-- `OperatorLease` of server/app/commands/lease.py: who is in control of each robot. Robot ids,
-- user ids and clients are compared for equality or identity only, and are numbers.
pub mod Exclusion
mod Examples
use patrolbot_dashboard.Base.{
  ℕ, String, Bool, true, false, Option, none, some, List, [], ◌∷◌, ◌==◌, if◌then◌else◌,
}
use patrolbot_dashboard.Base.Float.{Float}
use patrolbot_dashboard.Base.Dict.{get, insert, pop}

pub record LeaseHolder : Type 0 where
  pub user_id : ℕ
  pub username : String
  pub client : ℕ
  pub acquired_at : Float

abbrev pub OperatorLease : Type 0
OperatorLease = List (ℕ × LeaseHolder)

unfoldable pub holder : OperatorLease → ℕ → Option LeaseHolder
holder lease robot_id = get robot_id lease

abbrev pub held_by : ℕ → Option LeaseHolder → Bool
held_by user_id none = true
held_by user_id (some h) = h.user_id == user_id

unfoldable pub can_command : OperatorLease → ℕ → ℕ → Bool
unfolding holder
can_command lease robot_id user_id = held_by user_id (holder lease robot_id)

unfoldable pub acquire : OperatorLease → ℕ → ℕ → String → ℕ → Float → OperatorLease
acquire lease robot_id user_id username client now =
    insert robot_id
      (record { user_id = user_id; username = username; client = client; acquired_at = now }) lease

-- The loop runs over a copy of the items and deletes from the dictionary.
unfoldable pub release_loop : ℕ → List (ℕ × LeaseHolder) → OperatorLease → OperatorLease
release_loop client [] lease = lease
release_loop client ((robot_id, h) ∷ rest) lease =
    release_loop client rest (if h.client == client then pop robot_id lease else lease)

unfoldable pub release_client : OperatorLease → ℕ → OperatorLease
unfolding release_loop
release_client lease client = release_loop client lease lease
