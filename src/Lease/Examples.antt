-- ===== src/Lease/Examples.antt =====
-- The lease at concrete operators.
use patrolbot_dashboard.Base.{ℕ, ◌≡◌, ◌≢◌, ◌↔◌, refl, true, none, some, List, [], ◌∷◌}
use patrolbot_dashboard.Base.Float.{nano}
use patrolbot_dashboard.Base.Dict.{get, Unique}
use patrolbot_dashboard.Lease.{
  LeaseHolder, OperatorLease, holder, held_by, can_command, acquire, release_client,
}
use patrolbot_dashboard.Lease.Exclusion.{
  acquire_exclusive, holder-release_client, Call, acquires, leaves, run, last_claim, run-holder,
}

abbrev ana : LeaseHolder
ana = record { user_id = 1; username = "ana"; client = 11; acquired_at = nano 5 }

abbrev bob : LeaseHolder
bob = record { user_id = 2; username = "bob"; client = 12; acquired_at = nano 6 }

abbrev two : OperatorLease
two = (0, ana) ∷ (1, bob) ∷ []

two-Unique : Unique two
unfolding get
two-Unique = (refl, (refl, tt))

acquire_exclusive_example :
    ((other : ℕ) → (can_command (acquire two 0 2 "bob" 12 (nano 9)) 0 other ≡ true) ↔ (other ≡ 2))
    × ((elsewhere other : ℕ)
        → elsewhere ≢ 0
        → can_command (acquire two 0 2 "bob" 12 (nano 9)) elsewhere other
          ≡ can_command two elsewhere other)
acquire_exclusive_example = acquire_exclusive two 0 2 "bob" 12 (nano 9)

holder-release_client_example : holder (release_client two 12) 1 ≡ none
unfolding holder get
holder-release_client_example = holder-release_client two 12 1 two-Unique

-- The latest call first: ana takes robot 0, bob takes robots 1 and 0, and leaves by one client.
abbrev calls : List Call
calls =
    leaves 12
    ∷ acquires 0 2 "bob" 13 (nano 8)
    ∷ acquires 1 2 "bob" 12 (nano 7)
    ∷ acquires 0 1 "ana" 11 (nano 6)
    ∷ []

run-holder_example :
    (holder (run calls) 0 ≡ last_claim 0 calls)
    × (can_command (run calls) 0 1 ≡ held_by 1 (last_claim 0 calls))
run-holder_example = run-holder calls 0 1

claims_test :
    last_claim 0 calls
    ≡ some (record { user_id = 2; username = "bob"; client = 13; acquired_at = nano 8 })
claims_test = refl
