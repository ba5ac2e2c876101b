-- ===== src/Lease/Exclusion.antt =====
-- One operator per robot, and what a disconnecting client gives up.
use patrolbot_dashboard.Base.{
  ℕ, String, ◌≡◌, ◌≢◌, ◌↔◌, refl, sym, Bool, true, false, Option, none, some, List, [], ◌∷◌, ap,
  ◌∙◌, arith, ◌==◌, Bool-cases, if◌then◌else◌, inl, inr,
}
use patrolbot_dashboard.Base.Float.{Float}
use patrolbot_dashboard.Base.Dict.{
  get, insert, pop, get-insert, get-insert_self, get-insert_ne, get-pop, Unique, insert-Unique,
  pop-Unique,
}
use patrolbot_dashboard.Lease.{
  LeaseHolder, OperatorLease, holder, held_by, can_command, acquire, release_loop, release_client,
}

abbrev entry : ℕ → String → ℕ → Float → LeaseHolder
entry user name client now = record {
  user_id = user;
  username = name;
  client = client;
  acquired_at = now;
}

-- After a user acquired a robot, that user alone may command it, and every other robot is held as
-- before.
pub acquire_exclusive :
    (lease : OperatorLease) (robot user : ℕ) (name : String) (client : ℕ) (now : Float)
    → ((other : ℕ)
        → (can_command (acquire lease robot user name client now) robot other ≡ true)
          ↔ (other ≡ user))
      × ((elsewhere other : ℕ)
          → elsewhere ≢ robot
          → can_command (acquire lease robot user name client now) elsewhere other
            ≡ can_command lease elsewhere other)
unfolding can_command acquire
acquire_exclusive lease robot user name client now = (
  λ other. rw (get-insert_self robot (entry user name client now) lease) (ground arith),
  λ elsewhere other h.
      rw (get-insert_ne robot elsewhere (entry user name client now) lease (λ e. h (sym e))),
)

-- The client holds the robot, by the items of a lease.
abbrev pub claims : ℕ → Option LeaseHolder → Bool
claims client none = false
claims client (some h) = h.client == client

get-release_loop :
    (client robot : ℕ) (items : List (ℕ × LeaseHolder)) (lease : OperatorLease)
    → Unique items
    → get robot (release_loop client items lease)
      ≡ (if claims client (get robot items) then none else get robot lease)
unfolding release_loop get
get-release_loop client robot [] lease u = refl
get-release_loop client robot ((k, h) ∷ rest) lease u = ground (
  arith,
  get-pop k robot lease,
  get-release_loop client robot rest lease u.1,
  get-release_loop client robot rest (pop k lease) u.1,
)

-- When a client leaves, exactly the leases that this client holds are gone: each other robot keeps
-- its holder.
pub holder-release_client :
    (lease : OperatorLease) (client robot : ℕ)
    → Unique lease
    → holder (release_client lease client) robot
      ≡ (if claims client (holder lease robot) then none else holder lease robot)
unfolding holder release_client
holder-release_client lease client robot u = get-release_loop client robot lease lease u

acquired :
    (r robot : ℕ) (h : LeaseHolder) (lease : OperatorLease) (o : Option LeaseHolder)
    → holder lease robot ≡ o
    → get robot (insert r h lease) ≡ (if r == robot then some h else o)
unfolding holder
acquired r robot h lease o e =
    get-insert r robot h lease ∙ ap (λ x. if r == robot then some h else x) e

release_loop-Unique :
    (client : ℕ) (items : List (ℕ × LeaseHolder)) (lease : OperatorLease)
    → Unique lease
    → Unique (release_loop client items lease)
unfolding release_loop
release_loop-Unique client [] lease u = u
release_loop-Unique client ((k, h) ∷ rest) lease u = elim (Bool-cases (h.client == client)) [
  | inl e ↦ rw e (release_loop-Unique client rest (pop k lease) (pop-Unique k lease u))
  | inr e ↦ rw e (release_loop-Unique client rest lease u)
]

lease-Unique :
    (lease : OperatorLease) (robot user : ℕ) (name : String) (client : ℕ) (now : Float)
    → Unique lease
    → Unique (acquire lease robot user name client now) × Unique (release_client lease client)
unfolding acquire release_client
lease-Unique lease robot user name client now u =
    (insert-Unique robot _ lease u, release_loop-Unique client lease lease u)

-- What happens to a lease: a user acquires a robot by a client, or a client leaves.
pub data Call : Type 0 where
  acquires : ℕ → ℕ → String → ℕ → Float → Call
  leaves : ℕ → Call

unfoldable pub step : Call → OperatorLease → OperatorLease
unfolding acquire release_client
step (acquires robot user name client now) lease = acquire lease robot user name client now
step (leaves client) lease = release_client lease client

-- Every call so far, the latest first.
unfoldable pub run : List Call → OperatorLease
unfolding step
run [] = []
run (c ∷ earlier) = step c (run earlier)

-- Who holds a robot, told from the calls alone: the user who acquired it last, unless the client of
-- that call has left since.
abbrev pub last_claim : ℕ → List Call → Option LeaseHolder
last_claim robot [] = none
last_claim robot (acquires r user name client now ∷ earlier) =
    if r == robot then some (entry user name client now) else last_claim robot earlier
last_claim robot (leaves client ∷ earlier) =
    if claims client (last_claim robot earlier) then none else last_claim robot earlier

run-Unique : (calls : List Call) → Unique (run calls)
unfolding run step
run-Unique [] = tt
run-Unique (acquires robot user name client now ∷ earlier) =
    (lease-Unique (run earlier) robot user name client now (run-Unique earlier)).0
run-Unique (leaves client ∷ earlier) =
    release_loop-Unique client (run earlier) (run earlier) (run-Unique earlier)

run-last_claim : (calls : List Call) (robot : ℕ) → holder (run calls) robot ≡ last_claim robot calls
unfolding run step holder get
run-last_claim [] robot = unfold holder get in refl
run-last_claim (acquires r user name client now ∷ earlier) robot =
    acquired r robot (entry user name client now) (run earlier) _ (run-last_claim earlier robot)
run-last_claim (leaves client ∷ earlier) robot =
    holder-release_client (run earlier) client robot (run-Unique earlier)
    ∙ ap (λ o. if claims client o then none else o) (run-last_claim earlier robot)

-- After any history of acquisitions and departures, each robot is held by the user who acquired it
-- last, with the name, client and time of that call, unless that client has left since, and then by
-- nobody; and exactly the holder's user may command a robot that is held, and anybody one that is not.
pub run-holder :
    (calls : List Call) (robot user : ℕ)
    → (holder (run calls) robot ≡ last_claim robot calls)
      × (can_command (run calls) robot user ≡ held_by user (last_claim robot calls))
unfolding can_command
run-holder calls robot user =
    (run-last_claim calls robot, ap (held_by user) (run-last_claim calls robot))
