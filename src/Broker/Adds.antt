-- ===== src/Broker/Adds.antt =====
-- What an operation of the broker adds to the outputs, and how such additions compose. The outputs
-- stand for what server/app/commands/broker.py sends, publishes and records.
use patrolbot_dashboard.Base.{
  sym, false≢true, ℕ, ◌≡◌, refl, ◌∙◌, Bool, true, false, List, [], ◌∷◌, if◌then◌else◌,
}
pub use patrolbot_dashboard.Base.Grown.{Grown, Grown-trans, Grown-map}
use patrolbot_dashboard.Protocol.Commands.{Command}
use patrolbot_dashboard.Broker.State.{
  velocity, ack, cancel_map, result, completed, event, to_robot, progress, audited, rejection,
  Output, World, emit, send_text,
}

-- A command, or a frame that moves the robot.
abbrev pub drives : Output → Bool
drives (to_robot _ _ _) = true
drives (velocity _ _ moving) = moving
drives _ = false

-- A predicate on the commands and on the robots that are moved among the outputs.
abbrev pub Effects : (ℕ → ℕ → Command → Type 0) → (ℕ → Type 0) → Output → Type 0
Effects R V (to_robot robot id c) = R robot id c
Effects R V (velocity robot _ true) = V robot
Effects R V _ = Unit

pub Effects-free :
    (R : ℕ → ℕ → Command → Type 0) (V : ℕ → Type 0) (o : Output) → drives o ≡ false → Effects R V o
Effects-free R V (to_robot _ _ _) h = absurd (false≢true (sym h))
Effects-free R V (velocity _ _ true) h = absurd (false≢true (sym h))
Effects-free R V (velocity _ _ false) h = tt
Effects-free R V (cancel_map _ _) h = tt
Effects-free R V (ack _ _ _) h = tt
Effects-free R V (progress _ _) h = tt
Effects-free R V (result _ _ _) h = tt
Effects-free R V (audited _ _) h = tt
Effects-free R V (rejection _ _ _) h = tt
Effects-free R V (completed _ _) h = tt
Effects-free R V (event _) h = tt

pub Effects-map :
    (R S : ℕ → ℕ → Command → Type 0) (V U : ℕ → Type 0) (o : Output)
    → ((robot id : ℕ) (c : Command) → R robot id c → S robot id c)
    → ((robot : ℕ) → V robot → U robot)
    → Effects R V o
    → Effects S U o
Effects-map R S V U (to_robot robot id c) f g r = f robot id c r
Effects-map R S V U (velocity robot _ true) f g r = g robot r
Effects-map R S V U (velocity _ _ false) f g r = tt
Effects-map R S V U (cancel_map _ _) f g r = tt
Effects-map R S V U (ack _ _ _) f g r = tt
Effects-map R S V U (progress _ _) f g r = tt
Effects-map R S V U (result _ _ _) f g r = tt
Effects-map R S V U (audited _ _) f g r = tt
Effects-map R S V U (rejection _ _ _) f g r = tt
Effects-map R S V U (completed _ _) f g r = tt
Effects-map R S V U (event _) f g r = tt

-- Commands, and no robot that is moved.
abbrev pub Commands : (ℕ → ℕ → Command → Type 0) → Output → Type 0
Commands R = Effects R (λ _. ⊥)

pub Commands-free : (R : ℕ → ℕ → Command → Type 0) (o : Output) → drives o ≡ false → Commands R o
Commands-free R o h = Effects-free R (λ _. ⊥) o h

pub record Adds (P : Output → Type 0) (w w' : World) : Type 0 where
  pub robots : w'.robots ≡ w.robots
  pub grown : Grown P w.out w'.out

module _ (P : Output → Type 0) where
  pub Adds-none : (w w' : World) → w'.robots ≡ w.robots → w'.out ≡ w.out → Adds P w w'
  Adds-none w w' r o = record { robots = r; grown = ([], tt, o) }

  pub Adds-trans : (u v w : World) → Adds P u v → Adds P v w → Adds P u w
  Adds-trans u v w a b = record {
    robots = b.robots ∙ a.robots;
    grown = Grown-trans P u.out v.out w.out a.grown b.grown;
  }

  pub Adds-if : (u v w : World) (b : Bool) → Adds P u v → Adds P u w → Adds P u (if b then v else w)
  Adds-if u v w true a c = a
  Adds-if u v w false a c = c

  pub Adds-fst :
      {B : Type 0} (u : World) (b : Bool) (x y : World × B)
      → Adds P u x.0
      → Adds P u y.0
      → Adds P u (if b then x else y).0
  Adds-fst u true x y a c = a
  Adds-fst u false x y a c = c

  pub emit-Adds : (w : World) (o : Output) → P o → Adds P w (emit w o)
  unfolding emit
  emit-Adds w o p = record { robots = refl; grown = (o ∷ [], (p, tt), refl) }

  logged-Adds :
      (w : World) (rest : List Bool) (o : Output) (b : Bool)
      → P o
      → Adds P w (elim b [
        | true ↦ emit (record w { outcomes = rest }) o
        | false ↦ record w { outcomes = rest }
      ])
  unfolding emit
  logged-Adds w rest o true p = record { robots = refl; grown = (o ∷ [], (p, tt), refl) }
  logged-Adds w rest o false p = Adds-none w _ refl refl

  pub send_text-Adds : (w : World) (o : Output) → P o → Adds P w (send_text w o).0
  unfolding send_text
  send_text-Adds w o p = logged-Adds w _ o _ p
