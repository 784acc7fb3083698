-- ===== src/Supervisor/Steps.antt =====
-- Steps of a supervisor: the parts of one that returned, those that leave the project's files alone,
-- and those that only raise.
use agent_relay_auto.Prelude.{String, ◌≡◌, refl, sym, ◌∙◌, ap, arith, inl, inr}
use agent_relay_auto.Outcome.{Result, ok, err, Error, Result-cases}
use agent_relay_auto.Store.Base.{read_task}
use agent_relay_auto.Runs.{Method}
use agent_relay_auto.Supervisor.Base.{Service, Step, ◌>>=◌, follow, on_runs, lift, pure, at_clock}
use agent_relay_auto.Supervisor.Start.{read_state}

pub pair {ℓ κ} :
    {A : Type ℓ} {B : Type κ} (p : A × B) {a : A} {b : B} → p.0 ≡ a → p.1 ≡ b → p ≡ (a, b)
pair p h k = λ i. (h i, k i)

-- A step whose first part returned goes on with its value.
pub step-bind {ℓ κ} :
    {A : Type ℓ} {B : Type κ} (m : Step A) (f : A → Step B) (s t : Service) (a : A)
    → m s ≡ (ok a, t)
    → (m >>= f) s ≡ f a t
unfolding ◌>>=◌
step-bind m f s t a h = ap (λ x. follow f x.0 x.1) h

-- a step that returned ran its first part, and the rest where that stopped
pub bind-ok {ℓ κ} :
    {A : Type ℓ} {B : Type κ} (m : Step A) (f : A → Step B) (s : Service) (b : B) (t : Service)
    → (m >>= f) s ≡ (ok b, t)
    → (a : A) × (u : Service) × (m s ≡ (ok a, u)) × (f a u ≡ (ok b, t))
unfolding ◌>>=◌
bind-ok m f s b t h = elim (Result-cases (m s).0) [
  | inl (e, q) ↦ absurd (ground arith)
  | inr (a, q) ↦ (a, (m s).1, pair (m s) q refl, sym (ap (λ r. follow f r (m s).1) q) ∙ h)
]

-- A step that does not touch the files of the project.
pub record Aside {A : Type 0} (m : Step A) : Type 0 where
  pub keeps : (s : Service) → (m s).1.world ≡ s.world

bind-world :
    {A B : Type 0} (m : Step A) (f : A → Step B)
    → Aside m
    → ((a : A) → Aside (f a))
    → (s : Service) → ((m >>= f) s).1.world ≡ s.world
unfolding ◌>>=◌
bind-world m f h k s = elim (Result-cases (m s).0) [
  | inl (e, q) ↦ ap (λ r. (follow f r (m s).1).1.world) q ∙ h.keeps s
  | inr (a, q) ↦ ap (λ r. (follow f r (m s).1).1.world) q ∙ ((k a).keeps (m s).1 ∙ h.keeps s)
]

pub Aside-bind :
    {A B : Type 0} (m : Step A) (f : A → Step B)
    → Aside m
    → ((a : A) → Aside (f a))
    → Aside (m >>= f)
Aside-bind m f h k = record { keeps = bind-world m f h k }

pub Aside-pure : {A : Type 0} (a : A) → Aside (pure a)
unfolding pure
Aside-pure a = record { keeps = λ s. refl }

pub Aside-lift : {A : Type 0} (r : Result A) → Aside (lift r)
unfolding lift
Aside-lift r = record { keeps = λ s. refl }

pub Aside-on_runs : {A : Type 0} (act : Method A) → Aside (on_runs act)
unfolding on_runs
Aside-on_runs act = record { keeps = λ s. refl }

pub Aside-at_clock : {A : Type 0} (act : String → Method A) → Aside (at_clock act)
unfolding at_clock on_runs
Aside-at_clock act = record { keeps = λ s. refl }

read_state-world : (task : String) (s : Service) → (read_state task s).1.world ≡ s.world
unfolding read_state
read_state-world task s = elim (Result-cases (read_task task s.world.disk)) [
  | inl (e, q) ↦ ground arith
  | inr (p, q) ↦ ground arith
]

pub Aside-read_state : (task : String) → Aside (read_state task)
Aside-read_state task = record { keeps = read_state-world task }

-- A step that never returns a result.
pub record Raises {A : Type 0} (m : Step A) : Type 0 where
  pub raises : (s : Service) → (e : Error) × ((m s).0 ≡ err e)

pub Raises-lift : {A : Type 0} (e : Error) → Raises (lift {A = A} (err e))
unfolding lift
Raises-lift e = record { raises = λ s. (e, refl) }

rest_stops :
    {A B : Type 0} (m : Step A) (f : A → Step B)
    → ((a : A) → Raises (f a))
    → (s : Service) → (e : Error) × (((m >>= f) s).0 ≡ err e)
unfolding ◌>>=◌
rest_stops m f k s = elim (Result-cases (m s).0) [
  | inl (e, q) ↦ (e, ap (λ r. (follow f r (m s).1).0) q)
  | inr (a, q) ↦ let (e, g) = (k a).raises (m s).1 in (e, ap (λ r. (follow f r (m s).1).0) q ∙ g)
]

pub Raises-bind :
    {A B : Type 0} (m : Step A) (f : A → Step B) → ((a : A) → Raises (f a)) → Raises (m >>= f)
Raises-bind m f k = record { raises = rest_stops m f k }

pub ruleset aside_steps =
    (Aside-bind, Aside-pure, Aside-lift, Aside-on_runs, Aside-at_clock, Aside-read_state)
