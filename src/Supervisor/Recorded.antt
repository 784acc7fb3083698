-- ===== src/Supervisor/Recorded.antt =====
-- The folder of a run in run_store.py as the handler of a failed start finds it, and steps of supervisor.py
-- that change nothing behind their first part.
use agent_relay_auto.Prelude.{String, ◌≡◌, refl, ◌∙◌, ap, none, some, arith, eq_refl, inl, inr}
use agent_relay_auto.Prelude.Int.{ℤ}
use agent_relay_auto.Value.{Fields, obj}
use agent_relay_auto.Outcome.{Result, ok, Result-cases}
use agent_relay_auto.Store.Base.{read_task}
use agent_relay_auto.Runs.{
  RunPath, Folder, RunStore, json, find_run, create, finish, finish_folder, in_run, new_folder,
  write_launch_context,
}
use agent_relay_auto.Runs.Records.{find_run-put_run, find_run-append, created-runs}
use agent_relay_auto.Supervisor.Base.{Service, Step, ◌>>=◌, follow, lift}
use agent_relay_auto.Supervisor.Start.{read_state}

-- A run whose metadata.json is a mapping, as `finish` needs it.
pub record Recorded (run : String) (rs : RunStore) : Type 0 where
  path : RunPath
  folder : Folder
  fields : Fields
  found : find_run run rs.runs ≡ some (path, folder)
  holds : folder.metadata ≡ json (obj fields)

pub finish-Recorded :
    (now run : String) (exit_code : ℤ) (rs : RunStore)
    → Recorded run rs
    → (finish now run exit_code none rs).0 ≡ ok tt
unfolding finish in_run finish_folder
finish-Recorded now run exit_code rs r = ground (arith, r.found, r.holds)

pub Recorded-write_launch_context :
    (run : String) (context : Fields) (rs : RunStore)
    → Recorded run rs
    → Recorded run (write_launch_context run context rs).1
unfolding write_launch_context in_run
Recorded-write_launch_context run context rs r =
    let g : Folder = record (r.folder) { launch_context = json (obj context) } in
    record {
      path = r.path;
      folder = g;
      fields = r.fields;
      found =
          ground (
            arith,
            r.found,
            find_run-put_run run run g r.folder r.path rs.runs r.found,
            eq_refl run,
          );
      holds = r.holds;
    }

pub Recorded-create :
    (now task run : String) (metadata : Fields) (rs : RunStore)
    → find_run run rs.runs ≡ none
    → Recorded run (create now task run metadata rs).1
unfolding new_folder
Recorded-create now task run metadata rs absent = record {
  path = (task, run);
  folder = new_folder now metadata;
  fields = _;
  found = ground (
    arith,
    created-runs now task run metadata rs absent,
    find_run-append run (task, run) (new_folder now metadata) rs.runs absent,
    eq_refl run,
  );
  holds = refl;
}

-- A step behind which only the first part has changed anything.
pub record Still {A : Type 0} (m : Step A) : Type 0 where
  pub stays : (s : Service) → (m s).1 ≡ s

pub Still-lift : {A : Type 0} (r : Result A) → Still (lift r)
unfolding lift
Still-lift r = record { stays = λ s. refl }

pub bind-stays :
    {A B : Type 0} (m : Step A) (f : A → Step B)
    → ((a : A) → Still (f a))
    → (s : Service) → ((m >>= f) s).1 ≡ (m s).1
unfolding ◌>>=◌
bind-stays m f k s = elim (Result-cases (m s).0) [
  | inl (e, q) ↦ ap (λ r. (follow f r (m s).1).1) q
  | inr (a, q) ↦ ap (λ r. (follow f r (m s).1).1) q ∙ (k a).stays (m s).1
]

pub Still-bind :
    {A B : Type 0} (m : Step A) (f : A → Step B)
    → Still m
    → ((a : A) → Still (f a))
    → Still (m >>= f)
Still-bind m f h k = record { stays = λ s. bind-stays m f k s ∙ h.stays s }

pub read_state-stays : (task : String) (s : Service) → (read_state task s).1 ≡ s
unfolding read_state
read_state-stays task s = elim (Result-cases (read_task task s.world.disk)) [
  | inl (e, q) ↦ ground arith
  | inr (p, q) ↦ ground arith
]
