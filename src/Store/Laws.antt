-- ===== src/Store/Laws.antt =====
-- What a method that reads one task and writes it once leaves behind.
use agent_relay_auto.Prelude.{
  String, ◌≡◌, refl, false, Option, none, some, arith, Dict, lookup, ◌⊎◌, inl, inr, Option-cases,
}
use agent_relay_auto.Value.{Value}
use agent_relay_auto.Outcome.{Error, ok, err, Result-cases}
use agent_relay_auto.Markdown.{Doc, parse_fenced_yaml}
use agent_relay_auto.Markdown.Write.{Updates}
use agent_relay_auto.Store.Base.{Disk, write_task, Plan, update_task}

-- the files after a method that returned
abbrev pub after_write : String → Doc → Option Updates → Disk → Disk
after_write task doc none d = d
after_write task doc (some us) d = write_task task doc us d

pair {ℓ κ} : {A : Type ℓ} {B : Type κ} (p : A × B) (a : A) (b : B) → p.0 ≡ a → p.1 ≡ b → p ≡ (a, b)
pair p a b h k = λ i. (h i, k i)

module _ {ℓ} {A : Type ℓ} (task : String) (plan : String → Dict Value → Plan A) where
  -- A method that raises has left every file as it was.
  pub update_task_err :
      (d : Disk) (e : Error) (d' : Disk) → update_task task plan d ≡ (err e, d') → d' ≡ d
  unfolding update_task
  update_task_err d e d' h = ground arith

  -- What a method that returned has read, decided and written.
  pub record Returned (d : Disk) (a : A) (d' : Disk) : Type ℓ where
    pub doc : Doc
    pub mapping : Dict Value
    pub updates : Option Updates
    pub was_free : d.locked ≡ false
    pub on_disk : lookup task d.tasks ≡ some doc
    pub legible : parse_fenced_yaml doc ≡ some mapping
    pub decided : plan d.clock mapping ≡ ok (updates, a)
    pub written : d' ≡ after_write task doc updates d

  pub update_task_ok :
      (d : Disk) (a : A) (d' : Disk) → update_task task plan d ≡ (ok a, d') → Returned d a d'
  unfolding update_task
  update_task_ok d a d' h = elim (Option-cases (lookup task d.tasks)) [
    | inl e ↦ absurd (ground arith)
    | inr (doc, e) ↦ elim (Option-cases (parse_fenced_yaml doc)) [
      | inl f ↦ absurd (ground arith)
      | inr (m, f) ↦ elim (Result-cases (plan d.clock m)) [
        | inl (x, g) ↦ absurd (ground arith)
        | inr ((us, b), g) ↦ record {
          doc = doc;
          mapping = m;
          updates = us;
          was_free = ground arith;
          on_disk = e;
          legible = f;
          decided = ground arith;
          written = ground (arith, Option-cases us);
        }
      ]
    ]
  ]

  -- A method raises and changes nothing, or it returns.
  pub update_task-cases :
      (d : Disk)
      → ((e : Error) × (update_task task plan d ≡ (err e, d)))
        ⊎ ((a : A) × (d' : Disk) × (update_task task plan d ≡ (ok a, d')))
  update_task-cases d = elim (Result-cases (update_task task plan d).0) [
    | inl (e, h) ↦ inl (
      e,
      pair (update_task task plan d) (err e) d h
          (update_task_err d e (update_task task plan d).1 (pair _ (err e) _ h refl)),
    )
    | inr (a, h) ↦ inr (a, (update_task task plan d).1, pair _ (ok a) _ h refl)
  ]
