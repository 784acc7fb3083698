-- ===== src/Store/Again.antt =====
-- A method on files that can be read, as after another method has written them.
use agent_relay_auto.Prelude.{
  String, ◌≡◌, true, false, none, some, arith, eq_refl, Dict, lookup, lookup-insert,
}
use agent_relay_auto.Value.{Value, get}
use agent_relay_auto.Outcome.{Error, ok, err}
use agent_relay_auto.Markdown.{Doc, parse_fenced_yaml}
use agent_relay_auto.Markdown.Write.{
  Updates, write_values, covers, all_flat, well_nested-write, parse-well_nested, well_nested-parse,
  get-parse,
}
use agent_relay_auto.Store.Base.{Disk, Plan, write_task, update_task}
use agent_relay_auto.Store.Laws.{Returned}
use agent_relay_auto.Store.Fields.{field, state_keys, is_state}

-- The lock is free and the STATE.md of the task is there and legible.
pub record Readable (task : String) (d : Disk) : Type 0 where
  pub doc : Doc
  pub mapping : Dict Value
  pub free : d.locked ≡ false
  pub on_disk : lookup task d.tasks ≡ some doc
  pub legible : parse_fenced_yaml doc ≡ some mapping

pub get-Readable :
    (task k : String) {d : Disk} (r : Readable task d) → get r.mapping k ≡ field task k d
unfolding field
get-Readable task k r = ground (arith, get-parse r.doc k r.legible, r.on_disk)

module _ {ℓ} {A : Type ℓ} (task : String) (plan : String → Dict Value → Plan A) where
  pub Readable-update :
      (us : Updates) {d : Disk} {a : A} {d' : Disk} (r : Returned task plan d a d')
      → r.updates ≡ some us
      → covers state_keys us ≡ true
      → is_state task d ≡ true
      → Readable task d'
  unfolding is_state write_task
  Readable-update us {d} {a} {d'} r w c h =
      let flat : all_flat state_keys r.doc ≡ true = ground (arith, r.on_disk) in
      let p =
        well_nested-parse (write_values us r.doc)
          (well_nested-write state_keys us r.doc c flat (parse-well_nested r.doc r.legible)) in
      record {
        doc = write_values us r.doc;
        mapping = p.0;
        free = ground (arith, r.written, r.was_free);
        on_disk = ground (
          arith,
          r.written,
          lookup-insert task task (write_values us r.doc) d.tasks,
          eq_refl task,
        );
        legible = p.1;
      }

  pub update_task-err :
      {d : Disk} (r : Readable task d) {e : Error}
      → plan d.clock r.mapping ≡ err e
      → update_task task plan d ≡ (err e, d)
  unfolding update_task
  update_task-err {d} r h = ground (arith, r.free, r.on_disk, r.legible)

  pub update_task-none :
      {d : Disk} (r : Readable task d) {a : A}
      → plan d.clock r.mapping ≡ ok (none, a)
      → update_task task plan d ≡ (ok a, d)
  unfolding update_task
  update_task-none {d} r h = ground (arith, r.free, r.on_disk, r.legible)

  pub update_task-some :
      {d : Disk} (r : Readable task d) {us : Updates} {a : A}
      → plan d.clock r.mapping ≡ ok (some us, a)
      → update_task task plan d ≡ (ok a, write_task task r.doc us d)
  unfolding update_task write_task
  update_task-some {d} r h = ground (arith, r.free, r.on_disk, r.legible)
