-- ===== src/Repair/Outcomes.antt =====
-- What the insertion of a repair job has found and written.
use ps.Prelude.{ℕ, ◌+◌, ◌≡◌, none, arith, nat_eq, text_eq}
use ps.Table.{find, add}
use ps.Common.Text.{Text}
use ps.Common.Errors.{ok}
use ps.Metadata.Models.{RepairJob, Database}
use ps.Repair.Queries.{repair_key, new_job, add_job}

pub add_job-eq-ok :
    (v : ℕ) (s t : Text) (db : Database) {r : RepairJob × Database}
    → add_job v s t db ≡ ok r
    → (r.0 ≡ new_job (db.uuids db.drawn) v s t)
      × (find repair_key r.0.repair_id db.repair_jobs ≡ none)
      × (r.1 ≡ record db { repair_jobs = add r.0 db.repair_jobs; drawn = db.drawn + 1 })
unfolding add_job
add_job-eq-ok v s t db h = ground arith
