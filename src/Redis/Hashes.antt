-- ===== src/Redis/Hashes.antt =====
-- Redis hashes: HSET, HGET of one field of HGETALL, EXPIRE and DEL, as the jobs are kept in them.
use cloud_code_execution_eng.Prelude.{
  ℕ, ◌<◌, ◌≡◌, String, Option, none, some, List, [], ◌∷◌, if◌then◌else◌, ◌===◌,
}

abbrev pub Updates : Type 0
Updates = List (String × String)

-- The value that an update writes to a field; a field stands in an update once.
abbrev pub written : String → Updates → Option String
written f [] = none
written f ((g, v) ∷ us) = if g === f then some v else written f us

abbrev pub over : Option String → Option String → Option String
over (some v) old = some v
over none old = old

pub record Hashes : Type 1 where
  pub Db : Type 0
  pub hget : String → String → Db → Option String
  pub hset : String → Updates → Db → Db
  pub expire : String → ℕ → Db → Db
  pub del : String → Db → Db
  pub hget-hset :
      (k j f : String) (us : Updates) (db : Db)
      → hget j f (hset k us db)
        ≡ (if k === j then over (written f us) (hget k f db) else hget j f db)
  pub hget-expire :
      (k j f : String) (t : ℕ) (db : Db) → 0 < t → hget j f (expire k t db) ≡ hget j f db
  pub hget-del :
      (k j f : String) (db : Db) → hget j f (del k db) ≡ (if k === j then none else hget j f db)
