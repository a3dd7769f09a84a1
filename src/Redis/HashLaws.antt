-- ===== src/Redis/HashLaws.antt =====
-- The hash of one job, read after it was written.
use cloud_code_execution_eng.Prelude.{ℕ, ◌<◌, ◌≡◌, ◌∙◌, String, none, ap, if◌then◌else◌, eq_refl}
use cloud_code_execution_eng.Redis.Hashes.{Hashes, Updates, written, over}

module _ (h : Hashes) where
  pub hget-hset_own :
      (k f : String) (us : Updates) (db : h.Db)
      → h.hget k f (h.hset k us db) ≡ over (written f us) (h.hget k f db)
  hget-hset_own k f us db =
      h.hget-hset k k f us db
      ∙ ap (λ b. if b then over (written f us) (h.hget k f db) else h.hget k f db) (eq_refl k)

  pub hget-expire_own :
      (k f : String) (us : Updates) (ttl : ℕ) (db : h.Db)
      → 0 < ttl
      → h.hget k f (h.expire k ttl (h.hset k us db)) ≡ over (written f us) (h.hget k f db)
  hget-expire_own k f us ttl db lives =
      h.hget-expire k k f ttl (h.hset k us db) lives ∙ hget-hset_own k f us db

  pub hget-del_own : (k f : String) (db : h.Db) → h.hget k f (h.del k db) ≡ none
  hget-del_own k f db =
      h.hget-del k k f db ∙ ap (λ b. if b then none else h.hget k f db) (eq_refl k)
