-- ===== src/Store/Lease/Reap.antt =====
-- The recovery of expired leases of src/symphony/store.py.
use openhands_symphony.Base.{
  String, Bool, false, ◌≡◌, refl, sym, ap, ◌∙◌, Option, none, some, List, [], ◌∷◌, ◌==◌, ◌&&◌, ◌||◌,
  string_eq, arith, eq_iff, eq_refl, any, delete_where, All, IsUnique, Bool-cases, inl, inr, map,
  find_of_any, find_holds, any_false→All, any-false_imp, All-imp₂, eq_symm, fun_ext, All-imp,
}
use openhands_symphony.Models.{Timestamp, Job}
use openhands_symphony.Store.Schema.{Lease, Db, has_id, holds}
use openhands_symphony.Store.Lease.{
  join_jobs, is_reapable, reap_one, reap_rows, reap_expired_leases, mem_text,
}
use openhands_symphony.Store.Consistent.{same_holder, Refers, IsConsistent}

abbrev ids : List Job → List String
ids = map (λ j. j.id)

delete_twice :
    (p q : Lease → Bool) (leases : List Lease)
    → delete_where q (delete_where p leases) ≡ delete_where (λ l. p l || q l) leases
unfolding delete_where
delete_twice p q [] = refl
delete_twice p q (l ∷ leases) = ground (arith, delete_twice p q leases)

delete_none : (leases : List Lease) → delete_where (λ _. false) leases ≡ leases
unfolding delete_where
delete_none [] = refl
delete_none (l ∷ leases) = ap (λ r. l ∷ r) (delete_none leases)

-- The test needs to agree only on the rows that are there.
delete_congr :
    (p q : Lease → Bool) (leases : List Lease)
    → All (λ l. p l ≡ q l) leases
    → delete_where p leases ≡ delete_where q leases
unfolding delete_where
delete_congr p q [] h = refl
delete_congr p q (l ∷ leases) h = ground (arith, h.0, delete_congr p q leases h.1)

-- The loop deletes the leases of its rows and no other.
leases-reap_rows :
    (now : Timestamp) (rows : List Job) (db : Db)
    → (reap_rows now rows db).1.leases ≡ delete_where (λ l. mem_text l.job_id (ids rows)) db.leases
unfolding reap_rows reap_one
leases-reap_rows now [] db = sym (delete_none db.leases)
leases-reap_rows now (row ∷ rows) db =
    leases-reap_rows now rows (reap_one now row db)
    ∙ delete_twice (holds row.id) (λ l. mem_text l.job_id (ids rows)) db.leases
    ∙ ap (λ (p : Lease → Bool). delete_where p db.leases)
        (fun_ext λ l. ap (λ b. b || mem_text l.job_id (ids rows)) (eq_symm l.job_id row.id))

-- The ids of the joined rows are those of the leases that pass the test.
mem_join :
    (p : Lease → Bool) (jobs : List Job) (k : String) (leases : List Lease)
    → All (λ l. Refers jobs l.job_id) leases
    → mem_text k (ids (join_jobs p leases jobs)) ≡ any (λ l. p l && l.job_id == k) leases
unfolding join_jobs any
mem_join p jobs k [] refs = refl
mem_join p jobs k (l ∷ leases) refs = elim (Bool-cases (p l)) [
  | inr e ↦ rw e (mem_join p jobs k leases refs.1)
  | inl e ↦
      let (j, found) = find_of_any (has_id l.job_id) jobs refs.0 in
      let same : j.id ≡ l.job_id =
        (eq_iff j.id l.job_id).0 (find_holds (has_id l.job_id) jobs j found) in
      rw (e, found, same) (ap (λ b. l.job_id == k || b) (mem_join p jobs k leases refs.1))
]

-- With one lease to a job, a lease passes the test just when some lease of its job does.
only_lease :
    (p : Lease → Bool) (leases : List Lease)
    → IsUnique same_holder leases
    → All (λ x. any (λ l. p l && l.job_id == x.job_id) leases ≡ p x) leases
unfolding any
only_lease p [] unique = tt
only_lease p (y ∷ rest) unique = (
  ground (
    arith,
    eq_refl y.job_id,
    any-false_imp (λ l. p l && l.job_id == y.job_id) (same_holder y) rest (λ l h. ground arith)
        unique.0,
  ),
  All-imp₂ _ _ _ rest (λ x other same. ground (arith, eq_symm x.job_id y.job_id, other, same))
      (any_false→All (same_holder y) rest unique.0) (only_lease p rest unique.1),
)

leases-reap_joined :
    (now : Timestamp) (p : Lease → Bool) (db : Db)
    → IsConsistent db
    → (reap_rows now (join_jobs p db.leases db.jobs) db).1.leases ≡ delete_where p db.leases
leases-reap_joined now p db c =
    leases-reap_rows now (join_jobs p db.leases db.jobs) db
    ∙ delete_congr _ p db.leases (
        All-imp _ _ db.leases (λ l e. mem_join p db.jobs l.job_id db.leases c.lease_refs ∙ e)
          (only_lease p db.leases c.lease_holders))

delete_false :
    (p : Lease → Bool) (leases : List Lease)
    → ((l : Lease) → p l ≡ false)
    → leases ≡ delete_where p leases
unfolding delete_where
delete_false p [] h = refl
delete_false p (l ∷ leases) h = ground (arith, h l, delete_false p leases h)

-- In a consistent database recovery deletes exactly the leases that have expired and, where ids are
-- given, whose job is among them: live leases, and those of other jobs, stay as they are.
pub leases-reap_expired_leases :
    (now : Timestamp) (ids : Option (List String)) (db : Db)
    → IsConsistent db
    → (reap_expired_leases now ids db).1.leases ≡ delete_where (is_reapable now ids) db.leases
unfolding reap_expired_leases
leases-reap_expired_leases now none db c = leases-reap_joined now (is_reapable now none) db c
leases-reap_expired_leases now (some []) db c =
    delete_false (is_reapable now (some [])) db.leases (λ l. unfold is_reapable in ground arith)
leases-reap_expired_leases now (some (k ∷ ids)) db c =
    leases-reap_joined now (is_reapable now (some (k ∷ ids))) db c
