-- ===== src/File/Moves/Race.antt =====
-- Several job managers and one job file, a system call at a time: `lock` and `repath` of
-- src/job/file.cxx as `run_a_job`, `bring_out_yer_dead` and `try_done` of src/jobman.cxx use them.
-- The file is one inode; its name tells its directory. The numbers stand for the objects
-- (`job::file`) that the managers make of the file, each with its own `lockfd`. A job's process that
-- outlives its manager is not followed, nor is the other file that the process makes under the job's
-- name in `run` where the renaming has failed.
pub mod Taking
use job.Prelude.{ℕ, Option, none, some, ◌==◌, if◌then◌else◌, ◌≡◌, ◌≢◌, true, false, Bool, ◌⊎◌}

-- Where the name stands. Other names, of the same directory with another time or priority, count as
-- other places, told apart by a number.
pub data Place : Type 0 where
  waits : ℕ → Place
  runs : Place
  ended : Place

-- Where an object stands: before `open`; with an open file that was found at a place; with a locked
-- one; loaded, by `run_a_job`, from that place; and with the job's process started, the place being the
-- one of `oldnam`.
pub data Pc : Type 0 where
  idle : Pc
  opened : Place → Pc
  locked : Place → Pc
  loaded : Place → Pc
  running : Place → Pc

pub record System : Type 0 where
  pub place : Place
  pub owner : Option ℕ
  pub pc : ℕ → Pc

abbrev pub update : (ℕ → Pc) → ℕ → Pc → ℕ → Pc
update f i v j = if i == j then v else f j

-- One call for the object `i`, or the death of its manager.
pub data Move (s : System) (i : ℕ) : System → Type 0 where
  -- `open(oldnam)` in `lock`: the job is found waiting, by `run_a_job`, or where it runs, by
  -- `bring_out_yer_dead`.
  open_file : s.pc i ≡ idle → Move s i (record s { pc = update s.pc i (opened s.place) })
  -- `flock(lockfd, LOCK_EX | LOCK_NB)`, which succeeds, or says `EWOULDBLOCK`, or fails; then `lockfd`
  -- is closed.
  flock :
      {p : Place}
      → s.pc i ≡ opened p
      → s.owner ≡ none
      → Move s i (record s { owner = some i; pc = update s.pc i (locked p) })
  flock_fails : {p : Place} → s.pc i ≡ opened p → Move s i (record s { pc = update s.pc i idle })
  -- `load` in `run_a_job`, which finds the file by its name.
  load :
      {p : Place}
      → s.pc i ≡ locked p
      → s.place ≡ p
      → Move s i (record s { pc = update s.pc i (loaded p) })
  -- `repath` in `store`: `rename(oldnam, newnam)` to `run`; the lock is kept.
  rename_to_run :
      {p : Place}
      → s.pc i ≡ loaded p
      → s.place ≡ p
      → Move s i (record s { place = runs; pc = update s.pc i (running runs) })
  -- The same where `rename` fails, which `store` ignores: the job is started where its file is.
  rename_fails :
      {p : Place} → s.pc i ≡ loaded p → Move s i (record s { pc = update s.pc i (running p) })
  -- `bring_out_yer_dead`: `rename` of a job found in `run` to `pend`; then the object is deleted, which
  -- closes `lockfd`.
  rename_to_pend :
      {m : ℕ}
      → s.pc i ≡ locked runs
      → s.place ≡ runs
      → Move s i (record s { place = waits m; owner = none; pc = update s.pc i idle })
  -- A locked object is deleted: its `rename` has failed, or `load` has, and the file is moved to `done`
  -- if it is still there.
  give_up :
      {p : Place} (q : Place)
      → s.pc i ≡ locked p
      → (q ≡ s.place) ⊎ ((s.place ≡ p) × (q ≡ ended))
      → Move s i (record s { place = q; owner = none; pc = update s.pc i idle })
  -- A group job that has been broken up: `repath` to `tied`, which can fail, and the object is deleted.
  split_up :
      {p : Place} (q : Place)
      → s.pc i ≡ loaded p
      → (q ≡ p) ⊎ (q ≢ runs)
      → Move s i (record s { place = q; owner = none; pc = update s.pc i idle })
  -- `try_done`, or a launch that fails: `repath` to `pend`, `tied` or `done`, which can fail, and the
  -- object is deleted.
  finish :
      {p : Place} (q : Place)
      → s.pc i ≡ running p
      → (q ≡ p) ⊎ (q ≢ runs)
      → Move s i (record s { place = q; owner = none; pc = update s.pc i idle })
  -- `try_done` where `load` fails: the object is forgotten with its lock.
  forget : {p : Place} → s.pc i ≡ running p → Move s i (record s { pc = update s.pc i idle })
  -- The manager dies while the object has the lock: the kernel closes its files.
  dies : s.owner ≡ some i → Move s i (record s { owner = none; pc = update s.pc i idle })

pub data Reach : System → Type 0 where
  submitted : (n : ℕ) → Reach (record { place = waits n; owner = none; pc = λ i. idle })
  later : {s t : System} (i : ℕ) → Reach s → Move s i t → Reach t

-- What holds of an object: past `flock` it has the lock, and past `load` the file is where its name
-- says.
abbrev pub IsFair : Place → Option ℕ → ℕ → Pc → Type 0
IsFair place owner i (locked p) = owner ≡ some i
IsFair place owner i (loaded p) = (owner ≡ some i) × (place ≡ p)
IsFair place owner i (running p) = (owner ≡ some i) × (place ≡ p)
IsFair place owner i _ = Unit

abbrev pub Inv : System → Type 0
Inv s = (i : ℕ) → IsFair s.place s.owner i (s.pc i)

-- The object is past `flock`.
abbrev pub has_lock : Pc → Bool
has_lock idle = false
has_lock (opened p) = false
has_lock _ = true
