-- ===== src/Jobman/Chores.antt =====
-- src/jobman.cxx: the chores on whole directories, `kellys_kleaning_kompany`, `bring_out_yer_dead`
-- and `terminate_with_predjudice`. What `readdir`, `time` and the system calls return is in the
-- entries of the directory.
pub mod Housekeeping
pub mod Ours
use job.File.{NameAttrs, PathAttrs, Result, ok, err, parse, init_from_path}
use job.Jobman.Retry.{int_lt}
use job.Launch.{Table}
use job.Number.{ℤ, pos, negsuc, str2int}
use job.Prelude.{
  ℕ, ◌+◌, ◌-◌, ◌^◌, Bool, true, false, not, ◌&&◌, List, [], ◌∷◌, ◌++◌, Option, none, some, Bytes,
  ltb, leb, ◌==◌, if◌then◌else◌,
}

-- An entry of a directory: the time at which it is looked at, its name, and whether the system calls
-- on it succeed.
pub record Dirent : Type 0 where
  pub at : ℕ
  pub d_name : Bytes
  pub unlinks : Bool
  pub signals : Bool

-- `run_time + age_clean`.
unfoldable pub add_secs : ℤ → ℕ → ℤ
add_secs (pos n) k = pos (n + k)
add_secs (negsuc n) k = if ltb n k then pos (k - n - 1) else negsuc (n - k)

-- A job file that is old enough to be purged.
unfoldable pub is_old : ℕ → ℕ → Result NameAttrs → Bool
unfolding add_secs int_lt
is_old age_clean now (err e) = false
is_old age_clean now (ok a) = int_lt (add_secs a.run_time age_clean) (pos now)

-- What the housekeeper has done: the names for which `unlink` succeeded, the count of purged files, and
-- whether the time ran out.
pub record Cleaned : Type 0 where
  pub unlinked : List Bytes
  pub n : ℕ
  pub timed_out : Bool

unfoldable pub purge : Dirent → Cleaned → Cleaned
purge d c = if d.unlinks then record c { unlinked = d.d_name ∷ c.unlinked; n = 1 + c.n } else c

-- The loop over the directory of done jobs.
unfoldable pub clean_loop : ℕ → ℕ → ℕ → List Dirent → Cleaned
unfolding is_old purge
clean_loop age_clean now run_limit [] = record { unlinked = []; n = 0; timed_out = false }
clean_loop age_clean now run_limit (d ∷ ds) =
    let rest = clean_loop age_clean now run_limit ds in
    if ltb run_limit d.at
    then record { unlinked = []; n = 0; timed_out = true }
    else if is_old age_clean now (parse d.d_name)
    then purge d rest
    else rest

-- `kellys_kleaning_kompany` at the time `now`, on the flag `check_soon`; `none`: `opendir` failed.
unfoldable pub kellys_kleaning_kompany : ℕ → ℕ → Option (List Dirent) → Bool → Cleaned × Bool
unfolding clean_loop
kellys_kleaning_kompany age_clean now none check_soon =
    (record { unlinked = []; n = 0; timed_out = false }, check_soon)
kellys_kleaning_kompany age_clean now (some ds) check_soon =
    let c = clean_loop age_clean now (now + 3) ds in (c, if c.timed_out then true else check_soon)

-- The loop over `launch::finmap`: the process of the job. The user argument is the id of the job
-- file, `none` for a null pointer.
unfoldable pub pid_of : Table (Option ℕ) → ℕ → Option ℕ
pid_of [] id = none
pid_of (p ∷ t) id = elim p.ua [
  | none ↦ pid_of t id
  | some k ↦ if k == id then some p.pid else pid_of t id
]

unfoldable pub is_some {ℓ} : {A : Type ℓ} → Option A → Bool
is_some none = false
is_some (some a) = true

-- A file in the directory of running jobs, and how `repath` ends on it.
pub data Repathed : Type 0 where
  repath_ok repath_moved repath_locked repath_failed : Repathed

pub record RunFile : Type 0 where
  pub path : Bytes
  pub repathed : Repathed

-- One file of `bring_out_yer_dead`: the job for which `repath` to pending is called.
unfoldable pub found_dead : Table (Option ℕ) → Result PathAttrs → Option PathAttrs
unfolding pid_of is_some
found_dead t (err e) = none
found_dead t (ok jf) = if is_some (pid_of t jf.attrs.id) then none else some jf

unfoldable pub is_repath_ok : Repathed → Bool
is_repath_ok repath_ok = true
is_repath_ok _ = false

unfoldable pub resurrect : Option PathAttrs → Repathed → List PathAttrs × ℕ → List PathAttrs × ℕ
unfolding is_repath_ok
resurrect none r (jobs, n) = (jobs, n)
resurrect (some jf) r (jobs, n) = (jf ∷ jobs, (if is_repath_ok r then 1 else 0) + n)

-- `bring_out_yer_dead`: the jobs for which `repath` is called, and how many are resurrected.
unfoldable pub bring_out_yer_dead : Table (Option ℕ) → List RunFile → List PathAttrs × ℕ
unfolding found_dead resurrect
bring_out_yer_dead t [] = ([], 0)
bring_out_yer_dead t (f ∷ fs) =
    resurrect (found_dead t (init_from_path f.path)) f.repathed (bring_out_yer_dead t fs)

-- What the killer has done: the kill files that it has taken up, and those for which `unlink`
-- succeeded; the processes for which it has called `kill` with `SIGTERM`, one for each file taken up, the count of signals sent, and whether the time ran out.
pub record Killed : Type 0 where
  pub orders : List Bytes
  pub unlinked : List Bytes
  pub pids : List ℕ
  pub n : ℕ
  pub timed_out : Bool

-- `job::id_t jid = str2int(d->d_name)`: a negative number wraps.
unfoldable pub kill_id : Bytes → ℕ
kill_id d_name = elim (str2int d_name) [ pos n ↦ n | negsuc n ↦ 2 ^ 64 - 1 - n ]

-- The process that a kill file is about, if it is ours.
unfoldable pub victim : Table (Option ℕ) → Bytes → Option ℕ
unfolding kill_id pid_of
victim t d_name = if kill_id d_name == 0 then none else pid_of t (kill_id d_name)

unfoldable pub terminate_loop : Table (Option ℕ) → ℕ → List Dirent → Killed
unfolding victim
terminate_loop t run_limit [] = record {
  orders = [];
  unlinked = [];
  pids = [];
  n = 0;
  timed_out = false;
}
terminate_loop t run_limit (d ∷ ds) =
    let rest = terminate_loop t run_limit ds in
    let here : Killed = elim (victim t d.d_name) [
      | none ↦ rest
      | some pid ↦ record rest {
        orders = d.d_name ∷ rest.orders;
        unlinked = if d.unlinks then d.d_name ∷ rest.unlinked else rest.unlinked;
        pids = pid ∷ rest.pids;
        n = (if d.signals then 1 else 0) + rest.n;
      }
    ] in
    if ltb run_limit d.at
    then record { orders = []; unlinked = []; pids = []; n = 0; timed_out = true }
    else here

-- `terminate_with_predjudice` at the time `now`; `none`: `opendir` failed.
unfoldable pub terminate_with_predjudice : Table (Option ℕ) → ℕ → Option (List Dirent) → Killed
unfolding terminate_loop
terminate_with_predjudice t now none = record {
  orders = [];
  unlinked = [];
  pids = [];
  n = 0;
  timed_out = false;
}
terminate_with_predjudice t now (some ds) = terminate_loop t (now + 2) ds
