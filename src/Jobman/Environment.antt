-- ===== src/Jobman/Environment.antt =====
-- `run_a_job`: the environment of the command. `tim2str` is an argument, and so is what `getpwuid`
-- finds.
use job.File.Object.{JobFile}
use job.File.{state2str, name}
use job.Number.{ℤ, int2str, print_int}
use mathlib.Core.Bool.{false≢true}
use job.Prelude.{
  ℕ, Bool, true, false, ◌||◌, List, [], ◌∷◌, Option, none, some, Bytes, codes, str_eq, ◌==◌,
  if◌then◌else◌, ◌≡◌, ◌∙◌, refl, ap, sym, Bool-cases, inl, inr, map,
}

abbrev pub Environ : Type 0
Environ = Bytes → Option Bytes

-- `setenv`, which replaces a value that is there.
unfoldable pub setenv : Bytes → Bytes → Environ → Environ
setenv k v e q = if str_eq k q then some v else e q

unfoldable pub set_all : List (Bytes × Bytes) → Environ → Environ
unfolding setenv
set_all [] e = e
set_all ((k, v) ∷ kvs) e = set_all kvs (setenv k v e)

-- The variables of a job.
unfoldable pub job_vars : Bytes → (ℤ → Bytes) → JobFile → List (Bytes × Bytes)
job_vars jobdir tim2str f =
    (codes "JOB_FILE", name jobdir f.handle.path)
    ∷ ((codes "JOB_ID", int2str f.handle.path.attrs.id)
        ∷ ((codes "JOB_MASTER_ID", if f.header.mid == 0 then [] else int2str f.header.mid)
            ∷ ((codes "JOB_PRIORITY", print_int f.handle.path.attrs.priority)
                ∷ ((codes "JOB_QUEUE", f.handle.path.queue)
                    ∷ ((codes "JOB_RUN_AT", tim2str f.handle.path.attrs.run_time)
                        ∷ ((codes "JOB_STATE", state2str f.handle.path.state)
                            ∷ ((codes "JOB_SUBMITTER", f.handle.path.attrs.submitter)
                                ∷ ((codes "JOB_SUBSTATUS", f.parts.substatus)
                                    ∷ ((codes "JOB_TRY_COUNT", print_int f.try_count)
                                        ∷ ((codes "JOB_TRY_LIMIT", print_int f.header.try_limit)
                                            ∷ ((codes "JOB_TYPE", f.header.type) ∷ [])))))))))))

pub record Passwd : Type 0 where
  pub pw_name : Bytes
  pub pw_dir : Bytes
  pub pw_shell : Bytes

-- The variables of the user, who may be unknown.
unfoldable pub user_vars : Option Passwd → List (Bytes × Bytes)
user_vars (some p) =
    (codes "HOME", p.pw_dir)
    ∷ ((codes "PWD", p.pw_dir) ∷ ((codes "SHELL", p.pw_shell) ∷ ((codes "USER", p.pw_name) ∷ [])))
user_vars none =
    (codes "HOME", codes "/tmp")
    ∷ ((codes "PWD", codes "/tmp") ∷ ((codes "SHELL", []) ∷ ((codes "USER", []) ∷ [])))

-- `getpwuid` is asked for the owner of the job's file.
unfoldable pub job_environ : Bytes → (ℤ → Bytes) → (ℕ → Option Passwd) → JobFile → Environ → Environ
unfolding set_all job_vars user_vars
job_environ jobdir tim2str getpwuid f e =
    set_all (user_vars (getpwuid f.uid)) (set_all (job_vars jobdir tim2str f) e)

-- The variables that are set for every job.
abbrev pub job_names : List Bytes
job_names =
    codes "JOB_FILE"
    ∷ (codes "JOB_ID"
        ∷ (codes "JOB_MASTER_ID"
            ∷ (codes "JOB_PRIORITY"
                ∷ (codes "JOB_QUEUE"
                    ∷ (codes "JOB_RUN_AT"
                        ∷ (codes "JOB_STATE"
                            ∷ (codes "JOB_SUBMITTER"
                                ∷ (codes "JOB_SUBSTATUS"
                                    ∷ (codes "JOB_TRY_COUNT"
                                        ∷ (codes "JOB_TRY_LIMIT" ∷ (codes "JOB_TYPE" ∷ [])))))))))))

abbrev pub user_names : List Bytes
user_names = codes "HOME" ∷ (codes "PWD" ∷ (codes "SHELL" ∷ (codes "USER" ∷ [])))

abbrev pub is_among : List Bytes → Bytes → Bool
is_among [] q = false
is_among (k ∷ ks) q = str_eq k q || is_among ks q

abbrev pub keys : List (Bytes × Bytes) → List Bytes
keys kvs = map (λ (t : Bytes × Bytes). t.0) kvs

-- The same value, or none, before and after.
set_all_same :
    (kvs : List (Bytes × Bytes)) (e e' : Environ) (q : Bytes)
    → e q ≡ e' q
    → set_all kvs e q ≡ set_all kvs e' q
unfolding set_all
set_all_same [] e e' q h = h
set_all_same ((k, v) ∷ kvs) e e' q h =
    set_all_same kvs (setenv k v e) (setenv k v e') q
      (ap (λ (o : Option Bytes). if str_eq k q then some v else o) h)

set_all_among :
    (kvs : List (Bytes × Bytes)) (e e' : Environ) (q : Bytes)
    → is_among (keys kvs) q ≡ true
    → set_all kvs e q ≡ set_all kvs e' q
unfolding set_all
set_all_among [] e e' q h = absurd (false≢true h)
set_all_among ((k, v) ∷ kvs) e e' q h = elim (Bool-cases (str_eq k q)) [
  | inl s ↦ set_all_same kvs (setenv k v e) (setenv k v e') q (rw s)
  | inr s ↦ set_all_among kvs (setenv k v e) (setenv k v e') q (sym (rw s) ∙ h)
]

set_all_other :
    (kvs : List (Bytes × Bytes)) (e : Environ) (q : Bytes)
    → is_among (keys kvs) q ≡ false
    → set_all kvs e q ≡ e q
unfolding set_all
set_all_other [] e q h = refl
set_all_other ((k, v) ∷ kvs) e q h = elim (Bool-cases (str_eq k q)) [
  | inl s ↦ absurd (false≢true (sym h ∙ rw s))
  | inr s ↦ set_all_other kvs (setenv k v e) q (sym (rw s) ∙ h) ∙ rw s
]

user_vars-keys : (o : Option Passwd) → keys (user_vars o) ≡ user_names
unfolding user_vars
user_vars-keys none = refl
user_vars-keys (some p) = refl

job_vars-keys :
    (jobdir : Bytes) (tim2str : ℤ → Bytes) (f : JobFile)
    → keys (job_vars jobdir tim2str f) ≡ job_names
unfolding job_vars
job_vars-keys jobdir tim2str f = refl

with_user :
    (o : Option Passwd) (jobdir : Bytes) (tim2str : ℤ → Bytes) (f : JobFile) (e : Environ)
    → let e' = set_all (user_vars o) (set_all (job_vars jobdir tim2str f) e) in
      (e' (codes "JOB_STATE") ≡ some (state2str f.handle.path.state))
      × (e' (codes "JOB_FILE") ≡ some (name jobdir f.handle.path))
unfolding set_all setenv user_vars job_vars str_eq
with_user none jobdir tim2str f e = (refl, refl)
with_user (some p) jobdir tim2str f e = (refl, refl)

-- What `JOB_STATE` and `JOB_FILE` are.
pub job_environ_state :
    (jobdir : Bytes) (tim2str : ℤ → Bytes) (getpwuid : ℕ → Option Passwd) (f : JobFile)
    (e : Environ)
    → let e' = job_environ jobdir tim2str getpwuid f e in
      (e' (codes "JOB_STATE") ≡ some (state2str f.handle.path.state))
      × (e' (codes "JOB_FILE") ≡ some (name jobdir f.handle.path))
unfolding job_environ
job_environ_state jobdir tim2str getpwuid f e = with_user (getpwuid f.uid) jobdir tim2str f e

module _ (jobdir : Bytes) (tim2str : ℤ → Bytes) (getpwuid : ℕ → Option Passwd) (f : JobFile)
    (e e' : Environ) (q : Bytes) where
  -- Nothing of the job before stays in the environment of a job, whatever that job was and whether its
  -- user was known: the variables of the job and of its user have values that do not depend on the
  -- environment before, and all others have the values that they had.
  pub job_environ_fresh : job_environ jobdir tim2str getpwuid f e q ≡ (
      if is_among user_names q || is_among job_names q
      then job_environ jobdir tim2str getpwuid f e' q
      else e q)
  unfolding job_environ
  job_environ_fresh =
      let us = user_vars (getpwuid f.uid) in
      let js = job_vars jobdir tim2str f in
      let us_keys = ap (λ ks. is_among ks q) (user_vars-keys (getpwuid f.uid)) in
      elim (Bool-cases (is_among user_names q)) [
        | inl u ↦ rw u (set_all_among us (set_all js e) (set_all js e') q (us_keys ∙ u))
        | inr u ↦ elim (Bool-cases (is_among job_names q)) [
          | inl j ↦
              rw (u, j)
                (set_all_same us (set_all js e) (set_all js e') q (set_all_among js e e' q j))
          | inr j ↦
              rw (u, j) (set_all_other us (set_all js e) q (us_keys ∙ u) ∙ set_all_other js e q j)
        ]
      ]
