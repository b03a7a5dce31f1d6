-- ===== src/File/Moves/Renamed.antt =====
-- What `repath` does to the directory tree, on every branch.
use job.File.Moves.{
  Fs, set_name, set_lock, Faults, Error, err_ok, err_moved, err_locked, err_sys, Handle, is_ok,
  is_run, flock_fd, open_fd, lock_fd, unlock_fd, lock, unlock, rename_to, repath,
}
use job.File.{is_empty, name}
use job.Prelude.{
  ℕ, Bool, true, false, Option, none, some, Bytes, str_eq, str_eq_iff, ◌==◌, ◌≡◌, ◌≢◌, refl, ap,
  ap₂, sym, some_injective, ◌⊎◌, ◌∙◌, Bool-cases, inl, inr, arith, subst,
}

-- The lock of an object is the lock of its inode.
abbrev pub HoldsIts : Fs → Handle → Type 0
HoldsIts fs h = elim h.lockfd [ none ↦ Unit | some i ↦ fs.locked i ≡ some h.me ]

-- The inode that the object has open, or that its name leads to.
abbrev pub LockOf : Fs → Handle → ℕ → Type 0
LockOf fs h i = (h.lockfd ≡ some i) ⊎ ((h.lockfd ≡ none) × (fs.names h.oldnam ≡ some i))

-- `lock` leaves the names, the path and `oldnam`; without an error the object holds a lock, which is
-- its own.
pub record IsLocked (fs : Fs) (h : Handle) (r : Fs × Handle) : Type 0 where
  pub names_is : r.0.names ≡ fs.names
  pub path_is : r.1.path ≡ h.path
  pub oldnam_is : r.1.oldnam ≡ h.oldnam
  pub me_is : r.1.me ≡ h.me
  pub held :
      r.1.error ≡ err_ok
      → (i : ℕ) × (r.1.lockfd ≡ some i) × (r.0.locked i ≡ some h.me) × LockOf fs h i

flock_fd-IsLocked :
    (w : Faults) (i : ℕ) (o : Option ℕ) (fs : Fs) (h : Handle)
    → LockOf fs h i
    → IsLocked fs h (flock_fd w i o fs h)
unfolding flock_fd set_lock
flock_fd-IsLocked w i (some j) fs h its = record {
  names_is = refl;
  path_is = refl;
  oldnam_is = refl;
  me_is = refl;
  held = λ e. cc;
}
flock_fd-IsLocked w i none fs h its = elim (Bool-cases w.flock_fails) [
  | inl e ↦
      rw e
        (record { names_is = refl; path_is = refl; oldnam_is = refl; me_is = refl; held = λ e. cc })
  | inr e ↦ rw e (record {
    names_is = refl;
    path_is = refl;
    oldnam_is = refl;
    me_is = refl;
    held = λ e. (i, refl, (let s : (i == i) ≡ true = ground arith in rw s), its);
  })
]

open_fd-IsLocked :
    (w : Faults) (o : Option ℕ) (fs : Fs) (h : Handle)
    → h.lockfd ≡ none
    → fs.names h.oldnam ≡ o
    → IsLocked fs h (open_fd w o fs h)
unfolding open_fd
open_fd-IsLocked w none fs h n q = record {
  names_is = refl;
  path_is = refl;
  oldnam_is = refl;
  me_is = refl;
  held = λ e. cc;
}
open_fd-IsLocked w (some i) fs h n q = elim (Bool-cases w.open_fails) [
  | inl e ↦
      rw e
        (record { names_is = refl; path_is = refl; oldnam_is = refl; me_is = refl; held = λ e. cc })
  | inr e ↦ rw e (flock_fd-IsLocked w i (fs.locked i) fs h (inr (n, q)))
]

lock_fd-IsLocked :
    (w : Faults) (o : Option ℕ) (fs : Fs) (h : Handle)
    → h.lockfd ≡ o
    → HoldsIts fs h
    → IsLocked fs h (lock_fd w o fs h)
unfolding lock_fd
lock_fd-IsLocked w none fs h e v = open_fd-IsLocked w (fs.names h.oldnam) fs h e refl
lock_fd-IsLocked w (some i) fs h e v = record {
  names_is = refl;
  path_is = refl;
  oldnam_is = refl;
  me_is = refl;
  held = λ k.
      (i, e, subst (λ o. elim o [ none ↦ Unit | some j ↦ fs.locked j ≡ some h.me ]) e v, inl e);
}

pub lock-IsLocked :
    (w : Faults) (fs : Fs) (h : Handle) → HoldsIts fs h → IsLocked fs h (lock w fs h)
unfolding lock
lock-IsLocked w fs h v = lock_fd-IsLocked w h.lockfd fs h refl v

-- What has become of the lock of that inode: kept, as the object's own, where the job is to run, and
-- else released, so that nobody has it.
abbrev pub LockAfter : Bool → Fs → Handle → Fs × Handle → Type 0
LockAfter true fs h r = (i : ℕ) × (r.1.lockfd ≡ some i) × (r.0.locked i ≡ some h.me) × LockOf fs h i
LockAfter false fs h r = (r.1.lockfd ≡ none) × ((i : ℕ) × (r.0.locked i ≡ none) × LockOf fs h i)

-- The ways out of `repath`.
pub data Repathed (jobdir : Bytes) (fs : Fs) (h : Handle) (r : Fs × Handle) : Type 0 where
  no_file : is_empty h.oldnam ≡ true → r ≡ (fs, h) → Repathed jobdir fs h r
  in_place :
      h.oldnam ≡ name jobdir h.path → r ≡ (fs, record h { error = err_ok }) → Repathed jobdir fs h r
  refused :
      r.1.error ≢ err_ok → r.0.names ≡ fs.names → r.1.oldnam ≡ h.oldnam → Repathed jobdir fs h r
  renamed :
      (i : ℕ)
      → fs.names h.oldnam ≡ some i
      → r.1.error ≡ err_ok
      → r.1.oldnam ≡ name jobdir h.path
      → r.0.names ≡ set_name h.oldnam none (set_name (name jobdir h.path) (some i) fs.names)
      → LockAfter (is_run h.path.state) fs h r
      → Repathed jobdir fs h r

unlock_fd_lem :
    (o : Option ℕ) (fs : Fs) (h : Handle)
    → h.lockfd ≡ o
    → ((unlock_fd o fs h).0.names ≡ fs.names)
      × ((unlock_fd o fs h).1.oldnam ≡ h.oldnam)
      × ((unlock_fd o fs h).1.error ≡ err_ok)
      × ((unlock_fd o fs h).1.lockfd ≡ none)
unfolding unlock_fd
unlock_fd_lem none fs h e = (refl, refl, refl, e)
unlock_fd_lem (some i) fs h e = (refl, refl, refl, refl)

unlock_fd_free :
    (o : Option ℕ) (i : ℕ) (fs : Fs) (h : Handle)
    → o ≡ some i
    → (unlock_fd o fs h).0.locked i ≡ none
unfolding unlock_fd set_lock
unlock_fd_free none i fs h e = cc
unlock_fd_free (some j) i fs h e =
    let same : j ≡ i = some_injective e in let s : (j == i) ≡ true = ground (arith, same) in rw s

-- The renaming, with a lock of its own, of an object `g` that came from `h`.
rename_to-Repathed :
    (w : Faults) (jobdir : Bytes) (fs fs' : Fs) (h g : Handle) (o : Option ℕ)
    → fs'.names ≡ fs.names
    → g.path ≡ h.path
    → g.oldnam ≡ h.oldnam
    → fs'.names g.oldnam ≡ o
    → (i : ℕ) × (g.lockfd ≡ some i) × (fs'.locked i ≡ some h.me) × LockOf fs h i
    → Repathed jobdir fs h (rename_to w (name jobdir h.path) o fs' g)
unfolding rename_to
rename_to-Repathed w jobdir fs fs' h g none n p q e l = refused (λ k. cc) n q
rename_to-Repathed w jobdir fs fs' h g (some i) n p q e l = elim (Bool-cases w.rename_fails) [
  | inl f ↦ rw f (refused (λ k. cc) n q)
  | inr f ↦ elim (Bool-cases (is_run g.path.state)) [
    | inl s ↦
        rw (f, s)
          (renamed i (sym (ap₂ (λ m o. m o) n q) ∙ e) refl refl (moved i)
            (subst (λ b. LockAfter b fs h (tree i, object)) (sym s ∙ run_is) l))
    | inr s ↦
        (let u = unlock_fd_lem g.lockfd (tree i) object refl in
          rw (f, s)
            (unfold unlock in
              renamed i (sym (ap₂ (λ m o. m o) n q) ∙ e) u.2 u.1 (u.0 ∙ moved i) (
                subst (λ b. LockAfter b fs h (unlock_fd g.lockfd (tree i) object)) (sym s ∙ run_is)
                  (u.3, (l.0, unlock_fd_free g.lockfd l.0 (tree i) object l.1, l.3)))))
  ]
]
  where
    tree : ℕ → Fs
    tree i = record fs' {
      names = set_name g.oldnam none (set_name (name jobdir h.path) (some i) fs'.names);
    }

    object : Handle
    object = record g { oldnam = name jobdir h.path; error = err_ok }

    moved :
        (i : ℕ)
        → (tree i).names ≡ set_name h.oldnam none (set_name (name jobdir h.path) (some i) fs.names)
    moved i = ap₂ (λ m o. set_name o none (set_name (name jobdir h.path) (some i) m)) n q

    run_is : is_run g.path.state ≡ is_run h.path.state
    run_is = ap (λ x. is_run x.state) p

-- `repath`, on an object that holds the lock of its open file: either there is nothing to do; or it
-- fails, and no name has changed; or the file has its new name and lost the old one, no other name
-- has changed, and the inode that the object had open, or opened by the old name, is locked by the
-- object if the job is to run, and otherwise by nobody.
pub repath-Repathed :
    (w : Faults) (jobdir : Bytes) (fs : Fs) (h : Handle)
    → HoldsIts fs h
    → Repathed jobdir fs h (repath w jobdir fs h)
unfolding repath is_ok
repath-Repathed w jobdir fs h v = elim (Bool-cases (is_empty h.oldnam)) [
  | inl e ↦ rw e (no_file e refl)
  | inr e ↦ elim (Bool-cases (str_eq h.oldnam (name jobdir h.path))) [
    | inl s ↦ rw (e, s) (in_place ((str_eq_iff h.oldnam (name jobdir h.path)).0 s) refl)
    | inr s ↦
        (let l = lock-IsLocked w fs h v in
          elim (Bool-cases (is_ok (lock w fs h).1.error)) [
            | inr b ↦ rw (e, s, b) (refused (not_ok (lock w fs h).1.error b) l.names_is l.oldnam_is)
            | inl b ↦
                rw (e, s, b)
                  (rename_to-Repathed w jobdir fs (lock w fs h).0 h (lock w fs h).1
                    ((lock w fs h).0.names (lock w fs h).1.oldnam) l.names_is l.path_is l.oldnam_is
                    refl (l.held (all_ok (lock w fs h).1.error b)))
          ])
  ]
]
  where
    not_ok : (x : Error) → is_ok x ≡ false → x ≢ err_ok
    not_ok err_ok b k = cc
    not_ok err_moved b k = cc
    not_ok err_locked b k = cc
    not_ok err_sys b k = cc

    all_ok : (x : Error) → is_ok x ≡ true → x ≡ err_ok
    all_ok err_ok b = refl
    all_ok err_moved b = cc
    all_ok err_locked b = cc
    all_ok err_sys b = cc
