-- ===== src/Jobman/Run/Released.antt =====
-- The locks of the jobs that `run_a_job` does not start.
use job.Config.{Config}
use job.File.Moves.{Error, err_ok, err_moved, err_locked, err_sys, Handle, lock}
use job.File.Moves.Owner.{OwnsIts, Free, Free-OwnsIts, lock-OwnsIts, lock_refused}
use job.File.Object.Disks.{
  Disk, StoreError, stored, not_written, not_owned, FileLoaded, loaded, no_file, bad_line, load,
  load_inode, parts_loaded, take_values, store,
}
use job.File.Object.Locks.{store-OwnsIts}
use job.File.Object.{JobFile, file_at, handle_of, new_header, one_section, no_one}
use job.File.{PathAttrs, Result, run, name, init_from_path}
use job.Jobman.Break.Locks.{AllOthers, give_up-Free, break_up-Free}
use job.Jobman.Break.{in_state}
use job.Jobman.Command.{job_command}
use job.Jobman.Environment.{job_environ}
use job.Jobman.Run.{
  World, Calls, Ran, refuse, task_of, cleared, launched, new_pad, launch_job, new_try, run_command,
  close_try, run_loaded, run_file, run_locked, run_made, run_a_job,
}
use job.Jobman.Slots.{Status}
use job.Launch.Child.{Task}
use job.Launch.{
  Pad, Table, LaunchError, err_badstate, esrch, err_timeout, err_abort, sys, start, erase,
}
use job.Multipart.Load.{Loaded, ok, err}
use job.Number.{pos}
use job.Prelude.{
  ℕ, Option, none, some, Bytes, ltb, length, ◌≡◌, ◌≢◌, refl, sym, ◌∙◌, Bool-cases, inl, inr,
}

-- If nothing has been started, the object has no lock.
abbrev pub IsReleased : ℕ → Ran → Type 0
IsReleased me r = r.task ≡ none → Free me r.world.disk.fs

-- What `load` keeps of the handle.
abbrev pub IsFrom : Handle → FileLoaded → Type 0
IsFrom h (loaded g) = (g.handle.me ≡ h.me) × (g.handle.lockfd ≡ h.lockfd) × (g.handle.path ≡ h.path)
IsFrom h no_file = Unit
IsFrom h (bad_line e n) = Unit

parts_loaded-IsFrom :
    (owner : ℕ × ℕ) (f : JobFile) (l : Loaded) → IsFrom f.handle (parts_loaded owner f l)
unfolding parts_loaded take_values
parts_loaded-IsFrom owner f (ok m) = (refl, refl, refl)
parts_loaded-IsFrom owner f (err e n m) = tt

pub load_inode-IsFrom : (d : Disk) (f : JobFile) (o : Option ℕ) → IsFrom f.handle (load_inode d f o)
unfolding load_inode
load_inode-IsFrom d f none = tt
load_inode-IsFrom d f (some i) =
    parts_loaded-IsFrom (d.owner i) f (job.Multipart.Load.load (d.content i) f.parts)

-- The object for a path that has been read.
abbrev pub file_of : ℕ → Bytes → Result PathAttrs → Result JobFile
file_of me filename r = elim r [
  | Result.err e ↦ Result.err e
  | Result.ok p ↦ Result.ok (record {
    handle = handle_of me p filename;
    header = new_header;
    parts = one_section;
    try_count = pos 0;
    uid = no_one;
    gid = no_one;
  })
]

some-none : {A : Type 0} {a : A} → some a ≡ none → ⊥
some-none e = cc

module _ (w : Calls) (jobdir : Bytes) (me : ℕ) where
  refuse-IsReleased :
      (x : World) (h : Handle) (st : Status)
      → OwnsIts me (x.disk.fs, h)
      → IsReleased me (refuse w jobdir x h st)
  unfolding refuse
  refuse-IsReleased x h st v e = give_up-Free me jobdir w.in_done x.disk h v

  launched-IsReleased :
      (x : World) (f : JobFile) (t : Task) (q : Pad JobFile) (table : Table JobFile)
      (e : LaunchError)
      → OwnsIts me (x.disk.fs, f.handle)
      → IsReleased me (launched w jobdir x f t (q, table, e))
  unfolding launched
  launched-IsReleased x f t q table LaunchError.err_ok v = λ e. absurd (some-none e)
  launched-IsReleased x f t q table err_badstate v =
      refuse-IsReleased (record x { table = erase q.pid table }) f.handle Status.err_abort v
  launched-IsReleased x f t q table esrch v =
      refuse-IsReleased (record x { table = erase q.pid table }) f.handle Status.err_abort v
  launched-IsReleased x f t q table err_timeout v =
      refuse-IsReleased (record x { table = erase q.pid table }) f.handle Status.err_abort v
  launched-IsReleased x f t q table err_abort v =
      refuse-IsReleased (record x { table = erase q.pid table }) f.handle Status.err_abort v
  launched-IsReleased x f t q table (sys n) v =
      refuse-IsReleased (record x { table = erase q.pid table }) f.handle Status.err_abort v

  launch_job-IsReleased :
      (cmd : Bytes) (x : World) (f : JobFile) (e : StoreError)
      → OwnsIts me (x.disk.fs, f.handle)
      → IsReleased me (launch_job w jobdir cmd x f e)
  unfolding launch_job
  launch_job-IsReleased cmd x f stored v =
      let (q, t, e) = start w.killed w.forked (new_pad (cleared f)) x.table in
      launched-IsReleased x (cleared f) (task_of jobdir f cmd) q t e v
  launch_job-IsReleased cmd x f not_written v = refuse-IsReleased x f.handle Status.err_abort v
  launch_job-IsReleased cmd x f not_owned v = refuse-IsReleased x f.handle Status.err_abort v

  run_command-IsReleased :
      (x : World) (f : JobFile) (cmd : Option Bytes)
      → OwnsIts me (x.disk.fs, f.handle)
      → IsReleased me (run_command w jobdir x f cmd)
  unfolding run_command new_try
  run_command-IsReleased x f none v = refuse-IsReleased x f.handle Status.err_again v
  run_command-IsReleased x f (some cmd) v =
      let f1 = new_try w f in
      let f2 = record f1 { handle = in_state run f1.handle } in
      let (d, f3, e) = store w.in_store w.in_text jobdir w.uuid x.disk f2 in
      launch_job-IsReleased cmd
        (record x { disk = d; environ = job_environ jobdir w.tim2str w.getpwuid f1 x.environ }) f3 e
        (store-OwnsIts w.in_store w.in_text jobdir w.uuid x.disk f2 me
          (record { me_is = v.me_is; own = v.own }))

  module _ (quecfg : Config) (others : AllOthers me w.group.kid_calls) where
    run_loaded-IsReleased :
        (x : World) (f : JobFile)
        → OwnsIts me (x.disk.fs, f.handle)
        → IsReleased me (run_loaded quecfg w jobdir x f)
    unfolding run_loaded close_try
    run_loaded-IsReleased x f v = elim (Bool-cases (ltb 1 (length f.header.ties))) [
      | inl g ↦ rw g (λ e. break_up-Free me jobdir w.group x.disk f others v)
      | inr g ↦ rw g (
          run_command-IsReleased x (close_try w f)
            (job_command quecfg f.header.type f.header.command f.header.args) v)
    ]

    run_file-IsReleased :
        (x : World) (h : Handle) (l : FileLoaded)
        → OwnsIts me (x.disk.fs, h)
        → IsFrom h l
        → IsReleased me (run_file quecfg w jobdir x h l)
    unfolding run_file
    run_file-IsReleased x h (loaded f) v (m, fd, _) =
        run_loaded-IsReleased x f (record { me_is = m ∙ v.me_is; own = λ i l. fd ∙ v.own i l })
    run_file-IsReleased x h no_file v _ =
        refuse-IsReleased x (record h { oldnam = name jobdir h.path }) Status.err_again
          (record { me_is = v.me_is; own = v.own })
    run_file-IsReleased x h (bad_line e n) v _ =
        refuse-IsReleased x (record h { oldnam = name jobdir h.path }) Status.err_again
          (record { me_is = v.me_is; own = v.own })

    run_locked-IsReleased :
        (x : World) (f : JobFile) (e : Error)
        → OwnsIts me (x.disk.fs, f.handle)
        → (e ≢ err_ok → f.handle.lockfd ≡ none)
        → IsReleased me (run_locked quecfg w jobdir x f e)
    unfolding run_locked load
    run_locked-IsReleased x f err_ok v n = run_file-IsReleased x f.handle (load jobdir x.disk f) v (
        load_inode-IsFrom x.disk
          (record f { handle = record (f.handle) { oldnam = name jobdir f.handle.path } })
          (x.disk.fs.names (name jobdir f.handle.path)))
    run_locked-IsReleased x f err_moved v n = λ _ i l. some-none (sym (v.own i l) ∙ n (λ k. cc))
    run_locked-IsReleased x f err_locked v n = λ _ i l. some-none (sym (v.own i l) ∙ n (λ k. cc))
    run_locked-IsReleased x f err_sys v n = refuse-IsReleased x f.handle Status.err_again v

    run_made-IsReleased :
        (x : World) (filename : Bytes) (r : Result PathAttrs)
        → w.me ≡ me
        → Free me x.disk.fs
        → IsReleased me (run_made quecfg w jobdir x filename (file_of me filename r))
    unfolding run_made
    run_made-IsReleased x filename (Result.err e) m free =
        refuse-IsReleased x (handle_of w.me w.unread filename) Status.err_again
          (Free-OwnsIts me x.disk.fs (handle_of w.me w.unread filename) m free)
    run_made-IsReleased x filename (Result.ok p) m free =
        let h0 = handle_of me p filename in
        let (fs, h) = lock w.in_lock x.disk.fs h0 in
        run_locked-IsReleased (record x { disk = record (x.disk) { fs = fs } }) (object h) h.error
          (lock-OwnsIts w.in_lock me x.disk.fs h0 (Free-OwnsIts me x.disk.fs h0 refl free))
          (lock_refused w.in_lock x.disk.fs h0 refl)
      where
        object : Handle → JobFile
        object h = record {
          handle = h;
          header = new_header;
          parts = one_section;
          try_count = pos 0;
          uid = no_one;
          gid = no_one;
        }

-- A job that `run_a_job` does not start, on whichever of its ways out and with whichever calls
-- failing, is not left locked by the object that it was read into, which is a new one; neither is a
-- group job that is broken up into children, whose objects are others.
pub run_a_job-Free :
    (quecfg : Config) (w : Calls) (jobdir : Bytes) (x : World) (filename : Bytes)
    → AllOthers w.me w.group.kid_calls
    → Free w.me x.disk.fs
    → (run_a_job quecfg w jobdir x filename).task ≡ none
    → Free w.me (run_a_job quecfg w jobdir x filename).world.disk.fs
unfolding run_a_job file_at
run_a_job-Free quecfg w jobdir x filename others free idle =
    run_made-IsReleased w jobdir w.me quecfg others x filename (init_from_path filename) refl free
      idle
