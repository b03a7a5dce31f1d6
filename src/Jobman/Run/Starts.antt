-- ===== src/Jobman/Run/Starts.antt =====
-- What holds when `run_a_job` has started a process.
use job.Config.{Config}
use job.File.Moves.{Fs, Error, err_ok, err_moved, err_locked, err_sys, Handle, lock}
use job.File.Moves.Held.{Holds}
use job.File.Moves.Renamed.{LockOf, lock-IsLocked}
use job.File.Object.Disks.{
  StoreError, stored, not_written, not_owned, FileLoaded, loaded, no_file, bad_line, load, store,
  Disk, parts_loaded, take_values, load_inode,
}
use job.File.Object.Locks.{store-Holds}
use job.File.Object.Place.{after_move, is_empty-name, store_place}
use job.File.Object.{JobFile, file_at, handle_of, new_header, one_section, no_one}
use job.File.{PathAttrs, State, Result, run, name, init_from_path, state2str, is_empty}
use job.Jobman.Break.{in_state}
use job.Jobman.Command.{job_command}
use job.Jobman.Environment.{job_environ, job_environ_state}
use job.Jobman.Run.Released.{IsFrom, load_inode-IsFrom, file_of}
use job.Jobman.Run.{
  World, Calls, Ran, refuse, task_of, cleared, with_pid, launched, new_pad, launch_job, new_try,
  run_command, close_try, run_loaded, run_file, run_locked, run_made, run_a_job,
}
use job.Launch.Child.{Task}
use job.Launch.{
  Pad, Table, Forked, pipe_failed, fork_failed, started, not_acked, start, erase, update, find_pad,
}
use job.Launch
use job.Multipart.Load.{Loaded, ok, err}
use job.Multipart.Load
use job.Number.{pos}
use job.Prelude.{
  ℕ, true, Option, none, some, Bytes, codes, ltb, length, ◌==◌, ◌≡◌, refl, ap, ap₂, subst, sym, ◌∙◌,
  Bool-cases, inl, inr, arith,
}

-- What the environment says of the job: its state, and the name of its file.
abbrev pub Tells : Bytes → PathAttrs → World → Type 0
Tells jobdir p x =
    (x.environ (codes "JOB_STATE") ≡ some (state2str p.state))
    × (x.environ (codes "JOB_FILE") ≡ some (name jobdir p))

-- The inode that the object has open stands at the name.
abbrev pub StandsAt : Bytes → Fs × Handle → Type 0
StandsAt p r = (i : ℕ) → r.1.lockfd ≡ some i → r.0.names p ≡ some i

-- The child is in the table, to be told of by `try_done`, with the job, whose state is `run` and whose
-- file is locked by its object on the disk; that file has the name to which the child appends its
-- output, with the owner's rights, or, where the renaming has failed, the name that it had; and the
-- environment says of the job what its path was.
pub record IsStarted (w : Calls) (jobdir : Bytes) (p : PathAttrs) (t : Task) (x : World)
    : Type 0 where
  pub pad : Pad JobFile
  pub listed : find_pad x.table pad.pid ≡ some pad
  pub runs : pad.state ≡ job.Launch.run
  pub calls_back : pad.has_callback ≡ true
  pub in_run : pad.ua.handle.path ≡ record p { state = run }
  pub locked : Holds w.me (x.disk.fs, pad.ua.handle)
  pub logs : t.logfile ≡ name jobdir (record p { state = run })
  pub stands : StandsAt (after_move w.in_store (name jobdir p) t.logfile) (x.disk.fs, pad.ua.handle)
  pub appends : t.append ≡ true
  pub user : t.uid ≡ pad.ua.uid
  pub group : t.gid ≡ pad.ua.gid
  pub tells : Tells jobdir p x

abbrev pub Starts : Calls → Bytes → PathAttrs → Ran → Type 0
Starts w jobdir p r = (t : Task) → r.task ≡ some t → IsStarted w jobdir p t r.world

none-some : {A : Type 0} {a : A} → none ≡ some a → ⊥
none-some e = cc

some_injective : {A : Type 0} {a b : A} → some a ≡ some b → a ≡ b
some_injective e = cc

-- `load` has taken the name anew.
abbrev Loads : Bytes → FileLoaded → Type 0
Loads q (loaded f) = f.handle.oldnam ≡ q
Loads q _ = Unit

parts_loaded-Loads :
    (owner : ℕ × ℕ) (f : JobFile) (l : Loaded) → Loads f.handle.oldnam (parts_loaded owner f l)
unfolding parts_loaded take_values
parts_loaded-Loads owner f (ok m) = refl
parts_loaded-Loads owner f (err e n m) = tt

load_inode-Loads :
    (d : Disk) (f : JobFile) (o : Option ℕ) → Loads f.handle.oldnam (load_inode d f o)
unfolding load_inode
load_inode-Loads d f none = tt
load_inode-Loads d f (some i) =
    parts_loaded-Loads (d.owner i) f (job.Multipart.Load.load (d.content i) f.parts)

module _ (w : Calls) (jobdir : Bytes) (p : PathAttrs) where
  abbrev log_name : Bytes
  log_name = name jobdir (record p { state = run })

  abbrev at_last : Bytes
  at_last = after_move w.in_store (name jobdir p) log_name

  start-Starts :
      (cmd : Bytes) (x : World) (f : JobFile) (k : Forked)
      → f.handle.path ≡ record p { state = run }
      → Holds w.me (x.disk.fs, f.handle)
      → StandsAt at_last (x.disk.fs, f.handle)
      → Tells jobdir p x
      → Starts w jobdir p (
          launched w jobdir x
            (cleared f)
            (task_of jobdir f cmd)
            (start w.killed k (new_pad (cleared f)) x.table))
  unfolding launched start refuse task_of new_pad update find_pad
  start-Starts cmd x f (pipe_failed n) s v z tells t e = absurd (none-some e)
  start-Starts cmd x f (fork_failed n) s v z tells t e = absurd (none-some e)
  start-Starts cmd x f (not_acked pid n) s v z tells t e = absurd (none-some e)
  start-Starts cmd x f (started pid) s v z tells t e =
      let same : task_of jobdir f cmd ≡ t = some_injective e in
      let own : (pid == pid) ≡ true = ground arith in
      let to_log : t.logfile ≡ log_name =
        ap (λ (u : Task). u.logfile) (sym same) ∙ ap (λ (a : PathAttrs). name jobdir a) s in
      record {
        pad = record (new_pad (cleared f)) {
          pid = pid;
          state = job.Launch.run;
          ua = with_pid pid (cleared f);
        };
        listed = rw (own, own) refl;
        runs = refl;
        calls_back = refl;
        in_run = s;
        locked = v;
        logs = to_log;
        stands =
            subst (λ q. StandsAt (after_move w.in_store (name jobdir p) q) (x.disk.fs, f.handle))
              (sym to_log) z;
        appends = ap (λ (u : Task). u.append) (sym same);
        user = ap (λ (u : Task). u.uid) (sym same);
        group = ap (λ (u : Task). u.gid) (sym same);
        tells = tells;
      }

  launch_job-Starts :
      (cmd : Bytes) (x : World) (f : JobFile) (e : StoreError)
      → f.handle.path ≡ record p { state = run }
      → Holds w.me (x.disk.fs, f.handle)
      → StandsAt at_last (x.disk.fs, f.handle)
      → Tells jobdir p x
      → Starts w jobdir p (launch_job w jobdir cmd x f e)
  unfolding launch_job refuse
  launch_job-Starts cmd x f stored s v z tells = start-Starts cmd x f w.forked s v z tells
  launch_job-Starts cmd x f not_written s v z tells = λ t e. absurd (none-some e)
  launch_job-Starts cmd x f not_owned s v z tells = λ t e. absurd (none-some e)

  run_command-Starts :
      (x : World) (f : JobFile) (cmd : Option Bytes)
      → Holds w.me (x.disk.fs, f.handle)
      → StandsAt f.handle.oldnam (x.disk.fs, f.handle)
      → f.handle.oldnam ≡ name jobdir p
      → f.handle.path ≡ p
      → Starts w jobdir p (run_command w jobdir x f cmd)
  unfolding run_command new_try refuse
  run_command-Starts x f none v z o q = λ t e. absurd (none-some e)
  run_command-Starts x f (some cmd) v z o q =
      let f1 = new_try w f in
      let environ = job_environ jobdir w.tim2str w.getpwuid f1 x.environ in
      let f2 = record f1 { handle = in_state run f1.handle } in
      let (d, f3, e) = store w.in_store w.in_text jobdir w.uuid x.disk f2 in
      let (held, path_is) =
        store-Holds w.in_store w.in_text jobdir w.uuid x.disk f2 w.me
          (unfold job.File.Moves.is_run in refl) v in
      let (still, placed) =
        store_place w.in_store w.in_text jobdir w.uuid x.disk f2 v.0
          (unfold job.File.Moves.is_run in refl) v.1 (z v.0 v.1)
          (ap is_empty o ∙ is_empty-name jobdir p) in
      let last_is : after_move w.in_store f.handle.oldnam (name jobdir f2.handle.path) ≡ at_last =
        ap₂ (λ n (a : PathAttrs). after_move w.in_store n (name jobdir (record a { state = run })))
          o q in
      launch_job-Starts cmd (record x { disk = d; environ = environ }) f3 e
        (path_is ∙ ap (λ (a : PathAttrs). record a { state = run }) q) held
        (λ j k.
          subst (λ n. d.fs.names at_last ≡ some n) (some_injective (sym still ∙ k))
            (subst (λ n. d.fs.names n ≡ some v.0) last_is placed))
        (subst (λ a. Tells jobdir a (record x { environ = environ })) q
          (job_environ_state jobdir w.tim2str w.getpwuid f1 x.environ))

  module _ (quecfg : Config) where
    run_loaded-Starts :
        (x : World) (f : JobFile)
        → Holds w.me (x.disk.fs, f.handle)
        → StandsAt f.handle.oldnam (x.disk.fs, f.handle)
        → f.handle.oldnam ≡ name jobdir p
        → f.handle.path ≡ p
        → Starts w jobdir p (run_loaded quecfg w jobdir x f)
    unfolding run_loaded close_try
    run_loaded-Starts x f v z o q = elim (Bool-cases (ltb 1 (length f.header.ties))) [
      | inl g ↦ rw g (λ t e. absurd (none-some e))
      | inr g ↦ rw g (
          run_command-Starts x (close_try w f)
            (job_command quecfg f.header.type f.header.command f.header.args) v z o q)
    ]

    run_file-Starts :
        (x : World) (h : Handle) (l : FileLoaded)
        → Holds w.me (x.disk.fs, h)
        → StandsAt (name jobdir p) (x.disk.fs, h)
        → IsFrom h l
        → Loads (name jobdir h.path) l
        → h.path ≡ p
        → Starts w jobdir p (run_file quecfg w jobdir x h l)
    unfolding run_file refuse
    run_file-Starts x h (loaded f) (i, fd, own) z (m, k, a) o q =
        let at_name : f.handle.oldnam ≡ name jobdir p = o ∙ ap (λ b. name jobdir b) q in
        run_loaded-Starts x f (i, k ∙ fd, own) (λ j e. ap x.disk.fs.names at_name ∙ z j (sym k ∙ e))
          at_name (a ∙ q)
    run_file-Starts x h no_file v z _ _ q = λ t e. absurd (none-some e)
    run_file-Starts x h (bad_line b n) v z _ _ q = λ t e. absurd (none-some e)

    run_locked-Starts :
        (x : World) (f : JobFile) (e : Error)
        → (e ≡ err_ok
            → Holds w.me (x.disk.fs, f.handle) × StandsAt (name jobdir p) (x.disk.fs, f.handle))
        → f.handle.path ≡ p
        → Starts w jobdir p (run_locked quecfg w jobdir x f e)
    unfolding run_locked load refuse
    run_locked-Starts x f err_ok v q =
        let named = record f {
          handle = record (f.handle) { oldnam = name jobdir f.handle.path };
        } in
        let o = x.disk.fs.names (name jobdir f.handle.path) in
        run_file-Starts x f.handle (load jobdir x.disk f) (v refl).0 (v refl).1
          (load_inode-IsFrom x.disk named o) (load_inode-Loads x.disk named o) q
    run_locked-Starts x f err_moved v q = λ t e. absurd (none-some e)
    run_locked-Starts x f err_locked v q = λ t e. absurd (none-some e)
    run_locked-Starts x f err_sys v q = λ t e. absurd (none-some e)

    run_made-Starts :
        (x : World) (filename : Bytes)
        → filename ≡ name jobdir p
        → Starts w jobdir p
            (run_made quecfg w jobdir x filename (file_of w.me filename (Result.ok p)))
    unfolding run_made
    run_made-Starts x filename at_name =
        let h0 = handle_of w.me p filename in
        let (fs, h) = lock w.in_lock x.disk.fs h0 in
        let locked = lock-IsLocked w.in_lock x.disk.fs h0 tt in
        run_locked-Starts (record x { disk = record (x.disk) { fs = fs } })
          (record {
            handle = h;
            header = new_header;
            parts = one_section;
            try_count = pos 0;
            uid = no_one;
            gid = no_one;
          })
          h.error
          (λ e.
            let (i, fd, own, its) = locked.held e in
            (
              (i, fd, own),
              λ j k.
                  ap (λ (g : Bytes → Option ℕ). g (name jobdir p)) locked.names_is
                  ∙ ap x.disk.fs.names (sym at_name)
                  ∙ the_file i its
                  ∙ sym fd
                  ∙ k,
            ))
          locked.path_is
      where
        the_file :
            (i : ℕ)
            → LockOf x.disk.fs (handle_of w.me p filename) i
            → x.disk.fs.names filename ≡ some i
        the_file i (inl e) = absurd (none-some e)
        the_file i (inr (e, k)) = k

-- When `run_a_job` has started a process for a job, whatever else has failed, the table has the process,
-- running and with `try_done` to be called for it; the job's state is `run`, its object has its file
-- locked on the disk, and the child appends to the name that the job has in `run`, as the user and the
-- group that own it. The locked file stands at that name if it could be renamed; if not, it is still
-- where it was, and the child writes to another file. `JOB_STATE` and `JOB_FILE` have the state and the
-- name that the job had before. The path is the one that `name` makes of it.
pub run_a_job-Starts :
    (quecfg : Config) (w : Calls) (jobdir : Bytes) (x : World) (filename : Bytes) (p : PathAttrs)
    (t : Task)
    → init_from_path filename ≡ Result.ok p
    → filename ≡ name jobdir p
    → (run_a_job quecfg w jobdir x filename).task ≡ some t
    → IsStarted w jobdir p t (run_a_job quecfg w jobdir x filename).world
unfolding run_a_job file_at
run_a_job-Starts quecfg w jobdir x filename p t r at_name e =
    subst (λ q. Starts w jobdir p (run_made quecfg w jobdir x filename (file_of w.me filename q)))
      (sym r) (run_made-Starts w jobdir p quecfg x filename at_name) t e
