-- ===== src/Launch.antt =====
-- src/job/launch.cxx: the table of child processes, from the parent's side. A child's end is told
-- by `waitpid`; what the child does is in Child.
pub mod Reaping
pub mod Wait
pub mod Name
pub mod Child
pub mod Runs
use job.Prelude.{
  ℕ, zero, suc, ◌+◌, ◌-◌, ◌<◌, Bool, true, false, not, ◌&&◌, ◌||◌, List, [], ◌∷◌, ◌++◌, Option,
  none, some, ltb, ◌==◌, if◌then◌else◌,
}

-- `launch::state_t`.
pub data State : Type 0 where
  new run done fail : State

-- A `launch` object: its process state, the callback's user argument, and whether the callback is
-- still set. The object is known by its process id.
pub record Pad {ℓ} (U : Type ℓ) : Type ℓ where
  pub pid : ℕ
  pub state : State
  pub xsig : ℕ
  pub xstat : ℕ
  pub has_callback : Bool
  pub ua : U

-- A child's status, as `WIFSIGNALED`, `WTERMSIG` and `WEXITSTATUS` read it.
pub data ChildStatus : Type 0 where
  signaled : ℕ → ChildStatus
  exited : ℕ → ChildStatus

-- The errors that the methods set.
pub data LaunchError : Type 0 where
  err_ok err_badstate esrch err_timeout err_abort : LaunchError
  sys : ℕ → LaunchError

unfoldable pub is_run : State → Bool
is_run run = true
is_run _ = false

unfoldable pub is_new_or_run : State → Bool
is_new_or_run new = true
is_new_or_run run = true
is_new_or_run _ = false

-- `finmap`, in any order; a process id has one entry.
abbrev pub Table {ℓ} : Type ℓ → Type ℓ
Table U = List (Pad U)

-- The result of `fork`, and of the write of the go-ahead.
pub data Forked : Type 0 where
  pipe_failed : ℕ → Forked
  fork_failed : ℕ → Forked
  started : ℕ → Forked
  not_acked : ℕ → ℕ → Forked

-- The callback's result: whether it returned `EIDRM`, having deleted the object.
pub record Called {ℓ} (W : Type ℓ) : Type ℓ where
  pub world : W
  pub removed : Bool

module _ {ℓ} {U : Type ℓ} where
  unfoldable pub find_pad : Table U → ℕ → Option (Pad U)
  find_pad [] pid = none
  find_pad (p ∷ t) pid = if p.pid == pid then some p else find_pad t pid

  -- `finmap.erase(pid)`, as the destructor does.
  unfoldable pub erase : ℕ → Table U → Table U
  erase pid [] = []
  erase pid (p ∷ t) = if p.pid == pid then t else p ∷ erase pid t

  unfoldable pub update : ℕ → Pad U → Table U → Table U
  update pid q [] = []
  update pid q (p ∷ t) = if p.pid == pid then q ∷ t else p ∷ update pid q t

  -- `launch::kill`; `sent` is the `errno` of a failed `kill(2)`, 0 if it went well.
  unfoldable pub kill : ℕ → Pad U → Pad U × LaunchError
  unfolding is_run
  kill sent p =
      if not (is_run p.state)
      then (p, err_badstate)
      else if p.pid == 0
      then (p, esrch)
      else (record p { state = fail }, if sent == 0 then err_ok else sys sent)

  -- `launch::start`, the parent's part, on a new object and the table: the object, the table, and
  -- the error. If the go-ahead cannot be written the child is killed; `killed` is what `kill(2)` says.
  unfoldable pub start : ℕ → Forked → Pad U → Table U → Pad U × Table U × LaunchError
  unfolding kill
  start killed (pipe_failed e) p t = (p, t, sys e)
  start killed (fork_failed e) p t = (record p { pid = 0 }, t, sys e)
  start killed (started pid) p t =
      let q = record p { pid = pid; state = run } in (q, q ∷ erase pid t, err_ok)
  start killed (not_acked pid e) p t =
      let q = (kill killed (record p { pid = pid; state = run })).0 in (q, q ∷ erase pid t, sys e)

  -- `launch::running`.
  unfoldable pub running : Table U → ℕ
  unfolding is_new_or_run
  running [] = 0
  running (p ∷ t) = (if is_new_or_run p.state then 1 else 0) + running t

  -- The end of a child, on its object.
  unfoldable pub ended : ChildStatus → Pad U → Pad U
  ended (signaled sig) p = record p { state = fail; xsig = sig; xstat = 0 }
  ended (exited st) p = record p { state = done; xsig = 0; xstat = st }

  module _ {W : Type ℓ} (cb : Pad U → W → Called W) where
    unfoldable pub call_back : ℕ → Pad U → W → Table U → W × Table U
    call_back pid p w t =
        if not p.has_callback
        then (w, update pid p t)
        else (let c = cb p w in
            (
              c.world,
              if c.removed then erase pid t else update pid (record p { has_callback = false }) t,
            ))

    unfoldable pub reap_one : Option (Pad U) → ℕ → ChildStatus → W → Table U → W × Table U
    unfolding call_back ended
    reap_one none pid st w t = (w, t)
    reap_one (some p) pid st w t = call_back pid (ended st p) w t

    -- The loop of `reap_zombies`, over the children that `waitpid` reports (none where no `SIGCHLD` has
    -- set `needs_reaping`): it ends when there is
    -- none, or on an error.
    unfoldable pub reap : List (ℕ × ChildStatus) → W → Table U → W × Table U
    unfolding reap_one
    reap [] w t = (w, t)
    reap ((pid, st) ∷ rest) w t =
        let (w', t') = reap_one (find_pad t pid) pid st w t in reap rest w' t'
