-- ===== src/File/Moves.antt =====
-- src/job/file.cxx: `lock`, `unlock`, `repath` and `remove`, on the directory tree. A name leads to
-- an inode; an inode is locked by one open file at most. Which system calls fail for a reason of
-- their own is in `Faults`.
pub mod Renamed
pub mod Race
pub mod Owner
pub mod Held
pub mod Others
use job.File.{State, run, PathAttrs, name, is_empty}
use job.Prelude.{
  ℕ, Bool, true, false, not, [], Option, none, some, Bytes, str_eq, ◌==◌, if◌then◌else◌,
}

pub record Fs : Type 0 where
  pub names : Bytes → Option ℕ
  pub locked : ℕ → Option ℕ

unfoldable pub set_name : Bytes → Option ℕ → (Bytes → Option ℕ) → Bytes → Option ℕ
set_name p v f q = if str_eq p q then v else f q

unfoldable pub set_lock : ℕ → Option ℕ → (ℕ → Option ℕ) → ℕ → Option ℕ
set_lock i v f j = if i == j then v else f j

pub record Faults : Type 0 where
  pub open_fails : Bool
  pub flock_fails : Bool
  pub rename_fails : Bool
  pub remove_fails : Bool

-- `ERR_OK`, `ERR_MOVED`, `ERR_LOCKED`, and an error of the system call.
pub data Error : Type 0 where
  err_ok err_moved err_locked err_sys : Error

-- A `job::file` object: what its path is to hold, `oldnam`, and the inode of `lockfd` if that is
-- open. `me` tells the objects apart.
pub record Handle : Type 0 where
  pub me : ℕ
  pub path : PathAttrs
  pub oldnam : Bytes
  pub lockfd : Option ℕ
  pub error : Error

unfoldable pub is_ok : Error → Bool
is_ok err_ok = true
is_ok _ = false

unfoldable pub is_run : State → Bool
is_run run = true
is_run _ = false

-- `flock` on the open file, whose inode is `i`.
unfoldable pub flock_fd : Faults → ℕ → Option ℕ → Fs → Handle → Fs × Handle
unfolding set_lock
flock_fd w i (some other) fs h = (fs, record h { error = err_locked })
flock_fd w i none fs h = if w.flock_fails then (fs, record h { error = err_sys }) else (
  record fs { locked = set_lock i (some h.me) fs.locked },
  record h { lockfd = some i; error = err_ok },
)

unfoldable pub open_fd : Faults → Option ℕ → Fs → Handle → Fs × Handle
unfolding flock_fd
open_fd w none fs h = (fs, record h { error = err_moved })
open_fd w (some i) fs h =
    if w.open_fails then (fs, record h { error = err_sys }) else flock_fd w i (fs.locked i) fs h

-- Where the object has no `lockfd` yet, the file is opened and locked.
unfoldable pub lock_fd : Faults → Option ℕ → Fs → Handle → Fs × Handle
unfolding open_fd
lock_fd w (some i) fs h = (fs, record h { error = err_ok })
lock_fd w none fs h = open_fd w (fs.names h.oldnam) fs h

-- `file::lock`.
unfoldable pub lock : Faults → Fs → Handle → Fs × Handle
unfolding lock_fd
lock w fs h = lock_fd w h.lockfd fs h

unfoldable pub unlock_fd : Option ℕ → Fs → Handle → Fs × Handle
unfolding set_lock
unlock_fd none fs h = (fs, record h { error = err_ok })
unlock_fd (some i) fs h =
    (record fs { locked = set_lock i none fs.locked }, record h { lockfd = none; error = err_ok })

-- `file::unlock`: the file is closed.
unfoldable pub unlock : Fs → Handle → Fs × Handle
unfolding unlock_fd
unlock fs h = unlock_fd h.lockfd fs h

-- The rename in `repath`, and what follows it, on the inode that `oldnam` leads to.
unfoldable pub rename_to : Faults → Bytes → Option ℕ → Fs → Handle → Fs × Handle
unfolding set_name unlock is_run
rename_to w newnam none fs h = (fs, record h { error = err_sys })
rename_to w newnam (some i) fs h =
    let fs' = record fs { names = set_name h.oldnam none (set_name newnam (some i) fs.names) } in
    let h' = record h { oldnam = newnam; error = err_ok } in
    if w.rename_fails
    then (fs, record h { error = err_sys })
    else if is_run h.path.state
    then (fs', h')
    else unlock fs' h'

-- `file::repath`; `jobdir` is `path.jobdir`.
unfoldable pub repath : Faults → Bytes → Fs → Handle → Fs × Handle
unfolding lock rename_to is_ok
repath w jobdir fs h =
    let newnam = name jobdir h.path in
    let (fs', h') = lock w fs h in
    let moved = rename_to w newnam (fs'.names h'.oldnam) fs' h' in
    if is_empty h.oldnam
    then (fs, h)
    else if str_eq h.oldnam newnam
    then (fs, record h { error = err_ok })
    else if not (is_ok h'.error)
    then (fs', h')
    else moved

unfoldable pub unlink_at : Faults → Option ℕ → Fs → Handle → Fs × Handle
unfolding set_name
unlink_at w none fs h = (fs, record h { error = err_sys })
unlink_at w (some i) fs h = if w.remove_fails then (fs, record h { error = err_sys }) else (
  record fs { names = set_name h.oldnam none fs.names },
  record h { oldnam = []; error = err_ok },
)

-- `file::remove`.
unfoldable pub remove : Faults → Fs → Handle → Fs × Handle
unfolding unlink_at
remove w fs h =
    if is_empty h.oldnam
    then (fs, record h { error = err_ok })
    else unlink_at w (fs.names h.oldnam) fs h
