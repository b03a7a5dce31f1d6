-- ===== src/Isafe.antt =====
-- src/job/isafe.cxx: the system calls that are made again when a signal interrupts them or the
-- file system is busy. What the kernel answers to the successive calls is a list of replies.
pub mod Retries
use job.Prelude.{
  ℕ, zero, suc, ◌+◌, ◌-◌, Bool, true, false, ◌||◌, not, List, [], ◌∷◌, Option, none, some, ◌==◌,
  if◌then◌else◌,
}

-- A return value, or -1 with this `errno`.
pub data Reply : Type 0 where
  value : ℕ → Reply
  fail : ℕ → Reply

abbrev pub eintr : ℕ
eintr = 4

abbrev pub eio : ℕ
eio = 5

abbrev pub ebusy : ℕ
ebusy = 16

-- What a call returns, the replies that it left, and how often it slept.
pub record Outcome : Type 0 where
  pub result : Reply
  pub rest : List Reply
  pub sleeps : ℕ

-- The two loops; `again` are the errors worth another try, and `num` the tries left.
-- `none`: the kernel has not answered yet.
unfoldable pub retry : (ℕ → Bool) → ℕ → ℕ → List Reply → Option Outcome
retry again num slept [] = none
retry again num slept (value v ∷ rest) =
    some (record { result = value v; rest = rest; sleeps = slept })
retry again num slept (fail e ∷ rest) =
    let interrupted = retry again num slept rest in
    let later = retry again (num - 1) (suc slept) rest in
    let now = some (record { result = fail e; rest = rest; sleeps = slept }) in
    if e == eintr
    then interrupted
    else if num == 0
    then now
    else if not (again e)
    then now
    else later

-- `busy_try_limit`.
abbrev pub busy_try_limit : ℕ
busy_try_limit = 20

abbrev pub is_busy : ℕ → Bool
is_busy e = e == ebusy

abbrev pub is_busy_or_io : ℕ → Bool
is_busy_or_io e = e == ebusy || e == eio

unfoldable pub close : List Reply → Option Outcome
unfolding retry
close = retry is_busy_or_io busy_try_limit 0

unfoldable pub creat : List Reply → Option Outcome
unfolding retry
creat = retry is_busy busy_try_limit 0

unfoldable pub dup2 : List Reply → Option Outcome
unfolding retry
dup2 = retry is_busy busy_try_limit 0

unfoldable pub flock : List Reply → Option Outcome
unfolding retry
flock = retry is_busy busy_try_limit 0

unfoldable pub lseek : List Reply → Option Outcome
unfolding retry
lseek = retry is_busy busy_try_limit 0

-- `open(pathname, flags)`.
unfoldable pub open_file : List Reply → Option Outcome
unfolding retry
open_file = retry is_busy busy_try_limit 0

-- `open(pathname, flags, mode)`.
unfoldable pub open_mode : List Reply → Option Outcome
unfolding retry
open_mode = retry is_busy busy_try_limit 0

unfoldable pub read : List Reply → Option Outcome
unfolding retry
read = retry is_busy busy_try_limit 0

unfoldable pub remove : List Reply → Option Outcome
unfolding retry
remove = retry is_busy busy_try_limit 0

unfoldable pub rename : List Reply → Option Outcome
unfolding retry
rename = retry is_busy busy_try_limit 0

unfoldable pub unlink : List Reply → Option Outcome
unfolding retry
unlink = retry is_busy busy_try_limit 0

unfoldable pub write : List Reply → Option Outcome
unfolding retry
write = retry is_busy busy_try_limit 0

-- Only interruptions are retried.
unfoldable pub waitpid : List Reply → Option Outcome
waitpid [] = none
waitpid (value v ∷ rest) = some (record { result = value v; rest = rest; sleeps = 0 })
waitpid (fail e ∷ rest) =
    let interrupted = waitpid rest in
    if e == eintr then interrupted else some (record { result = fail e; rest = rest; sleeps = 0 })
