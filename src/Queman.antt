-- ===== src/Queman.antt =====
-- src/queman.cxx: the daemon that keeps one job manager running for each queue. The job managers
-- are the children of a `Launch` table whose user argument is the queue's name.
pub mod Queues
pub mod Rounds
pub mod Startup
pub mod Starts
use job.Launch.{
  Pad, Table, State, new, ChildStatus, LaunchError, err_ok, Forked, Called, reap, start, erase,
  kill,
}
use job.Prelude.{
  ℕ, zero, suc, ◌+◌, ◌<◌, Bool, true, false, not, ◌&&◌, ◌||◌, List, [], ◌∷◌, ◌++◌, Option, none,
  some, Bytes, codes, ltb, leb, ◌==◌, if◌then◌else◌, str_eq,
}
use job.Text.Sets.{diff, has, remove}

-- The file's globals, with the table of children and the process ids that were sent a signal.
pub record Queman : Type 0 where
  pub known_queues : List Bytes
  pub failed_queues : List Bytes
  pub table : Table Bytes
  pub killed : List ℕ

-- `signal_handler`: the flags `check_soon` and `run_queues` after a signal.
unfoldable pub signal_handler : ℕ → Bool × Bool → Bool × Bool
signal_handler sig (check_soon, running) =
    if sig == 1
    then (true, running)
    else if sig == 15
    then (check_soon, false)
    else (check_soon, running)

-- `q_done`: the queue is known no more, and the launcher is deleted (the return value is `EIDRM`).
unfoldable pub q_done : Pad Bytes → List Bytes → Called (List Bytes)
unfolding remove
q_done pad known = record { world = (remove known pad.ua).0; removed = true }

-- `launch::reap_zombies`, with `q_done` as every child's callback.
unfoldable pub reap_managers : List (ℕ × ChildStatus) → Queman → Queman
unfolding reap q_done
reap_managers ends s =
    let (known, table) = reap q_done ends s.known_queues s.table in
    record s { known_queues = known; table = table }

-- The first child in the table that manages the queue.
unfoldable pub manager_of : Table Bytes → Bytes → Option ℕ
manager_of [] q = none
manager_of (p ∷ t) q = if str_eq p.ua q then some p.pid else manager_of t q

-- Stops each queue that is gone: its manager is sent `SIGKILL`, and `q_done` will do the rest.
unfoldable pub stop_gone : Table Bytes → List Bytes → List ℕ
unfolding manager_of
stop_gone t [] = []
stop_gone t (g ∷ gs) = elim (manager_of t g) [
  | none ↦ stop_gone t gs
  | some pid ↦ pid ∷ stop_gone t gs
]

abbrev pub new_pad : Bytes → Pad Bytes
new_pad q = record { pid = 0; state = new; xsig = 0; xstat = 0; has_callback = true; ua = q }

unfoldable pub started : Bytes → Pad Bytes × Table Bytes × LaunchError → Queman → Queman
started q (pad, t, err_ok) s = record s { known_queues = s.known_queues ++ q ∷ []; table = t }
started q (pad, t, _) s = record s {
  failed_queues = s.failed_queues ++ q ∷ [];
  table = erase pad.pid t;
}

-- Starts a manager for each new queue, in the world's order of forks: a queue whose manager cannot
-- be started is remembered as failed, and its launcher deleted.
unfoldable pub start_new : (Bytes → Forked) → List Bytes → Queman → Queman
unfolding started start erase
start_new fork [] s = s
start_new fork (q ∷ qs) s = start_new fork qs (started q (start 0 (fork q) (new_pad q) s.table) s)

-- The check for new and deleted queues, on the queues that `get_queues` found.
unfoldable pub check_queues : (Bytes → Forked) → List Bytes → Queman → Queman
check_queues fork curr s =
    let gone = diff s.known_queues curr in
    let failed = diff s.failed_queues gone in
    let new_queues = diff (diff curr s.known_queues) failed in
    start_new fork new_queues
      (record s { failed_queues = failed; killed = s.killed ++ stop_gone s.table gone })

-- The timers and flags of the loop.
pub record Timers : Type 0 where
  pub check_soon : Bool
  pub when_check : ℕ
  pub when_reap : ℕ

-- What a round of the loop finds: the time, the ended children, the queues.
pub record Round : Type 0 where
  pub now : ℕ
  pub ends : List (ℕ × ChildStatus)
  pub queues : List Bytes
  pub fork : Bytes → Forked

-- A signal makes both timers fire at once.
unfoldable pub wake : ℕ → Timers → Timers
wake now t =
    if t.check_soon then record { check_soon = false; when_check = now; when_reap = now } else t

-- One round of `yearn_for_queues`; `next_check` is its interval.
unfoldable pub watch_round : ℕ → Round → Timers × Queman → Timers × Queman
watch_round next_check r (t0, s0) =
    let t1 = wake r.now t0 in
    let reaps = leb t1.when_reap r.now in
    let t2 = if reaps then record t1 { when_reap = r.now + 1 } else t1 in
    let s1 = if reaps then reap_managers r.ends s0 else s0 in
    let checks = leb t2.when_check r.now in
    (
      if checks then record t2 { when_check = r.now + next_check } else t2,
      if checks then check_queues r.fork r.queues s1 else s1,
    )
