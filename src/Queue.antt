-- ===== src/Queue.antt =====
-- src/job/queue.cxx: the queues, their directories, and the jobs in each state. What `scandir`
-- finds in a directory is an argument: the names in order, or `none` for an error.
pub mod TimeLimit
pub mod States
pub mod Mask
use job.File.{
  State, unk, hold, pend, run, tied, kill, done, state2str, NameAttrs, PathAttrs, Result, ok, err,
  parse, init_from_path,
}
use job.Number.{int2str}
use job.Prelude.{
  ℕ, ◌+◌, Bool, true, false, not, ◌&&◌, ◌||◌, List, [], ◌∷◌, ◌++◌, map, Option, none, some, Bytes,
  codes, ltb, leb, ◌==◌, if◌then◌else◌, length,
}

-- `operator<=` on strings.
unfoldable pub str_le : Bytes → Bytes → Bool
str_le [] t = true
str_le (c ∷ cs) [] = false
str_le (c ∷ cs) (d ∷ ds) = if c == d then str_le cs ds else ltb c d

-- The names that the loops after `scandir` keep: those that do not begin with a dot.
unfoldable pub is_visible : Bytes → Bool
is_visible [] = true
is_visible (c ∷ cs) = not (c == b'.')

unfoldable pub keep {ℓ} : {A : Type ℓ} → (A → Bool) → List A → List A
keep p [] = []
keep p (x ∷ xs) = if p x then x ∷ keep p xs else keep p xs

-- `get_queues`: the names under the job directory; `none` is the status of a failed `scandir`.
unfoldable pub get_queues : Option (List Bytes) → Option (List Bytes)
unfolding keep is_visible
get_queues none = none
get_queues (some names) = some (keep is_visible names)

-- `time_limit`: `"t" + int2str(t) + ".zzz"`. The time is converted to `int`.
unfoldable pub time_limit : ℕ → Bytes
time_limit t = codes "t" ++ (int2str t ++ codes ".zzz")

unfoldable pub time_filter : Bytes → Bytes → Bool
unfolding str_le
time_filter limit d_name = str_le d_name limit

unfoldable pub dir_path : Bytes → Bytes → State → Bytes
dir_path jobdir qname s = jobdir ++ (qname ++ (codes "/" ++ (state2str s ++ codes "/")))

-- `get_jobs_by_state`: the paths of the jobs in the directory, at most as late as `t` if it is not 0.
-- On an error of `scandir` the list is empty.
unfoldable pub get_jobs_by_state : Bytes → ℕ → Option (List Bytes) → List Bytes
unfolding keep is_visible time_limit time_filter
get_jobs_by_state qdir t none = []
get_jobs_by_state qdir t (some names) =
    let taken = if t == 0 then names else keep (time_filter (time_limit t)) names in
    map (λ d. qdir ++ d) (keep is_visible taken)

-- `statemap_t`.
abbrev pub StateMap : Type 0
StateMap = List (ℕ × State)

unfoldable pub count_id : StateMap → ℕ → Bool
count_id [] id = false
count_id ((k, s) ∷ m) id = k == id || count_id m id

unfoldable pub set_state : ℕ → State → StateMap → StateMap
set_state id s [] = []
set_state id s ((k, t) ∷ m) = if k == id then (k, s) ∷ m else (k, t) ∷ set_state id s m

-- `state_scanner` after `parse`, on the map and the count `ggot`.
unfoldable pub scanned : State → Result NameAttrs → StateMap × ℕ → StateMap × ℕ
unfolding count_id set_state
scanned st (err e) (m, got) = (m, got)
scanned st (ok a) (m, got) = if count_id m a.id then (set_state a.id st m, got + 1) else (m, got)

-- `scandir` with `state_scanner` as its filter.
unfoldable pub scan_names : State → List Bytes → StateMap × ℕ → StateMap × ℕ
unfolding scanned
scan_names st [] acc = acc
scan_names st (d ∷ ds) acc = scan_names st ds (scanned st (parse d) acc)

unfoldable pub all_unknown : StateMap → StateMap
all_unknown [] = []
all_unknown ((k, s) ∷ m) = (k, unk) ∷ all_unknown m

-- `job::hold` to `job::done`.
abbrev pub states : List State
states = hold ∷ pend ∷ run ∷ tied ∷ kill ∷ done ∷ []

-- The loop over the states; `dirs` gives the names in the directory of each. The flag tells whether
-- each `scandir` went well.
unfoldable pub scan_states :
    (State → Option (List Bytes)) → ℕ → List State → StateMap × ℕ → StateMap × Bool
unfolding scan_names
scan_states dirs want [] (m, got) = (m, true)
scan_states dirs want (s ∷ ss) (m, got) = if leb want got then (m, true) else elim (dirs s) [
  | none ↦ (m, false)
  | some names ↦ scan_states dirs want ss (scan_names s names (m, got))
]

unfoldable pub get_states_of_jobs : (State → Option (List Bytes)) → StateMap → StateMap × Bool
unfolding scan_states all_unknown
get_states_of_jobs dirs smap = scan_states dirs (length smap) states (all_unknown smap, 0)
