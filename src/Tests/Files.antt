-- ===== src/Tests/Files.antt =====
-- src/job/file.cxx and src/job/queue.cxx at concrete inputs.
use job.File.Name.{IsSubmitter, InRange, IsNameable, init_from_path-name}
use job.File.{
  State, pend, run, state2str, NameAttrs, ok, PathAttrs, init_from_path, base_name, name,
  priority_ok, word, is_unk, is_empty, print_time,
}
use job.Number.{pos, padded, print_int, siz2str}
use job.Prelude.{
  false, List, [], ◌∷◌, ◌++◌, ◌≡◌, refl, arith, Bytes, codes, Option, some, leb, is_space,
}
use job.Queue.States.{keys, IsSound, get_states_of_jobs-IsSound}
use job.Queue.TimeLimit.{time_filter-base_name, time_filter_late}
use job.Queue.{StateMap, get_states_of_jobs, time_filter, time_limit}

abbrev attrs : NameAttrs
attrs = record { run_time = pos 1700000000; priority = pos 5; id = 42; submitter = codes "ann" }

abbrev job_file : PathAttrs
job_file = record { queue = codes "batch"; state = pend; attrs = attrs }

ann : IsSubmitter (codes "ann")
unfolding word is_space
ann = record { some_byte = λ h. cc; no_space = refl; no_slash = refl }

in_range : InRange attrs
unfolding priority_ok
in_range = (refl, omega arith)

nameable : IsNameable (codes "/var/job" ++ codes "/") job_file
unfolding is_empty is_unk state2str base_name print_time print_int padded siz2str
nameable = record {
  queue_some = refl;
  queue_no_slash = refl;
  state_known = refl;
  in_range = in_range;
  submitter = ann;
  fits = omega arith;
}

init_from_path-name_example :
    init_from_path (name (codes "/var/job" ++ codes "/") job_file) ≡ ok job_file
init_from_path-name_example = init_from_path-name (codes "/var/job") job_file nameable

time_filter-base_name_example :
    time_filter (time_limit 1700000001) (base_name attrs) ≡ leb 1700000000 1700000001
time_filter-base_name_example =
    time_filter-base_name 1700000001 1700000000 attrs (omega arith, omega arith) (omega arith) refl

time_filter_late_example : time_filter (time_limit 2200000000) (base_name attrs) ≡ false
time_filter_late_example =
    time_filter_late 2200000000 1700000000 attrs (omega arith) (omega arith) refl

-- One waiting job.
abbrev dirs : State → Option (List Bytes)
dirs pend = some (codes "t1700000000.p5.j0000042.ann" ∷ [])
dirs _ = some []

abbrev wanted : StateMap
wanted = (42, run) ∷ (43, run) ∷ []

get_states_of_jobs-IsSound_example :
    (keys dirs (get_states_of_jobs dirs wanted).0 ≡ keys dirs wanted)
    × IsSound dirs (get_states_of_jobs dirs wanted).0
get_states_of_jobs-IsSound_example = get_states_of_jobs-IsSound dirs wanted
