-- ===== src/Tests/Daemons.antt =====
-- src/job/launch.cxx and src/jobman.cxx at concrete inputs.
use job.File.{NameAttrs, PathAttrs}
use job.File
use job.Jobman.Group.{Tied, group_hug, AllHugged, group_hug-AllHugged}
use job.Jobman.Retry.{Job, Verdict, eagain, try_done, try_done-Verdict}
use job.Jobman.Slots.{
  Attempt, count_launched, count_spent, solicit_on_the_street, solicit_on_the_street_bound,
  run_a_job, takes_another,
}
use job.Launch.{Pad, Table, State, find_pad}
use job.Number.{pos}
use job.Prelude.{
  ◌+◌, ◌≤◌, ◌<◌, ◌≡◌, true, false, List, [], ◌∷◌, Bytes, codes, arith, refl, some, length, Option,
}

abbrev running_job : Job
running_job = record {
  path = record {
    queue = codes "batch";
    state = File.State.run;
    attrs = record {
      run_time = pos 1700000000;
      priority = pos 5;
      id = 42;
      submitter = codes "ann";
    };
  };
  try_count = pos 1;
  try_limit = pos 3;
  closed = false;
  sections = [];
}

try_done-Verdict_example :
    Verdict 1700000100 0 eagain running_job
      (try_done 1700000100 (codes "2023-11-14") 0 eagain running_job)
    × (length (try_done 1700000100 (codes "2023-11-14") 0 eagain running_job).sections
        ≡ length running_job.sections + 1)
    × ((try_done 1700000100 (codes "2023-11-14") 0 eagain running_job).path.attrs.id
        ≡ running_job.path.attrs.id)
    × ((try_done 1700000100 (codes "2023-11-14") 0 eagain running_job).path.queue
        ≡ running_job.path.queue)
    × ((try_done 1700000100 (codes "2023-11-14") 0 eagain running_job).path.attrs.priority
        ≡ running_job.path.attrs.priority)
    × ((try_done 1700000100 (codes "2023-11-14") 0 eagain running_job).path.attrs.submitter
        ≡ running_job.path.attrs.submitter)
    × ((try_done 1700000100 (codes "2023-11-14") 0 eagain running_job).try_count
        ≡ running_job.try_count)
    × ((try_done 1700000100 (codes "2023-11-14") 0 eagain running_job).try_limit
        ≡ running_job.try_limit)
try_done-Verdict_example = try_done-Verdict 1700000100 (codes "2023-11-14") 0 eagain running_job

abbrev attempts : List Attempt
attempts = Attempt.grabbed_moved ∷ Attempt.launched ∷ Attempt.launched ∷ Attempt.launched ∷ []

solicit_on_the_street_bound_example : 1 + count_launched (solicit_on_the_street 3 1 attempts) ≤ 3
solicit_on_the_street_bound_example =
    solicit_on_the_street_bound 3 1 attempts (omega arith) (omega arith)

room : 1 + count_spent attempts < 5
unfolding count_spent run_a_job takes_another
room = omega arith

abbrev child : Pad Bytes
child = record {
  pid = 99;
  state = State.run;
  xsig = 0;
  xstat = 0;
  has_callback = true;
  ua = codes "fast";
}

abbrev children : Table Bytes
children = child ∷ []

child_found : find_pad children 99 ≡ some child
unfolding find_pad
child_found = refl

-- The jobs 7 and 8 are done.
abbrev dirs : File.State → Option (List Bytes)
dirs File.State.done =
    some (codes "t1700000000.p5.j0000007.ann" ∷ codes "t1700000000.p5.j0000008.ann" ∷ [])
dirs _ = some []

abbrev tied_jobs : List Tied
tied_jobs =
    record { id = 6; loaded = true; ties = 7 ∷ 8 ∷ []; dirs = dirs }
    ∷ record { id = 5; loaded = true; ties = 9 ∷ []; dirs = dirs }
    ∷ []

group_hug-AllHugged_example : AllHugged (group_hug false tied_jobs).1
group_hug-AllHugged_example = group_hug-AllHugged false tied_jobs
