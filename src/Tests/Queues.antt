-- ===== src/Tests/Queues.antt =====
-- src/queman.cxx at concrete inputs.
use job.Launch.{Forked, fork_failed, started, Pad, run, exited}
use job.Prelude.{
  ◌≤◌, ◌≡◌, ◌+◌, true, false, List, [], ◌∷◌, Bytes, codes, arith, refl, str_eq, str_eq_iff,
  if◌then◌else◌,
}
use job.Queman.Queues.{IsListed, Distinct, check_queues_failed}
use job.Queman.Rounds.{watch, watch-IsListed}
use job.Queman.{Queman, Timers, Round, check_queues}
use job.Text.Sets.{has, count}

-- A manager cannot be started for the queue `slow`.
abbrev fork : Bytes → Forked
fork q = if str_eq q (codes "slow") then fork_failed 11 else started 100

abbrev fast_pad : Pad Bytes
fast_pad = record {
  pid = 99;
  state = run;
  xsig = 0;
  xstat = 0;
  has_callback = true;
  ua = codes "fast";
}

abbrev managed : Queman
managed = record {
  known_queues = codes "fast" ∷ [];
  failed_queues = codes "slow" ∷ [];
  table = fast_pad ∷ [];
  killed = [];
}

abbrev found : List Bytes
found = codes "fast" ∷ codes "new" ∷ []

-- Two names that differ are not both in one place.
two_distinct :
    (a b : Bytes) → str_eq a b ≡ false → (q : Bytes) → count q (a ∷ []) + count q (b ∷ []) ≤ 1
two_distinct a b h q = ground (arith, str_eq_iff a b, str_eq_iff a q, str_eq_iff b q)

found-Distinct : Distinct found
unfolding str_eq
found-Distinct q = omega (arith, two_distinct (codes "fast") (codes "new") refl q)

managed-IsListed : IsListed managed
unfolding str_eq
managed-IsListed q = omega (arith, two_distinct (codes "fast") (codes "slow") refl q)

new_found : has found (codes "new") ≡ true
unfolding has str_eq
new_found = refl

slow_failed : has managed.failed_queues (codes "slow") ≡ true
unfolding has str_eq
slow_failed = refl

check_queues_failed_example :
    has (check_queues fork found managed).failed_queues (codes "slow") ≡ true
check_queues_failed_example =
    check_queues_failed fork found managed (codes "slow") managed-IsListed slow_failed

abbrev rounds : List Round
rounds =
    record { now = 5; ends = []; queues = found; fork = fork }
    ∷ record { now = 20; ends = (99, exited 0) ∷ []; queues = found; fork = fork }
    ∷ []

abbrev timers : Timers
timers = record { check_soon = false; when_check = 0; when_reap = 0 }

watch-IsListed_example : IsListed (watch 10 rounds (timers, managed)).1
watch-IsListed_example =
    watch-IsListed 10 rounds timers managed (found-Distinct, (found-Distinct, tt)) managed-IsListed
