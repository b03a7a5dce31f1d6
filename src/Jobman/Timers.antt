-- ===== src/Jobman/Timers.antt =====
-- src/jobman.cxx, `will_work_for_food`: which chores are done in a round of the loop, and the timers.
pub mod Punctual
use job.Prelude.{ℕ, ◌+◌, ◌*◌, Bool, true, false, List, [], ◌∷◌, ◌++◌, ltb, leb, if◌then◌else◌}

pub data Chore : Type 0 where
  reap_zombies bring_out terminate clean group solicit : Chore

-- The timers, with the flag `check_soon`.
pub record Timers : Type 0 where
  pub check_soon : Bool
  pub when_reap : ℕ
  pub when_dead : ℕ
  pub when_poll : ℕ
  pub when_group : ℕ
  pub when_kill : ℕ
  pub when_clean : ℕ

-- The timers before the loop.
unfoldable pub start_timers : ℕ → Bool → Timers
start_timers now soon = record {
  check_soon = soon;
  when_reap = 0;
  when_dead = now + 1;
  when_poll = now + 3;
  when_group = now + 4;
  when_kill = now + 6;
  when_clean = now + 13;
}

-- `if (when > limit) when = limit`.
unfoldable pub sooner : ℕ → ℕ → ℕ
sooner limit when = if ltb limit when then limit else when

-- After a signal.
unfoldable pub wake : ℕ → Timers → Timers
unfolding sooner
wake now t =
    if t.check_soon
    then record {
      check_soon = false;
      when_reap = now;
      when_dead = sooner (now + 59) t.when_dead;
      when_poll = sooner (now + 3) t.when_poll;
      when_group = sooner (now + 10) t.when_group;
      when_kill = sooner (now + 15) t.when_kill;
      when_clean = sooner (now + 1800) t.when_clean;
    }
    else t

-- `if (now >= when) { when = now + next; ... }`.
unfoldable pub rearm : ℕ → ℕ → ℕ → ℕ
rearm now next when = if leb when now then now + next else when

unfoldable pub due : ℕ → ℕ → Chore → List Chore
due now when c = if leb when now then c ∷ [] else []

-- The seconds between two turns of a chore; `next_poll` is the configured one.
unfoldable pub interval : ℕ → Chore → ℕ
interval next_poll reap_zombies = 1
interval next_poll bring_out = 180
interval next_poll terminate = 30
interval next_poll clean = 12 * 3600
interval next_poll group = 15
interval next_poll solicit = next_poll

-- A round at the time `now`: the timers after it, and the chores done, in their order. The flag set
-- by the chores and by signals is that of the next round.
unfoldable pub work_round : ℕ → ℕ → Timers → Timers × List Chore
unfolding wake rearm due interval
work_round next_poll now t0 =
    let t = wake now t0 in
    (
      record t {
        when_reap = rearm now (interval next_poll reap_zombies) t.when_reap;
        when_dead = rearm now (interval next_poll bring_out) t.when_dead;
        when_kill = rearm now (interval next_poll terminate) t.when_kill;
        when_clean = rearm now (interval next_poll clean) t.when_clean;
        when_group = rearm now (interval next_poll group) t.when_group;
        when_poll = rearm now (interval next_poll solicit) t.when_poll;
      },
      due now t.when_reap reap_zombies
          ++ (due now t.when_dead bring_out
              ++ (due now t.when_kill terminate
                  ++ (due now t.when_clean clean
                      ++ (due now t.when_group group ++ due now t.when_poll solicit)))),
    )

-- The rounds of the loop, each with its time and with whether anything has asked to check soon
-- since the round before.
unfoldable pub will_work_for_food : ℕ → List (ℕ × Bool) → Timers → Timers
will_work_for_food next_poll [] t = t
will_work_for_food next_poll ((now, soon) ∷ rs) t =
    will_work_for_food next_poll rs
      (work_round next_poll now (if soon then record t { check_soon = true } else t)).0
