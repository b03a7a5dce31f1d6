-- ===== src/Tests/Chores.antt =====
-- The chores and the timers of src/jobman.cxx at concrete inputs.
use job.Jobman.Chores.Housekeeping.{in_time, Cleans, kellys_kleaning_kompany-Cleans}
use job.Jobman.Chores.Ours.{AllForeign, bring_out_yer_dead-AllForeign}
use job.Jobman.Chores.{Dirent, RunFile, repath_ok, kellys_kleaning_kompany, bring_out_yer_dead}
use job.Jobman.Command.{job_command}
use job.Text.Trim.{trim, ltrim, rtrim}
use job.Text.Replace.{qqif, qq, replace_all, is_special}
use job.Text.Search.{find}
use job.File.{is_empty}
use job.Jobman.Timers.Punctual.{done_in, done_in-interval}
use job.Jobman.Timers.{start_timers, will_work_for_food, group, interval}
use job.Launch.{Table, State}
use job.Prelude.{
  ℕ, refl, is_space, ◌+◌, ◌≤◌, ◌≡◌, true, false, List, [], ◌∷◌, codes, some, Option, arith, length,
  ltb, if◌then◌else◌,
}

abbrev spool : List Dirent
spool =
    record {
      at = 1700000000;
      d_name = codes "t1600000000.p5.j0000007.ann";
      unlinks = true;
      signals = true;
    }
    ∷ (record {
      at = 1700000001;
      d_name = codes "t1699999999.p5.j0000008.ann";
      unlinks = true;
      signals = true;
    }
        ∷ (record {
          at = 1700000009;
          d_name = codes "t1600000001.p5.j0000009.ann";
          unlinks = true;
          signals = true;
        }
            ∷ []))

kellys_kleaning_kompany-Cleans_example :
    (let seen = in_time (1700000000 + 3) spool in
      let r = kellys_kleaning_kompany 86400 1700000000 (some spool) false in
      Cleans 86400 1700000000 seen r.0.unlinked
      × (r.0.n ≡ length r.0.unlinked)
      × (r.1 ≡ (if ltb (length seen) (length spool) then true else false)))
kellys_kleaning_kompany-Cleans_example = kellys_kleaning_kompany-Cleans 86400 1700000000 spool false

abbrev ours : Table (Option ℕ)
ours =
    record { pid = 99; state = State.run; xsig = 0; xstat = 0; has_callback = true; ua = some 7 }
    ∷ []

abbrev in_run : List RunFile
in_run =
    record {
      path = codes "/var/spool/job/fast/run/t1600000000.p5.j0000007.ann";
      repathed = repath_ok;
    }
    ∷ (record {
      path = codes "/var/spool/job/fast/run/t1600000000.p5.j0000008.ann";
      repathed = repath_ok;
    }
        ∷ [])

bring_out_yer_dead-AllForeign_example :
    AllForeign ours (bring_out_yer_dead ours in_run).0
    × ((bring_out_yer_dead ours in_run).1 ≤ length (bring_out_yer_dead ours in_run).0)
bring_out_yer_dead-AllForeign_example = bring_out_yer_dead-AllForeign ours in_run

abbrev kill_files : List Dirent
kill_files =
    record { at = 10; d_name = codes "7"; unlinks = true; signals = true }
    ∷ (record { at = 11; d_name = codes "8"; unlinks = true; signals = true } ∷ [])

done_in-interval_example :
    done_in 5 group
      ((107, true) ∷ ((120, false) ∷ []))
      (will_work_for_food 5 ((101, false) ∷ ((105, true) ∷ [])) (start_timers 100 true))
    ≡ true
unfolding interval
done_in-interval_example =
    done_in-interval 5 100 120 false true group ((101, false) ∷ ((105, true) ∷ []))
      ((107, true) ∷ []) (omega arith) (omega arith, (omega arith, tt)) (omega arith)

-- The empty argument at the end is lost.
command :
    job_command [] [] (codes " cp -v ") (codes "a b" ∷ (codes "c" ∷ ([] ∷ [])))
    ≡ some (codes "cp -v 'a b' c")
unfolding job_command trim ltrim rtrim qqif qq replace_all is_space is_empty is_special find
command = refl
