-- ===== src/Tests/Submission.antt =====
-- A job that is submitted, stored and loaded.
use job.File.Header.RoundTrip.{before_body, pid_stored}
use job.Mkjob.Pending.{AllWhole, submit-AllWhole}
use job.Mkjob.Storing.{store_new_handle}
use job.Mkjob.Submit.{SubmitFaults, in_pend, half_stored, submit}
use job.Mkjob.Submitted.{HasArrived, submit-HasArrived}
use job.File.Header.Ties.{AreTies, AreDistinct}
use job.File.Header.{Header, store_args, tie_lines, tie_line, arg_tag, is_run, store_header}
use job.File.Moves.{Faults, err_ok, repath, lock, open_fd, flock_fd, lock_fd, is_ok}
use job.File.Object.Disks.{in_file, Disk, StoreFaults, stored, store, load, loaded}
use job.File.Object.RoundTrip.{bare-store_header, load-store, unstored, stored_text}
use job.File.Object.Stored.{HasText, stored_parts, store_unmoved}
use job.File.Object.{JobFile, one_section, handle_of, new_header}
use job.File.{PathAttrs, hold, state2str, name, base_name, print_time, is_empty}
use job.Multipart.Bare.{printed}
use job.Multipart.Load.{at_section, c_str, fgets_lines, end_bound, mid_bound, byte_at}
use job.Multipart.Parts.{AreSome, IsBody, learned}
use job.Multipart.Print.{
  to_string, with_boundary, print_sections, print_section, print_bound, field,
}
use job.Multipart.RoundTrip.{IsPrintable, printable}
use job.Multipart.Scan.{is_id}
use job.Multipart.Section.{set_tag, same_key, caseless}
use job.Number.{pos, int2str, print_int, siz2str, yn2str, to_int, padded}
use job.Prelude.{
  true, false, [], ◌∷◌, none, some, codes, str_eq, to_lower, is_alnum, is_digit, is_blank, ◌≡◌, ◌≢◌,
  refl, ap, arith,
}
use job.Tests.Deciders.{apart, headers_ok, headers_ok-AreHeaders}
use job.Text.Trim.{lc}

abbrev path : PathAttrs
path = record {
  queue = codes "fast";
  state = hold;
  attrs = record { run_time = pos 1700000000; priority = pos 5; id = 17; submitter = codes "ann" };
}

abbrev header : Header
header = record new_header {
  command = codes "ls";
  args = codes "-l" ∷ [];
  ties = (codes "east", 0) ∷ [];
}

abbrev job_file : JobFile
job_file = record {
  handle = handle_of 1 path [];
  header = header;
  parts = one_section;
  try_count = pos 0;
  uid = 7;
  gid = 8;
}

abbrev empty_disk : Disk
empty_disk = record {
  fs = record { names = λ p. none; locked = λ i. none };
  content = λ i. [];
  owner = λ i. (0, 0);
  fresh = 3;
}

abbrev no_faults : Faults
no_faults = record {
  open_fails = false;
  flock_fails = false;
  rename_fails = false;
  remove_fails = false;
}

abbrev no_text_faults : StoreFaults
no_text_faults = record {
  create_fails = false;
  written = none;
  flushed = none;
  stat_fails = false;
  chown_fails = false;
}

job_headers : headers_ok [] (before_body path header []) ≡ true
unfolding set_tag same_key caseless to_lower is_id is_alnum is_digit is_blank int2str print_int
    siz2str to_int yn2str state2str store_args arg_tag is_run
job_headers = refl

job_learned : learned 0 [] (before_body path header []) ≡ []
unfolding set_tag same_key caseless to_lower int2str print_int siz2str to_int yn2str state2str
    store_args arg_tag is_run str_eq lc
job_learned = refl

job_some : AreSome (before_body path header [])
unfolding set_tag same_key caseless to_lower int2str print_int siz2str to_int yn2str state2str
    store_args arg_tag is_run
job_some = headers_ok-AreHeaders [] (before_body path header []) job_headers

job-IsBody : IsBody [] [] (tie_lines header.ties)
unfolding tie_lines tie_line int2str print_int siz2str to_int fgets_lines c_str byte_at end_bound
    mid_bound
job-IsBody = (refl, ((refl, refl, refl, refl), tt))

job-IsPrintable : IsPrintable (printed (to_string (codes "7") (stored_parts (unstored job_file))).0)
unfolding to_string with_boundary at_section is_empty
job-IsPrintable =
    printable (before_body path header []) (tie_lines header.ties) []
      (ap (λ m. m ∷ []) (bare-store_header path header)) job_learned (tt, omega arith) refl
      (job_some, job-IsBody, tt)

job_plain : c_str (stored_text (codes "7") job_file) ≡ stored_text (codes "7") job_file
unfolding to_string with_boundary at_section is_empty print_sections print_section print_bound field
    store_header tie_lines tie_line c_str str_eq set_tag same_key caseless to_lower int2str
    print_int siz2str to_int yn2str state2str store_args arg_tag is_run
job_plain = refl

job_ties : AreTies header.ties × AreDistinct [] header.ties
job_ties = ((refl, refl, omega arith, tt), (refl, tt))

load-store_example :
    (g' : JobFile) × (load
        (codes "/j/")
        (store no_faults no_text_faults (codes "/j/") (codes "7") empty_disk (unstored job_file)).0
        (unstored job_file)
      ≡ loaded g')
    × (g'.header ≡ record header { pid = pid_stored path header })
load-store_example =
    load-store no_faults no_text_faults (codes "/j/") (codes "7") empty_disk job_file job_file refl
      refl refl
      (store_new_handle no_faults no_text_faults (codes "/j/") (codes "7") empty_disk
        (unstored job_file) refl).2
      job_plain job-IsPrintable (omega arith) (omega arith) job_ties.0 job_ties.1

abbrev no_submit_faults : SubmitFaults
no_submit_faults = record {
  in_store = no_faults;
  in_text = no_text_faults;
  in_repath = no_faults;
  in_remove = no_faults;
}

apart_names : name (codes "/j/") path ≢ name (codes "/j/") (in_pend job_file).handle.path
unfolding name base_name print_time state2str padded print_int siz2str str_eq
apart_names =
    apart (name (codes "/j/") path) (name (codes "/j/") (in_pend job_file).handle.path) refl

submit-AllWhole_example :
    AllWhole
      (name (codes "/j/") (in_pend job_file).handle.path)
      (c_str (to_string (codes "7") (stored_parts job_file)).1)
      (submit no_submit_faults (codes "/j/") (codes "7") empty_disk job_file).disks
submit-AllWhole_example =
    submit-AllWhole no_submit_faults (codes "/j/") (codes "7") empty_disk job_file refl refl refl
      refl apart_names

named : is_empty (name (codes "/j/") path) ≡ false
unfolding name base_name print_time state2str padded print_int siz2str is_empty
named = refl

-- There is no space for the text, which `fclose` finds.
abbrev full_disk : StoreFaults
full_disk = record no_text_faults { flushed = some [] }

abbrev full_disk_faults : SubmitFaults
full_disk_faults = record no_submit_faults { in_text = full_disk }

submit-HasArrived_example :
    HasArrived
      (half_stored no_faults full_disk (codes "/j/") empty_disk job_file ∷ [])
      (name (codes "/j/") path)
      (name (codes "/j/") (in_pend job_file).handle.path)
      (in_file (some []) (c_str (to_string (codes "7") (stored_parts job_file)).1))
      (submit full_disk_faults (codes "/j/") (codes "7") empty_disk job_file)
submit-HasArrived_example =
    submit-HasArrived full_disk_faults (codes "/j/") (codes "7") empty_disk job_file
      (record { opens = refl; flocks = refl; renames = refl }) refl refl refl refl refl refl refl
      refl named apart_names

-- A file that another manager has locked, under a name that its job has no more.
abbrev old_job : JobFile
old_job = record job_file { handle = handle_of 1 path (codes "/j/old") }

abbrev locked_disk : Disk
locked_disk = record empty_disk { fs = record { names = λ p. some 2; locked = λ i. some 9 } }

old_refused : (repath no_faults (codes "/j/") locked_disk.fs old_job.handle).1.error ≢ err_ok
unfolding repath lock lock_fd open_fd flock_fd is_ok is_empty str_eq name base_name print_time
    state2str padded print_int siz2str
old_refused = λ e. cc

store_unmoved_example :
    ((store no_faults no_text_faults (codes "/j/") (codes "7") locked_disk old_job).2 ≡ stored)
    × ((store no_faults no_text_faults (codes "/j/") (codes "7") locked_disk old_job).1.handle.error
        ≡ err_ok)
    × HasText
        (codes "/j/old")
        (c_str (to_string (codes "7") (stored_parts old_job)).1)
        (store no_faults no_text_faults (codes "/j/") (codes "7") locked_disk old_job).0
store_unmoved_example =
    store_unmoved no_faults no_text_faults (codes "/j/") (codes "7") locked_disk old_job tt
      (unfold is_empty in refl) old_refused refl refl refl refl refl
