-- ===== src/Lib.antt =====
-- Verification of the Linux Batch Facility: the library src/job, the daemons queman and jobman, and
-- the commands mkjob and catjob.
--
-- A job is a file; its path holds its queue, its state and, in the name, its run time, priority, id
-- and submitter. `queman` watches the directory of queues and keeps one `jobman` running for each;
-- `jobman` takes the waiting jobs of its queue that are due into its free slots, and on the end of
-- a job's process moves the job on. Both start processes by `launch` and learn of their ends by
-- `reap_zombies`; ids come from `seqnum`; all system calls go through `isafe`. `mkjob` makes a job's
-- file in the state `hold`, moves it into `pend` and signals the `jobman` of its queue, which it
-- finds by its process name; `catjob` shows what a job has written.
--
-- Prelude: shared names, tests on numbers and byte strings, and lists measured by native numbers.
-- Text: src/job/string.cxx. Text/Search has `has_head`, `has_tail`, `tail` and the `find` of
--   std::string; Text/Split `split` and `join`; Text/Replace `replace_all`, `qq` and `qqif`, with a
--   reading of words as a POSIX shell does it in Text/Replace/Shell; Text/Trim `trim` and `lc`;
--   Text/Sets `diff`, `has` and `remove`.
-- Number: the numbers and Booleans of src/job/string.cxx; `int` wraps at 32 bits. Number/Times has
--   the times and sizes, with strptime, strftime, mktime, today's date and the string stream as
--   arguments.
-- Status: src/job/status.cxx, with the messages of strerror and gai_strerror as arguments.
-- File: the names of src/job/file.cxx: `state2str`, `parse`, `_init_from_path`, `name`. The result
--   of sscanf is written out for the two formats used. Times and priorities are integers, ids
--   numbers below 2^64. File/Moves has `lock`, `unlock`, `repath` and `remove` on a directory tree of
--   names, inodes and locks, and File/Moves/Race (and Race/Taking) any number of job managers that take system calls
--   on one job file in any order, as a step relation, in which `rename` can fail and the job be run
--   where it is; File/Object/Taken relates the two. File/Header has the header section, as `store`
--   writes it and `load` reads it; the number of its entries and one more is the fuel for the arguments.
--   File/Object has the object: its constructors, `copy` and the ties, and in File/Object/Disks `load`
--   and `store`, on a disk whose inodes have a text and an owner. What `fopen`, `fputs`, `fclose`,
--   `fstat` and `chown` answer is an argument; after a failed `fputs` or `fclose` any text may be in
--   the file.
-- Isafe: src/job/isafe.cxx. The kernel's answers to successive calls are a list of replies; a call
--   returns the replies it left. The list is the recursion, so no fuel is chosen; a call that has
--   used up the list has not returned.
-- Seqnum: src/job/seqnum.cxx, in a monad on the file's content and offset and the replies still to
--   come. Each round of a loop takes a reply, so that their number is fuel enough.
-- Multipart: src/job/multipart.cxx. Section is the map with keys equal up to case, Scan the state
--   machine that reads a `tag: value` line, Load the lines of a file, Print `to_string`. fgets is
--   written out, with its limit on a line. Scanning, Entry, Lines, Order, Reading, Bound, Bare, Parts, Headers and
--   Bodies have the lemmas for RoundTrip. `store` is with the disk in File/Object/Disks, and the text
--   that `get_uuid` takes from the random source is an argument.
-- Launch: the parent's side of src/job/launch.cxx. The results of fork and waitpid are arguments.
--   Launch/Wait has `wait`, on the states that successive reapings leave; Launch/Name what
--   `set_process_name` makes of the command line; Launch/Child the child up to the new program, with
--   its descriptors, and the seven reads of the go-ahead as the rounds of its loop.
-- Queue: src/job/queue.cxx; what scandir finds is an argument. Queue/Mask has `scan_queue` and, of
--   src/job/file.cxx, `find`.
-- Queman: the rounds of src/queman.cxx, with the time, the ended children, the queues found and the
--   results of fork in each round as arguments. Queman/Startup has `main` up to these rounds, and
--   the stopping of the managers after them; what it finds in the system is a record.
-- Jobman: of src/jobman.cxx, `run_a_job` in Run, on a world of the disk, the table of children and the
--   environment, which Environment makes; Break breaks a group job up on the disk. What `try_done`
--   makes of a job is in Retry, and the callback on the disk in Finish; `notify_user` in Notify; the number of jobs taken in Slots, their order in
--   Order, the command and the sections that `run_a_job` makes in Command, the
--   group jobs that are done in Group, the chores on whole directories in Chores, and in
--   Timers the rounds of `will_work_for_food`. What readdir, time, std::sort and the calls on files
--   return is an argument. Jobman/Startup has `main` up to the work loop.
-- Config: src/job/config.cxx, with the scanner and the fgets of Multipart.
-- Path: `set_root` of src/job/path.cxx.
-- Log: src/job/log.cxx. Log/Format is `get_chunk`; each of its rounds moves to the right, so that the
--   length of the format and one more is fuel enough, which Log/Format/Scan proves. Log/Operators has
--   the operators `,`, with snprintf as a parameter, Log/Levels the levels, the head and `out`.
-- Daemon: src/job/daemon.cxx, with the answers of the system calls as arguments.
-- Mkjob: `main` of src/mkjob.cxx, from the parsed command line on: its checks in Mkjob, the making,
--   storing and moving of the job in Mkjob/Submit, with the disk after each step, and `find_jobman` in
--   Mkjob/Signal, on the entries of /proc. A disk where the file is open and still empty is a step.
-- Catjob: `main` of src/catjob.cxx.
--
-- Not modelled: the handler of SIGCHLD and the space that a process name may take, in
-- src/job/launch.cxx; the texts of messages; of the commands, the log levels and the root;
-- src/job/getopt.cxx, glue to the option parser in src/open, which is a copy of another project; and
-- src/job-cfg.cxx, which is written for headers that the repository does not have.
mod Prelude
pub mod Text
pub mod Number
pub mod Status
pub mod Daemon
pub mod File
pub mod Isafe
pub mod Seqnum
pub mod Multipart
pub mod Launch
pub mod Queue
pub mod Queman
pub mod Jobman
pub mod Catjob
pub mod Config
pub mod Path
pub mod Log
pub mod Mkjob
mod Tests
