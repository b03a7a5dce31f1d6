-- ===== src/Tests/Calls.antt =====
-- src/job/isafe.cxx and src/job/seqnum.cxx at concrete inputs.
use job.Isafe.Retries.{Ends, Call, made, made_retries}
use job.Isafe.{Reply, value, fail, Outcome, is_busy, busy_try_limit}
use job.Prelude.{◌≡◌, List, [], ◌∷◌, replicate, arith, some}
use job.Seqnum.Numbers.{IsWord, HasStepped, next-HasStepped}
use job.Seqnum.Reading.{Ensures}
use job.Seqnum.Returns.{Returns, prompt, next-Returns}
use job.Seqnum.{Access, next}

-- An interruption, and a busy file system that gives way.
abbrev busy_replies : List Reply
busy_replies = fail 4 ∷ fail 16 ∷ replicate 20 (value 0)

made_retries_example :
    (o : Outcome) × (made Call.rename busy_replies ≡ some o)
    × Ends is_busy busy_try_limit 0 busy_replies o
made_retries_example = made_retries Call.rename busy_replies (omega arith)

-- A file that holds 258, and a kernel that answers each call in full.
abbrev number_file : Access
number_file = record {
  replies = prompt [];
  content = 2 ∷ 1 ∷ replicate 6 0;
  position = 0;
  number = 0;
}

number_file-IsWord : IsWord number_file
number_file-IsWord = omega arith

next-HasStepped_example : Ensures (HasStepped number_file) (next number_file)
next-HasStepped_example = next-HasStepped number_file number_file-IsWord

next-Returns_example : Returns (next number_file)
next-Returns_example = next-Returns [] (2 ∷ 1 ∷ replicate 6 0) 0 0 (omega arith)
