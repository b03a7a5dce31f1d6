-- ===== src/Jobman/Order.antt =====
-- src/jobman.cxx, `jobcompare` and the choice of the most eligible jobs in `solicit_on_the_street`.
pub mod Keys
pub mod Best
use job.File.{literal, scan_int}
use job.Jobman.Retry.{int_lt}
use job.Jobman.Slots.{Attempt, solicit_on_the_street}
use job.Number.{ℤ, pos, negsuc}
use job.Prelude.{
  ℕ, Bool, true, false, ◌&&◌, ◌||◌, List, [], ◌∷◌, map, Option, none, some, Bytes, codes, ◌==◌,
  if◌then◌else◌, length, take, drop,
}

-- `==` on `int`.
unfoldable pub int_eq : ℤ → ℤ → Bool
int_eq (pos a) (pos b) = a == b
int_eq (negsuc a) (negsuc b) = a == b
int_eq _ _ = false

infixl 5 ◌>>=◌
abbrev ◌>>=◌ : {A B : Type 0} → Option A → (A → Option B) → Option B
none >>= f = none
some a >>= f = f a

-- `sscanf(a, "t%lu.p%d.", &time, &prio)` where it converts both; the last dot is not counted.
unfoldable pub job_key : Bytes → Option (ℤ × ℤ)
job_key s = do
  s1 ← literal (codes "t") s
  (time, s2) ← scan_int s1
  s3 ← literal (codes ".p") s2
  (prio, s4) ← scan_int s3
  some (time, prio)

unfoldable pub key_less : Option (ℤ × ℤ) → Option (ℤ × ℤ) → Bool
unfolding int_eq int_lt
key_less (some (a_time, a_prio)) (some (b_time, b_prio)) =
    int_eq a_prio b_prio && int_lt a_time b_time || int_lt a_prio b_prio
key_less _ _ = false

-- `jobcompare`; the file name begins at `jobcmpofs`.
unfoldable pub jobcompare : ℕ → Bytes → Bytes → Bool
unfolding job_key key_less
jobcompare jobcmpofs a b = key_less (job_key (drop jobcmpofs a)) (job_key (drop jobcmpofs b))

-- The jobs that `solicit_on_the_street` tries and those that it leaves, of the pending ones in the
-- order in which `std::sort` puts them; `attempt` is what `run_a_job` meets with for a file.
unfoldable pub how_many : (Bytes → Attempt) → ℕ → ℕ → List Bytes → ℕ
how_many attempt maxjobs nrun sorted =
    length (solicit_on_the_street maxjobs nrun (map attempt sorted))

unfoldable pub tried : (Bytes → Attempt) → ℕ → ℕ → List Bytes → List Bytes
unfolding how_many
tried attempt maxjobs nrun sorted = take (how_many attempt maxjobs nrun sorted) sorted

unfoldable pub left : (Bytes → Attempt) → ℕ → ℕ → List Bytes → List Bytes
unfolding how_many
left attempt maxjobs nrun sorted = drop (how_many attempt maxjobs nrun sorted) sorted
