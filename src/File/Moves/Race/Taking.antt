-- ===== src/File/Moves/Race/Taking.antt =====
-- The race for a job file, as one object of one manager goes through it.
use job.File.Moves.Race.{Place, waits, runs, ended, running, System, Move}
use job.Prelude.{ℕ, none, some, ◌≡◌}

-- Moves of one object only.
pub data Moves (i : ℕ) (s : System) : System → Type 0 where
  stays : Moves i s s
  goes : {t u : System} → Moves i s t → Move t i u → Moves i s u

-- Where an object `i` brings a job that nobody has locked: from where it waits to `run`, started; from
-- `run` back to where it waits, without a lock.
abbrev pub IsTaken : Place → ℕ → System → Type 0
IsTaken (waits n) i t = (t.pc i ≡ running runs) × (t.place ≡ runs) × (t.owner ≡ some i)
IsTaken runs i t = (t.place ≡ waits 0) × (t.owner ≡ none)
IsTaken ended i t = ⊥
