-- ===== src/Mkjob/Signal.antt =====
-- src/mkjob.cxx: `find_jobman`.
use job.File.{scan_int}
use job.Multipart.Load.{fgets_lines, c_str}
use job.Number.{ℤ, pos}
use job.Prelude.{
  Bool, false, List, [], ◌∷◌, ◌++◌, Option, none, some, Bytes, codes, if◌then◌else◌, str_eq,
}

-- An entry of `/proc`, with the content of its `cmdline`, if that can be opened.
pub record Process : Type 0 where
  pub d_name : Bytes
  pub cmdline : Option Bytes

unfoldable pub pid_number : Option (ℤ × Bytes) → Option ℤ
pid_number none = none
pid_number (some (pid, [])) = some pid
pid_number (some (pid, c ∷ cs)) = none

unfoldable pub first_is : Bytes → List Bytes → Bool
unfolding c_str
first_is wanted [] = false
first_is wanted (line ∷ lines) = str_eq (c_str line) wanted

unfoldable pub has_cmdline : Bytes → Option Bytes → Bool
unfolding fgets_lines first_is
has_cmdline wanted none = false
has_cmdline wanted (some content) = first_is wanted (fgets_lines 4096 4095 [] content)

unfoldable pub chosen : Option ℤ → Bool → ℤ → ℤ
chosen none found rest = rest
chosen (some pid) found rest = if found then pid else rest

-- `find_jobman`; `test_prefix` ends in a dash if there is one.
unfoldable pub find_jobman : Bytes → Bytes → List Process → ℤ
unfolding chosen pid_number has_cmdline scan_int
find_jobman test_prefix qnam [] = pos 0
find_jobman test_prefix qnam (ent ∷ ents) =
    let wanted = test_prefix ++ (codes "jobman " ++ qnam) in
    chosen (pid_number (scan_int ent.d_name)) (has_cmdline wanted ent.cmdline)
      (find_jobman test_prefix qnam ents)
