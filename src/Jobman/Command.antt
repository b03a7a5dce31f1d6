-- ===== src/Jobman/Command.antt =====
-- `run_a_job`: the command that it runs, and the sections that it adds to the job file. The current
-- time, as `tim2str` prints it, is an argument.
use job.Config.{Config, get}
use job.File.Header.{get_tag}
use job.File.{State, is_empty, state2str}
use job.Jobman.Chores.{add_secs}
use job.Multipart.Section.{Section, set_tag}
use job.Number.{ℤ, print_int}
use job.Prelude.{
  ◌&&◌, List, [], ◌∷◌, ◌++◌, ◌≡◌, refl, ap, ◌∙◌, Option, none, some, Bytes, codes, ltb,
  if◌then◌else◌, str_eq, length, reverse, reverse-append, is_space,
}
use job.Text.Replace.{qqif}
use job.Text.Trim.{trim, ltrim, rtrim}

-- The loop over the arguments.
unfoldable pub add_args : Bytes → List Bytes → Bytes
add_args cmd [] = cmd
add_args cmd (x ∷ xs) = add_args (cmd ++ (codes " " ++ qqif x)) xs

unfoldable pub built_command : Bytes → List Bytes → Bytes
unfolding add_args
built_command command args = trim (add_args (trim command) args)

-- `quecfg.get("type:" + jf->type, "command")`
unfoldable pub typed_command : Config → Bytes → Bytes
typed_command quecfg type = trim (get quecfg (codes "type:" ++ type) (codes "command") [])

unfoldable pub not_empty : Bytes → Option Bytes
not_empty [] = none
not_empty (c ∷ cs) = some (c ∷ cs)

-- `cmd`; `none` where the job is moved to done because the command is empty or its type unknown.
unfoldable pub job_command : Config → Bytes → Bytes → List Bytes → Option Bytes
unfolding built_command typed_command not_empty
job_command quecfg type command args =
    if is_empty type
    then not_empty (built_command command args)
    else not_empty (trim (typed_command quecfg type))

abbrev last_section : List Section → Section
last_section [] = []
last_section (m ∷ []) = m
last_section (m ∷ (n ∷ ms)) = last_section (n ∷ ms)

unfoldable pub died_section : State → ℤ → Bytes → Section
unfolding set_tag
died_section st try_count end_time = set_tag (codes "__BODY__") [] (
    set_tag (codes "Exit-Status") (codes "130") (
      set_tag (codes "Exit-Signal") (codes "99") (
        set_tag (codes "Exit-Note") (codes "Job manager died or system restart") (
          set_tag (codes "End-Time") end_time (
            set_tag (codes "Try-Count") (print_int try_count) (
              set_tag (codes "State") (state2str st)
                (set_tag (codes "Section") (codes "result") [])))))))

-- The section `result` of a try whose manager died.
unfoldable pub close_output : State → ℤ → Bytes → List Section → List Section
unfolding died_section
close_output st try_count end_time ms =
    if ltb 1 (length ms) && str_eq (get_tag (last_section ms) (codes "Section")) (codes "output")
    then ms ++ died_section st try_count end_time ∷ []
    else ms

-- The section `output`, and the try that it counts.
unfoldable pub open_output : ℤ → Bytes → List Section → ℤ × List Section
unfolding set_tag
open_output try_count start_time ms =
    let count = add_secs try_count 1 in
    (
      count,
      ms
          ++ set_tag (codes "__BODY__") (codes "\n") (
              set_tag (codes "Start-Time") start_time (
                set_tag (codes "Try-Count") (print_int count)
                  (set_tag (codes "Section") (codes "output") [])))
            ∷ [],
    )

rtrim_blank : (s : Bytes) → rtrim (s ++ codes " ") ≡ rtrim s
unfolding rtrim ltrim is_space
rtrim_blank s = ap (λ x. reverse (ltrim x)) (reverse-append s (codes " "))

add_args-append :
    (cmd : Bytes) (xs ys : List Bytes) → add_args cmd (xs ++ ys) ≡ add_args (add_args cmd xs) ys
unfolding add_args
add_args-append cmd [] ys = refl
add_args-append cmd (x ∷ xs) ys = add_args-append (cmd ++ (codes " " ++ qqif x)) xs ys

-- An empty argument at the end is lost: the command is that of the job without it.
pub built_command-empty :
    (command : Bytes) (args : List Bytes)
    → built_command command (args ++ [] ∷ []) ≡ built_command command args
unfolding built_command add_args qqif trim
built_command-empty command args =
    ap (λ x. ltrim (rtrim x)) (add_args-append (trim command) args ([] ∷ []))
    ∙ ap ltrim (rtrim_blank (add_args (trim command) args))
