-- ===== src/Catjob.antt =====
-- src/catjob.cxx: `main` from the parsed command line on.
use job.File.Header.{get_tag, int_to_id}
use job.File.Object.Disks.{Disk, FileLoaded, loaded, no_file, bad_line, load}
use job.File.Object.{JobFile, file_at}
use job.File.{Result, ok, err, is_empty}
use job.Multipart.Load.{body_tag}
use job.Multipart.Print.{to_string}
use job.Multipart.Section.{Section}
use job.Number.{str2int}
use job.Prelude.{
  ℕ, suc, Bool, not, List, [], ◌∷◌, Bytes, codes, if◌then◌else◌, str_eq, ◌≡◌, refl, Bool-cases, inl,
  inr,
}

-- The loop over the sections from 1 on: the number of a try, and its output.
unfoldable pub outputs : ℕ → List Section → List (ℕ × Bytes)
unfolding get_tag
outputs tri [] = []
outputs tri (m ∷ ms) =
    let rest = outputs tri ms in
    let next = outputs (suc tri) ms in
    if not (str_eq (get_tag m (codes "section")) (codes "output"))
    then rest
    else (suc tri, get_tag m body_tag) ∷ next

unfoldable pub behind_first : List Section → List Section
behind_first [] = []
behind_first (m ∷ ms) = ms

pub data Shown : Type 0 where
  one_id_required cannot_find cannot_load : Shown
  raw : Bytes → Shown
  tries : List (ℕ × Bytes) → Shown

show_job : Bool → Bytes → FileLoaded → Shown
unfolding to_string outputs behind_first
show_job as_is uuid no_file = cannot_load
show_job as_is uuid (bad_line e n) = cannot_load
show_job as_is uuid (loaded f) =
    if as_is
    then raw (to_string uuid f.parts).1
    else tries (outputs 0 (behind_first f.parts.sections))

show_file : Bool → Bytes → Bytes → Disk → Result JobFile → Shown
unfolding show_job load
show_file as_is jobdir uuid d (err e) = cannot_find
show_file as_is jobdir uuid d (ok f) = show_job as_is uuid (load jobdir d f)

-- The object of a job that is looked for by its number: `find` is `file::find`, and `me` tells the
-- object from others.
unfoldable pub file_of_id : ℕ → (ℕ → Bytes) → ℕ → Result JobFile
unfolding file_at is_empty
file_of_id me find id = if is_empty (find id) then err job.File.bad_path else file_at me (find id)

-- What is shown for the arguments; `as_is` is `--raw`.
unfoldable pub main : ℕ → (ℕ → Bytes) → Bool → Bytes → Bytes → Disk → List Bytes → Shown
unfolding show_file file_of_id int_to_id
main me find as_is jobdir uuid d [] = one_id_required
main me find as_is jobdir uuid d (a ∷ (b ∷ more)) = one_id_required
main me find as_is jobdir uuid d (a ∷ []) =
    show_file as_is jobdir uuid d (file_of_id me find (int_to_id (str2int a)))

-- The output sections, by themselves.
abbrev is_output : Section → Bool
is_output m = str_eq (get_tag m (codes "section")) (codes "output")

abbrev pub output_bodies : List Section → List Bytes
output_bodies [] = []
output_bodies (m ∷ ms) =
    if is_output m then get_tag m body_tag ∷ output_bodies ms else output_bodies ms

abbrev pub numbered : ℕ → List Bytes → List (ℕ × Bytes)
numbered n [] = []
numbered n (b ∷ bs) = (suc n, b) ∷ numbered (suc n) bs

-- The tries are shown in the order of the file, numbered from one more than the given number without a
-- gap, whatever sections stand between them.
pub outputs-numbered : (n : ℕ) (ms : List Section) → outputs n ms ≡ numbered n (output_bodies ms)
unfolding outputs
outputs-numbered n [] = refl
outputs-numbered n (m ∷ ms) = elim (Bool-cases (is_output m)) [
  | inl e ↦ rw (e, outputs-numbered (suc n) ms)
  | inr e ↦ rw (e, outputs-numbered n ms)
]
