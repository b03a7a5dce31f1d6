-- ===== src/Mkjob/Cmdline.antt =====
-- What `find_jobman` makes of the command line of a process that has taken a name.
use job.File.{scan_int}
use job.Launch.Name.{set_process_name}
use job.Mkjob.Signal.{Process, pid_number, first_is, has_cmdline, chosen, find_jobman}
use job.Multipart.Scanning.{AllPlain}
use job.Multipart.Load.{fgets_lines, c_str}
use job.Number.{ℤ}
use job.Prelude.{
  ℕ, zero, suc, ◌+◌, ◌-◌, ◌<◌, ◌≤◌, Bool, true, false, ◌||◌, List, [], ◌∷◌, ◌++◌, Option, none,
  some, Bytes, codes, ◌==◌, length, take, replicate, str_eq, str_eq_refl, append_assoc, append-nil,
  ◌≡◌, refl, ap, sym, ◌∙◌, arith, Bool-cases, inl, inr,
}

-- The first line that is read begins with what is there already.
data Begins (acc : Bytes) (ls : List Bytes) : Type 0 where
  begins : (t : Bytes) (rest : List Bytes) → ls ≡ (acc ++ t) ∷ rest → Begins acc ls

fgets_lines-Begins :
    (size room a : ℕ) (acc x : Bytes) → Begins (a ∷ acc) (fgets_lines size room (a ∷ acc) x)
unfolding fgets_lines
fgets_lines-Begins size room a acc [] = begins [] [] (ap (λ l. (a ∷ l) ∷ []) (sym (append-nil acc)))
fgets_lines-Begins size room a acc (c ∷ cs) = elim (Bool-cases (c == b'\n' || room == 1)) [
  | inl e ↦ begins (c ∷ []) (fgets_lines size (size - 1) [] cs) (rw e)
  | inr e ↦ elim (fgets_lines-Begins size (room - 1) a (acc ++ c ∷ []) cs) [
    | begins t rest h ↦
        begins (c ∷ t) rest
          (rw (e, fgets_lines) (h ∙ ap (λ l. (a ∷ l) ∷ rest) (append_assoc acc (c ∷ []) t)))
  ]
]

-- The text before the first NUL, which is in the first line.
first_text :
    (size room a : ℕ) (acc x rest : Bytes)
    → AllPlain x
    → length x < room
    → Begins ((a ∷ acc) ++ (x ++ 0 ∷ [])) (fgets_lines size room (a ∷ acc) (x ++ 0 ∷ rest))
unfolding fgets_lines
first_text size room a acc [] rest p h = elim (Bool-cases (room == 1)) [
  | inl e ↦ begins [] (fgets_lines size (size - 1) [] rest) (
      rw e (
        ap (λ l. (a ∷ l) ∷ fgets_lines size (size - 1) [] rest) (sym (append-nil (acc ++ 0 ∷ [])))))
  | inr e ↦ elim (fgets_lines-Begins size (room - 1) a (acc ++ 0 ∷ []) rest) [
    | begins t ls h ↦ begins t ls (rw e h)
  ]
]
first_text size room a acc (c ∷ x) rest p h =
    let goes_on : (c == b'\n' || room == 1) ≡ false = ground arith in
    elim (first_text size (room - 1) a (acc ++ c ∷ []) x rest p.1 (omega arith)) [
      | begins t ls e ↦ begins t ls (
          rw (goes_on, fgets_lines)
            (e ∙ ap (λ l. (a ∷ (l ++ t)) ∷ ls) (append_assoc acc (c ∷ []) (x ++ 0 ∷ []))))
    ]

c_str_nul : (x t : Bytes) → AllPlain x → c_str (x ++ 0 ∷ t) ≡ x
unfolding c_str
c_str_nul [] t p = refl
c_str_nul (c ∷ x) t p =
    let more : (c == 0) ≡ false = ground arith in rw more (ap (◌∷◌ c) (c_str_nul x t p.1))

take_all : (n : ℕ) (x : Bytes) → length x ≤ n → take n x ≡ x
take_all zero [] h = refl
take_all zero (c ∷ x) h = absurd (omega (arith, h))
take_all (suc n) [] h = refl
take_all (suc n) (c ∷ x) h = ap (◌∷◌ c) (take_all n x (omega (arith, h)))

zeros : (n : ℕ) → 1 ≤ n → replicate {A = ℕ} n 0 ≡ 0 ∷ replicate (n - 1) 0
zeros zero h = absurd (omega (arith, h))
zeros (suc n) h = ap (λ k. 0 ∷ replicate k 0) (omega arith)

process_name_text :
    (size : ℕ) (x : Bytes)
    → length x + 2 ≤ size
    → (z : Bytes) × (set_process_name size x ≡ x ++ 0 ∷ z)
unfolding set_process_name
process_name_text size x fits =
    let cut : take (size - 2) x ≡ x = take_all (size - 2) x (omega (arith, fits)) in
    (
      replicate (size - length x - 1) 0,
      rw cut (ap (λ l. x ++ l) (zeros (size - length x) (omega (arith, fits)))),
    )

first_is_text :
    (wanted : Bytes) (ls : List Bytes)
    → AllPlain wanted
    → Begins (wanted ++ 0 ∷ []) ls
    → first_is wanted ls ≡ true
unfolding first_is
first_is_text wanted ls p (begins t rest e) =
    ap (first_is wanted) e
    ∙ ap (λ l. str_eq l wanted) (ap c_str (append_assoc wanted (0 ∷ []) t) ∙ c_str_nul wanted t p)
    ∙ str_eq_refl wanted

-- A process has the command line that it was given by `set_process_name`.
pub has_cmdline_named :
    (size c : ℕ) (cs : Bytes)
    → AllPlain (c ∷ cs)
    → length (c ∷ cs) < 4094
    → length (c ∷ cs) + 2 ≤ size
    → has_cmdline (c ∷ cs) (some (set_process_name size (c ∷ cs))) ≡ true
unfolding has_cmdline fgets_lines
has_cmdline_named size c cs p short fits =
    let (z, text) = process_name_text size (c ∷ cs) fits in
    let goes_on : (c == b'\n' || 4095 == 1) ≡ false = ground arith in
    ap (λ x. has_cmdline (c ∷ cs) (some x)) text
    ∙ first_is_text (c ∷ cs) (fgets_lines 4096 4095 [] (c ∷ (cs ++ 0 ∷ z))) p
        (rw goes_on (first_text 4096 4094 c [] cs z p.1 (omega (arith, short))))

-- None of the entries is a process with that command line.
abbrev pub AllOthers : Bytes → List Process → Type 0
AllOthers wanted [] = Unit
AllOthers wanted (e ∷ es) = (has_cmdline wanted e.cmdline ≡ false) × AllOthers wanted es

chosen_not : (o : Option ℤ) {found : Bool} (rest : ℤ) → found ≡ false → chosen o found rest ≡ rest
unfolding chosen
chosen_not none rest h = refl
chosen_not (some pid) rest h = rw h

pub find_jobman_skip :
    (prefix qnam : Bytes) (before : List Process) (ent : Process) (after : List Process) (pid : ℤ)
    → AllOthers (prefix ++ (codes "jobman " ++ qnam)) before
    → pid_number (scan_int ent.d_name) ≡ some pid
    → has_cmdline (prefix ++ (codes "jobman " ++ qnam)) ent.cmdline ≡ true
    → find_jobman prefix qnam (before ++ ent ∷ after) ≡ pid
unfolding find_jobman chosen
find_jobman_skip prefix qnam [] ent after pid others e h = rw (e, h)
find_jobman_skip prefix qnam (b ∷ before) ent after pid others e h =
    chosen_not (pid_number (scan_int b.d_name)) (find_jobman prefix qnam (before ++ ent ∷ after))
      others.0
    ∙ find_jobman_skip prefix qnam before ent after pid others.1 e h
