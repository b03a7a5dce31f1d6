-- ===== src/Jobman/Chores/Ours.antt =====
-- Which jobs `bring_out_yer_dead` and `terminate_with_predjudice` touch: the former none whose
-- process is in the table of children, the latter only those.
use job.File.{Result, ok, err, PathAttrs, init_from_path}
use job.Jobman.Chores.{
  RunFile, pid_of, is_some, found_dead, resurrect, Repathed, bring_out_yer_dead, kill_id,
}
use job.Launch.{Table, Pad}
use job.Prelude.{
  ℕ, ◌≤◌, true, List, [], ◌∷◌, Option, none, some, Bytes, ◌==◌, if◌then◌else◌, length, ◌≡◌, ◌≢◌,
  refl, ap, sym, ◌∙◌, arith, Bool-cases, Option-cases, inl, inr, ◌⊎◌, some_injective,
}

-- A child of the table is the process `pid` of the job `id`.
abbrev pub Runs : Table (Option ℕ) → ℕ → ℕ → Type 0
Runs [] id pid = ⊥
Runs (p ∷ t) id pid = ((p.ua ≡ some id) × (p.pid ≡ pid)) ⊎ Runs t id pid

pid_of_here :
    (p : Pad (Option ℕ)) (t : Table (Option ℕ)) (id : ℕ)
    → p.ua ≡ some id
    → pid_of (p ∷ t) id ≡ some p.pid
unfolding pid_of
pid_of_here p t id e = let s : (id == id) ≡ true = ground arith in rw (e, s)

pid_of_later :
    (p : Pad (Option ℕ)) (t : Table (Option ℕ)) (id : ℕ)
    → pid_of (p ∷ t) id ≡ none
    → pid_of t id ≡ none
unfolding pid_of
pid_of_later p t id h = elim (Option-cases p.ua) [
  | inl e ↦ sym (rw e) ∙ h
  | inr (k, e) ↦ elim (Bool-cases (k == id)) [
    | inl s ↦ (let bad : some p.pid ≡ none = sym (rw (e, s)) ∙ h in cc)
    | inr s ↦ sym (rw (e, s)) ∙ h
  ]
]

Runs-pid_of : (t : Table (Option ℕ)) (id pid : ℕ) → pid_of t id ≡ none → Runs t id pid → ⊥
Runs-pid_of [] id pid h r = r
Runs-pid_of (p ∷ t) id pid h (inl (e, q)) =
    (let bad : some p.pid ≡ none = sym (pid_of_here p t id e) ∙ h in cc)
Runs-pid_of (p ∷ t) id pid h (inr r) = Runs-pid_of t id pid (pid_of_later p t id h) r

-- No child of the table runs any of the jobs.
abbrev pub AllForeign : Table (Option ℕ) → List PathAttrs → Type 0
AllForeign t [] = Unit
AllForeign t (jf ∷ jfs) = ((pid : ℕ) → ¬ Runs t jf.attrs.id pid) × AllForeign t jfs

-- The readable files of running jobs that are not ours.
abbrev pub foreign : Table (Option ℕ) → List RunFile → List PathAttrs
foreign t [] = []
foreign t (f ∷ fs) = elim (init_from_path f.path) [
  | err e ↦ foreign t fs
  | ok jf ↦ if is_some (pid_of t jf.attrs.id) then foreign t fs else jf ∷ foreign t fs
]

found_dead-Foreign :
    (t : Table (Option ℕ)) (r : Result PathAttrs) (jf : PathAttrs)
    → found_dead t r ≡ some jf
    → pid_of t jf.attrs.id ≡ none
unfolding found_dead is_some
found_dead-Foreign t (err e) jf h = cc
found_dead-Foreign t (ok j) jf h = elim (Option-cases (pid_of t j.attrs.id)) [
  | inl e ↦
      (let same : j ≡ jf = some_injective (sym (rw e) ∙ h) in
        sym (ap (λ x. pid_of t x.attrs.id) same) ∙ e)
  | inr (pid, e) ↦ (let bad : none ≡ some jf = sym (rw e) ∙ h in cc)
]

abbrev IsForeign : Table (Option ℕ) → List PathAttrs × ℕ → Type 0
IsForeign t r = AllForeign t r.0 × (r.1 ≤ length r.0)

resurrect-IsForeign :
    (t : Table (Option ℕ)) (o : Option PathAttrs) (r : Repathed) (acc : List PathAttrs × ℕ)
    → ((jf : PathAttrs) → o ≡ some jf → pid_of t jf.attrs.id ≡ none)
    → IsForeign t acc
    → IsForeign t (resurrect o r acc)
unfolding resurrect
resurrect-IsForeign t none r acc f a = a
resurrect-IsForeign t (some jf) r acc f (a, n) =
    (((λ pid q. Runs-pid_of t jf.attrs.id pid (f jf refl) q), a), ground (arith, n))

bring-IsForeign : (t : Table (Option ℕ)) (fs : List RunFile) → IsForeign t (bring_out_yer_dead t fs)
unfolding bring_out_yer_dead
bring-IsForeign t [] = (tt, omega arith)
bring-IsForeign t (f ∷ fs) =
    resurrect-IsForeign t (found_dead t (init_from_path f.path)) f.repathed
      (bring_out_yer_dead t fs) (found_dead-Foreign t (init_from_path f.path))
      (bring-IsForeign t fs)

-- `bring_out_yer_dead` resurrects no job that a child of ours runs, whatever files there are, and
-- counts no more jobs than it moves.
pub bring_out_yer_dead-AllForeign :
    (t : Table (Option ℕ)) (fs : List RunFile)
    → AllForeign t (bring_out_yer_dead t fs).0
      × ((bring_out_yer_dead t fs).1 ≤ length (bring_out_yer_dead t fs).0)
bring_out_yer_dead-AllForeign t fs = bring-IsForeign t fs

-- The signals belong to the kill files one by one: each process is the child that runs the job which
-- the file names.
abbrev pub AreVictims : Table (Option ℕ) → List Bytes → List ℕ → Type 0
AreVictims t [] [] = Unit
AreVictims t (name ∷ names) (pid ∷ pids) =
    (kill_id name ≢ 0) × Runs t (kill_id name) pid × AreVictims t names pids
AreVictims t _ _ = ⊥

-- Some items of a list, in its order.
pub data IsPart : List Bytes → List Bytes → Type 0 where
  nothing : IsPart [] []
  taken : {x : Bytes} {xs ys : List Bytes} → IsPart xs ys → IsPart (x ∷ xs) (x ∷ ys)
  skipped : {x : Bytes} {xs ys : List Bytes} → IsPart xs ys → IsPart xs (x ∷ ys)
