-- ===== src/Jobman/Chores/Housekeeping.antt =====
-- What `kellys_kleaning_kompany` unlinks.
use job.File.{Result, ok, err, NameAttrs, parse}
use job.Jobman.Chores.{
  Dirent, Cleaned, add_secs, is_old, purge, clean_loop, kellys_kleaning_kompany,
}
use job.Jobman.Retry.{int_lt}
use job.Number.{ℤ, pos, negsuc}
use job.Prelude.{
  ℕ, ◌+◌, ◌-◌, ◌<◌, Bool, true, false, List, [], ◌∷◌, some, Bytes, ltb, if◌then◌else◌, length, ◌≡◌,
  ap, refl, arith, Bool-cases, inl, inr, ◌∙◌, sym, subst,
}
use mathlib.Core.Bool.{false≢true}

-- The time lies more than the age back.
abbrev pub IsPast : ℕ → ℕ → ℤ → Type 0
IsPast age_clean now (pos t) = t + age_clean < now
IsPast age_clean now (negsuc n) = age_clean < now + (n + 1)

-- The name of a job whose run time, which is the time of its end, lies more than the age back.
abbrev pub IsExpired : ℕ → ℕ → Result NameAttrs → Type 0
IsExpired age_clean now (err e) = ⊥
IsExpired age_clean now (ok a) = IsPast age_clean now a.run_time

IsPast-true : (age now : ℕ) (t : ℤ) → int_lt (add_secs t age) (pos now) ≡ true → IsPast age now t
unfolding add_secs int_lt
IsPast-true age now (pos t) h = ground arith
IsPast-true age now (negsuc n) h = elim (Bool-cases (ltb n age)) [
  | inl e ↦
      (let less : int_lt (pos (age - n - 1)) (pos now) ≡ true = sym (rw e) ∙ h in ground arith)
  | inr e ↦ ground arith
]

IsPast-false :
    (age now : ℕ) (t : ℤ) → int_lt (add_secs t age) (pos now) ≡ false → ¬ IsPast age now t
unfolding add_secs int_lt
IsPast-false age now (pos t) h p = ground arith
IsPast-false age now (negsuc n) h p = elim (Bool-cases (ltb n age)) [
  | inl e ↦
      (let more : int_lt (pos (age - n - 1)) (pos now) ≡ false = sym (rw e) ∙ h in ground arith)
  | inr e ↦ (let bad : true ≡ false = sym (rw e) ∙ h in cc)
]

is_old-true : (age now : ℕ) (r : Result NameAttrs) → is_old age now r ≡ true → IsExpired age now r
unfolding is_old
is_old-true age now (err e) h = false≢true h
is_old-true age now (ok a) h = IsPast-true age now a.run_time h

is_old-false :
    (age now : ℕ) (r : Result NameAttrs) → is_old age now r ≡ false → ¬ IsExpired age now r
unfolding is_old
is_old-false age now (err e) h p = p
is_old-false age now (ok a) h p = IsPast-false age now a.run_time h p

-- What becomes of the entries that are looked at, and the names that are purged.
pub data Cleans (age_clean now : ℕ) : List Dirent → List Bytes → Type 0 where
  all_seen : Cleans age_clean now [] []
  purged :
      {d : Dirent} {ds : List Dirent} {names : List Bytes}
      → IsExpired age_clean now (parse d.d_name)
      → d.unlinks ≡ true
      → Cleans age_clean now ds names
      → Cleans age_clean now (d ∷ ds) (d.d_name ∷ names)
  not_purged :
      {d : Dirent} {ds : List Dirent} {names : List Bytes}
      → IsExpired age_clean now (parse d.d_name)
      → d.unlinks ≡ false
      → Cleans age_clean now ds names
      → Cleans age_clean now (d ∷ ds) names
  kept :
      {d : Dirent} {ds : List Dirent} {names : List Bytes}
      → ¬ IsExpired age_clean now (parse d.d_name)
      → Cleans age_clean now ds names
      → Cleans age_clean now (d ∷ ds) names

-- The entries that are looked at before the first one past the limit.
unfoldable pub in_time : ℕ → List Dirent → List Dirent
in_time run_limit [] = []
in_time run_limit (d ∷ ds) = if ltb run_limit d.at then [] else d ∷ in_time run_limit ds

purge_yes :
    (d : Dirent) (c : Cleaned)
    → d.unlinks ≡ true
    → ((purge d c).unlinked ≡ d.d_name ∷ c.unlinked)
      × ((purge d c).n ≡ 1 + c.n)
      × ((purge d c).timed_out ≡ c.timed_out)
unfolding purge
purge_yes d c u = rw u (refl, refl, refl)

purge_no : (d : Dirent) (c : Cleaned) → d.unlinks ≡ false → purge d c ≡ c
unfolding purge
purge_no d c u = rw u refl

module _ (age now rl : ℕ) where
  purge-Cleans :
      (d : Dirent) (ds : List Dirent) (c : Cleaned)
      → IsExpired age now (parse d.d_name)
      → Cleans age now ds c.unlinked
      → Cleans age now (d ∷ ds) (purge d c).unlinked
  purge-Cleans d ds c x r = elim (Bool-cases d.unlinks) [
    | inl u ↦ subst (Cleans age now (d ∷ ds)) (sym (purge_yes d c u).0) (purged x u r)
    | inr u ↦
        subst (λ (k : Cleaned). Cleans age now (d ∷ ds) k.unlinked) (sym (purge_no d c u))
          (not_purged x u r)
  ]

  purge-length :
      (d : Dirent) (c : Cleaned)
      → c.n ≡ length c.unlinked
      → (purge d c).n ≡ length (purge d c).unlinked
  purge-length d c e = elim (Bool-cases d.unlinks) [
    | inl u ↦
        (let (l, n, t) = purge_yes d c u in
          let more : 1 + c.n ≡ length (d.d_name ∷ c.unlinked) = omega (arith, e) in
          n ∙ more ∙ ap length (sym l))
    | inr u ↦ subst (λ (k : Cleaned). k.n ≡ length k.unlinked) (sym (purge_no d c u)) e
  ]

  purge-timed_out : (d : Dirent) (c : Cleaned) → (purge d c).timed_out ≡ c.timed_out
  purge-timed_out d c = elim (Bool-cases d.unlinks) [
    | inl u ↦ (purge_yes d c u).2
    | inr u ↦ ap (λ (k : Cleaned). k.timed_out) (purge_no d c u)
  ]

  clean_loop-Cleans :
      (ds : List Dirent) → Cleans age now (in_time rl ds) (clean_loop age now rl ds).unlinked
  unfolding clean_loop in_time
  clean_loop-Cleans [] = all_seen
  clean_loop-Cleans (d ∷ ds) = elim (Bool-cases (ltb rl d.at)) [
    | inl e ↦ rw e all_seen
    | inr e ↦ elim (Bool-cases (is_old age now (parse d.d_name))) [
      | inl o ↦
          rw (e, o)
            (purge-Cleans d (in_time rl ds) (clean_loop age now rl ds)
              (is_old-true age now (parse d.d_name) o) (clean_loop-Cleans ds))
      | inr o ↦ rw (e, o) (kept (is_old-false age now (parse d.d_name) o) (clean_loop-Cleans ds))
    ]
  ]

  -- The flag and the count of an entry that is not past the limit.
  Agrees : List Dirent → Type 0
  Agrees ds =
      let c = clean_loop age now rl ds in
      (c.timed_out ≡ ltb (length (in_time rl ds)) (length ds)) × (c.n ≡ length c.unlinked)

  clean_loop-Agrees : (ds : List Dirent) → Agrees ds
  unfolding Agrees clean_loop in_time
  clean_loop-Agrees [] = (refl, refl)
  clean_loop-Agrees (d ∷ ds) = elim (Bool-cases (ltb rl d.at)) [
    | inl e ↦ rw e (ground arith, refl)
    | inr e ↦ elim (Bool-cases (is_old age now (parse d.d_name))) [
      | inl o ↦
          (let (t, n) = clean_loop-Agrees ds in
            let c = clean_loop age now rl ds in
            rw (e, o) (purge-timed_out d c ∙ t ∙ ground arith, purge-length d c n))
      | inr o ↦ (let (t, n) = clean_loop-Agrees ds in rw (e, o) (t ∙ ground arith, n))
    ]
  ]

-- Of the entries that the housekeeper looks at in its three seconds it purges exactly those that are
-- names of jobs with a run time more than the age back and can be unlinked, and it counts them; it
-- asks to be called soon if it has not looked at all of them.
pub kellys_kleaning_kompany-Cleans :
    (age_clean now : ℕ) (ds : List Dirent) (soon : Bool)
    → (let seen = in_time (now + 3) ds in
        let r = kellys_kleaning_kompany age_clean now (some ds) soon in
        Cleans age_clean now seen r.0.unlinked
        × (r.0.n ≡ length r.0.unlinked)
        × (r.1 ≡ (if ltb (length seen) (length ds) then true else soon)))
unfolding kellys_kleaning_kompany Agrees
kellys_kleaning_kompany-Cleans age now ds soon =
    let (t, n) = clean_loop-Agrees age now (now + 3) ds in
    (clean_loop-Cleans age now (now + 3) ds, n, ap (λ b. if b then true else soon) t)
