-- ===== src/File/Object/Taken.antt =====
-- `lock`, as `run_a_job` calls it, and then `repath`, as `store` calls it, take the steps of the race of
-- job managers for a file.
use job.File.Moves.Held.{repath-Holds}
use job.File.Moves.Race.Taking.{Moves, stays, goes}
use job.File.Moves.Race.{
  Place, runs, Pc, idle, opened, locked, loaded, running, System, update, open_file, flock, load,
  rename_to_run, rename_fails,
}
use job.File.Moves.{
  Fs, set_lock, Faults, err_ok, err_sys, err_locked, Handle, is_run, lock, lock_fd, open_fd,
  flock_fd, repath,
}
use job.File.Object.Place.{after_move, repath-StandsAt}
use job.File.{run, is_empty, name}
use job.Prelude.{
  ℕ, true, false, Option, none, some, Bytes, ◌==◌, ◌≡◌, refl, ap, sym, ◌∙◌, subst, some_injective,
  Bool-cases, Option-cases, inl, inr, arith,
}

-- The inode `j` stands at the name, and is as the race has it; `place_of` tells the place of a name.
pub record Shows (place_of : Bytes → Place) (j : ℕ) (p : Bytes) (fs : Fs) (s : System)
    : Type 0 where
  pub stands : fs.names p ≡ some j
  pub place_is : s.place ≡ place_of p
  pub owner_is : s.owner ≡ fs.locked j

abbrev pub with_lock : ℕ → Fs → Handle → Fs × Handle
with_lock j fs h = (
  record fs { locked = set_lock j (some h.me) fs.locked },
  record h { lockfd = some j; error = err_ok },
)

abbrev pub to_run : Handle → Handle
to_run h = record h { path = record (h.path) { state = run } }

sys-ok : err_sys ≡ err_ok → ⊥
sys-ok e = cc

locked-ok : err_locked ≡ err_ok → ⊥
locked-ok e = cc

-- A `lock` that succeeds, on an object without a lock.
lock_got :
    (w : Faults) (j : ℕ) (fs : Fs) (h : Handle)
    → h.lockfd ≡ none
    → fs.names h.oldnam ≡ some j
    → (lock w fs h).1.error ≡ err_ok
    → (fs.locked j ≡ none) × (lock w fs h ≡ with_lock j fs h)
unfolding lock lock_fd open_fd flock_fd
lock_got w j fs h n k e = elim (Bool-cases w.open_fails) [
  | inl o ↦
      (let is : (lock w fs h).1.error ≡ err_sys = rw (n, k, o) refl in absurd (sys-ok (sym is ∙ e)))
  | inr o ↦ elim (Option-cases (fs.locked j)) [
    | inr (i, l) ↦
        (let is : (lock w fs h).1.error ≡ err_locked = rw (n, k, o, l) refl in
          absurd (locked-ok (sym is ∙ e)))
    | inl l ↦ elim (Bool-cases w.flock_fails) [
      | inl f ↦
          (let is : (lock w fs h).1.error ≡ err_sys = rw (n, k, o, l, f) refl in
            absurd (sys-ok (sym is ∙ e)))
      | inr f ↦ (l, rw (n, k, o, l, f) refl)
    ]
  ]
]

set_lock_here : (j : ℕ) (v : Option ℕ) (f : ℕ → Option ℕ) → set_lock j v f j ≡ v
unfolding set_lock
set_lock_here j v f = (let e : (j == j) ≡ true = ground arith in rw e refl)

here : (f : ℕ → Pc) (i : ℕ) (v : Pc) → update f i v i ≡ v
here f i v = (let e : (i == i) ≡ true = ground arith in rw e refl)

-- The race goes on from `s`, by the calls for the object alone, to a state in which it runs the job from
-- the place of its name, and which shows the outcome `r`.
pub record TakesIt (place_of : Bytes → Place) (j me : ℕ) (s : System) (r : Fs × Handle)
    : Type 0 where
  pub after : System
  pub moves : Moves me s after
  pub shown : Shows place_of j r.1.oldnam r.0 after
  pub pc_is : after.pc me ≡ running (place_of r.1.oldnam)
  pub others : (i : ℕ) → (me == i) ≡ false → after.pc i ≡ s.pc i

module _ (place_of : Bytes → Place) (j : ℕ) (s : System) (fs : Fs) (h : Handle)
    (shows : Shows place_of j h.oldnam fs s) (begins : s.pc h.me ≡ idle)
    (named : is_empty h.oldnam ≡ false) where
  abbrev opens : System
  opens = record s { pc = update s.pc h.me (opened s.place) }

  abbrev locks : System
  locks = record opens { owner = some h.me; pc = update opens.pc h.me (locked s.place) }

  abbrev loads : System
  loads = record locks { pc = update locks.pc h.me (loaded s.place) }

  loads-Moves : s.owner ≡ none → Moves h.me s loads
  loads-Moves free =
      goes {t = locks}
        (goes {t = opens} (goes stays (open_file begins))
          (flock (here s.pc h.me (opened s.place)) free))
        (load (here opens.pc h.me (locked s.place)) refl)

  module _ (v : Faults) (jobdir : Bytes)
      (run_place : place_of (name jobdir (to_run h).path) ≡ runs) where
    abbrev got : Fs × Handle
    got = with_lock j fs h

    abbrev moved : Fs × Handle
    moved = repath v jobdir got.0 (to_run got.1)

    facts :
        (moved.0.names moved.1.oldnam ≡ some j)
        × (moved.1.oldnam ≡ after_move v h.oldnam (name jobdir (to_run h).path))
        × (moved.0.locked j ≡ some h.me)
    facts =
        let (stands, old, full, fd) =
          repath-StandsAt v jobdir j got.0 (to_run got.1) (unfold is_run in refl) refl shows.stands
            named in
        let ((i, fd', own), p) =
          repath-Holds v h.me jobdir got.0 (to_run got.1) (unfold is_run in refl)
            (j, refl, set_lock_here j (some h.me) fs.locked) in
        (stands, old, subst (λ k. moved.0.locked k ≡ some h.me) (some_injective (sym fd' ∙ fd)) own)

    takes : s.owner ≡ none → TakesIt place_of j h.me s moved
    takes free = elim (Bool-cases v.rename_fails) [
      | inl f ↦
          (let kept : moved.1.oldnam ≡ h.oldnam = facts.1 ∙ rw f refl in
            let place : s.place ≡ place_of moved.1.oldnam =
              shows.place_is ∙ ap place_of (sym kept) in
            record {
              after = record loads { pc = update loads.pc h.me (running s.place) };
              moves = goes (loads-Moves free) (rename_fails (here locks.pc h.me (loaded s.place)));
              shown = record { stands = facts.0; place_is = place; owner_is = sym facts.2 };
              pc_is = here loads.pc h.me (running s.place) ∙ ap running place;
              others = λ i ne. rw ne refl;
            })
      | inr f ↦
          (let at_run : runs ≡ place_of moved.1.oldnam =
              sym run_place ∙ ap place_of (sym (facts.1 ∙ rw f refl)) in
            record {
              after = record loads { place = runs; pc = update loads.pc h.me (running runs) };
              moves =
                  goes (loads-Moves free)
                    (rename_to_run (here locks.pc h.me (loaded s.place)) refl);
              shown = record { stands = facts.0; place_is = at_run; owner_is = sym facts.2 };
              pc_is = here loads.pc h.me (running runs) ∙ ap running at_run;
              others = λ i ne. rw ne refl;
            })
    ]

    -- A job's object that has no lock, whatever fails: if its `lock` succeeds, then what that and the
    -- `repath` of the job as one that is to run leave of the directory tree is a state that the race
    -- reaches from the present one by calls for this object alone, the job being run from the place of
    -- the name that its object then has.
    pub lock_repath-TakesIt :
        (w : Faults)
        → h.lockfd ≡ none
        → (lock w fs h).1.error ≡ err_ok
        → TakesIt place_of j h.me s (repath v jobdir (lock w fs h).0 (to_run (lock w fs h).1))
    lock_repath-TakesIt w shut e =
        let (free, same) = lock_got w j fs h shut shows.stands e in
        subst (λ (l : Fs × Handle). TakesIt place_of j h.me s (repath v jobdir l.0 (to_run l.1)))
          (sym same) (takes (shows.owner_is ∙ free))
