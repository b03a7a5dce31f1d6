-- ===== src/File/Moves/Owner.antt =====
-- Whose locks there are after the operations of one object.
use job.File.Moves.{
  Fs, set_lock, Faults, err_ok, Handle, is_ok, is_run, flock_fd, open_fd, lock_fd, unlock_fd, lock,
  unlock, rename_to, repath,
}
use job.File.{is_empty, name}
use mathlib.Core.Bool.{false≢true}
use job.Prelude.{
  ℕ, true, Option, none, some, Bytes, str_eq, ◌==◌, ◌≡◌, ◌≢◌, refl, ap, sym, ◌∙◌, Bool-cases, inl,
  inr, arith,
}

-- The object `me` has at most the lock of its open file.
pub record OwnsIts (me : ℕ) (r : Fs × Handle) : Type 0 where
  pub me_is : r.1.me ≡ me
  pub own : (i : ℕ) → r.0.locked i ≡ some me → r.1.lockfd ≡ some i

-- The object `me` has no lock.
abbrev pub Free : ℕ → Fs → Type 0
Free me fs = (i : ℕ) → fs.locked i ≢ some me

pub Free-OwnsIts : (me : ℕ) (fs : Fs) (h : Handle) → h.me ≡ me → Free me fs → OwnsIts me (fs, h)
Free-OwnsIts me fs h e f = record { me_is = e; own = λ i l. absurd (f i l) }

none-some : {i : ℕ} → none ≡ some i → ⊥
none-some e = cc

flock_fd-OwnsIts :
    (w : Faults) (me i : ℕ) (o : Option ℕ) (fs : Fs) (h : Handle)
    → h.lockfd ≡ none
    → OwnsIts me (fs, h)
    → OwnsIts me (flock_fd w i o fs h)
unfolding flock_fd set_lock
flock_fd-OwnsIts w me i (some other) fs h n v = record { me_is = v.me_is; own = v.own }
flock_fd-OwnsIts w me i none fs h n v = elim (Bool-cases w.flock_fails) [
  | inl e ↦ rw e (record { me_is = v.me_is; own = v.own })
  | inr e ↦ rw e (record {
    me_is = v.me_is;
    own = λ j l. elim (Bool-cases (i == j)) [
      | inl s ↦ ap some (ground (arith, s))
      | inr s ↦ absurd (none-some (sym n ∙ v.own j (sym (rw s) ∙ l)))
    ];
  })
]

open_fd-OwnsIts :
    (w : Faults) (me : ℕ) (o : Option ℕ) (fs : Fs) (h : Handle)
    → h.lockfd ≡ none
    → OwnsIts me (fs, h)
    → OwnsIts me (open_fd w o fs h)
unfolding open_fd
open_fd-OwnsIts w me none fs h n v = record { me_is = v.me_is; own = v.own }
open_fd-OwnsIts w me (some i) fs h n v = elim (Bool-cases w.open_fails) [
  | inl e ↦ rw e (record { me_is = v.me_is; own = v.own })
  | inr e ↦ rw e (flock_fd-OwnsIts w me i (fs.locked i) fs h n v)
]

lock_fd-OwnsIts :
    (w : Faults) (me : ℕ) (o : Option ℕ) (fs : Fs) (h : Handle)
    → h.lockfd ≡ o
    → OwnsIts me (fs, h)
    → OwnsIts me (lock_fd w o fs h)
unfolding lock_fd
lock_fd-OwnsIts w me (some i) fs h n v = record { me_is = v.me_is; own = v.own }
lock_fd-OwnsIts w me none fs h n v = open_fd-OwnsIts w me (fs.names h.oldnam) fs h n v

pub lock-OwnsIts :
    (w : Faults) (me : ℕ) (fs : Fs) (h : Handle) → OwnsIts me (fs, h) → OwnsIts me (lock w fs h)
unfolding lock
lock-OwnsIts w me fs h v = lock_fd-OwnsIts w me h.lockfd fs h refl v

unlock_fd-Free :
    (me : ℕ) (o : Option ℕ) (fs : Fs) (h : Handle)
    → h.lockfd ≡ o
    → OwnsIts me (fs, h)
    → (Free me (unlock_fd o fs h).0) × ((unlock_fd o fs h).1.me ≡ me)
unfolding unlock_fd set_lock
unlock_fd-Free me none fs h n v = ((λ i l. none-some (sym n ∙ v.own i l)), v.me_is)
unlock_fd-Free me (some i) fs h n v = (
  (λ j l. elim (Bool-cases (i == j)) [
    | inl s ↦ none-some (sym (rw s) ∙ l)
    | inr s ↦
        (let e : some i ≡ some j = sym n ∙ v.own j (sym (rw s) ∙ l) in
          let same : i ≡ j = cc in
          let k : (i == j) ≡ true = ground (arith, same) in false≢true (sym s ∙ k))
  ]),
  v.me_is,
)

-- After `unlock` the object has no lock.
pub unlock-Free :
    (me : ℕ) (fs : Fs) (h : Handle)
    → OwnsIts me (fs, h)
    → (Free me (unlock fs h).0) × ((unlock fs h).1.me ≡ me)
unfolding unlock
unlock-Free me fs h v = unlock_fd-Free me h.lockfd fs h refl v

rename_to-OwnsIts :
    (w : Faults) (me : ℕ) (newnam : Bytes) (o : Option ℕ) (fs : Fs) (h : Handle)
    → OwnsIts me (fs, h)
    → OwnsIts me (rename_to w newnam o fs h)
unfolding rename_to
rename_to-OwnsIts w me newnam none fs h v = record { me_is = v.me_is; own = v.own }
rename_to-OwnsIts w me newnam (some i) fs h v = elim (Bool-cases w.rename_fails) [
  | inl e ↦ rw e (record { me_is = v.me_is; own = v.own })
  | inr e ↦ elim (Bool-cases (is_run h.path.state)) [
    | inl s ↦ rw (e, s) (record { me_is = v.me_is; own = v.own })
    | inr s ↦
        rw (e, s)
          (let (free, m) = unlock-Free me _ _ (record { me_is = v.me_is; own = v.own }) in
            Free-OwnsIts me _ _ m free)
  ]
]

pub repath-OwnsIts :
    (w : Faults) (me : ℕ) (jobdir : Bytes) (fs : Fs) (h : Handle)
    → OwnsIts me (fs, h)
    → OwnsIts me (repath w jobdir fs h)
unfolding repath
repath-OwnsIts w me jobdir fs h v = elim (Bool-cases (is_empty h.oldnam)) [
  | inl e ↦ rw e v
  | inr e ↦ elim (Bool-cases (str_eq h.oldnam (name jobdir h.path))) [
    | inl s ↦ rw (e, s) (record { me_is = v.me_is; own = v.own })
    | inr s ↦ elim (Bool-cases (is_ok (lock w fs h).1.error)) [
      | inl k ↦
          rw (e, s, k)
            (rename_to-OwnsIts w me (name jobdir h.path)
              ((lock w fs h).0.names (lock w fs h).1.oldnam) (lock w fs h).0 (lock w fs h).1
              (lock-OwnsIts w me fs h v))
      | inr k ↦ rw (e, s, k) (lock-OwnsIts w me fs h v)
    ]
  ]
]

-- A `lock` that fails opens nothing.
flock_fd_refused :
    (w : Faults) (i : ℕ) (o : Option ℕ) (fs : Fs) (h : Handle)
    → h.lockfd ≡ none
    → (flock_fd w i o fs h).1.error ≢ err_ok
    → (flock_fd w i o fs h).1.lockfd ≡ none
unfolding flock_fd
flock_fd_refused w i (some other) fs h n e = n
flock_fd_refused w i none fs h n e = elim (Bool-cases w.flock_fails) [
  | inl f ↦ rw f n
  | inr f ↦ absurd (e (rw f refl))
]

open_fd_refused :
    (w : Faults) (o : Option ℕ) (fs : Fs) (h : Handle)
    → h.lockfd ≡ none
    → (open_fd w o fs h).1.error ≢ err_ok
    → (open_fd w o fs h).1.lockfd ≡ none
unfolding open_fd
open_fd_refused w none fs h n e = n
open_fd_refused w (some i) fs h n e = elim (Bool-cases w.open_fails) [
  | inl f ↦ rw f n
  | inr f ↦
      (let same : open_fd w (some i) fs h ≡ flock_fd w i (fs.locked i) fs h = rw f refl in
        let kept =
          flock_fd_refused w i (fs.locked i) fs h n
            (λ k. e (ap (λ (r : Fs × Handle). r.1.error) same ∙ k)) in
        ap (λ (r : Fs × Handle). r.1.lockfd) same ∙ kept)
]

pub lock_refused :
    (w : Faults) (fs : Fs) (h : Handle)
    → h.lockfd ≡ none
    → (lock w fs h).1.error ≢ err_ok
    → (lock w fs h).1.lockfd ≡ none
unfolding lock lock_fd
lock_refused w fs h n e =
    let same : lock w fs h ≡ open_fd w (fs.names h.oldnam) fs h = rw n refl in
    ap (λ (r : Fs × Handle). r.1.lockfd) same
    ∙ open_fd_refused w (fs.names h.oldnam) fs h n
        (λ k. e (ap (λ (r : Fs × Handle). r.1.error) same ∙ k))
