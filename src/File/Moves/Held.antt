-- ===== src/File/Moves/Held.antt =====
-- The lock that `repath` keeps for a job that is to run.
use job.File.Moves.{Fs, Faults, Handle, is_ok, is_run, lock_fd, lock, rename_to, repath}
use job.File.{is_empty, name, PathAttrs}
use job.Prelude.{
  ℕ, true, Option, none, some, Bytes, str_eq, ◌≡◌, refl, ap, sym, ◌∙◌, Bool-cases, inl, inr,
}

-- The object `me` has the lock of its open file.
abbrev pub Holds : ℕ → Fs × Handle → Type 0
Holds me r = (i : ℕ) × (r.1.lockfd ≡ some i) × (r.0.locked i ≡ some me)

none-some : {i : ℕ} → none ≡ some i → ⊥
none-some e = cc

lock_fd-Holds :
    (w : Faults) (me : ℕ) (o : Option ℕ) (fs : Fs) (h : Handle)
    → Holds me (fs, h)
    → h.lockfd ≡ o
    → Holds me (lock_fd w o fs h)
unfolding lock_fd
lock_fd-Holds w me none fs h (i, a, b) e = absurd (none-some (sym e ∙ a))
lock_fd-Holds w me (some j) fs h v e = v

lock-Holds :
    (w : Faults) (me : ℕ) (fs : Fs) (h : Handle) → Holds me (fs, h) → Holds me (lock w fs h)
unfolding lock
lock-Holds w me fs h v = lock_fd-Holds w me h.lockfd fs h v refl

lock_fd_path :
    (w : Faults) (i : ℕ) (fs : Fs) (h : Handle)
    → h.lockfd ≡ some i
    → (lock_fd w h.lockfd fs h).1.path ≡ h.path
unfolding lock_fd
lock_fd_path w i fs h e = rw e refl

rename_to-Holds :
    (w : Faults) (me : ℕ) (newnam : Bytes) (o : Option ℕ) (fs : Fs) (h : Handle)
    → is_run h.path.state ≡ true
    → Holds me (fs, h)
    → Holds me (rename_to w newnam o fs h) × ((rename_to w newnam o fs h).1.path ≡ h.path)
unfolding rename_to
rename_to-Holds w me newnam none fs h s v = (v, refl)
rename_to-Holds w me newnam (some i) fs h s v = elim (Bool-cases w.rename_fails) [
  | inl e ↦ rw e (v, refl)
  | inr e ↦ rw (e, s) (v, refl)
]

-- `repath` keeps the lock of a job that is to run, also where it fails.
pub repath-Holds :
    (w : Faults) (me : ℕ) (jobdir : Bytes) (fs : Fs) (h : Handle)
    → is_run h.path.state ≡ true
    → Holds me (fs, h)
    → Holds me (repath w jobdir fs h) × ((repath w jobdir fs h).1.path ≡ h.path)
unfolding repath lock
repath-Holds w me jobdir fs h r v = elim (Bool-cases (is_empty h.oldnam)) [
  | inl e ↦ rw e (v, refl)
  | inr e ↦ elim (Bool-cases (str_eq h.oldnam (name jobdir h.path))) [
    | inl s ↦ rw (e, s) (v, refl)
    | inr s ↦
        (let p = lock_fd_path w v.0 fs h v.1 in
          let l = lock-Holds w me fs h v in
          let (fs', h') = lock_fd w h.lockfd fs h in
          elim (Bool-cases (is_ok (lock_fd w h.lockfd fs h).1.error)) [
            | inl k ↦
                rw (e, s, k)
                  (let (a, b) =
                      rename_to-Holds w me (name jobdir h.path) (fs'.names h'.oldnam) fs' h'
                        (ap (λ (q : PathAttrs). is_run q.state) p ∙ r) l in
                    (a, b ∙ p))
            | inr k ↦ rw (e, s, k) (l, p)
          ])
  ]
]
