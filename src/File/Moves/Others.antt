-- ===== src/File/Moves/Others.antt =====
-- The operations of one object give no lock to another.
use job.File.Moves.{
  Fs, set_lock, Faults, Handle, is_ok, is_run, flock_fd, open_fd, lock_fd, unlock_fd, lock, unlock,
  rename_to, repath, unlink_at, remove,
}
use job.File.{is_empty, name}
use job.Prelude.{
  ℕ, Option, none, some, Bytes, str_eq, ◌==◌, ◌≡◌, ◌≢◌, sym, ◌∙◌, Bool-cases, inl, inr,
}

-- What `me` has locked in the one tree it had locked in the other.
abbrev pub IsFewer : ℕ → Fs → Fs → Type 0
IsFewer me new old = (i : ℕ) → new.locked i ≡ some me → old.locked i ≡ some me

pub none-some : {i : ℕ} → none ≡ some i → ⊥
none-some e = cc

module _ (me : ℕ) where
  flock_fd-IsFewer :
      (w : Faults) (i : ℕ) (o : Option ℕ) (fs : Fs) (h : Handle)
      → h.me ≢ me
      → (IsFewer me (flock_fd w i o fs h).0 fs) × ((flock_fd w i o fs h).1.me ≢ me)
  unfolding flock_fd set_lock
  flock_fd-IsFewer w i (some other) fs h n = ((λ j l. l), n)
  flock_fd-IsFewer w i none fs h n = elim (Bool-cases w.flock_fails) [
    | inl e ↦ rw e ((λ j l. l), n)
    | inr e ↦ rw e (
      (λ j l. elim (Bool-cases (i == j)) [
        | inl s ↦ absurd (n (some_injective (sym (rw s) ∙ l)))
        | inr s ↦ sym (rw s) ∙ l
      ]),
      n,
    )
  ]
    where
      some_injective : {a b : ℕ} → some a ≡ some b → a ≡ b
      some_injective k = cc

  open_fd-IsFewer :
      (w : Faults) (o : Option ℕ) (fs : Fs) (h : Handle)
      → h.me ≢ me
      → (IsFewer me (open_fd w o fs h).0 fs) × ((open_fd w o fs h).1.me ≢ me)
  unfolding open_fd
  open_fd-IsFewer w none fs h n = ((λ j l. l), n)
  open_fd-IsFewer w (some i) fs h n = elim (Bool-cases w.open_fails) [
    | inl e ↦ rw e ((λ j l. l), n)
    | inr e ↦ rw e (flock_fd-IsFewer w i (fs.locked i) fs h n)
  ]

  lock_fd-IsFewer :
      (w : Faults) (o : Option ℕ) (fs : Fs) (h : Handle)
      → h.me ≢ me
      → (IsFewer me (lock_fd w o fs h).0 fs) × ((lock_fd w o fs h).1.me ≢ me)
  unfolding lock_fd
  lock_fd-IsFewer w (some i) fs h n = ((λ j l. l), n)
  lock_fd-IsFewer w none fs h n = open_fd-IsFewer w (fs.names h.oldnam) fs h n

  unlock_fd-IsFewer :
      (o : Option ℕ) (fs : Fs) (h : Handle)
      → h.me ≢ me
      → (IsFewer me (unlock_fd o fs h).0 fs) × ((unlock_fd o fs h).1.me ≢ me)
  unfolding unlock_fd set_lock
  unlock_fd-IsFewer none fs h n = ((λ j l. l), n)
  unlock_fd-IsFewer (some i) fs h n = (
    (λ j l. elim (Bool-cases (i == j)) [
      | inl s ↦ absurd (none-some (sym (rw s) ∙ l))
      | inr s ↦ sym (rw s) ∙ l
    ]),
    n,
  )

  pub unlock-IsFewer :
      (fs : Fs) (h : Handle)
      → h.me ≢ me
      → (IsFewer me (unlock fs h).0 fs) × ((unlock fs h).1.me ≢ me)
  unfolding unlock
  unlock-IsFewer fs h n = unlock_fd-IsFewer h.lockfd fs h n

  rename_to-IsFewer :
      (w : Faults) (newnam : Bytes) (o : Option ℕ) (fs : Fs) (h : Handle)
      → h.me ≢ me
      → (IsFewer me (rename_to w newnam o fs h).0 fs) × ((rename_to w newnam o fs h).1.me ≢ me)
  unfolding rename_to unlock
  rename_to-IsFewer w newnam none fs h n = ((λ j l. l), n)
  rename_to-IsFewer w newnam (some i) fs h n = elim (Bool-cases w.rename_fails) [
    | inl e ↦ rw e ((λ j l. l), n)
    | inr e ↦ elim (Bool-cases (is_run h.path.state)) [
      | inl s ↦ rw (e, s) ((λ j l. l), n)
      | inr s ↦ rw (e, s) (unlock_fd-IsFewer h.lockfd _ _ n)
    ]
  ]

  pub repath-IsFewer :
      (w : Faults) (jobdir : Bytes) (fs : Fs) (h : Handle)
      → h.me ≢ me
      → (IsFewer me (repath w jobdir fs h).0 fs) × ((repath w jobdir fs h).1.me ≢ me)
  unfolding repath lock
  repath-IsFewer w jobdir fs h n =
      let (fs', h') = lock_fd w h.lockfd fs h in
      let (a, m) = lock_fd-IsFewer w h.lockfd fs h n in
      elim (Bool-cases (is_empty h.oldnam)) [
        | inl e ↦ rw e ((λ j l. l), n)
        | inr e ↦ elim (Bool-cases (str_eq h.oldnam (name jobdir h.path))) [
          | inl s ↦ rw (e, s) ((λ j l. l), n)
          | inr s ↦ elim (Bool-cases (is_ok (lock_fd w h.lockfd fs h).1.error)) [
            | inl k ↦
                rw (e, s, k)
                  (let (b, m') =
                      rename_to-IsFewer w (name jobdir h.path) (fs'.names h'.oldnam) fs' h' m in
                    ((λ j l. a j (b j l)), m'))
            | inr k ↦ rw (e, s, k) (a, m)
          ]
        ]
      ]

  unlink_at-IsFewer :
      (w : Faults) (o : Option ℕ) (fs : Fs) (h : Handle)
      → h.me ≢ me
      → (IsFewer me (unlink_at w o fs h).0 fs) × ((unlink_at w o fs h).1.me ≢ me)
  unfolding unlink_at
  unlink_at-IsFewer w none fs h n = ((λ j l. l), n)
  unlink_at-IsFewer w (some i) fs h n = elim (Bool-cases w.remove_fails) [
    | inl e ↦ rw e ((λ j l. l), n)
    | inr e ↦ rw e ((λ j l. l), n)
  ]

  pub remove-IsFewer :
      (w : Faults) (fs : Fs) (h : Handle)
      → h.me ≢ me
      → (IsFewer me (remove w fs h).0 fs) × ((remove w fs h).1.me ≢ me)
  unfolding remove
  remove-IsFewer w fs h n = elim (Bool-cases (is_empty h.oldnam)) [
    | inl e ↦ rw e ((λ j l. l), n)
    | inr e ↦ rw e (unlink_at-IsFewer w (fs.names h.oldnam) fs h n)
  ]
