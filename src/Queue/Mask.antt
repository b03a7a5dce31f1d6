-- ===== src/Queue/Mask.antt =====
-- `scan_queue` and `file::find`: src/job/queue.cxx and src/job/file.cxx.
use job.File.{
  State, hold, pend, run, tied, kill, done, unk, PathAttrs, Result, ok, err, init_from_path, name,
  is_empty,
}
use job.Prelude.{
  ℕ, ◌-◌, ◌^◌, Bool, true, false, not, ◌&&◌, List, [], ◌∷◌, ◌++◌, ◌≡◌, ◌≢◌, refl, Option, none,
  some, arith, Bytes, ◌==◌, if◌then◌else◌, Option-cases, inl, inr,
}
use job.Queue.{dir_path, states}

-- The value of an enumerator.
unfoldable pub state_index : State → ℕ
state_index unk = 0
state_index hold = 1
state_index pend = 2
state_index run = 3
state_index tied = 4
state_index kill = 5
state_index done = 6

-- `statemask && (1<<s)`: the logical `&&`.
unfoldable pub in_mask : ℕ → State → Bool
unfolding state_index
in_mask statemask s = not (statemask == 0) && not (2 ^ state_index s == 0)

module _ {ℓ} {S : Type ℓ} (cb : PathAttrs → S → S × Bool) where
  -- `cb_scanner` on a job file that could be read; the flag is `_sfdone`, and the callback's one
  -- tells whether it returned non-zero.
  unfoldable pub called_back : Result PathAttrs → S × Bool → S × Bool
  called_back (err e) acc = acc
  called_back (ok jf) (s, sfdone) = let (s', more) = cb jf s in (s', if more then sfdone else true)

  -- `scandir` with `cb_scanner` as its filter.
  unfoldable pub scan_dir : Bytes → List Bytes → S × Bool → S × Bool
  unfolding called_back
  scan_dir qdir [] acc = acc
  scan_dir qdir (d ∷ ds) acc = scan_dir qdir ds (called_back (init_from_path (qdir ++ d)) acc)

  -- The loop over the states; the result's flag tells whether each `scandir` went well.
  unfoldable pub scan_loop :
      (State → Bytes) → (State → Option (List Bytes)) → ℕ → List State → S × Bool → S × Bool
  unfolding scan_dir in_mask
  scan_loop path dirs statemask [] (s, sfdone) = (s, true)
  scan_loop path dirs statemask (st ∷ sts) (s, sfdone) =
      let skip = scan_loop path dirs statemask sts (s, sfdone) in
      let scan : S × Bool = elim (dirs st) [
        | none ↦ (s, false)
        | some names ↦
            let acc = scan_dir (path st) names (s, sfdone) in
            let rest = scan_loop path dirs statemask sts acc in
            if acc.1 then (acc.0, true) else rest
      ] in
      if not (in_mask statemask st) then skip else scan

  unfoldable pub scan_queue : (State → Bytes) → (State → Option (List Bytes)) → ℕ → S → S × Bool
  unfolding scan_loop
  scan_queue path dirs statemask s = scan_loop path dirs statemask states (s, false)

  -- The jobs of a directory, as far as their names can be read.
  abbrev pub readable : Bytes → List Bytes → List PathAttrs
  readable qdir [] = []
  readable qdir (d ∷ ds) = elim (init_from_path (qdir ++ d)) [
    | err e ↦ readable qdir ds
    | ok jf ↦ jf ∷ readable qdir ds
  ]

  -- Every callback's effect in turn.
  abbrev pub each : List PathAttrs → S → S
  each [] s = s
  each (jf ∷ jfs) s = each jfs (cb jf s).0

  called_back-each :
      (qdir d : Bytes) (ds : List Bytes) (r : Result PathAttrs) (s : S) (f : Bool)
      → ((s' : S) (f' : Bool) → (scan_dir qdir ds (s', f')).0 ≡ each (readable qdir ds) s')
      → (scan_dir qdir ds (called_back r (s, f))).0
        ≡ each (elim r [ err e ↦ readable qdir ds | ok jf ↦ jf ∷ readable qdir ds ]) s
  unfolding called_back
  called_back-each qdir d ds (err e) s f ih = ih s f
  called_back-each qdir d ds (ok jf) s f ih = ih (cb jf s).0 (if (cb jf s).1 then f else true)

  -- Within a directory the callback is called for every readable job, also after it has returned
  -- zero.
  pub scan_dir-each :
      (qdir : Bytes) (names : List Bytes) (s : S) (f : Bool)
      → (scan_dir qdir names (s, f)).0 ≡ each (readable qdir names) s
  unfolding scan_dir
  scan_dir-each qdir [] s f = refl
  scan_dir-each qdir (d ∷ ds) s f =
      called_back-each qdir d ds (init_from_path (qdir ++ d)) s f (scan_dir-each qdir ds)

  in_mask_nonzero : (m : ℕ) (st : State) → m ≢ 0 → in_mask m st ≡ true
  unfolding in_mask
  in_mask_nonzero m unk h = ground arith
  in_mask_nonzero m _ h = ground arith

  scan_loop_mask :
      (path : State → Bytes) (dirs : State → Option (List Bytes)) (m n : ℕ) (sts : List State)
      (acc : S × Bool)
      → m ≢ 0
      → n ≢ 0
      → scan_loop path dirs m sts acc ≡ scan_loop path dirs n sts acc
  unfolding scan_loop
  scan_loop_mask path dirs m n [] (s, f) hm hn = refl
  scan_loop_mask path dirs m n (st ∷ sts) (s, f) hm hn =
      rw (in_mask_nonzero m st hm, in_mask_nonzero n st hn)
        (elim (Option-cases (dirs st)) [
          | inl e ↦ rw e
          | inr (names, e) ↦
              rw (e, scan_loop_mask path dirs m n sts (scan_dir (path st) names (s, f)) hm hn)
        ])

  -- The mask of `scan_queue` does not choose among the states: each mask but 0 scans what every
  -- other one scans.
  pub scan_queue_mask :
      (path : State → Bytes) (dirs : State → Option (List Bytes)) (m n : ℕ) (s : S)
      → m ≢ 0
      → n ≢ 0
      → scan_queue path dirs m s ≡ scan_queue path dirs n s
  unfolding scan_queue
  scan_queue_mask path dirs m n s hm hn = scan_loop_mask path dirs m n states (s, false) hm hn

-- `_finder_cb`: the state is `found_filename`.
unfoldable pub finder_cb : Bytes → ℕ → PathAttrs → Bytes → Bytes × Bool
finder_cb jobdir wanted jf found =
    if not (jf.attrs.id == wanted) then (found, true) else (name jobdir jf, false)

-- `file::find`: queue by queue, until a name has been found.
unfoldable pub find : Bytes → ℕ → (Bytes → State → Option (List Bytes)) → List Bytes → Bytes → Bytes
unfolding finder_cb
find jobdir wanted dirs [] found = found
find jobdir wanted dirs (q ∷ qs) found =
    let found' =
      (scan_queue (finder_cb jobdir wanted) (dir_path jobdir q) (dirs q) (2 ^ 32 - 1) found).0 in
    let rest = find jobdir wanted dirs qs found' in if is_empty found' then rest else found'
