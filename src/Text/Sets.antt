-- ===== src/Text/Sets.antt =====
-- src/job/string.cxx: the string lists as sets: `diff`, `has`, `remove`.
use job.Prelude.{
  ℕ, ◌+◌, Bool, true, false, not, ◌&&◌, ◌||◌, List, [], ◌∷◌, ◌++◌, ◌≡◌, ◌≢◌, refl, ap, arith, Bytes,
  if◌then◌else◌, str_eq, str_eq_iff, Bool-cases, inl, inr,
}

unfoldable pub has : List Bytes → Bytes → Bool
has [] s = false
has (x ∷ xs) s = str_eq x s || has xs s

-- `c` is what the loop has pushed so far.
unfoldable pub diff_loop : List Bytes → List Bytes → List Bytes → List Bytes
diff_loop c [] b = c
diff_loop c (x ∷ xs) b = diff_loop (if not (has b x) then c ++ x ∷ [] else c) xs b

unfoldable pub diff : List Bytes → List Bytes → List Bytes
unfolding diff_loop
diff a b = diff_loop [] a b

-- The list without the first `s`, and whether there was one.
unfoldable pub remove : List Bytes → Bytes → List Bytes × Bool
remove [] s = ([], false)
remove (x ∷ xs) s = if str_eq x s then (xs, true) else (x ∷ (remove xs s).0, (remove xs s).1)

pub has-append : (a b : List Bytes) (s : Bytes) → has (a ++ b) s ≡ (has a s || has b s)
unfolding has
has-append [] b s = refl
has-append (x ∷ a) b s = ground (arith, has-append a b s)

has_same : (b : List Bytes) (x y : Bytes) → str_eq x y ≡ true → has b x ≡ has b y
has_same b x y h = ap (has b) ((str_eq_iff x y).0 h)

has-diff_loop :
    (c a b : List Bytes) (s : Bytes)
    → has (diff_loop c a b) s ≡ (has c s || (has a s && not (has b s)))
unfolding diff_loop has
has-diff_loop c [] b s = ground arith
has-diff_loop c (x ∷ a) b s = elim (Bool-cases (has b x)) [
  | inl e ↦ rw e (ground (arith, has-diff_loop c a b s, has_same b x s))
  | inr e ↦
      rw e
        (ground (arith, has-diff_loop (c ++ x ∷ []) a b s, has-append c (x ∷ []) s, has_same b x s))
]

-- A string is in `diff(a, b)` exactly if it is in `a` and not in `b`.
pub has-diff : (a b : List Bytes) (s : Bytes) → has (diff a b) s ≡ (has a s && not (has b s))
unfolding diff has
has-diff a b s = has-diff_loop [] a b s

-- How often a string is in a list.
abbrev pub count : Bytes → List Bytes → ℕ
count s [] = 0
count s (x ∷ xs) = (if str_eq x s then 1 else 0) + count s xs

pub removed :
    (a : List Bytes) (s : Bytes)
    → ((remove a s).1 ≡ has a s)
      × ((if has a s then 1 else 0) + count s (remove a s).0 ≡ count s a)
      × ((t : Bytes) → t ≢ s → count t (remove a s).0 ≡ count t a)
unfolding remove has
removed [] s = (refl, refl, λ t ne. refl)
removed (x ∷ a) s = elim (Bool-cases (str_eq x s)) [
  | inl e ↦ (rw e, rw e, λ t ne. rw e (ground (arith, str_eq_iff x s, str_eq_iff x t)))
  | inr e ↦
      let (told, here, others) = removed a s in
      (
        rw e told,
        rw e (ground (arith, here)),
        λ t ne. rw e (ap (λ n. (if str_eq x t then 1 else 0) + n) (others t ne)),
      )
]

-- `remove` tells whether the string was there, takes one copy of it off if so, and leaves the number
-- of copies of every other string.
pub remove_lem :
    (a : List Bytes) (s t : Bytes)
    → t ≢ s
    → ((remove a s).1 ≡ has a s)
      × ((if has a s then 1 else 0) + count s (remove a s).0 ≡ count s a)
      × (count t (remove a s).0 ≡ count t a)
remove_lem a s t ne = ((removed a s).0, (removed a s).1, (removed a s).2 t ne)
