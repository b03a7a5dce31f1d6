-- ===== src/Tests/Sorting.antt =====
-- An insertion sort that keeps the promise of `std::sort`, for the choice of jobs.
use job.Jobman.Order.Best.{NamesGoFirst, All, IsStrictWeak, IsSorted, Sorts, IsJob, tried-IsBest}
use job.Jobman.Order.{jobcompare, job_key, tried, left}
use job.File.{literal, scan_int}
use job.Number.{pos, read_sign, read_digits, signed}
use job.Text.Trim.{ltrim}
use job.Jobman.Slots.{Attempt}
use job.Prelude.{
  ◌+◌, Bool, true, false, List, [], ◌∷◌, Bytes, codes, if◌then◌else◌, ◌≡◌, refl, arith, Bool-cases,
  inl, inr, is_digit, is_space,
}
use job.Text.Sets.{count}

insert : (Bytes → Bytes → Bool) → Bytes → List Bytes → List Bytes
insert less x [] = x ∷ []
insert less x (y ∷ l) = if less y x then y ∷ insert less x l else x ∷ y ∷ l

sort : (Bytes → Bytes → Bool) → List Bytes → List Bytes
sort less [] = []
sort less (x ∷ l) = insert less x (sort less l)

count-insert :
    (less : Bytes → Bytes → Bool) (x : Bytes) (l : List Bytes) (q : Bytes)
    → count q (insert less x l) ≡ count q (x ∷ l)
unfolding insert
count-insert less x [] q = refl
count-insert less x (y ∷ l) q = elim (Bool-cases (less y x)) [
  | inl e ↦ rw e (omega (arith, count-insert less x l q))
  | inr e ↦ rw e
]

count-sort :
    (less : Bytes → Bytes → Bool) (l : List Bytes) (q : Bytes) → count q (sort less l) ≡ count q l
unfolding sort
count-sort less [] q = refl
count-sort less (x ∷ l) q = omega (arith, count-insert less x (sort less l) q, count-sort less l q)

All-insert :
    (Q : Bytes → Type 0) (less : Bytes → Bytes → Bool) (x : Bytes) (l : List Bytes)
    → Q x
    → All Q l
    → All Q (insert less x l)
unfolding insert
All-insert Q less x [] q a = (q, tt)
All-insert Q less x (y ∷ l) q a = elim (Bool-cases (less y x)) [
  | inl e ↦ rw e (a.0, All-insert Q less x l q a.1)
  | inr e ↦ rw e (q, a)
]

All-sort :
    (Q : Bytes → Type 0) (less : Bytes → Bytes → Bool) (l : List Bytes)
    → All Q l
    → All Q (sort less l)
unfolding sort
All-sort Q less [] a = tt
All-sort Q less (x ∷ l) a = All-insert Q less x (sort less l) a.0 (All-sort Q less l a.1)

module _ (P : Bytes → Type 0) (less : Bytes → Bytes → Bool) (o : IsStrictWeak P less) where
  not_before :
      (x y z : Bytes) → P x → P y → P z → less z y ≡ false → less y x ≡ false → less z x ≡ false
  not_before x y z p q r h k = elim (Bool-cases (less z x)) [
    | inr e ↦ e
    | inl e ↦ elim (o.split z y x r q p e) [ inl f ↦ cc | inr f ↦ cc ]
  ]

  not_after : (x y : Bytes) → P x → P y → less y x ≡ true → less x y ≡ false
  not_after x y p q h = elim (Bool-cases (less x y)) [
    | inr e ↦ e
    | inl e ↦
        (let f : less x x ≡ true = o.trans x y x p q p e h in
          let g : less x x ≡ false = o.irrefl x p in cc)
  ]

  All-not_before :
      (x y : Bytes) (l : List Bytes)
      → P x
      → P y
      → All P l
      → less y x ≡ false
      → All (λ z. less z y ≡ false) l
      → All (λ z. less z x ≡ false) l
  All-not_before x y [] p q r h a = tt
  All-not_before x y (z ∷ l) p q r h a =
      (not_before x y z p q r.0 a.0 h, All-not_before x y l p q r.1 h a.1)

  insert-IsSorted :
      (x : Bytes) (l : List Bytes)
      → P x
      → All P l
      → IsSorted less l
      → IsSorted less (insert less x l)
  unfolding insert
  insert-IsSorted x [] p r s = (tt, tt)
  insert-IsSorted x (y ∷ l) p r s = elim (Bool-cases (less y x)) [
    | inl e ↦ rw e (
      All-insert (λ z. less z y ≡ false) less x l (not_after x y p r.0 e) s.0,
      insert-IsSorted x l p r.1 s.1,
    )
    | inr e ↦ rw e ((e, All-not_before x y l p r.0 r.1 e s.0), s)
  ]

  sort-IsSorted : (l : List Bytes) → All P l → IsSorted less (sort less l)
  unfolding sort
  sort-IsSorted [] r = tt
  sort-IsSorted (x ∷ l) r =
      insert-IsSorted x (sort less l) r.0 (All-sort P less l r.1) (sort-IsSorted l r.1)

sort-Sorts : Sorts sort
sort-Sorts P less l o r = (sort-IsSorted P less o l r, count-sort less l)

abbrev waiting : List Bytes
waiting = codes "t1700000000.p5.j0000007.ann" ∷ codes "t1600000000.p1.j0000008.bob" ∷ []

abbrev free : Bytes → Attempt
free x = Attempt.launched

waiting-IsJob : All (IsJob 0) waiting
unfolding job_key literal scan_int ltrim read_sign read_digits signed is_digit is_space
waiting-IsJob = (((pos 1700000000, pos 5), refl), (((pos 1600000000, pos 1), refl), tt))

tried-IsBest_example :
    (let sorted = sort (jobcompare 0) waiting in
      All (λ x. All (NamesGoFirst 0 x) (left free 1 0 sorted)) (tried free 1 0 sorted)
      × ((q : Bytes)
          → count q (tried free 1 0 sorted) + count q (left free 1 0 sorted) ≡ count q waiting))
tried-IsBest_example = tried-IsBest sort free 1 0 0 waiting sort-Sorts waiting-IsJob
