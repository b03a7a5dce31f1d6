-- ===== src/Jobman/Order/Keys.antt =====
-- The order of `jobcompare` on the times and priorities of two jobs.
use job.Jobman.Order.{int_eq, key_less}
use job.Jobman.Retry.{int_lt}
use job.Number.{ℤ, pos, negsuc}
use job.Prelude.{
  ℕ, ◌+◌, ◌-◌, ◌≤◌, Bool, true, false, ◌&&◌, ◌||◌, some, ltb, ◌==◌, ◌≡◌, sym, ◌∙◌, arith, ◌⊎◌,
}

-- An integer moved up by `k`, from where the numbers of its size and less are natural.
abbrev shift : ℕ → ℤ → ℕ
shift k (pos n) = n + k
shift k (negsuc n) = k - (n + 1)

abbrev size : ℤ → ℕ
size (pos n) = 0
size (negsuc n) = n + 1

int_lt-shift :
    (k : ℕ) (x y : ℤ) → size x ≤ k → size y ≤ k → int_lt x y ≡ ltb (shift k x) (shift k y)
unfolding int_lt
int_lt-shift k (pos a) (pos b) h i = ground arith
int_lt-shift k (pos a) (negsuc b) h i = ground arith
int_lt-shift k (negsuc a) (pos b) h i = ground arith
int_lt-shift k (negsuc a) (negsuc b) h i = ground arith

int_eq-shift : (k : ℕ) (x y : ℤ) → size x ≤ k → size y ≤ k → int_eq x y ≡ (shift k x == shift k y)
unfolding int_eq
int_eq-shift k (pos a) (pos b) h i = ground arith
int_eq-shift k (pos a) (negsuc b) h i = ground arith
int_eq-shift k (negsuc a) (pos b) h i = ground arith
int_eq-shift k (negsuc a) (negsuc b) h i = ground arith

-- The lexicographic order on natural numbers.
abbrev less : ℕ → ℕ → ℕ → ℕ → Bool
less s a t b = a == b && ltb s t || ltb a b

abbrev bound : ℤ → ℤ → ℤ → ℤ → ℤ → ℤ → ℕ
bound s a t b u c = size s + size a + size t + size b + size u + size c

key_less-shift :
    (k : ℕ) (s a t b : ℤ)
    → size s ≤ k
    → size a ≤ k
    → size t ≤ k
    → size b ≤ k
    → key_less (some (s, a)) (some (t, b)) ≡ less (shift k s) (shift k a) (shift k t) (shift k b)
unfolding key_less
key_less-shift k s a t b hs ha ht hb =
    rw (int_lt-shift k s t hs ht, int_lt-shift k a b ha hb, int_eq-shift k a b ha hb)

less_irrefl : (s a : ℕ) → less s a s a ≡ false
less_irrefl s a = ground arith

less_trans : (s a t b u c : ℕ) → less s a t b ≡ true → less t b u c ≡ true → less s a u c ≡ true
less_trans s a t b u c h i = ground arith

less_split : (s a t b u c : ℕ) → less s a u c ≡ true → (less s a t b ≡ true) ⊎ (less t b u c ≡ true)
less_split s a t b u c h = ground arith

pub key_less_irrefl : (s a : ℤ) → key_less (some (s, a)) (some (s, a)) ≡ false
key_less_irrefl s a =
    let k = bound s a s a s a in
    key_less-shift k s a s a (omega arith) (omega arith) (omega arith) (omega arith)
    ∙ less_irrefl (shift k s) (shift k a)

module _ (s a t b u c : ℤ) where
  k : ℕ
  k = bound s a t b u c

  first :
      key_less (some (s, a)) (some (t, b)) ≡ less (shift k s) (shift k a) (shift k t) (shift k b)
  unfolding k
  first = key_less-shift k s a t b (omega arith) (omega arith) (omega arith) (omega arith)

  second :
      key_less (some (t, b)) (some (u, c)) ≡ less (shift k t) (shift k b) (shift k u) (shift k c)
  unfolding k
  second = key_less-shift k t b u c (omega arith) (omega arith) (omega arith) (omega arith)

  whole :
      key_less (some (s, a)) (some (u, c)) ≡ less (shift k s) (shift k a) (shift k u) (shift k c)
  unfolding k
  whole = key_less-shift k s a u c (omega arith) (omega arith) (omega arith) (omega arith)

  pub key_less_trans :
      key_less (some (s, a)) (some (t, b)) ≡ true
      → key_less (some (t, b)) (some (u, c)) ≡ true
      → key_less (some (s, a)) (some (u, c)) ≡ true
  key_less_trans h i =
      whole
      ∙ less_trans (shift k s) (shift k a) (shift k t) (shift k b) (shift k u) (shift k c)
          (sym first ∙ h) (sym second ∙ i)

  pub key_less_split :
      key_less (some (s, a)) (some (u, c)) ≡ true
      → (key_less (some (s, a)) (some (t, b)) ≡ true)
        ⊎ (key_less (some (t, b)) (some (u, c)) ≡ true)
  key_less_split h =
      rw (first, second)
        (less_split (shift k s) (shift k a) (shift k t) (shift k b) (shift k u) (shift k c)
          (sym whole ∙ h))
