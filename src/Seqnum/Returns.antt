-- ===== src/Seqnum/Returns.antt =====
-- A kernel that answers each call in full makes `next` return.
use job.Isafe
use job.Isafe.{Reply, value, fail, Outcome}
use job.Prelude.{ℕ, suc, ◌-◌, ◌≤◌, List, [], ◌∷◌, ◌++◌, ◌≡◌, refl, arith, Bytes, length, min, take}
use job.Seqnum.Bytes64.{decode, encode}
use job.Seqnum.{
  Access, Result, waiting, failed, ok, M, answered, called, call, moved, read_value, rewind,
  read_loop, write_value, write_loop, start, next, step, finish,
}

abbrev pub Returns {ℓ} : {A : Type ℓ} → Result A → Type 0
Returns waiting = ⊥
Returns (failed e s) = ⊥
Returns (ok a s) = Unit

abbrev pub prompt : List Reply → List Reply
prompt rest = value 3 ∷ value 0 ∷ value 8 ∷ value 0 ∷ value 8 ∷ value 0 ∷ rest

moved_full : (n : ℕ) → 8 ≤ n → moved 8 (min 8 (n - 0)) ≡ 8
unfolding moved
moved_full n h = omega arith

read_value_full :
    (r : List Reply) (c : Bytes) (n : ℕ)
    → 8 ≤ length c
    → read_value (record { replies = value 8 ∷ r; content = c; position = 0; number = n })
      ≡ ok 8 (record { replies = r; content = c; position = 8; number = decode (take 8 c ++ []) })
unfolding read_value call called answered Isafe.read encode
read_value_full r c n h = rw (moved_full (length c) h)

bind-ok :
    {A B : Type 0} (r : Result A) (f : A → M B) (a : A) (t : Access)
    → r ≡ ok a t
    → Returns (f a t)
    → Returns (elim r [ waiting ↦ waiting | failed e u ↦ failed e u | ok b u ↦ f b u ])
bind-ok r f a t e h = rw e h

bind-eq :
    {A B : Type 0} (r : Result A) (f : A → M B) (a : A) (t : Access) (x : Result B)
    → r ≡ ok a t
    → f a t ≡ x
    → (elim r [ waiting ↦ waiting | failed e u ↦ failed e u | ok b u ↦ f b u ]) ≡ x
bind-eq r f a t x e h = rw e h

abbrev at : List Reply → Bytes → ℕ → ℕ → Access
at r c p n = record { replies = r; content = c; position = p; number = n }

read_loop_full :
    (r : List Reply) (c : Bytes) (n fuel : ℕ)
    → 8 ≤ length c
    → read_loop (suc fuel) (at (value 8 ∷ value 0 ∷ r) c 0 n)
      ≡ ok 0 (at r c 0 (decode (take 8 c ++ [])))
unfolding read_loop rewind call called answered Isafe.lseek
read_loop_full r c n fuel h =
    bind-eq (read_value (at (value 8 ∷ value 0 ∷ r) c 0 n)) _ 8
      (at (value 0 ∷ r) c 8 (decode (take 8 c ++ []))) _ (read_value_full (value 0 ∷ r) c n h) refl

-- When the kernel answers each call, and reads and writes eight bytes at once, `next` returns,
-- if the file has eight bytes at least.
pub next-Returns :
    (rest : List Reply) (content : Bytes) (position number : ℕ)
    → 8 ≤ length content
    → Returns (
        next (record {
          replies = prompt rest;
          content = content;
          position = position;
          number = number;
        }))
unfolding next start step call called answered write_value write_loop finish Isafe.open_mode
    Isafe.flock Isafe.write Isafe.close
next-Returns rest content position number h =
    bind-ok
      (read_loop (suc (length (prompt rest)))
        (at (value 8 ∷ value 0 ∷ value 8 ∷ value 0 ∷ rest) content 0 number))
      (λ _. step (suc (length (prompt rest)))) 0
      (at (value 8 ∷ value 0 ∷ rest) content 0 (decode (take 8 content ++ [])))
      (read_loop_full (value 8 ∷ value 0 ∷ rest) content number (length (prompt rest)) h) tt
