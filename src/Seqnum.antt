-- ===== src/Seqnum.antt =====
-- src/job/seqnum.cxx: the file of the last job number, read by `curr` and stepped by `next`. The
-- file is locked exclusively from `open` to `close`, so that a call sees no other one's accesses.
pub mod Bytes64
pub mod Reading
pub mod Writing
pub mod Numbers
pub mod Returns
use Bytes64.{encode, decode}
use job.Isafe
use job.Isafe.{Reply, value, fail, Outcome}
use job.Prelude.{
  ℕ, zero, suc, ◌+◌, ◌-◌, ◌%◌, ◌^◌, Bool, true, false, List, [], ◌∷◌, ◌++◌, Option, none, some,
  Bytes, ◌==◌, if◌then◌else◌, length, take, drop, min,
}

pub data Step : Type 0 where
  opening locking reading seeking writing closing : Step

-- The object and what it has to do with: `number` is the member `value`, `content` the file and
-- `position` its offset, `replies` what the kernel will answer.
pub record Access : Type 0 where
  pub replies : List Reply
  pub content : Bytes
  pub position : ℕ
  pub number : ℕ

-- `waiting`: the call has not returned, for want of replies. `failed` sets `error` and returns 0.
pub data Result {ℓ} (A : Type ℓ) : Type ℓ where
  waiting : Result A
  failed : Step → Access → Result A
  ok : A → Access → Result A

abbrev pub M : Type 0 → Type 0
M A = Access → Result A

infixl 5 ◌>>=◌ ◌>>◌
abbrev pub ◌>>=◌ : {A B : Type 0} → M A → (A → M B) → M B
◌>>=◌ m f s = elim (m s) [ waiting ↦ waiting | failed e t ↦ failed e t | ok a t ↦ f a t ]

abbrev pub ◌>>◌ : {A B : Type 0} → M A → M B → M B
◌>>◌ m k = m >>= λ _. k

abbrev pub return : {A : Type 0} → A → M A
return a s = ok a s

-- The error path: `value = 0`, after a `close` whose result is not looked at, where the file is open.
give_up : Step → Access → Result ℕ
give_up e s = failed e (record s { number = 0 })

close_and_give_up : Step → Access → Option Outcome → Result ℕ
unfolding give_up
close_and_give_up e s none = waiting
close_and_give_up e s (some o) = give_up e (record s { replies = o.rest })

answered : Step → Bool → Access → Reply → Result ℕ
unfolding close_and_give_up
answered e opened s (value v) = ok v s
answered e opened s (fail n) =
    if opened then close_and_give_up e s (Isafe.close s.replies) else give_up e s

called : Step → Bool → Access → Option Outcome → Result ℕ
unfolding answered
called e opened s none = waiting
called e opened s (some o) = answered e opened (record s { replies = o.rest }) o.result

-- One `isafe` call with its check.
pub call : Step → Bool → (List Reply → Option Outcome) → M ℕ
unfolding called
call e opened f s = called e opened s (f s.replies)

-- The bytes that a read moves when the kernel's limit is `k`: at least one if there is one.
pub moved : ℕ → ℕ → ℕ
moved k room = if k == 0 then min 1 room else min k room

-- `read(fd, &value, sizeof(value))`: the bytes moved go over the first bytes of `value`.
pub read_value : M ℕ
unfolding moved
read_value = do
  k ← call reading true Isafe.read
  λ s.
      let n = moved k (min 8 (length s.content - s.position)) in
      let got = take n (drop s.position s.content) in
      ok n
        (record s { number = decode (got ++ drop n (encode s.number)); position = s.position + n })

-- `lseek(fd, 0, SEEK_SET)`.
pub rewind : M ℕ
rewind = do v ← call seeking true Isafe.lseek; λ s. ok v (record s { position = 0 })

-- The first `while (1)`. Each round takes a reply at least, so that their number is fuel enough.
pub read_loop : ℕ → M ℕ
read_loop zero s = waiting
read_loop (suc fuel) s =
    (do
      n ← read_value
      if n == 0 then return 0 else (do _ ← rewind; if n == 8 then return 0 else read_loop fuel))
      s

-- `write(fd, &value, sizeof(value))`: the first bytes of `value` go over the file's.
pub write_value : M ℕ
write_value = do
  k ← call writing true Isafe.write
  λ s.
      let n = min k 8 in
      ok n (record s {
        content =
            take s.position s.content
            ++ (take n (encode s.number) ++ drop (s.position + n) s.content);
        position = s.position + n;
      })

-- The second `while (1)`.
pub write_loop : ℕ → M ℕ
write_loop zero s = waiting
write_loop (suc fuel) s =
    (do n ← write_value; if n == 8 then return 0 else (do _ ← rewind; write_loop fuel)) s

-- `open`, which creates an empty file where there is none, and `flock`.
pub start : M ℕ
start = do
  _ ← call opening false Isafe.open_mode
  _ ← call locking true Isafe.flock
  λ s. ok 0 (record s { position = 0 })

-- `close`, and the number is served.
pub finish : M ℕ
finish = do _ ← call closing false Isafe.close; λ s. ok s.number s

-- `seqnum::curr`.
unfoldable pub curr : M ℕ
unfolding start read_loop finish
curr s = (do _ ← start; _ ← read_loop (suc (length s.replies)); finish) s

-- `value++`, the write loop and the end.
pub step : ℕ → M ℕ
unfolding write_loop finish
step fuel s = (do _ ← write_loop fuel; finish) (record s { number = (s.number + 1) % 2 ^ 64 })

-- `seqnum::next`.
unfoldable pub next : M ℕ
unfolding start read_loop step
next s = (do _ ← start; _ ← read_loop (suc (length s.replies)); step (suc (length s.replies))) s
