-- ===== src/Queue.antt =====
-- The queue of processes, src/queue.c and include/queue.h.
pub mod Bounded
pub mod Removal
use waguri.Base.{
  ℕ, zero, suc, ◌+◌, ◌-◌, Bool, Option, none, some, List, ◌==◌, leb, ltb, if◌then◌else◌, get_elem?,
  set, Run, ok, fault, ◌>>=◌, defined,
}

abbrev pub max_queue_size : ℕ
max_queue_size = 10

-- `struct queue_t`; a slot of `proc` is a pointer, `none` when it is NULL.
pub record Queue {ℓ} (A : Type ℓ) : Type ℓ where
  pub proc : List (Option A)
  pub size : ℕ

module _ {ℓ} {A : Type ℓ} where
  -- `empty`, of a pointer that is not NULL
  unfoldable pub empty : Queue A → Bool
  empty q = q.size == 0

  -- `enqueue`, which drops the process when the queue is full
  unfoldable pub enqueue : Queue A → A → Queue A
  enqueue q p =
      if leb max_queue_size q.size
      then q
      else record { proc = set q.proc q.size (some p); size = q.size + 1 }

  -- The loop of `dequeue` from index `i`, with `left` rounds to go.
  unfoldable pub shift_loop : ℕ → ℕ → List (Option A) → Run (List (Option A))
  shift_loop zero i proc = ok proc
  shift_loop (suc left) i proc = do
    p ← defined (get_elem? proc i)
    shift_loop left (i + 1) (set proc (i - 1) p)

  -- `dequeue`
  unfoldable pub dequeue : Queue A → Run (Option A × Queue A)
  unfolding shift_loop
  dequeue q = if q.size == 0 then ok (none, q) else do
    p ← defined (get_elem? q.proc 0)
    shifted ← shift_loop (q.size - 1) 1 q.proc
    ok (p, record { proc = shifted; size = q.size - 1 })
