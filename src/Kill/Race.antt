-- ===== src/Kill/Race.antt =====
-- killall and a processor on one level at the same time: `__sys_killall` of src/sys_killall.c closes the gap that a
-- process leaves without `queue_lock`, which `get_mlq_proc` of src/sched.c takes.
use waguri.Base.{
  ℕ, suc, ◌+◌, ◌-◌, ◌≡◌, sym, ap, ◌∙◌, arith, Option, List, get_elem?, set, defined, >>=-assoc,
  zero, Run, ok, ◌>>=◌,
}
use waguri.Queue.{Queue, shift_loop, dequeue}

module _ {ℓ} {A : Type ℓ} where
  -- killall removes the process at index `i`; after `k` rounds of the loop that shifts those behind it a processor calls
  -- `dequeue`, and the loop goes on with the new size. What the processor gets, and the queue.
  unfoldable pub remove_interrupted : ℕ → ℕ → Queue A → Run (Option A × Queue A)
  unfolding shift_loop dequeue
  remove_interrupted k i q = do
    begun ← shift_loop k (i + 1) q.proc
    (taken, q') ← dequeue (record { proc = begun; size = q.size })
    shifted ← shift_loop (q'.size - 1 - (i + k)) (i + k + 1) q'.proc
    ok (taken, record { proc = shifted; size = q'.size - 1 })

  -- The loop that killall runs is its first `k` rounds and then the others.
  shift_loop-split :
      (k left i : ℕ) (proc : List (Option A))
      → shift_loop (k + left) i proc
        ≡ (do begun ← shift_loop k i proc; shift_loop left (i + k) begun)
  unfolding shift_loop
  shift_loop-split zero left i proc =
      ap (λ n. shift_loop n i proc) (omega arith) ∙ ap (λ j. shift_loop left j proc) (omega arith)
  shift_loop-split (suc k) left i proc =
      let size : suc k + left ≡ suc (k + left) = omega arith in
      let index : i + 1 + k ≡ i + suc k = omega arith in
      ap (λ n. shift_loop n i proc) size
      ∙ ap (λ f. defined (get_elem? proc i) >>= f)
          (λ e p. shift_loop-split k left (i + 1) (set proc (i - 1) p) e)
      ∙ sym (
          >>=-assoc (defined (get_elem? proc i)) (λ p. shift_loop k (i + 1) (set proc (i - 1) p))
            (shift_loop left (i + 1 + k)))
      ∙ ap (λ j. shift_loop (suc k) i proc >>= shift_loop left j) index
