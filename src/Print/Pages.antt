-- ===== src/Print/Pages.antt =====
-- What `dump` of src/mem.c prints.
use waguri.Base.{
  ℕ, zero, suc, ◌+◌, ◌-◌, ◌*◌, ◌≤◌, ◌<◌, ◌≡◌, ◌⊎◌, inl, inr, refl, arith, List, [], ◌∷◌, set,
  get_elem?-set_ne, replicate, ok, lt_or_ge,
}
use waguri.Mem.{MemStat, Memory, page_size, num_pages, init_mem}
use waguri.Print.{bytes_loop, frame_outs, frames_loop, dump}

-- A byte outside the range of the loop
bytes_loop-set :
    (left j : ℕ) (ram : List ℕ) (n v : ℕ)
    → (n < j) ⊎ (j + left ≤ n)
    → bytes_loop left j (set ram n v) ≡ bytes_loop left j ram
unfolding bytes_loop
bytes_loop-set zero j ram n v out = refl
bytes_loop-set (suc left) j ram n v (inl lt) =
    rw
      (
        get_elem?-set_ne ram n j v (λ e. omega arith),
        bytes_loop-set left (j + 1) ram n v (inl (omega arith)),
      )
      refl
bytes_loop-set (suc left) j ram n v (inr ge) =
    rw
      (
        get_elem?-set_ne ram n j v (λ e. omega arith),
        bytes_loop-set left (j + 1) ram n v (inr (omega arith)),
      )
      refl

frames_loop-last :
    (i : ℕ) (stats : List MemStat) (ram : List ℕ) (k v : ℕ)
    → frames_loop i stats (set ram (k * page_size + (page_size - 1)) v) ≡ frames_loop i stats ram
unfolding frames_loop frame_outs
frames_loop-last i [] ram k v = refl
frames_loop-last i (stat ∷ stats) ram k v =
    rw
      (
        bytes_loop-set (page_size - 1) (i * page_size) ram (k * page_size + (page_size - 1)) v
            outside,
        frames_loop-last (i + 1) stats ram k v,
      )
      refl
  where
    outside :
        (k * page_size + (page_size - 1) < i * page_size)
        ⊎ (i * page_size + (page_size - 1) ≤ k * page_size + (page_size - 1))
    outside = elim (lt_or_ge k i) [ inl lt ↦ inl (omega arith) | inr ge ↦ inr (omega arith) ]

frames_loop-free :
    (i n : ℕ) (ram : List ℕ)
    → frames_loop i (replicate n (record { proc = 0; index = 0; next = 0 })) ram ≡ ok []
unfolding frames_loop frame_outs
frames_loop-free i zero ram = refl
frames_loop-free i (suc n) ram = rw (frames_loop-free (i + 1) n ram) refl

-- `dump` prints nothing of the memory that `init_mem` makes, and never shows the last byte of a page: what it
-- prints of any memory does not depend on that byte.
pub dump-last :
    (dump init_mem ≡ ok [])
    × ((mem : Memory) (k v : ℕ)
        → dump (record mem { ram = set mem.ram (k * page_size + (page_size - 1)) v }) ≡ dump mem)
unfolding dump init_mem
dump-last = (
  frames_loop-free 0 num_pages init_mem.ram,
  λ mem k v. frames_loop-last 0 mem.mem_stat mem.ram k v,
)
