-- ===== src/PageAlloc/Eviction.antt =====
-- A page evicted to the active swap device.
use waguri.Base.{
  ℕ, zero, suc, ◌<◌, ◌≡◌, refl, ap, arith, some, List, [], ◌∷◌, ◌++◌, ok, Chain, null, wild, cons,
  chain, get_elem?, set, get_elem?-set_self, lt_of_get_elem?, lt→ltb, ◌==◌, false,
}
use waguri.Pte.{fpn_of, pte_set_swap}
use waguri.Memphy.{Memphy, failure}
use waguri.Memphy.Access.{IsValid, IsRandom}
use waguri.Memphy.PageCopy.{FrameIn, Copied, swap_cp_page-Copied}
use waguri.Memphy.Frames.{get_freefp-cons}
use waguri.Mm.{Mm, Caller, max_mmswp, set_pte}
use waguri.Mm.Fifo.{find_victim_page-some}
use waguri.Mm.Mapping.{get_pte-ok}
use waguri.PageAlloc.{get_mswp, set_mswp, swap_out, swap_somewhere, push_frame, evict}

pub set-set {ℓ} : {A : Type ℓ} (xs : List A) (i : ℕ) (v w : A) → set (set xs i v) i w ≡ set xs i w
set-set [] i v w = refl
set-set (x ∷ xs) zero v w = refl
set-set (x ∷ xs) (suc i) v w = ap (λ l. x ∷ l) (set-set xs i v w)

-- A frame of RAM and a swap device with a frame for it: what a copy out needs.
pub record CanSwap (caller : Caller) (fpn : ℕ) (swp : Memphy) (s : ℕ) (rest : Chain ℕ)
    : Type 0 where
  pub listed : get_elem? caller.mswp caller.active_mswp ≡ some swp
  pub few : caller.active_mswp < max_mmswp
  pub free : swp.free_fp_list ≡ cons s rest
  pub ram_valid : IsValid caller.mram
  pub ram_random : IsRandom caller.mram
  pub ram_frame : FrameIn caller.mram fpn
  pub swp_valid : IsValid swp
  pub swp_random : IsRandom swp
  pub swp_frame : FrameIn swp s

-- The state when the first free frame of the active device is taken and its cells are `cells`.
abbrev pub swapped : Caller → Memphy → Chain ℕ → List ℕ → Caller
swapped caller swp rest cells = record caller {
  mswp = set caller.mswp caller.active_mswp (record swp { free_fp_list = rest; storage = cells });
}

swap_somewhere-active :
    (caller : Caller) (fpn : ℕ) (swp : Memphy) (s : ℕ) (rest : Chain ℕ)
    → CanSwap caller fpn swp s rest
    → (cells : List ℕ) × (swap_somewhere caller fpn
        ≡ ok (caller.active_mswp, some s, swapped caller swp rest cells))
      × Copied caller.mram.storage swp.storage cells fpn s 0
unfolding swap_somewhere swap_out get_mswp set_mswp
swap_somewhere-active caller fpn swp s rest c =
    let swp' : Memphy = record swp { free_fp_list = rest } in
    let valid : IsValid swp' = record { cells = c.swp_valid.cells; small = c.swp_valid.small } in
    let (cells, r, copied) =
      swap_cp_page-Copied caller.mram swp' fpn s c.ram_valid c.ram_random c.ram_frame valid
        c.swp_random c.swp_frame in
    (
      cells,
      rw
          (
            c.listed,
            get_freefp-cons swp c.free,
            get_elem?-set_self caller.mswp caller.active_mswp swp'
                (lt_of_get_elem? caller.mswp caller.active_mswp c.listed),
            r,
            set-set caller.mswp caller.active_mswp swp' (record swp' { storage = cells }),
            lt→ltb caller.active_mswp max_mmswp c.few,
          )
          refl,
      copied,
    )

-- With no free frame, the oldest page of the list is evicted: its page is copied cell by cell to
-- the first free frame of the active swap device, its entry is set by `pte_set_swap`, the page
-- leaves the list, and its frame is the one handed out.
pub evict_oldest :
    (caller : Caller) (pgs : List ℕ) (oldest pte : ℕ) (swp : Memphy) (s : ℕ) (rest : Chain ℕ)
    → caller.mm.fifo_pgn ≡ chain (pgs ++ oldest ∷ []) null
    → get_elem? caller.mm.pgd oldest ≡ some pte
    → CanSwap caller (fpn_of pte) swp s rest
    → (cells : List ℕ) × (evict caller null
        ≡ ok (
          0,
          cons (fpn_of pte) wild,
          record (swapped caller swp rest cells) {
            mm = record caller.mm {
              fifo_pgn = chain pgs null;
              pgd = set caller.mm.pgd oldest (pte_set_swap pte caller.active_mswp s);
            };
          },
        ))
      × Copied caller.mram.storage swp.storage cells (fpn_of pte) s 0
unfolding evict push_frame set_pte
evict_oldest caller pgs oldest pte swp s rest ef ep c =
    let mm' : Mm = record caller.mm { fifo_pgn = chain pgs null } in
    let c' : CanSwap (record caller { mm = mm' }) (fpn_of pte) swp s rest = record {
      listed = c.listed;
      few = c.few;
      free = c.free;
      ram_valid = c.ram_valid;
      ram_random = c.ram_random;
      ram_frame = c.ram_frame;
      swp_valid = c.swp_valid;
      swp_random = c.swp_random;
      swp_frame = c.swp_frame;
    } in
    let (cells, r, copied) =
      swap_somewhere-active (record caller { mm = mm' }) (fpn_of pte) swp s rest c' in
    let real : (s == failure) ≡ false = ground (arith, c.swp_frame, c.swp_valid.small) in
    (
      cells,
      rw (find_victim_page-some caller.mm pgs oldest ef, get_pte-ok mm' oldest ep, r, real) refl,
      copied,
    )
