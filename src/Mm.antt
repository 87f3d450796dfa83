-- ===== src/Mm.antt =====
-- A process's memory management state, `struct mm_struct` of include/os-mm.h, and the functions
-- of src/mm.c on it. What a process reaches through its control block is a `Caller`: its own `mm`
-- and the devices that all processes share.
pub mod Fifo
pub mod Mapping
use waguri.Base.{
  ℕ, zero, suc, ◌+◌, ◌-◌, Bool, ◌&&◌, not, Option, none, some, List, ◌==◌, ltb, if◌then◌else◌,
  get_elem?, set, Run, ok, fault, ◌>>=◌, defined, Chain, null, wild, cons,
}
use waguri.Cint.{is_neg, slt, sadd, smul, sext64, minus}
use waguri.Pte.{pgn_of, pte_set_fpn}
use waguri.Memphy.{Memphy, failure}

-- Addresses are `unsigned long`, below 2 ^ 64.
pub record Region : Type 0 where
  pub rg_start : ℕ
  pub rg_end : ℕ

pub record Vma : Type 0 where
  pub vm_id : ℕ
  pub vm_start : ℕ
  pub vm_end : ℕ
  pub sbrk : ℕ
  pub vm_freerg_list : Chain Region

pub record Mm : Type 0 where
  pub pgd : List ℕ
  pub mmap : Chain Vma
  pub symrgtbl : List Region
  pub fifo_pgn : Chain ℕ

-- `active_mswp` is the index in `mswp` of the device that the pointer names.
pub record Caller : Type 0 where
  pub mm : Mm
  pub mram : Memphy
  pub mswp : List Memphy
  pub active_mswp : ℕ
  pub active_mswp_id : ℕ

abbrev pub out_of_memory : ℕ
out_of_memory = minus 3000

abbrev pub max_mmswp : ℕ
max_mmswp = 4

-- `pgd[pgn]` read and written
unfoldable pub get_pte : Mm → ℕ → Run ℕ
get_pte mm pgn = defined (get_elem? mm.pgd pgn)

unfoldable pub set_pte : Mm → ℕ → ℕ → Mm
set_pte mm pgn pte = record mm { pgd = set mm.pgd pgn pte }

-- `enlist_pgn_node` on the page list of `mm`
unfoldable pub enlist_pgn_node : Mm → ℕ → Mm
enlist_pgn_node mm pgn = record mm { fifo_pgn = cons pgn mm.fifo_pgn }

-- The `while` of `find_victim_page`: `pg` and its successor, and what follows.
unlink_last : ℕ → ℕ → Chain ℕ → Run (ℕ × Chain ℕ)
unlink_last pg next null = ok (next, cons pg null)
unlink_last pg next wild = fault
unlink_last pg next (cons later rest) = do
  (last, kept) ← unlink_last next later rest
  ok (last, cons pg kept)

find_victim : Chain ℕ → Run (ℕ × Option ℕ × Chain ℕ)
unfolding unlink_last
find_victim null = ok (failure, none, null)
find_victim wild = fault
find_victim (cons pg null) = ok (0, some pg, null)
find_victim (cons pg wild) = fault
find_victim (cons pg (cons next rest)) = do
  (last, kept) ← unlink_last pg next rest
  ok (0, some last, kept)

-- `find_victim_page` of src/libmem.c
pub find_victim_page : Mm → Run (ℕ × Option ℕ × Mm)
unfolding find_victim
find_victim_page mm = do
  (code, victim, kept) ← find_victim mm.fifo_pgn
  ok (code, victim, record mm { fifo_pgn = kept })

-- The rounds that `for (i = 0; i < n; i++)` makes.
abbrev pub rounds : ℕ → ℕ
rounds n = if is_neg n then 0 else n

-- The loop of `vmap_page_range`, from page `cur_pgn` on.
pub vmap_loop : ℕ → ℕ → Chain ℕ → Mm → Run Mm
vmap_loop zero cur_pgn fpit mm = ok mm
vmap_loop (suc left) cur_pgn null mm = ok mm
vmap_loop (suc left) cur_pgn wild mm = fault
vmap_loop (suc left) cur_pgn (cons fpn rest) mm = do
  pte ← get_pte mm cur_pgn
  vmap_loop left (cur_pgn + 1) rest
      (enlist_pgn_node (set_pte mm cur_pgn (pte_set_fpn pte fpn)) cur_pgn)

-- `vmap_page_range`: the region mapped, and the new state. It returns 0 always.
pub vmap_page_range : Caller → ℕ → ℕ → Chain ℕ → Run (Region × Caller)
vmap_page_range caller addr pgnum frames = do
  size ← smul pgnum 256
  top ← sadd addr size
  last ← sadd top (minus 1)
  mm ← vmap_loop (rounds pgnum) (pgn_of addr) frames caller.mm
  ok (record { rg_start = sext64 addr; rg_end = sext64 last }, record caller { mm = mm })

-- `init_vm_rg`
pub init_vm_rg : ℕ → ℕ → Region
init_vm_rg rg_start rg_end = record { rg_start = sext64 rg_start; rg_end = sext64 rg_end }

-- `enlist_vm_rg_node`
pub enlist_vm_rg_node : Chain Region → Region → Chain Region
enlist_vm_rg_node rglist rgnode = cons rgnode rglist

-- `init_mm` on a structure whose fields are still indeterminate, those of the argument; `words`
-- is what `malloc` leaves in the page table. The area's free list is indeterminate when the first
-- region is put before it.
pub init_mm : Mm → List ℕ → Mm
unfolding init_vm_rg enlist_vm_rg_node
init_mm mm words = record mm {
  pgd = words;
  mmap =
      cons
        (record {
          vm_id = 0;
          vm_start = 0;
          vm_end = 0;
          sbrk = 0;
          vm_freerg_list = enlist_vm_rg_node wild (init_vm_rg 0 0);
        })
        null;
}
