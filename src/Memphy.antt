-- ===== src/Memphy.antt =====
-- A physical memory device, `struct memphy_struct`, and the functions of src/mm-memphy.c on it.
-- A device is a value here, so the tests for a NULL device have no case. A function returns its
-- code, what it writes through its pointer argument (`none`: nothing), and the device.
pub mod Access
pub mod PageCopy
pub mod Frames
use waguri.Base.{
  ℕ, zero, suc, ◌+◌, ◌-◌, ◌%◌, Bool, ◌&&◌, ◌||◌, not, Option, none, some, List, ◌==◌, if◌then◌else◌,
  get_elem?, set, replicate, Run, ok, fault, ◌>>=◌, defined, Chain, null, wild, cons,
}
use waguri.Cint.{is_neg, slt, sdiv, sadd, smul}

pub record Memphy : Type 0 where
  pub storage : List ℕ  -- bytes, below 256
  pub maxsz : ℕ
  pub rdmflg : ℕ
  pub cursor : ℕ
  pub free_fp_list : Chain ℕ
  pub used_fp_list : Chain ℕ

-- -1
abbrev pub failure : ℕ
failure = 0xffff_ffff

-- The loop of `MEMPHY_mv_csr`, on fuel.
mv_csr_loop : ℕ → ℕ → ℕ → Memphy → Memphy
mv_csr_loop zero numstep offset mp = mp
mv_csr_loop (suc fuel) numstep offset mp =
    let rest =
      mv_csr_loop fuel (numstep + 1) offset (record mp { cursor = (mp.cursor + 1) % mp.maxsz }) in
    if slt numstep offset && slt numstep mp.maxsz then rest else mp

-- `MEMPHY_mv_csr`: one round of fuel for each cell.
pub mv_csr : Memphy → ℕ → Memphy
unfolding mv_csr_loop
mv_csr mp offset = mv_csr_loop mp.maxsz 0 offset (record mp { cursor = 0 })

-- `addr < 0 || addr >= mp->maxsz`
abbrev pub out_of_range : Memphy → ℕ → Bool
out_of_range mp addr = slt addr 0 || not (slt addr mp.maxsz)

-- `mp->storage[addr] = value`
pub store : Memphy → ℕ → ℕ → Run (ℕ × Memphy)
store mp addr value = do
  old ← defined (get_elem? mp.storage addr)
  ok (0, record mp { storage = set mp.storage addr value })

pub seq_read : Memphy → ℕ → Run (ℕ × Option ℕ × Memphy)
seq_read mp addr =
    if out_of_range mp addr
    then ok (failure, none, mp)
    else if mp.rdmflg == 0
    then ok (failure, none, mp)
    else do v ← defined (get_elem? mp.storage addr); ok (0, some v, mv_csr mp addr)

pub read : Memphy → ℕ → Run (ℕ × Option ℕ × Memphy)
unfolding seq_read
read mp addr =
    if out_of_range mp addr
    then ok (failure, none, mp)
    else if mp.rdmflg == 0
    then seq_read mp addr
    else do v ← defined (get_elem? mp.storage addr); ok (0, some v, mp)

pub seq_write : Memphy → ℕ → ℕ → Run (ℕ × Memphy)
unfolding store
seq_write mp addr value =
    if out_of_range mp addr
    then ok (failure, mp)
    else if mp.rdmflg == 0
    then ok (failure, mp)
    else store (mv_csr mp addr) addr value

pub write : Memphy → ℕ → ℕ → Run (ℕ × Memphy)
unfolding seq_write store
write mp addr value =
    if out_of_range mp addr
    then ok (failure, mp)
    else if mp.rdmflg == 0
    then seq_write mp addr value
    else store mp addr value

-- The nodes for `left` frames from `iter` on; the last one points to NULL.
abbrev pub frames_from : ℕ → ℕ → Chain ℕ
frames_from iter zero = null
frames_from iter (suc left) = cons iter (frames_from (iter + 1) left)

-- `MEMPHY_format`. The first node gets its link only when a second one follows.
pub format : Memphy → ℕ → Run (ℕ × Memphy)
format mp pagesz = do
  numfp ← sdiv mp.maxsz pagesz
  if not (slt 0 numfp)
      then ok (failure, mp)
      else ok (
        0,
        record mp {
          free_fp_list = cons 0 (if numfp == 1 then wild else frames_from 1 (numfp - 1));
        },
      )

pub get_freefp : Memphy → Run (ℕ × Option ℕ × Memphy)
get_freefp mp = elim mp.free_fp_list [
  | null ↦ ok (failure, none, mp)
  | wild ↦ fault
  | cons fpn rest ↦ ok (0, some fpn, record mp { free_fp_list = rest })
]

unfoldable pub put_freefp : Memphy → ℕ → ℕ × Memphy
put_freefp mp fpn = (0, record mp { free_fp_list = cons fpn mp.free_fp_list })

-- `init_memphy` on a structure whose fields are still indeterminate, those of the argument. A
-- negative size makes an allocation that cannot succeed.
pub init_memphy : Memphy → ℕ → ℕ → Run (ℕ × Memphy)
init_memphy mp max_size randomflg = if is_neg max_size then fault else do
  (code, mp') ← format (record mp { storage = replicate max_size 0; maxsz = max_size }) 256
  ok (
    0,
    record mp' {
      rdmflg = if randomflg == 0 then 0 else 1;
      cursor = if randomflg == 0 then 0 else mp'.cursor;
    },
  )

-- The cell of a frame, `fpn * PAGING_PAGESZ + cellidx`
pub cell_addr : ℕ → ℕ → Run ℕ
cell_addr fpn cellidx = do base ← smul fpn 256; sadd base cellidx

-- The loop of `__swap_cp_page` with `left` cells to go. A byte that could not be read is
-- indeterminate when it is written.
pub swap_cp_loop : ℕ → ℕ → Memphy → ℕ → Memphy → ℕ → Run (Memphy × Memphy)
unfolding read write cell_addr
swap_cp_loop zero cellidx mpsrc srcfpn mpdst dstfpn = ok (mpsrc, mpdst)
swap_cp_loop (suc left) cellidx mpsrc srcfpn mpdst dstfpn = do
  addrsrc ← cell_addr srcfpn cellidx
  addrdst ← cell_addr dstfpn cellidx
  (code, cell, mpsrc') ← read mpsrc addrsrc
  byte ← defined cell
  (code', mpdst') ← write mpdst addrdst byte
  swap_cp_loop left (cellidx + 1) mpsrc' srcfpn mpdst' dstfpn

-- `__swap_cp_page` of src/mm.c, between two devices
pub swap_cp_page : Memphy → ℕ → Memphy → ℕ → Run (Memphy × Memphy)
unfolding swap_cp_loop
swap_cp_page mpsrc srcfpn mpdst dstfpn = swap_cp_loop 256 0 mpsrc srcfpn mpdst dstfpn
