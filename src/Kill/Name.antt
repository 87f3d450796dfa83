-- ===== src/Kill/Name.antt =====
-- The name that the killall of src/sys_killall.c reads from a region of its caller.
use waguri.Base.{
  ℕ, zero, suc, ◌+◌, ◌%◌, ◌^◌, ◌≤◌, ◌<◌, ◌≡◌, ◌≢◌, refl, arith, false, none, some, List, [], ◌∷◌,
  ≢→==, length, ok, fault, Chain, cons,
}
use waguri.Cint.{slt, to_int}
use waguri.Memphy.{failure}
use waguri.Mm.{Vma, Caller}
use waguri.Libmem.{max_symtbl_sz}
use waguri.PageAccess.{libread}
use waguri.PageAccess.Region.{region_past_table}
use waguri.Machine.{Process, System, process_at, caller_of, put_caller}
use waguri.Kill.{name_loop, name_size, kill_named, sys_killall}

-- The bytes that the region reads as at the indices from `i` to `n`, none of which is -1, with the caller before and
-- after: a read that fetches a page changes it.
pub data Spelled (memrg : ℕ) : Caller → ℕ → List ℕ → ℕ → Caller → Type 0 where
  no_more : {caller : Caller} {i : ℕ} → Spelled memrg caller i [] i caller
  byte :
      {caller next last : Caller} {i v n : ℕ} {vs : List ℕ}
      → libread caller memrg i ≡ ok (0, some v, next)
      → v ≢ failure
      → Spelled memrg next (i + 1) vs n last
      → Spelled memrg caller i (v ∷ vs) n last

-- What ends up in `proc_name`
abbrev pub bytes_of : List ℕ → List ℕ
bytes_of [] = 0 ∷ []
bytes_of (v ∷ vs) = v % 256 ∷ bytes_of vs

name_loop-Spelled :
    (left old : ℕ) {caller read last : Caller} {memrg i n : ℕ} {values : List ℕ}
    → length values < left
    → Spelled memrg caller i values n read
    → libread read memrg n ≡ ok (0, some failure, last)
    → name_loop left i memrg old caller ≡ ok (bytes_of values, last)
unfolding name_loop
name_loop-Spelled zero old lt h end = absurd (omega arith)
name_loop-Spelled (suc left) old lt no_more end = rw end refl
name_loop-Spelled (suc left) old lt (byte {caller} {next} {last} {i} {v} {n} {vs} here ne h) end =
    rw (here, ≢→== v failure ne, name_loop-Spelled left v (omega arith) h end) refl

name_loop-overrun :
    (left old : ℕ) {caller last : Caller} {memrg i n : ℕ} {values : List ℕ}
    → left ≤ length values
    → Spelled memrg caller i values n last
    → name_loop left i memrg old caller ≡ fault
unfolding name_loop
name_loop-overrun zero old le h = refl
name_loop-overrun (suc left) old le no_more = absurd (omega arith)
name_loop-overrun (suc left) old le (byte {caller} {next} {last} {i} {v} {n} {vs} here ne h) =
    rw (here, ≢→== v failure ne, name_loop-overrun left v (omega arith) h) refl

-- A region that cannot be read never ends the loop.
name_loop-unreadable :
    (left i old memrg : ℕ) (caller : Caller)
    → old ≢ failure
    → ((j : ℕ) → libread caller memrg j ≡ ok (failure, none, caller))
    → name_loop left i memrg old caller ≡ fault
unfolding name_loop
name_loop-unreadable zero i old memrg caller ne h = refl
name_loop-unreadable (suc left) i old memrg caller ne h =
    rw (h i, ≢→== old failure ne, name_loop-unreadable left (i + 1) old memrg caller ne h) refl

module _ (sys : System) (addr memrg : ℕ) (proc : Process)
    (here : process_at sys addr ≡ ok proc) where
  -- A region that reads as fewer than 100 bytes before the first -1: killall looks for the name of these bytes, in the
  -- machine that the reads leave, which differs when they fetch pages.
  pub sys_killall-Spelled :
      (n : ℕ) (values : List ℕ) {read last : Caller}
      → length values < name_size
      → Spelled memrg (caller_of sys proc) 0 values n read
      → libread read memrg n ≡ ok (0, some failure, last)
      → sys_killall sys addr memrg ≡ kill_named (put_caller sys addr proc last) (bytes_of values)
  unfolding sys_killall
  sys_killall-Spelled n values lt h end = rw (here, name_loop-Spelled name_size 0 lt h end) refl

  -- The loop that reads the name does not stop at the end of its array of 100 bytes: a region that
  -- reads as 100 bytes none of which is -1 makes it write past the end.
  pub sys_killall-overrun :
      (n : ℕ) (values : List ℕ) {last : Caller}
      → name_size ≤ length values
      → Spelled memrg (caller_of sys proc) 0 values n last
      → sys_killall sys addr memrg ≡ fault
  unfolding sys_killall
  sys_killall-overrun n values le h = rw (here, name_loop-overrun name_size 0 le h) refl

  -- A region number above 30, whose reading always fails, makes killall write past its array of 100
  -- bytes.
  pub sys_killall-unreadable :
      (v : Vma) (rest : Chain Vma)
      → proc.mm.mmap ≡ cons v rest
      → slt (to_int v.vm_id) 0 ≡ false
      → length proc.mm.symrgtbl ≡ max_symtbl_sz
      → 30 < memrg
      → memrg < 2 ^ 32
      → sys_killall sys addr memrg ≡ fault
  unfolding sys_killall
  sys_killall-unreadable v rest ea en el lo hi =
      rw
        (
          here,
          name_loop-unreadable name_size 0 0 memrg (caller_of sys proc) (λ e. omega arith)
              (λ j. ((region_past_table (caller_of sys proc) memrg j 0 v rest ea en el).1 lo hi).0),
        )
        refl
