-- ===== src/Memphy/Access.antt =====
-- Reads, writes and page copies on a physical device.
use waguri.Base.{
  ℕ, ◌^◌, ◌<◌, ◌≡◌, ◌≢◌, refl, ◌∙◌, inl, inr, arith, true, false, Bool-cases, none, some, List,
  length, get_elem?, set, length-set, get_elem?-set_self, get_elem?-set_ne, get_elem?-some, ok,
}
use waguri.Memphy.{Memphy, failure, out_of_range, read, write}

-- The storage has the size that the device claims.
pub record IsValid (mp : Memphy) : Type 0 where
  pub cells : length mp.storage ≡ mp.maxsz
  pub small : mp.maxsz < 2 ^ 31

abbrev pub IsRandom : Memphy → Type 0
IsRandom mp = mp.rdmflg ≢ 0

in_range :
    (mp : Memphy) (addr : ℕ) → mp.maxsz < 2 ^ 31 → addr < mp.maxsz → out_of_range mp addr ≡ false
in_range mp addr h h' = ground arith

pub read-ok :
    {mp : Memphy} {addr v : ℕ}
    → IsValid mp
    → IsRandom mp
    → get_elem? mp.storage addr ≡ some v
    → addr < mp.maxsz
    → read mp addr ≡ ok (0, some v, mp)
unfolding read
read-ok {mp} {addr} valid random e h = ground (arith, in_range mp addr valid.small h)

pub write-ok :
    {mp : Memphy} {addr : ℕ} (v : ℕ)
    → IsValid mp
    → IsRandom mp
    → addr < mp.maxsz
    → write mp addr v ≡ ok (0, record mp { storage = set mp.storage addr v })
unfolding write
write-ok {mp} {addr} v valid random h =
    let (old, e) = get_elem?-some mp.storage addr (omega (arith, valid.cells)) in
    ground (arith, in_range mp addr valid.small h)

pub storage-IsValid :
    {mp : Memphy} {s : List ℕ}
    → IsValid mp
    → length s ≡ length mp.storage
    → IsValid (record mp { storage = s })
storage-IsValid valid e = record { cells = e ∙ valid.cells; small = valid.small }

-- On a random access device a write in range succeeds, a read of that cell then gives the byte
-- written and leaves the device as it is, every other cell is unchanged, and the device stays
-- valid.
pub read-write :
    (mp : Memphy) (addr v : ℕ)
    → IsValid mp
    → IsRandom mp
    → addr < mp.maxsz
    → (mp' : Memphy) × (write mp addr v ≡ ok (0, mp'))
      × (read mp' addr ≡ ok (0, some v, mp'))
      × ((j : ℕ) → j ≢ addr → get_elem? mp'.storage j ≡ get_elem? mp.storage j)
      × IsValid mp'
read-write mp addr v valid random h = (
  record mp { storage = set mp.storage addr v },
  write-ok v valid random h,
  read-ok (storage-IsValid valid (length-set mp.storage addr v)) random
      (get_elem?-set_self mp.storage addr v (omega (arith, valid.cells))) h,
  λ j ne. get_elem?-set_ne mp.storage addr j v (λ e. ne (ground arith)),
  storage-IsValid valid (length-set mp.storage addr v),
)

-- An address that is negative or not below the size is refused with -1 by the read and the write,
-- on either kind of device, and changes nothing.
pub access_out_of_range :
    (mp : Memphy) (addr v : ℕ)
    → out_of_range mp addr ≡ true
    → (read mp addr ≡ ok (failure, none, mp)) × (write mp addr v ≡ ok (failure, mp))
unfolding read write
access_out_of_range mp addr v h = rw h (refl, refl)

-- On a sequential device every read and every write fails with -1 and changes nothing: the
-- functions for sequential access refuse just the devices that they are called for.
pub sequential_access_fails :
    (mp : Memphy) (addr v : ℕ)
    → mp.rdmflg ≡ 0
    → (read mp addr ≡ ok (failure, none, mp)) × (write mp addr v ≡ ok (failure, mp))
unfolding read write
sequential_access_fails mp addr v h = elim (Bool-cases (out_of_range mp addr)) [
  | inl out ↦ rw out (refl, refl)
  | inr inside ↦ rw (inside, h) (refl, refl)
]
