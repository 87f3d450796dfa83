-- ===== src/Mm/Mapping.antt =====
-- `vmap_page_range` on a list of frames.
use waguri.Base.{
  ℕ, zero, suc, ◌+◌, ◌-◌, ◌*◌, ◌≤◌, ◌<◌, ◌^◌, ◌≡◌, refl, sym, ◌∙◌, ◌⊎◌, inl, arith, some, List, [],
  ◌∷◌, ◌++◌, ok, Chain, chain, length, get_elem?, length-set, get_elem?-set_self, get_elem?-set_ne,
  get_elem?-some, lt_of_get_elem?, chain-append,
}
use waguri.Cint.{sadd-ok, smul-ok, sadd-minus_one, is_neg-lt}
use waguri.Pte.{pte_set_fpn, pgn_of}
use waguri.Mm.{Mm, Caller, get_pte, set_pte, enlist_pgn_node, vmap_loop, vmap_page_range}

-- The `n` pages from `cur` on, last first.
abbrev pub pages_down : ℕ → ℕ → List ℕ
pages_down cur zero = []
pages_down cur (suc n) = pages_down (cur + 1) n ++ cur ∷ []

-- `mm'` is `mm` with the pages from `cur` on mapped to the frames `fs`.
pub record Mapped (mm mm' : Mm) (cur : ℕ) (fs : List ℕ) : Type 0 where
  pub size : length mm'.pgd ≡ length mm.pgd
  pub entry :
      (i f pte : ℕ)
      → get_elem? fs i ≡ some f
      → get_elem? mm.pgd (cur + i) ≡ some pte
      → get_elem? mm'.pgd (cur + i) ≡ some (pte_set_fpn pte f)
  pub rest : (k : ℕ) → (k < cur) ⊎ (cur + length fs ≤ k) → get_elem? mm'.pgd k ≡ get_elem? mm.pgd k
  pub queued : mm'.fifo_pgn ≡ chain (pages_down cur (length fs)) mm.fifo_pgn
  pub areas : mm'.mmap ≡ mm.mmap
  pub symbols : mm'.symrgtbl ≡ mm.symrgtbl

length-mapped :
    (mm : Mm) (cur v : ℕ) → length (enlist_pgn_node (set_pte mm cur v) cur).pgd ≡ length mm.pgd
unfolding enlist_pgn_node set_pte
length-mapped mm cur v = length-set mm.pgd cur v

pub get_pte-ok :
    (mm : Mm) (pgn : ℕ) {pte : ℕ} → get_elem? mm.pgd pgn ≡ some pte → get_pte mm pgn ≡ ok pte
unfolding get_pte
get_pte-ok mm pgn e = rw e

-- One page mapped, then the others.
Mapped-cons :
    (mm mm' : Mm) (cur f pte : ℕ) (fs : List ℕ)
    → get_elem? mm.pgd cur ≡ some pte
    → Mapped (enlist_pgn_node (set_pte mm cur (pte_set_fpn pte f)) cur) mm' (cur + 1) fs
    → Mapped mm mm' cur (f ∷ fs)
unfolding set_pte enlist_pgn_node
Mapped-cons mm mm' cur f pte fs e m = record {
  size = m.size ∙ length-set mm.pgd cur written;
  entry = entry;
  rest = λ k out. m.rest k (omega arith) ∙ get_elem?-set_ne mm.pgd cur k written (omega arith);
  queued = m.queued ∙ sym (chain-append (pages_down (cur + 1) (length fs)) (cur ∷ []) mm.fifo_pgn);
  areas = m.areas;
  symbols = m.symbols;
}
  where
    written : ℕ
    written = pte_set_fpn pte f

    first : get_elem? mm'.pgd cur ≡ some written
    first =
        m.rest cur (inl (omega arith))
        ∙ get_elem?-set_self mm.pgd cur written (lt_of_get_elem? mm.pgd cur e)

    entry :
        (i f' pte' : ℕ)
        → get_elem? (f ∷ fs) i ≡ some f'
        → get_elem? mm.pgd (cur + i) ≡ some pte'
        → get_elem? mm'.pgd (cur + i) ≡ some (pte_set_fpn pte' f')
    entry zero f' pte' ef ep =
        let ec : cur + 0 ≡ cur = omega arith in
        let ep' : get_elem? mm.pgd cur ≡ some pte' = rw ec at ep in rw ec (first ∙ cc)
    entry (suc i) f' pte' ef ep =
        let ec : cur + suc i ≡ cur + 1 + i = omega arith in
        rw ec (
          m.entry i f' pte' ef
            (get_elem?-set_ne mm.pgd cur (cur + 1 + i) written (omega arith) ∙ rw ec at ep))

pub vmap_loop-Mapped :
    (fs : List ℕ) (cur : ℕ) (end : Chain ℕ) (mm : Mm)
    → cur + length fs ≤ length mm.pgd
    → (mm' : Mm) × (vmap_loop (length fs) cur (chain fs end) mm ≡ ok mm') × Mapped mm mm' cur fs
unfolding vmap_loop
vmap_loop-Mapped [] cur end mm h = (
  mm,
  refl,
  record {
    size = refl;
    entry = λ i f pte ef ep. ground arith;
    rest = λ k out. refl;
    queued = refl;
    areas = refl;
    symbols = refl;
  },
)
vmap_loop-Mapped (f ∷ fs) cur end mm h =
    let (pte, e) = get_elem?-some mm.pgd cur (omega arith) in
    let mm₁ = enlist_pgn_node (set_pte mm cur (pte_set_fpn pte f)) cur in
    let (mm', r, m) = vmap_loop-Mapped fs (cur + 1) end mm₁ (room pte) in
    (mm', rw (get_pte-ok mm cur e) r, Mapped-cons mm mm' cur f pte fs e m)
  where
    room :
        (pte : ℕ)
        → cur + 1 + length fs
          ≤ length (enlist_pgn_node (set_pte mm cur (pte_set_fpn pte f)) cur).pgd
    room pte = rw (length-mapped mm cur (pte_set_fpn pte f)) (omega arith)

-- `vmap_page_range` of as many pages as there are frames, at an address that is not negative and
-- whose pages lie in the page table, ends with the pages from the address on mapped to the frames
-- in order, and returns the region that they span.
pub vmap_page_range-Mapped :
    (caller : Caller) (addr : ℕ) (fs : List ℕ) (end : Chain ℕ)
    → 0 < length fs
    → addr + length fs * 256 < 2 ^ 31
    → pgn_of addr + length fs ≤ length caller.mm.pgd
    → (mm' : Mm) × (vmap_page_range caller addr (length fs) (chain fs end)
        ≡ ok (
          record { rg_start = addr; rg_end = addr + length fs * 256 - 1 },
          record caller { mm = mm' },
        ))
      × Mapped caller.mm mm' (pgn_of addr) fs
unfolding vmap_page_range
vmap_page_range-Mapped caller addr fs end h0 h1 h2 =
    let (mm', r, m) = vmap_loop-Mapped fs (pgn_of addr) end caller.mm h2 in
    (
      mm',
      rw
          (
            smul-ok (length fs) 256 (omega arith) (omega arith) (omega arith),
            sadd-ok addr (length fs * 256) h1,
            sadd-minus_one (addr + length fs * 256) (omega arith) h1,
            is_neg-lt (length fs) (omega arith),
            r,
            is_neg-lt addr (omega arith),
            is_neg-lt (addr + length fs * 256 - 1) (omega arith),
          )
          refl,
      m,
    )

-- The same with the count written another way.
pub vmap_page_range-count :
    (caller : Caller) (addr pgnum : ℕ) (fs : List ℕ) (end : Chain ℕ)
    → pgnum ≡ length fs
    → 0 < pgnum
    → addr + pgnum * 256 < 2 ^ 31
    → pgn_of addr + pgnum ≤ length caller.mm.pgd
    → (mm' : Mm) × (vmap_page_range caller addr pgnum (chain fs end)
        ≡ ok (
          record { rg_start = addr; rg_end = addr + pgnum * 256 - 1 },
          record caller { mm = mm' },
        ))
      × Mapped caller.mm mm' (pgn_of addr) fs
vmap_page_range-count caller addr pgnum fs end e h0 h1 h2 =
    rw e (
      vmap_page_range-Mapped caller addr fs end (omega arith) (omega (arith, e)) (omega (arith, e)))
