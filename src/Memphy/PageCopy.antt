-- ===== src/Memphy/PageCopy.antt =====
-- The cursor of a device, and page copies from one device to another.
use waguri.Base.{
  ℕ, zero, suc, ◌+◌, ◌*◌, ◌%◌, ◌^◌, ◌≤◌, ◌<◌, min, ◌≡◌, refl, sym, ◌∙◌, ◌⊎◌, inl, arith, some,
  Option, List, length, get_elem?, set, length-set, get_elem?-set_self, get_elem?-set_ne,
  get_elem?-some, ok, defined, >>=-eq-ok,
}
use native.Mathlib.Nat.{mod-add-mod}
use native.Mathlib.Decide.{dec_lt}
use waguri.Cint.{sadd-ok, smul-ok}
use waguri.Memphy.{Memphy, mv_csr, mv_csr_loop, read, write, cell_addr, swap_cp_loop, swap_cp_page}
use waguri.Memphy.Access.{IsValid, IsRandom, storage-IsValid, read-ok, write-ok}

next_cursor : (c n m : ℕ) → c ≡ n % m → 0 < m → (c + 1) % m ≡ (n + 1) % m
next_cursor c n m e h = rw e (mod-add-mod n m 1)

mv_csr_loop-cursor :
    (fuel numstep offset : ℕ) (mp : Memphy)
    → mp.maxsz < 2 ^ 31
    → offset < 2 ^ 31
    → numstep ≤ min offset mp.maxsz
    → mp.maxsz ≤ numstep + fuel
    → mp.cursor ≡ numstep % mp.maxsz
    → (mv_csr_loop fuel numstep offset mp).cursor ≡ min offset mp.maxsz % mp.maxsz
unfolding mv_csr_loop
mv_csr_loop-cursor zero numstep offset mp hm ho hn hf e =
    let full : numstep ≡ min offset mp.maxsz = omega arith in rw (← full) e
mv_csr_loop-cursor (suc fuel) numstep offset mp hm ho hn hf e =
    elim (dec_lt numstep (min offset mp.maxsz)) [
      | yes more ↦ ground (
        arith,
        mv_csr_loop-cursor fuel (numstep + 1) offset
            (record mp { cursor = (mp.cursor + 1) % mp.maxsz }) hm ho (omega arith) (omega arith)
            (next_cursor mp.cursor numstep mp.maxsz e (omega arith)),
      )
      | no done ↦ let full : numstep ≡ min offset mp.maxsz = omega arith in ground (arith, e)
    ]

-- `MEMPHY_mv_csr` ends with the cursor at the offset, or at the size taken round to 0 when the
-- offset is not below the size.
pub mv_csr_cursor :
    (mp : Memphy) (offset : ℕ)
    → mp.maxsz < 2 ^ 31
    → offset < 2 ^ 31
    → (mv_csr mp offset).cursor ≡ min offset mp.maxsz % mp.maxsz
unfolding mv_csr
mv_csr_cursor mp offset hm ho =
    mv_csr_loop-cursor mp.maxsz 0 offset (record mp { cursor = 0 }) hm ho (omega arith)
      (omega arith) (grind arith)

pub cell_addr-ok : (fpn i : ℕ) → fpn * 256 + i < 2 ^ 31 → cell_addr fpn i ≡ ok (fpn * 256 + i)
unfolding cell_addr
cell_addr-ok fpn i h =
    rw (smul-ok fpn 256 (omega arith) (omega arith) (omega arith), sadd-ok (fpn * 256) i h)

-- The frame lies on the device.
abbrev pub FrameIn : Memphy → ℕ → Type 0
FrameIn mp fpn = fpn * 256 + 256 ≤ mp.maxsz

-- `s` is `dst` with the page of frame `df` taken, from cell `i` on, from frame `sf` of `src`.
pub record Copied (src dst s : List ℕ) (sf df i : ℕ) : Type 0 where
  pub size : length s ≡ length dst
  pub page : (j : ℕ) → i ≤ j → j < 256 → get_elem? s (df * 256 + j) ≡ get_elem? src (sf * 256 + j)
  pub rest : (k : ℕ) → (k < df * 256 + i) ⊎ (df * 256 + 256 ≤ k) → get_elem? s k ≡ get_elem? dst k

Copied-step :
    (src dst s : List ℕ) (sf df i : ℕ) {v : ℕ}
    → get_elem? src (sf * 256 + i) ≡ some v
    → df * 256 + i < length dst
    → i < 256
    → Copied src (set dst (df * 256 + i) v) s sf df (i + 1)
    → Copied src dst s sf df i
Copied-step src dst s sf df i {v} ev hd hi c = record {
  size = c.size ∙ length-set dst (df * 256 + i) v;
  page = λ j lo hi'. elim (dec_lt i j) [
    | yes p ↦ c.page j (omega arith) hi'
    | no p ↦
        let e : j ≡ i = omega arith in
        rw e (
          c.rest (df * 256 + i) (inl (omega arith))
          ∙ (get_elem?-set_self dst (df * 256 + i) v hd ∙ sym ev))
  ];
  rest = λ k out. c.rest k (omega arith) ∙ get_elem?-set_ne dst (df * 256 + i) k v (omega arith);
}

swap_cp_loop-Copied :
    (left i : ℕ) (src dst : Memphy) (sf df : ℕ)
    → i + left ≡ 256
    → IsValid src
    → IsRandom src
    → FrameIn src sf
    → IsValid dst
    → IsRandom dst
    → FrameIn dst df
    → (s : List ℕ) × (swap_cp_loop left i src sf dst df ≡ ok (src, record dst { storage = s }))
      × Copied src.storage dst.storage s sf df i
unfolding swap_cp_loop
swap_cp_loop-Copied zero i src dst sf df e vs rs fs vd rd fd = (
  dst.storage,
  refl,
  record { size = refl; page = λ j lo hi. absurd (omega arith); rest = λ k h. refl },
)
swap_cp_loop-Copied (suc left) i src dst sf df e vs rs fs vd rd fd =
    let (v, ev) = get_elem?-some src.storage (sf * 256 + i) (omega (arith, vs.cells)) in
    let dst' : Memphy = record dst { storage = set dst.storage (df * 256 + i) v } in
    let vd' = storage-IsValid vd (length-set dst.storage (df * 256 + i) v) in
    let (s, es, copied) =
      swap_cp_loop-Copied left (i + 1) src dst' sf df (omega arith) vs rs fs vd' rd fd in
    (
      s,
      rw
          (
            cell_addr-ok sf i (omega (arith, vs.small)),
            cell_addr-ok df i (omega (arith, vd.small)),
            read-ok vs rs ev (omega arith),
            write-ok {addr = df * 256 + i} v vd rd (omega arith),
          )
          es,
      Copied-step src.storage dst.storage s sf df i ev (omega (arith, vd.cells)) (omega arith)
          copied,
    )

-- A page copy between two valid random access devices, from a frame that lies on the source to one
-- that lies on the target, ends without an undefined step and leaves the source as it is; the
-- target's frame then holds the source's page cell by cell, and the rest of it is unchanged.
pub swap_cp_page-Copied :
    (src dst : Memphy) (sf df : ℕ)
    → IsValid src
    → IsRandom src
    → FrameIn src sf
    → IsValid dst
    → IsRandom dst
    → FrameIn dst df
    → (s : List ℕ) × (swap_cp_page src sf dst df ≡ ok (src, record dst { storage = s }))
      × Copied src.storage dst.storage s sf df 0
unfolding swap_cp_page
swap_cp_page-Copied src dst sf df vs rs fs vd rd fd =
    swap_cp_loop-Copied 256 0 src dst sf df (omega arith) vs rs fs vd rd fd

mv_csr_loop-storage :
    (fuel numstep offset : ℕ) (mp : Memphy)
    → (mv_csr_loop fuel numstep offset mp).storage ≡ mp.storage
unfolding mv_csr_loop
mv_csr_loop-storage zero numstep offset mp = refl
mv_csr_loop-storage (suc fuel) numstep offset mp = ground (
  arith,
  mv_csr_loop-storage fuel (numstep + 1) offset (record mp { cursor = (mp.cursor + 1) % mp.maxsz }),
)

-- A read leaves the cells alone.
pub read-storage :
    (mp : Memphy) (addr : ℕ) {code : ℕ} {byte : Option ℕ} {mp' : Memphy}
    → read mp addr ≡ ok (code, byte, mp')
    → mp'.storage ≡ mp.storage
unfolding read mv_csr
read-storage mp addr h =
    ground (arith, h, mv_csr_loop-storage mp.maxsz 0 addr (record mp { cursor = 0 }))

-- A page copy leaves the cells of its source alone.
pub swap_cp_loop-source :
    (left i : ℕ) (src : Memphy) (sf : ℕ) (dst : Memphy) (df : ℕ) {src' dst' : Memphy}
    → swap_cp_loop left i src sf dst df ≡ ok (src', dst')
    → src'.storage ≡ src.storage
unfolding swap_cp_loop
swap_cp_loop-source zero i src sf dst df h = ground (arith, h)
swap_cp_loop-source (suc left) i src sf dst df h =
    let (a, ea, h₁) = >>=-eq-ok (cell_addr sf i) _ h in
    let (b, eb, h₂) = >>=-eq-ok (cell_addr df i) _ h₁ in
    let (r, er, h₃) = >>=-eq-ok (read src a) _ h₂ in
    let (v, ev, h₄) = >>=-eq-ok (defined r.1) _ h₃ in
    let (w, ew, h₅) = >>=-eq-ok (write dst b v) _ h₄ in
    swap_cp_loop-source left (i + 1) r.2 sf w.1 df h₅ ∙ read-storage src a er

pub swap_cp_page-source :
    (src : Memphy) (sf : ℕ) (dst : Memphy) (df : ℕ) {src' dst' : Memphy}
    → swap_cp_page src sf dst df ≡ ok (src', dst')
    → src'.storage ≡ src.storage
unfolding swap_cp_page
swap_cp_page-source src sf dst df h = swap_cp_loop-source 256 0 src sf dst df h
