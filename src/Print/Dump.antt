-- ===== src/Print/Dump.antt =====
-- What `MEMPHY_dump` of src/mm-memphy.c prints.
use waguri.Base.{
  ℕ, zero, suc, ◌+◌, ◌*◌, ◌/◌, ◌%◌, ◌^◌, ◌<◌, ◌≡◌, refl, sym, ap, ◌∙◌, arith, inl, inr, Bool, false,
  some, List, [], ◌∷◌, ◌++◌, ◌==◌, if◌then◌else◌, Bool-cases, ==_refl, length, length-append,
  get_elem?, get_elem?-append_right, ok,
}
use mathlib.Core.List.{append_assoc}
use waguri.Cint.{slt, sdiv-ok, sext_char}
use waguri.Memphy.{Memphy}
use waguri.Print.{Out, word, word_sum, dump_loop, memphy_dump}

-- Four bytes of a device
pub record Word : Type 0 where
  pub b0 : ℕ
  pub b1 : ℕ
  pub b2 : ℕ
  pub b3 : ℕ

abbrev pub bytes : List Word → List ℕ
bytes [] = []
bytes (w ∷ ws) = w.b0 ∷ w.b1 ∷ w.b2 ∷ w.b3 ∷ bytes ws

abbrev pub sum_of : Word → ℕ
sum_of w = word_sum w.b0 w.b1 w.b2 w.b3

abbrev pub line_of : ℕ → Word → Out
line_of i w = word (i * 4) (sext_char w.b0) (sext_char w.b1) (sext_char w.b2) (sext_char w.b3)

-- The lines of the words from `i` on, those left out whose bytes add up to 0
abbrev pub lines : ℕ → List Word → List Out
lines i [] = []
lines i (w ∷ ws) = let rest = lines (i + 1) ws in if sum_of w == 0 then rest else line_of i w ∷ rest

-- A cell behind `pre`
cell_at :
    (pre zs : List ℕ) (i k : ℕ) → length pre ≡ i → get_elem? (pre ++ zs) (i + k) ≡ get_elem? zs k
cell_at pre zs i k at =
    let e : i + k ≡ length pre + k = omega (arith, at) in
    ap (get_elem? (pre ++ zs)) e ∙ get_elem?-append_right pre zs k

dump_loop-lines :
    (ws : List Word) (pre tail : List ℕ) (i : ℕ)
    → length pre ≡ i * 4
    → dump_loop (length ws) i (pre ++ (bytes ws ++ tail)) ≡ ok (lines i ws)
unfolding dump_loop
dump_loop-lines [] pre tail i at = refl
dump_loop-lines (w ∷ ws) pre tail i at =
    let four : List ℕ = w.b0 ∷ w.b1 ∷ w.b2 ∷ w.b3 ∷ [] in
    let zs = w.b0 ∷ w.b1 ∷ w.b2 ∷ w.b3 ∷ bytes ws ++ tail in
    let first : get_elem? (pre ++ zs) (i * 4) ≡ some w.b0 =
      ap (get_elem? (pre ++ zs)) (omega arith) ∙ cell_at pre zs (i * 4) 0 at in
    let rest : dump_loop (length ws) (i + 1) (pre ++ zs) ≡ ok (lines (i + 1) ws) =
      ap (dump_loop (length ws) (i + 1)) (sym (append_assoc pre four (bytes ws ++ tail)))
      ∙ dump_loop-lines ws (pre ++ four) tail (i + 1) (omega (arith, length-append pre four, at)) in
    rw
      (
        first,
        cell_at pre zs (i * 4) 1 at,
        cell_at pre zs (i * 4) 2 at,
        cell_at pre zs (i * 4) 3 at,
        rest,
      )
      refl

length-bytes : (ws : List Word) → length (bytes ws) ≡ length ws * 4
length-bytes [] = refl
length-bytes (w ∷ ws) = omega (arith, length-bytes ws)

-- A device holds the words, and perhaps up to three bytes behind them.
pub record Stores (mp : Memphy) (ws : List Word) : Type 0 where
  pub tail : List ℕ
  pub storage : mp.storage ≡ bytes ws ++ tail
  pub short : length tail < 4
  pub sized : mp.maxsz ≡ length mp.storage
  pub small : mp.maxsz < 2 ^ 31

memphy_dump-lines :
    (mp : Memphy) (ws : List Word) → Stores mp ws → memphy_dump mp ≡ ok (0, lines 0 ws)
unfolding memphy_dump
memphy_dump-lines mp ws s =
    let size : mp.maxsz ≡ length ws * 4 + length s.tail =
      s.sized
      ∙ ap length s.storage
      ∙ length-append (bytes ws) s.tail
      ∙ omega (arith, length-bytes ws) in
    let words : mp.maxsz / 4 ≡ length ws = omega (arith, s.short) in
    let count : (if slt 0 (length ws) then length ws else 0) ≡ length ws =
      ground (arith, s.small, size) in
    rw
      (
        sdiv-ok mp.maxsz 4 s.small (omega arith) (omega arith),
        words,
        count,
        s.storage,
        dump_loop-lines ws [] s.tail 0 refl,
      )
      refl

-- What somebody who reads the lines finds for each of so many words, from word `i` on
abbrev pub zeros : Word
zeros = record { b0 = 0; b1 = 0; b2 = 0; b3 = 0 }

abbrev is_at : ℕ → Out → Bool
is_at i (word addr b0 b1 b2 b3) = addr == i * 4
is_at i _ = false

abbrev word_of : Out → Word
word_of (word addr b0 b1 b2 b3) = record {
  b0 = b0 % 256;
  b1 = b1 % 256;
  b2 = b2 % 256;
  b3 = b3 % 256;
}
word_of _ = zeros

abbrev pub restore : ℕ → ℕ → List Out → List Word
restore zero i outs = []
restore (suc left) i [] = zeros ∷ restore left (i + 1) []
restore (suc left) i (o ∷ os) =
    let listed = restore left (i + 1) os in
    let absent = restore left (i + 1) (o ∷ os) in
    if is_at i o then word_of o ∷ listed else zeros ∷ absent

-- The first line is not that of word `i`.
abbrev Past : ℕ → List Out → Type 0
Past i [] = Unit
Past i (o ∷ os) = is_at i o ≡ false

restore-Past :
    (left i : ℕ) (outs : List Out)
    → Past i outs
    → restore (suc left) i outs ≡ zeros ∷ restore left (i + 1) outs
restore-Past left i [] h = refl
restore-Past left i (o ∷ os) h = rw h refl

lines-Past : (ws : List Word) (i j : ℕ) → i < j → Past i (lines j ws)
lines-Past [] i j h = tt
lines-Past (w ∷ ws) i j h = elim (Bool-cases (sum_of w == 0)) [
  | inl e ↦ rw e (lines-Past ws i (j + 1) (omega arith))
  | inr e ↦ rw e (ground arith)
]

-- Every byte is below 128.
abbrev pub AllLow : List Word → Type 0
AllLow [] = Unit
AllLow (w ∷ ws) = (w.b0 < 128) × (w.b1 < 128) × (w.b2 < 128) × (w.b3 < 128) × AllLow ws

lines-restore : (ws : List Word) (i : ℕ) → AllLow ws → restore (length ws) i (lines i ws) ≡ ws
lines-restore [] i low = refl
lines-restore (w ∷ ws) i (l0, l1, l2, l3, low) = elim (Bool-cases (sum_of w == 0)) [
  | inl e ↦
      let z0 : w.b0 ≡ 0 = ground (arith, e) in
      let z1 : w.b1 ≡ 0 = ground (arith, e) in
      let z2 : w.b2 ≡ 0 = ground (arith, e) in
      let z3 : w.b3 ≡ 0 = ground (arith, e) in
      let is : zeros ≡ w =
        λ k. record { b0 = sym z0 k; b1 = sym z1 k; b2 = sym z2 k; b3 = sym z3 k } in
      rw e (
        restore-Past (length ws) i (lines (i + 1) ws) (lines-Past ws i (i + 1) (omega arith))
        ∙ (λ k. is k ∷ lines-restore ws (i + 1) low k))
  | inr e ↦
      let s0 : sext_char w.b0 % 256 ≡ w.b0 = ground arith in
      let s1 : sext_char w.b1 % 256 ≡ w.b1 = ground arith in
      let s2 : sext_char w.b2 % 256 ≡ w.b2 = ground arith in
      let s3 : sext_char w.b3 % 256 ≡ w.b3 = ground arith in
      rw (e, ==_refl (i * 4))
        (λ k.
          record { b0 = s0 k; b1 = s1 k; b2 = s2 k; b3 = s3 k } ∷ lines-restore ws (i + 1) low k)
]

-- For a device whose bytes are all below 128, `MEMPHY_dump` reads nothing
-- outside the device, gives 0, and prints lines from which every whole word of the device can be found
-- again: the words that it leaves out are those of four bytes 0.
pub memphy_dump-restore :
    (mp : Memphy) (ws : List Word)
    → Stores mp ws
    → AllLow ws
    → (outs : List Out) × (memphy_dump mp ≡ ok (0, outs)) × (restore (length ws) 0 outs ≡ ws)
memphy_dump-restore mp ws s low = (lines 0 ws, memphy_dump-lines mp ws s, lines-restore ws 0 low)

lines-hides :
    (pre post : List Word) (w : Word) (i : ℕ)
    → sum_of w ≡ 0
    → lines i (pre ++ w ∷ post) ≡ lines i (pre ++ zeros ∷ post)
lines-hides [] post w i e = rw e refl
lines-hides (v ∷ pre) post w i e = rw (lines-hides pre post w (i + 1) e) refl

-- Bytes are of a signed type: `MEMPHY_dump` prints the same of a device that has a word whose bytes add
-- up to 0, such as 1, 255, 0, 0, as of one with four bytes 0 in its place.
pub memphy_dump-hides :
    (mp mp' : Memphy) (pre post : List Word) (w : Word)
    → Stores mp (pre ++ w ∷ post)
    → Stores mp' (pre ++ zeros ∷ post)
    → sum_of w ≡ 0
    → memphy_dump mp ≡ memphy_dump mp'
memphy_dump-hides mp mp' pre post w s s' e =
    memphy_dump-lines mp (pre ++ w ∷ post) s
    ∙ ap (λ outs. ok (0, outs)) (lines-hides pre post w 0 e)
    ∙ sym (memphy_dump-lines mp' (pre ++ zeros ∷ post) s')
