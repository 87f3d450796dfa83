-- ===== src/Memphy/Frames.antt =====
-- The free frames of a device, and how a device starts.
use waguri.Base.{
  ℕ, zero, suc, ◌+◌, ◌-◌, ◌/◌, ◌^◌, ◌≤◌, ◌<◌, ◌≡◌, refl, ap, arith, List, [], ◌∷◌, none, some,
  replicate, length-replicate, ok, Chain, lt→leb, if◌then◌else◌, ◌==◌, false, not, ◌↔◌, null, wild,
  cons, chain,
}
use native.Mathlib.Decide.{dec_lt}
use waguri.Cint.{slt, sdiv-ok}
use waguri.Memphy.{Memphy, failure, frames_from, format, get_freefp, put_freefp, init_memphy}
use waguri.Memphy.Access.{IsValid}

-- The numbers from `i` on, `n` of them.
abbrev pub range_from : ℕ → ℕ → List ℕ
range_from i zero = []
range_from i (suc n) = i ∷ range_from (i + 1) n

frames_from-chain : (i n : ℕ) → frames_from i n ≡ chain (range_from i n) null
frames_from-chain i zero = refl
frames_from-chain i (suc n) = ap (cons i) (frames_from-chain (i + 1) n)

-- How the free list of a device of `n` frames starts: a single frame leaves the list without its
-- end.
abbrev pub fresh_frames : ℕ → Chain ℕ
fresh_frames zero = wild
fresh_frames (suc zero) = cons 0 wild
fresh_frames (suc (suc n)) = chain (range_from 0 (suc (suc n))) null

fresh_frames_lem :
    (n : ℕ) → 1 ≤ n → cons 0 (if n == 1 then wild else frames_from 1 (n - 1)) ≡ fresh_frames n
fresh_frames_lem zero h = absurd (omega arith)
fresh_frames_lem (suc zero) h = refl
fresh_frames_lem (suc (suc n)) h =
    let e : (suc (suc n) == 1) ≡ false = ground arith in
    let e' : suc (suc n) - 1 ≡ suc n = omega arith in
    rw (e, e') (ap (cons 0) (frames_from-chain 1 (suc n)))

-- `MEMPHY_format` with pages of 256 bytes: a device below one page is refused and keeps its list;
-- one of a single page gets a list with frame 0 whose end is indeterminate; any larger one gets
-- all its frames in order, ended by NULL.
pub format_frames :
    (mp : Memphy)
    → mp.maxsz < 2 ^ 31
    → (mp.maxsz < 256 → format mp 256 ≡ ok (failure, mp))
      × (256 ≤ mp.maxsz
          → format mp 256 ≡ ok (0, record mp { free_fp_list = fresh_frames (mp.maxsz / 256) }))
unfolding format
format_frames mp h = rw (sdiv-ok mp.maxsz 256 h (omega arith) (omega arith)) (
  λ few. let e : mp.maxsz / 256 ≡ 0 = omega arith in rw e refl,
  λ enough.
      let e : not (slt 0 (mp.maxsz / 256)) ≡ false = ground arith in
      rw (e, fresh_frames_lem (mp.maxsz / 256) (omega arith)) refl,
)

-- What `init_memphy` makes of a structure: zeroed cells, the mode of the flag, and a free list
-- only when there is room for a frame.
pub record IsFresh (mp mp' : Memphy) (max_size randomflg : ℕ) : Type 0 where
  pub valid : IsValid mp'
  pub sized : mp'.maxsz ≡ max_size
  pub zeroed : mp'.storage ≡ replicate max_size 0
  pub mode : (mp'.rdmflg ≡ 0) ↔ (randomflg ≡ 0)
  pub listed : 256 ≤ max_size → mp'.free_fp_list ≡ fresh_frames (max_size / 256)
  pub unlisted : max_size < 256 → mp'.free_fp_list ≡ mp.free_fp_list

-- `init_memphy` with a size that is not negative succeeds and makes a valid zeroed device of that
-- size, which is of random access exactly when the flag is not 0; its free list is the one of
-- `MEMPHY_format`, and is still indeterminate when the size is below one page.
pub init_memphy-IsFresh :
    (mp : Memphy) (max_size randomflg : ℕ)
    → max_size < 2 ^ 31
    → (mp' : Memphy) × (init_memphy mp max_size randomflg ≡ ok (0, mp'))
      × IsFresh mp mp' max_size randomflg
unfolding init_memphy
init_memphy-IsFresh mp max_size randomflg h = elim (dec_lt max_size 256) [
  | yes few ↦ (
    started mp.free_fp_list,
    rw (lt→leb (2 ^ 31) max_size h, (format_frames sized h).0 few) refl,
    fresh mp.free_fp_list (λ enough. absurd (omega arith)) (λ _. refl),
  )
  | no enough ↦ (
    started (fresh_frames (max_size / 256)),
    rw (lt→leb (2 ^ 31) max_size h, (format_frames sized h).1 (omega arith)) refl,
    fresh (fresh_frames (max_size / 256)) (λ _. refl) (λ few. absurd (omega arith)),
  )
]
  where
    sized : Memphy
    sized = record mp { storage = replicate max_size 0; maxsz = max_size }

    started : Chain ℕ → Memphy
    started l = record sized {
      free_fp_list = l;
      rdmflg = if randomflg == 0 then 0 else 1;
      cursor = if randomflg == 0 then 0 else mp.cursor;
    }

    fresh :
        (l : Chain ℕ)
        → (256 ≤ max_size → l ≡ fresh_frames (max_size / 256))
        → (max_size < 256 → l ≡ mp.free_fp_list)
        → IsFresh mp (started l) max_size randomflg
    fresh l p q = record {
      valid = record { cells = length-replicate max_size 0; small = h };
      sized = refl;
      zeroed = refl;
      mode = ground arith;
      listed = p;
      unlisted = q;
    }

-- A frame given back is the next one taken, and taking it restores the device; with the list at
-- its end the call fails and changes nothing.
pub get_freefp-put_freefp :
    (mp : Memphy) (fpn : ℕ)
    → (get_freefp (put_freefp mp fpn).1 ≡ ok (0, some fpn, mp))
      × (mp.free_fp_list ≡ null → get_freefp mp ≡ ok (failure, none, mp))
unfolding get_freefp put_freefp
get_freefp-put_freefp mp fpn = (refl, λ e. rw e)

pub get_freefp-cons :
    (mp : Memphy) {fpn : ℕ} {rest : Chain ℕ}
    → mp.free_fp_list ≡ cons fpn rest
    → get_freefp mp ≡ ok (0, some fpn, record mp { free_fp_list = rest })
unfolding get_freefp
get_freefp-cons mp {rest} e = ground (arith, e)

pub get_freefp-null :
    (mp : Memphy) → mp.free_fp_list ≡ null → get_freefp mp ≡ ok (failure, none, mp)
unfolding get_freefp
get_freefp-null mp e = ground (arith, e)
