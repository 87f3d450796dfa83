-- ===== src/Mm/Fifo.antt =====
-- The page list as a queue: pages go in at the front, and the victim comes from the back.
use waguri.Base.{ℕ, ◌≡◌, refl, arith, none, some, List, [], ◌∷◌, ◌++◌, ok, null, cons, chain}
use waguri.Memphy.{failure}
use waguri.Mm.{Mm, unlink_last, find_victim, find_victim_page, enlist_pgn_node}

unlink_last-chain :
    (pg next last : ℕ) (pgs : List ℕ)
    → unlink_last pg next (chain (pgs ++ last ∷ []) null)
      ≡ ok (last, cons pg (cons next (chain pgs null)))
unfolding unlink_last
unlink_last-chain pg next last [] = refl
unlink_last-chain pg next last (p ∷ pgs) = rw (unlink_last-chain next p last pgs)

find_victim-chain :
    (last : ℕ) (pgs : List ℕ)
    → find_victim (chain (pgs ++ last ∷ []) null) ≡ ok (0, some last, chain pgs null)
unfolding find_victim
find_victim-chain last [] = refl
find_victim-chain last (p ∷ []) = refl
find_victim-chain last (p ∷ q ∷ pgs) = rw (unlink_last-chain p q last pgs)

-- With pages in the list the victim is the one that has been in it longest, and exactly that one
-- leaves; a page that was enlisted before the search stays, at the front. With none the search
-- fails and changes nothing.
pub find_victim_page-fifo :
    (mm : Mm) (pgs : List ℕ) (oldest page : ℕ)
    → mm.fifo_pgn ≡ chain (pgs ++ oldest ∷ []) null
    → (find_victim_page mm ≡ ok (0, some oldest, record mm { fifo_pgn = chain pgs null }))
      × (find_victim_page (enlist_pgn_node mm page)
          ≡ ok (0, some oldest, enlist_pgn_node (record mm { fifo_pgn = chain pgs null }) page))
      × (find_victim_page (record mm { fifo_pgn = null })
          ≡ ok (failure, none, record mm { fifo_pgn = null }))
unfolding find_victim_page enlist_pgn_node
find_victim_page-fifo mm pgs oldest page e =
    (rw (e, find_victim-chain oldest pgs), rw (e, find_victim-chain oldest (page ∷ pgs)), refl)

pub find_victim_page-null :
    (mm : Mm) → mm.fifo_pgn ≡ null → find_victim_page mm ≡ ok (failure, none, mm)
unfolding find_victim_page find_victim
find_victim_page-null mm e = ground (arith, e)

pub find_victim_page-some :
    (mm : Mm) (pgs : List ℕ) (oldest : ℕ)
    → mm.fifo_pgn ≡ chain (pgs ++ oldest ∷ []) null
    → find_victim_page mm ≡ ok (0, some oldest, record mm { fifo_pgn = chain pgs null })
find_victim_page-some mm pgs oldest e = (find_victim_page-fifo mm pgs oldest 0 e).0
