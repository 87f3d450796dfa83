-- ===== src/Print/Lists.antt =====
-- What the functions of src/mm.c that show a list print.
use waguri.Base.{◌≡◌, refl, List, [], ◌∷◌, ◌++◌, map, ℕ, ok, fault, null, wild, chain}
use waguri.Memphy.{failure}
use waguri.Mm.{Region, Vma}
use waguri.Print.{
  Listing, print_list_fp, print_list_rg, print_list_vma, print_list_pgn, Out, name, null_list,
  newline, letter_n, fp, rg, va, page, each, print_list, list_fp, list_rg, list_vma, list_pgn,
}

-- The name, and a line for each element in their order, or the text of an empty list
abbrev pub shown {ℓ} : {A : Type ℓ} → Listing → (A → Out) → Out → List A → ℕ × List Out
shown which show last [] = (failure, name which ∷ null_list ∷ [])
shown which show last (x ∷ xs) = (0, name which ∷ newline ∷ map show (x ∷ xs) ++ last ∷ [])

module _ {ℓ} {A : Type ℓ} (which : Listing) (show : A → Out) (last : Out) where
  each-null : (xs : List A) → each show (chain xs null) ≡ ok (map show xs)
  unfolding each
  each-null [] = refl
  each-null (x ∷ xs) = rw (each-null xs) refl

  each-wild : (xs : List A) → each show (chain xs wild) ≡ fault
  unfolding each
  each-wild [] = refl
  each-wild (x ∷ xs) = rw (each-wild xs) refl

  pub print_list-null :
      (xs : List A) → print_list which show last (chain xs null) ≡ ok (shown which show last xs)
  unfolding print_list
  print_list-null [] = refl
  print_list-null (x ∷ xs) = rw (each-null (x ∷ xs)) refl

  pub print_list-wild : (xs : List A) → print_list which show last (chain xs wild) ≡ fault
  unfolding print_list
  print_list-wild [] = refl
  print_list-wild (x ∷ xs) = rw (each-wild (x ∷ xs)) refl

-- Each of the four functions prints its name and then every element of its list once, in their order;
-- for an empty list it says so and gives -1. A list whose last link was never set, or points to a node
-- that is gone, makes it follow that link.
pub lists-shown :
    (fpns : List ℕ) (rgs : List Region) (vmas : List Vma) (pgns : List ℕ)
    → ((list_fp (chain fpns null) ≡ ok (shown print_list_fp fp newline fpns))
        × (list_fp (chain fpns wild) ≡ fault))
      × ((list_rg (chain rgs null)
            ≡ ok (shown print_list_rg (λ r. rg r.rg_start r.rg_end) newline rgs))
          × (list_rg (chain rgs wild) ≡ fault))
      × ((list_vma (chain vmas null)
            ≡ ok (shown print_list_vma (λ v. va v.vm_start v.vm_end) newline vmas))
          × (list_vma (chain vmas wild) ≡ fault))
      × (list_pgn (chain pgns null) ≡ ok (shown print_list_pgn page letter_n pgns))
      × (list_pgn (chain pgns wild) ≡ fault)
unfolding list_fp list_rg list_vma list_pgn
lists-shown fpns rgs vmas pgns = (
  (print_list-null _ _ _ fpns, print_list-wild _ _ _ fpns),
  (print_list-null _ _ _ rgs, print_list-wild _ _ _ rgs),
  (print_list-null _ _ _ vmas, print_list-wild _ _ _ vmas),
  print_list-null _ _ _ pgns,
  print_list-wild _ _ _ pgns,
)
