-- ===== src/Base/Links.antt =====
-- Singly linked lists as the code leaves them in memory: they end in NULL, or in a pointer that
-- was never set or that points to storage which is gone.
use mathlib.Core.Path.{◌≡◌, refl}
use mathlib.Core.List.{List, [], ◌∷◌, ◌++◌}

pub data Chain {ℓ} (A : Type ℓ) : Type ℓ where
  null : Chain A
  wild : Chain A
  cons : A → Chain A → Chain A

module _ {ℓ} {A : Type ℓ} where
  -- The chain that holds the elements of a list before `end`.
  abbrev pub chain : List A → Chain A → Chain A
  chain [] end = end
  chain (x ∷ xs) end = cons x (chain xs end)

  pub chain-append :
      (xs ys : List A) (end : Chain A) → chain (xs ++ ys) end ≡ chain xs (chain ys end)
  chain-append [] ys end = refl
  chain-append (x ∷ xs) ys end = λ i. cons x (chain-append xs ys end i)
