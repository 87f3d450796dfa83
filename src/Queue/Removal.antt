-- ===== src/Queue/Removal.antt =====
-- A process taken out of the middle of a queue, as the loops of src/sys_killall.c do it.
use waguri.Base.{
  ℕ, suc, ◌+◌, ◌-◌, ◌≤◌, ◌<◌, ◌≡◌, ap, sym, ◌∙◌, ◌⊎◌, inl, inr, arith, Option, some, List, ◌∷◌,
  ◌++◌, length, get_elem?, get_elem?-append_left, get_elem?-append_right, lt_of_get_elem?,
  length-append, lt_or_ge, ok,
}
use waguri.Queue.{Queue, shift_loop}
use waguri.Queue.Bounded.{Holds, shift_loop-ok}

module _ {ℓ} {A : Type ℓ} where
  -- What stands at a position once the element at `length pre` is gone.
  pub get_elem?-removed :
      (pre xs : List A) (x y : A) (j : ℕ)
      → get_elem? (pre ++ xs) j ≡ some y
      → ((j < length pre) × (get_elem? (pre ++ x ∷ xs) j ≡ some y))
        ⊎ ((length pre ≤ j) × (get_elem? (pre ++ x ∷ xs) (suc j) ≡ some y))
  get_elem?-removed pre xs x y j h = elim (lt_or_ge j (length pre)) [
    | inl l ↦
        inl (l, get_elem?-append_left pre (x ∷ xs) j l ∙ sym (get_elem?-append_left pre xs j l) ∙ h)
    | inr g ↦
        let k = j - length pre in
        let at : length pre + k ≡ j = omega arith in
        inr (
          g,
          ap (get_elem? (pre ++ x ∷ xs)) (omega arith)
              ∙ get_elem?-append_right pre (x ∷ xs) (suc k)
              ∙ sym (get_elem?-append_right pre xs k)
              ∙ ap (get_elem? (pre ++ xs)) at
              ∙ h,
        )
  ]

  pub shift_loop-Holds :
      {q : Queue A} (pre : List A) (x : A) (xs : List A)
      → Holds q (pre ++ x ∷ xs)
      → (shifted : List (Option A)) × (shift_loop (q.size - 1 - length pre) (length pre + 1) q.proc
          ≡ ok shifted)
        × Holds (record { proc = shifted; size = q.size - 1 }) (pre ++ xs)
  shift_loop-Holds {q} pre x xs h =
      let n : q.size ≡ length pre + length xs + 1 =
        omega (arith, h.count, length-append pre (x ∷ xs)) in
      let n' : q.size ≤ length q.proc = omega (arith, h.slots, h.bound, h.count) in
      let (shifted, run, len, low, high) =
        shift_loop-ok (q.size - 1 - length pre) (length pre + 1) q.proc (omega arith)
          (omega (arith, n, n')) in
      (
        shifted,
        run,
        record {
          slots = len ∙ h.slots;
          count = omega (arith, n, length-append pre xs);
          bound = omega (arith, length-append pre xs, length-append pre (x ∷ xs), h.bound);
          at = λ j y e. elim (get_elem?-removed pre xs x y j e) [
            | inl (l, e') ↦ low j (omega arith) ∙ h.at j y e'
            | inr (g, e') ↦
                high j (omega arith)
                  (omega (arith, lt_of_get_elem? (pre ++ xs) j e, length-append pre xs, n))
                ∙ h.at (suc j) y e'
          ];
        },
      )
