-- ===== src/Queue/Bounded.antt =====
-- The queue of src/queue.c as a bounded first-in first-out list.
use waguri.Base.{
  ℕ, zero, suc, ◌+◌, ◌-◌, ◌≤◌, ◌<◌, ◌≡◌, refl, ap, ◌⊎◌, inl, inr, arith, ◌∙◌, sym, ≢→==, lt_or_ge,
  le→leb, lt→ltb, le→ltb, lt→leb, le→leb, Bool, true, false, Option, none, some, List, [], ◌∷◌,
  ◌++◌, ltb, if◌then◌else◌, length, get_elem?, set, length-set, get_elem?-set_self,
  get_elem?-set_ne, get_elem?-some, lt_of_get_elem?, length-append, ok,
}
use waguri.Queue.{Queue, max_queue_size, empty, enqueue, shift_loop, dequeue}

module _ {ℓ} {A : Type ℓ} where
  -- The queue holds the elements of the list, the oldest first, in its first slots.
  pub record Holds (q : Queue A) (xs : List A) : Type ℓ where
    pub slots : length q.proc ≡ max_queue_size
    pub count : q.size ≡ length xs
    pub bound : length xs ≤ max_queue_size
    pub at : (i : ℕ) (x : A) → get_elem? xs i ≡ some x → get_elem? q.proc i ≡ some (some x)

  -- The operations of a bounded list.
  unfoldable pub push : List A → A → List A
  push xs x = if ltb (length xs) max_queue_size then xs ++ x ∷ [] else xs

  abbrev pub front : List A → Option A
  front [] = none
  front (x ∷ xs) = some x

  abbrev pub rest : List A → List A
  rest [] = []
  rest (x ∷ xs) = xs

  abbrev pub is_nil : List A → Bool
  is_nil [] = true
  is_nil (x ∷ xs) = false

  get_elem?-snoc :
      (xs : List A) (y : A) (i : ℕ) (x : A)
      → get_elem? (xs ++ y ∷ []) i ≡ some x
      → (i < length xs × (get_elem? xs i ≡ some x)) ⊎ ((i ≡ length xs) × (y ≡ x))
  get_elem?-snoc [] y zero x h = ground arith
  get_elem?-snoc [] y (suc i) x h = ground arith
  get_elem?-snoc (z ∷ xs) y zero x h = ground arith
  get_elem?-snoc (z ∷ xs) y (suc i) x h = elim (get_elem?-snoc xs y i x h) [
    | inl p ↦ ground arith
    | inr p ↦ ground arith
  ]

  pub empty-Holds : {q : Queue A} {xs : List A} → Holds q xs → empty q ≡ is_nil xs
  unfolding empty
  empty-Holds {xs = []} h = ground (arith, h.count)
  empty-Holds {xs = x ∷ xs} h = ground (arith, h.count)

  enqueue-room :
      {q : Queue A} {xs : List A} (p : A)
      → Holds q xs
      → length xs < max_queue_size
      → Holds (record { proc = set q.proc q.size (some p); size = q.size + 1 }) (xs ++ p ∷ [])
  enqueue-room {q} {xs} p h room = record {
    slots = omega (arith, length-set q.proc q.size (some p), h.slots);
    count = omega (arith, length-append xs (p ∷ []), h.count);
    bound = omega (arith, length-append xs (p ∷ []));
    at = λ i x e. elim (get_elem?-snoc xs p i x e) [
      | inl (lt, e') ↦
          get_elem?-set_ne q.proc q.size i (some p) (λ c. omega (arith, h.count)) ∙ h.at i x e'
      | inr (i_eq, p_eq) ↦
          ap (get_elem? (set q.proc q.size (some p))) (omega (arith, h.count))
          ∙ get_elem?-set_self q.proc q.size (some p) (omega (arith, h.count, h.slots))
          ∙ ap (λ y. some (some y)) p_eq
    ];
  }

  -- `enqueue` appends the process, and drops it when ten are there already.
  pub enqueue-Holds :
      {q : Queue A} {xs : List A} (p : A) → Holds q xs → Holds (enqueue q p) (push xs p)
  unfolding enqueue push
  enqueue-Holds {q} {xs} p h = elim (lt_or_ge (length xs) max_queue_size) [
    | inl room ↦
        rw
          (
            lt→ltb (length xs) max_queue_size room,
            lt→leb max_queue_size q.size (omega (arith, h.count)),
          )
          (enqueue-room p h room)
    | inr full ↦
        rw
          (
            le→ltb (length xs) max_queue_size full,
            le→leb max_queue_size q.size (omega (arith, h.count)),
          )
          h
  ]

  -- The loop moves the elements from `i` on down by one.
  pub shift_loop-ok :
      (left i : ℕ) (proc : List (Option A))
      → 1 ≤ i
      → i + left ≤ length proc
      → (proc' : List (Option A)) × (shift_loop left i proc ≡ ok proc')
        × (length proc' ≡ length proc)
        × ((j : ℕ) → suc j < i → get_elem? proc' j ≡ get_elem? proc j)
        × ((j : ℕ) → i ≤ suc j → suc j < i + left → get_elem? proc' j ≡ get_elem? proc (suc j))
  unfolding shift_loop
  shift_loop-ok zero i proc h b = (proc, refl, refl, λ j l. refl, λ j l m. absurd (omega arith))
  shift_loop-ok (suc left) i proc h b =
      let (p, p_eq) = get_elem?-some proc i (omega arith) in
      let step = set proc (i - 1) p in
      let (proc', run, len, low, high) =
        shift_loop-ok left (i + 1) step (omega arith) (omega (arith, length-set proc (i - 1) p)) in
      (
        proc',
        rw (p_eq, run) refl,
        len ∙ length-set proc (i - 1) p,
        (λ j l. low j (omega arith) ∙ get_elem?-set_ne proc (i - 1) j p (λ c. omega arith)),
        λ j l m. elim (lt_or_ge (suc j) (i + 1)) [
          | inl below ↦
              low j below
              ∙ ap (get_elem? step) (omega arith)
              ∙ get_elem?-set_self proc (i - 1) p (omega arith)
              ∙ sym p_eq
              ∙ ap (get_elem? proc) (omega arith)
          | inr above ↦
              high j above (omega arith)
              ∙ get_elem?-set_ne proc (i - 1) (suc j) p (λ c. omega arith)
        ],
      )

  -- `dequeue` gives the oldest process, and NULL for an empty queue.
  pub dequeue-Holds :
      {q : Queue A} {xs : List A}
      → Holds q xs
      → (q' : Queue A) × (dequeue q ≡ ok (front xs, q')) × Holds q' (rest xs)
  unfolding dequeue
  dequeue-Holds {q} {xs = []} h = (q, rw h.count refl, h)
  dequeue-Holds {q} {xs = x ∷ xs} h =
      let (proc', run, len, low, high) =
        shift_loop-ok (q.size - 1) 1 q.proc (omega arith)
          (omega (arith, h.count, h.slots, h.bound)) in
      (
        record { proc = proc'; size = q.size - 1 },
        rw (≢→== q.size 0 (λ e. omega (arith, h.count)), h.at 0 x refl, run) refl,
        record {
          slots = len ∙ h.slots;
          count = omega (arith, h.count);
          bound = omega (arith, h.bound);
          at = λ i y e.
              high i (omega arith) (omega (arith, h.count, lt_of_get_elem? xs i e))
              ∙ h.at (suc i) y e;
        },
      )
