-- ===== src/Timer/Phases.antt =====
-- What holds of the timer and its devices between any two steps.
use waguri.Base.{
  ℕ, zero, suc, ◌+◌, ◌%◌, ◌^◌, ◌≤◌, ◌<◌, ◌≡◌, ◌≢◌, ◌⊎◌, inl, inr, ap, arith, true, some, length,
  get_elem?, set, get_elem?-set_cases, length-set, lt_of_get_elem?, lt_or_ge,
}
use waguri.Timer.{
  Place, working, waiting, gone, Device, Phase, off, scan, tick, release, stopped, Timer, counted,
  arrived, resumed, detached, let_off, AllGone, Step, next_round, told_to_stop, arrive, resume,
  detach, pass, scanned, advance, let_go, more_to_do, all_finished, stop, join,
}

-- The flags that go with the place of a thread.
abbrev pub Flags : Device → Type 0
Flags d = elim d.place [
  | working ↦ (d.done ≡ 0) × (d.fsh ≡ 0)
  | waiting ↦ (d.done ≤ 1) × (d.fsh ≡ 0)
  | gone ↦ d.fsh ≡ 1
]

-- The device has begun `next_slot` once for each tick, and once more if it waits.
abbrev pub InSlot : ℕ → Device → Type 0
InSlot ticks d = (d.fsh ≡ 1) ⊎ ((d.done ≤ 1) × (d.slots ≡ ticks + d.done))

-- It has reported, or left.
abbrev pub Reported : ℕ → Device → Type 0
Reported n d = (d.fsh ≡ 1) ⊎ ((d.done ≡ 1) × (d.slots ≡ n))

-- What a phase says about the device at position `i`; a full count of finished devices means that
-- those counted have left.
abbrev pub Sits : Phase → ℕ → ℕ → Device → Type 0
Sits (scan k fsh event) ticks i d =
    InSlot ticks d × (i < k → Reported (ticks + 1) d) × (fsh ≡ event → i < k → d.fsh ≡ 1)
Sits (tick fsh event) ticks i d = Reported (ticks + 1) d × (fsh ≡ event → d.fsh ≡ 1)
Sits (release k fsh event) ticks i d =
    (i < k → InSlot ticks d) × (k ≤ i → Reported ticks d) × (fsh ≡ event → d.fsh ≡ 1)
Sits stopped ticks i d = d.fsh ≡ 1
Sits _ ticks i d = InSlot ticks d

abbrev pub Counts : Phase → ℕ → Type 0
Counts off n = ⊥
Counts (scan k fsh event) n = (event ≡ k) × (fsh ≤ event) × (k ≤ n)
Counts (tick fsh event) n = fsh ≤ event
Counts (release k fsh event) n = (fsh ≤ event) × (k ≤ n)
Counts _ n = Unit

pub record Inv (t : Timer) : Type 0 where
  pub counts : Counts t.phase (length t.dev_list)
  pub clock : t.time ≡ t.ticks % 2 ^ 64
  pub flags : (i : ℕ) (d : Device) → get_elem? t.dev_list i ≡ some d → Flags d
  pub sits : (i : ℕ) (d : Device) → get_elem? t.dev_list i ≡ some d → Sits t.phase t.ticks i d
  pub joined : t.timer_stop ≡ true → AllGone t

-- The devices after one of them changed: it has what the change gives it, and the others what they
-- had.
module _ (t : Timer) (i : ℕ) (d new : Device) (e : get_elem? t.dev_list i ≡ some d) where
  changed-Flags :
      Inv t
      → Flags new
      → (j : ℕ) (d' : Device) → get_elem? (set t.dev_list i new) j ≡ some d'
      → Flags d'
  changed-Flags v f j d' h = ground (arith, get_elem?-set_cases t.dev_list i j new h, v.flags j d')

  changed-Sits :
      (p : Phase)
      → Inv t
      → Sits p t.ticks i new
      → ((j : ℕ) (d' : Device) → i ≢ j → Sits t.phase t.ticks j d' → Sits p t.ticks j d')
      → (j : ℕ) (d' : Device) → get_elem? (set t.dev_list i new) j ≡ some d'
      → Sits p t.ticks j d'
  changed-Sits p v f keep j d' h = elim (get_elem?-set_cases t.dev_list i j new h) [
    | inl (same, is) ↦ rw (← same, ← is) f
    | inr (other, old) ↦ keep j d' other (v.sits j d' old)
  ]

-- A step of a device's thread keeps what a phase says about it.
abbrev Keeps : (Device → Device) → Place → Type 0
Keeps change from =
    (p : Phase) (ticks i : ℕ) (d : Device)
    → d.place ≡ from
    → Flags d
    → Sits p ticks i d
    → Sits p ticks i (change d)

arrive-Sits : Keeps arrived working
arrive-Sits (release k fsh event) ticks i d w f s =
    (λ l. ground (arith, s.0 l), λ l. ground (arith, s.1 l), λ q. ground (arith, s.2 q))
arrive-Sits p ticks i d w f s = ground arith

detach-Sits : Keeps detached working
detach-Sits (release k fsh event) ticks i d w f s =
    (λ l. ground (arith, s.0 l), λ l. ground (arith, s.1 l), λ q. ground (arith, s.2 q))
detach-Sits p ticks i d w f s = ground arith

resume-Sits : (p : Phase) (ticks i : ℕ) (d : Device) → Sits p ticks i d → Sits p ticks i (resumed d)
resume-Sits (scan k fsh event) ticks i d s = s
resume-Sits p ticks i d s = s

fsh-le : (d : Device) → Flags d → d.fsh ≤ 1
fsh-le d f = ground arith

-- The scan passes device `k`, whose `fsh` is `df`.
pass-Sits :
    (ticks k fsh event i df : ℕ) (d : Device)
    → fsh ≤ event
    → (i ≡ k → ((d.done ≢ 0) ⊎ (d.fsh ≢ 0)) × (d.fsh ≡ df))
    → Flags d
    → Sits (scan k fsh event) ticks i d
    → Sits (scan (k + 1) (counted df fsh) (event + 1)) ticks i d
pass-Sits ticks k fsh event i zero d c g f s =
    (s.0, (λ l. ground (arith, lt_or_ge i k, s.1, g, fsh-le d f)), λ q l. absurd (omega arith))
pass-Sits ticks k fsh event i (suc df) d c g f s = (
  s.0,
  (λ l. ground (arith, lt_or_ge i k, s.1, g, fsh-le d f)),
  λ q l. ground (arith, lt_or_ge i k, s.2, g, fsh-le d f),
)

pub Step-Inv : {t u : Timer} → Step t u → Inv t → Inv u
Step-Inv {t} (next_round e s) v = record {
  counts = omega arith;
  clock = v.clock;
  flags = v.flags;
  sits = λ i d h. ground (arith, v.sits i d h);
  joined = v.joined;
}
Step-Inv {t} (told_to_stop e s) v = record {
  counts = tt;
  clock = v.clock;
  flags = v.flags;
  sits = λ i d h. ground (arith, v.flags i d h, v.joined s i d h);
  joined = v.joined;
}
Step-Inv {t} (arrive i {d} e w) v = record {
  counts = rw (length-set t.dev_list i (arrived d)) v.counts;
  clock = v.clock;
  flags = changed-Flags t i d (arrived d) e v (ground (arith, v.flags i d e));
  sits =
      changed-Sits t i d (arrived d) e t.phase v
        (arrive-Sits t.phase t.ticks i d w (v.flags i d e) (v.sits i d e)) (λ j d' ne h. h);
  joined = λ s. ground (arith, v.joined s i d e);
}
Step-Inv {t} (resume i {d} e w z) v = record {
  counts = rw (length-set t.dev_list i (resumed d)) v.counts;
  clock = v.clock;
  flags = changed-Flags t i d (resumed d) e v (ground (arith, v.flags i d e));
  sits =
      changed-Sits t i d (resumed d) e t.phase v (resume-Sits t.phase t.ticks i d (v.sits i d e))
        (λ j d' ne h. h);
  joined = λ s. ground (arith, v.joined s i d e);
}
Step-Inv {t} (detach i {d} e w) v = record {
  counts = rw (length-set t.dev_list i (detached d)) v.counts;
  clock = v.clock;
  flags = changed-Flags t i d (detached d) e v (ground (arith, v.flags i d e));
  sits =
      changed-Sits t i d (detached d) e t.phase v
        (detach-Sits t.phase t.ticks i d w (v.flags i d e) (v.sits i d e)) (λ j d' ne h. h);
  joined = λ s. ground (arith, v.joined s i d e);
}
Step-Inv {t} (pass {k} {fsh} {event} {d} e g r) v =
    let c = rw e at v.counts in
    let lt = lt_of_get_elem? t.dev_list k g in
    record {
      counts = ground (arith, c);
      clock = v.clock;
      flags = v.flags;
      sits = λ i d' h.
          pass-Sits t.ticks k fsh event i d.fsh d' c.1
            (λ same. ground (arith, g, h, r, same, ap (get_elem? t.dev_list) same)) (v.flags i d' h)
            (rw e at v.sits i d' h);
      joined = v.joined;
    }
Step-Inv {t} (scanned {k} {fsh} {event} e g) v = record {
  counts = ground (arith, v.counts, e);
  clock = v.clock;
  flags = v.flags;
  sits = λ i d h. ground (arith, v.sits i d h, e, lt_of_get_elem? t.dev_list i h);
  joined = v.joined;
}
Step-Inv {t} (advance {fsh} {event} e) v = record {
  counts = ground (arith, v.counts, e);
  clock = omega (arith, v.clock);
  flags = v.flags;
  sits = λ i d h. ground (arith, v.sits i d h, e);
  joined = v.joined;
}
Step-Inv {t} (let_go {k} {fsh} {event} {d} e g) v = record {
  counts =
      ground
        (arith, e, v.counts, lt_of_get_elem? t.dev_list k g, length-set t.dev_list k (let_off d));
  clock = v.clock;
  flags = changed-Flags t k d (let_off d) g v (ground (arith, v.flags k d g));
  sits =
      changed-Sits t k d (let_off d) g (release (k + 1) fsh event) v
        (ground (arith, e, v.sits k d g)) (λ j d' ne h. ground (arith, e, h));
  joined = λ s i d' h.
      ground (
        arith,
        get_elem?-set_cases t.dev_list k i (let_off d) h,
        v.joined s i d',
        v.joined s k d g,
      );
}
Step-Inv {t} (more_to_do {k} {fsh} {event} e g r) v = record {
  counts = tt;
  clock = v.clock;
  flags = v.flags;
  sits = λ i d h. ground (arith, v.sits i d h, e, lt_of_get_elem? t.dev_list i h);
  joined = v.joined;
}
Step-Inv {t} (all_finished {k} {fsh} {event} e g r) v = record {
  counts = tt;
  clock = v.clock;
  flags = v.flags;
  sits = λ i d h. ground (arith, v.sits i d h, e);
  joined = v.joined;
}
Step-Inv {t} (stop a b) v = record {
  counts = v.counts;
  clock = v.clock;
  flags = v.flags;
  sits = v.sits;
  joined = λ s. a;
}
Step-Inv {t} (join a b) v = record {
  counts = rw b tt;
  clock = v.clock;
  flags = λ i d h. ground (arith, h);
  sits = λ i d h. ground (arith, h);
  joined = λ s i d h. ground (arith, h);
}
