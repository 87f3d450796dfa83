-- ===== src/Timer/Ending.antt =====
-- The timer never waits for ever, and stops only when all devices have left.
use native.Mathlib.Decide.{ℕ_discrete}
use waguri.Base.{
  ℕ, ◌≡◌, ◌≢◌, ◌⊎◌, inl, inr, refl, arith, some, length, get_elem?, get_elem?-some, Bool-cases,
  lt_or_ge,
}
use waguri.Timer.{
  Place, working, waiting, gone, Device, Phase, off, head, scan, tick, release, stopped, Timer,
  AllGone, Step, next_round, told_to_stop, arrive, resume, pass, scanned, advance, let_go,
  more_to_do, all_finished, Attached, Reach,
}
use waguri.Timer.Phases.{Flags, Counts}
use waguri.Timer.Reaching.{Reach-Inv}

-- When the timer's thread has ended, every device has left.
pub Reach-stopped : {t u : Timer} → Attached t → Reach t u → u.phase ≡ stopped → AllGone u
Reach-stopped {t} {u} a r e i d h =
    let v = Reach-Inv a r in
    let left : d.fsh ≡ 1 = ground (arith, e, v.sits i d h) in ground (arith, v.flags i d h)

Place-cases : (p : Place) → (p ≡ working) ⊎ (p ≡ waiting) ⊎ (p ≡ gone)
Place-cases working = inl refl
Place-cases waiting = inr (inl refl)
Place-cases gone = inr (inr refl)

zero_or_not : (n : ℕ) → (n ≡ 0) ⊎ (n ≢ 0)
zero_or_not n = ground arith

-- What the scan can do at device `k`: pass it, or have its thread go on.
scan-progress :
    {t : Timer} {k fsh event : ℕ} {d : Device}
    → t.phase ≡ scan k fsh event
    → get_elem? t.dev_list k ≡ some d
    → Flags d
    → (u : Timer) × Step t u
scan-progress {t} {k} {fsh} {event} {d} e h f = elim (Place-cases d.place) [
  | inl w ↦ (_, arrive k h w)
  | inr (inl w) ↦ elim (zero_or_not d.done) [
    | inl z ↦ (_, resume k h w z)
    | inr nz ↦ (_, pass e h (inl nz))
  ]
  | inr (inr g) ↦ (_, pass e h (inr (λ q. ground (arith, f))))
]

phase-progress :
    (t : Timer) (p : Phase)
    → t.phase ≡ p
    → Counts p (length t.dev_list)
    → ((i : ℕ) (d : Device) → get_elem? t.dev_list i ≡ some d → Flags d)
    → (p ≡ stopped) ⊎ ((u : Timer) × Step t u)
phase-progress t off e c f = elim c [ ]
phase-progress t head e c f = elim (Bool-cases t.timer_stop) [
  | inl s ↦ inr (_, told_to_stop e s)
  | inr s ↦ inr (_, next_round e s)
]
phase-progress t (scan k fsh event) e c f = elim (lt_or_ge k (length t.dev_list)) [
  | inl l ↦ let (d, h) = get_elem?-some t.dev_list k l in inr (scan-progress e h (f k d h))
  | inr g ↦ inr (_, scanned e (omega arith))
]
phase-progress t (tick fsh event) e c f = inr (_, advance e)
phase-progress t (release k fsh event) e c f = elim (lt_or_ge k (length t.dev_list)) [
  | inl l ↦ let (d, h) = get_elem?-some t.dev_list k l in inr (_, let_go e h)
  | inr g ↦ elim (ℕ_discrete fsh event) [
    | yes q ↦ inr (_, all_finished e (omega arith) q)
    | no q ↦ inr (_, more_to_do e (omega arith) q)
  ]
]
phase-progress t stopped e c f = inl refl

-- No deadlock: in every state that the threads can reach, the timer's thread has ended or some
-- thread can take a step.
pub Reach-progress :
    {t u : Timer} → Attached t → Reach t u → (u.phase ≡ stopped) ⊎ ((w : Timer) × Step u w)
Reach-progress {t} {u} a r = let v = Reach-Inv a r in phase-progress u u.phase refl v.counts v.flags
