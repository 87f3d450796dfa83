-- ===== src/Timer/Lockstep.antt =====
-- The timer keeps its devices in step.
use waguri.Base.{ℕ, ◌+◌, ◌%◌, ◌^◌, ◌≤◌, ◌≡◌, ◌≢◌, refl, arith, some, get_elem?, lt_or_ge}
use waguri.Timer.{
  waiting, gone, Device, Phase, scan, tick, release, Timer, Step, next_round, told_to_stop, arrive,
  resume, detach, pass, scanned, advance, let_go, more_to_do, all_finished, stop, join, Attached,
  Reach,
}
use waguri.Timer.Phases.{Flags, Sits}
use waguri.Timer.Reaching.{Reach-Inv}

Sits-lockstep :
    (p : Phase) (ticks i : ℕ) (d : Device)
    → Flags d
    → Sits p ticks i d
    → d.place ≢ gone
    → (ticks ≤ d.slots) × (d.slots ≤ ticks + 1)
Sits-lockstep (scan k fsh event) ticks i d f s g = ground arith
Sits-lockstep (tick fsh event) ticks i d f s g = ground arith
Sits-lockstep (release k fsh event) ticks i d f s g = ground (arith, s.0, s.1, lt_or_ge i k)
Sits-lockstep p ticks i d f s g = ground arith

-- In every state that the threads can reach, a device that has not left has begun its wait for the
-- next slot as often as the timer has ticked, or once more; and `_time` is the number of ticks
-- modulo 2 ^ 64. No device runs ahead of the others by more than one slot, and none is left behind.
pub Reach-lockstep :
    {t u : Timer}
    → Attached t
    → Reach t u
    → (u.time ≡ u.ticks % 2 ^ 64)
      × ((i : ℕ) (d : Device)
          → get_elem? u.dev_list i ≡ some d
          → d.place ≢ gone
          → (u.ticks ≤ d.slots) × (d.slots ≤ u.ticks + 1))
Reach-lockstep a r =
    let v = Reach-Inv a r in
    (v.clock, λ i d h. Sits-lockstep _ _ i d (v.flags i d h) (v.sits i d h))

-- A step that moves the clock finds every device that has not left in its wait, with the slot that
-- ends counted.
pub Step-ticks :
    {t u w : Timer}
    → Attached t
    → Reach t u
    → Step u w
    → u.ticks ≢ w.ticks
    → (w.ticks ≡ u.ticks + 1)
      × ((i : ℕ) (d : Device)
          → get_elem? u.dev_list i ≡ some d
          → d.place ≢ gone
          → (d.place ≡ waiting) × (d.slots ≡ w.ticks))
Step-ticks {u} a r (advance {fsh} {event} e) ne =
    let v = Reach-Inv a r in (refl, λ i d h g. ground (arith, v.flags i d h, e, v.sits i d h))
Step-ticks a r (next_round _ _) ne = absurd (ne refl)
Step-ticks a r (told_to_stop _ _) ne = absurd (ne refl)
Step-ticks a r (arrive _ _ _) ne = absurd (ne refl)
Step-ticks a r (resume _ _ _ _) ne = absurd (ne refl)
Step-ticks a r (detach _ _ _) ne = absurd (ne refl)
Step-ticks a r (pass _ _ _) ne = absurd (ne refl)
Step-ticks a r (scanned _ _) ne = absurd (ne refl)
Step-ticks a r (let_go _ _) ne = absurd (ne refl)
Step-ticks a r (more_to_do _ _ _) ne = absurd (ne refl)
Step-ticks a r (all_finished _ _ _) ne = absurd (ne refl)
Step-ticks a r (stop _ _) ne = absurd (ne refl)
Step-ticks a r (join _ _) ne = absurd (ne refl)
