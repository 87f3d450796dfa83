-- ===== src/Tests/Timing.antt =====
-- Examples for the timer, with one device.
use waguri.Base.{ℕ, ◌≡◌, ◌≢◌, ◌≤◌, ◌+◌, ◌%◌, ◌^◌, inl, inr, refl, arith, [], ◌∷◌, get_elem?, some}
use waguri.Timer.{
  waiting, gone, Device, tick, release, stopped, Timer, fresh, unused, attach_event, start_timer,
  arrived, detached, let_off, AllGone, next_round, arrive, detach, pass, scanned, advance, let_go,
  all_finished, Attached, none_yet, one_more, Reach, start, later,
}
use waguri.Timer.Lockstep.{Reach-lockstep, Step-ticks}
use waguri.Timer.Ending.{Reach-stopped}

abbrev one_device : Timer
one_device = record unused { dev_list = fresh ∷ [] }

one_device-Attached : Attached one_device
unfolding attach_event
one_device-Attached = one_more none_yet refl

-- The device has reported, and the timer has seen it.
abbrev reported : Timer
reported = record (start_timer one_device) { dev_list = arrived fresh ∷ []; phase = tick 0 1 }

reported-Reach : Reach one_device reported
unfolding start_timer
reported-Reach =
    later
      (later (later (later start (arrive 0 refl refl)) (next_round refl refl))
        (pass refl refl (inl (λ e. omega arith))))
      (scanned refl refl)

Reach-lockstep_example :
    (reported.time ≡ reported.ticks % 2 ^ 64)
    × ((i : ℕ) (d : Device)
        → get_elem? reported.dev_list i ≡ some d
        → d.place ≢ gone
        → (reported.ticks ≤ d.slots) × (d.slots ≤ reported.ticks + 1))
Reach-lockstep_example = Reach-lockstep one_device-Attached reported-Reach

abbrev ticked : Timer
ticked = record reported { phase = release 0 0 1; time = 1; ticks = 1 }

Step-ticks_example :
    (1 ≡ 0 + 1)
    × ((i : ℕ) (d : Device)
        → get_elem? reported.dev_list i ≡ some d
        → d.place ≢ gone
        → (d.place ≡ waiting) × (d.slots ≡ 1))
unfolding start_timer
Step-ticks_example =
    Step-ticks {w = ticked} one_device-Attached reported-Reach (advance refl) (λ e. omega arith)

-- The device has left, and the timer with it.
abbrev ended : Timer
ended = record (start_timer one_device) {
  dev_list = let_off (detached fresh) ∷ [];
  phase = stopped;
  time = 1;
  ticks = 1;
}

ended-Reach : Reach one_device ended
unfolding start_timer
ended-Reach =
    later
      (later
        (later
          (later
            (later (later (later start (detach 0 refl refl)) (next_round refl refl))
              (pass refl refl (inr (λ e. omega arith))))
            (scanned refl refl))
          (advance refl))
        (let_go refl refl))
      (all_finished refl refl refl)

Reach-stopped_example : AllGone ended
Reach-stopped_example = Reach-stopped one_device-Attached ended-Reach refl
