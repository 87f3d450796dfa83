-- ===== src/Timer/Reaching.antt =====
-- What holds of the timer holds of all that the threads reach from its start.
use waguri.Base.{ℕ, zero, suc, ◌≡◌, refl, arith, false, some, List, ◌∷◌, get_elem?}
use waguri.Timer.{
  Device, Timer, fresh, attach_event, start_timer, Attached, none_yet, one_more, Reach, start,
  later,
}
use waguri.Timer.Phases.{Inv, Step-Inv}

record Unstarted (t : Timer) : Type 0 where
  devices : (i : ℕ) (d : Device) → get_elem? t.dev_list i ≡ some d → d ≡ fresh
  idle : (t.timer_stop ≡ false) × (t.timer_started ≡ false) × (t.time ≡ 0) × (t.ticks ≡ 0)

push-fresh :
    (ds : List Device)
    → ((i : ℕ) (d : Device) → get_elem? ds i ≡ some d → d ≡ fresh)
    → (i : ℕ) (d : Device) → get_elem? (fresh ∷ ds) i ≡ some d
    → d ≡ fresh
push-fresh ds all zero d h = ground (arith, h)
push-fresh ds all (suc i) d h = all i d h

attach_event-Unstarted : {t u : Timer} → attach_event t ≡ some u → Unstarted t → Unstarted u
unfolding attach_event
attach_event-Unstarted {t} {u} h v =
    let grown : u ≡ record t { dev_list = fresh ∷ t.dev_list } = ground (arith, h, v.idle) in
    rw grown (record { devices = push-fresh t.dev_list v.devices; idle = v.idle })

Attached-Unstarted : {t : Timer} → Attached t → Unstarted t
Attached-Unstarted none_yet = record {
  devices = λ i d h. ground (arith, h);
  idle = (refl, refl, refl, refl);
}
Attached-Unstarted (one_more a h) = attach_event-Unstarted h (Attached-Unstarted a)

start_timer-Inv : {t : Timer} → Unstarted t → Inv (start_timer t)
unfolding start_timer
start_timer-Inv {t} u = record {
  counts = tt;
  clock = ground (arith, u.idle);
  flags = λ i d h. ground (arith, u.devices i d h);
  sits = λ i d h. ground (arith, u.devices i d h, u.idle);
  joined = λ s. ground (arith, u.idle);
}

pub Reach-Inv : {t u : Timer} → Attached t → Reach t u → Inv u
Reach-Inv a start = start_timer-Inv (Attached-Unstarted a)
Reach-Inv a (later r st) = Step-Inv st (Reach-Inv a r)
