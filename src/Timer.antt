-- ===== src/Timer.antt =====
-- The timer of src/timer.c and include/timer.h, with the devices that it paces: the processors and
-- the loader. Each step is one critical section of a thread. The lock of a device covers its flags,
-- and a wait on a condition is a step that is possible only when the condition holds.
pub mod Phases
pub mod Reaching
pub mod Lockstep
pub mod Ending
use waguri.Base.{
  ℕ, zero, suc, ◌+◌, ◌%◌, ◌^◌, ◌<◌, ◌≡◌, ◌≢◌, ◌⊎◌, Bool, true, false, Option, none, some, List, [],
  ◌∷◌, length, get_elem?, set,
}

-- Where the thread of a device stands: at its own work, in the wait of `next_slot`, or past
-- `detach_event`.
pub data Place : Type 0 where
  working : Place
  waiting : Place
  gone : Place

-- `struct timer_id_t`, and two things that only the proofs read: where the thread stands, and how
-- often it has called `next_slot`.
pub record Device : Type 0 where
  pub done : ℕ
  pub fsh : ℕ
  pub place : Place
  pub slots : ℕ

-- Where `timer_routine` stands, with its variables `fsh` and `event`; `temp` is the position `k` in
-- the list of devices.
pub data Phase : Type 0 where
  off : Phase
  head : Phase
  scan : (k fsh event : ℕ) → Phase
  tick : (fsh event : ℕ) → Phase
  release : (k fsh event : ℕ) → Phase
  stopped : Phase

-- The static variables, and `ticks`, which counts the rounds that `_time` counts modulo 2 ^ 64.
pub record Timer : Type 0 where
  pub dev_list : List Device
  pub time : ℕ
  pub timer_started : Bool
  pub timer_stop : Bool
  pub phase : Phase
  pub ticks : ℕ

abbrev pub fresh : Device
fresh = record { done = 0; fsh = 0; place = Place.working; slots = 0 }

abbrev pub unused : Timer
unused = record {
  dev_list = [];
  time = 0;
  timer_started = false;
  timer_stop = false;
  phase = off;
  ticks = 0;
}

-- `attach_event`: NULL once the timer runs.
unfoldable pub attach_event : Timer → Option Timer
attach_event t = elim t.timer_started [
  | true ↦ none
  | false ↦ some (record t { dev_list = fresh ∷ t.dev_list })
]

-- `start_timer`
unfoldable pub start_timer : Timer → Timer
start_timer t = record t { timer_started = true; phase = head }

-- A device in its place in the list
abbrev pub with_device : Timer → ℕ → Device → Timer
with_device t i d = record t { dev_list = set t.dev_list i d }

-- What a step writes to a device.
abbrev pub arrived : Device → Device
arrived d = record d { done = 1; place = Place.waiting; slots = d.slots + 1 }

abbrev pub resumed : Device → Device
resumed d = record d { place = Place.working }

abbrev pub detached : Device → Device
detached d = record d { fsh = 1; place = Place.gone }

abbrev pub let_off : Device → Device
let_off d = record d { done = 0 }

-- `fsh++` where the device has finished
abbrev pub counted : ℕ → ℕ → ℕ
counted zero n = n
counted (suc f) n = n + 1

abbrev pub AllGone : Timer → Type 0
AllGone t = (i : ℕ) (d : Device) → get_elem? t.dev_list i ≡ some d → d.place ≡ Place.gone

pub data Step (t : Timer) : Timer → Type 0 where
  -- `while (!timer_stop)`
  next_round : t.phase ≡ head → t.timer_stop ≡ false → Step t (record t { phase = scan 0 0 0 })
  told_to_stop : t.phase ≡ head → t.timer_stop ≡ true → Step t (record t { phase = stopped })
  -- `next_slot`: the device reports, and later leaves its wait.
  arrive :
      (i : ℕ) {d : Device}
      → get_elem? t.dev_list i ≡ some d
      → d.place ≡ Place.working
      → Step t (with_device t i (arrived d))
  resume :
      (i : ℕ) {d : Device}
      → get_elem? t.dev_list i ≡ some d
      → d.place ≡ Place.waiting
      → d.done ≡ 0
      → Step t (with_device t i (resumed d))
  -- `detach_event`
  detach :
      (i : ℕ) {d : Device}
      → get_elem? t.dev_list i ≡ some d
      → d.place ≡ Place.working
      → Step t (with_device t i (detached d))
  -- The first loop of `timer_routine` passes a device that is done or finished.
  pass :
      {k fsh event : ℕ} {d : Device}
      → t.phase ≡ scan k fsh event
      → get_elem? t.dev_list k ≡ some d
      → (d.done ≢ 0) ⊎ (d.fsh ≢ 0)
      → Step t (record t { phase = scan (k + 1) (counted d.fsh fsh) (event + 1) })
  scanned :
      {k fsh event : ℕ}
      → t.phase ≡ scan k fsh event
      → k ≡ length t.dev_list
      → Step t (record t { phase = tick fsh event })
  -- `_time++`
  advance :
      {fsh event : ℕ}
      → t.phase ≡ tick fsh event
      → Step t (record t {
        phase = release 0 fsh event;
        time = (t.time + 1) % 2 ^ 64;
        ticks = t.ticks + 1;
      })
  -- The second loop lets a device go on.
  let_go :
      {k fsh event : ℕ} {d : Device}
      → t.phase ≡ release k fsh event
      → get_elem? t.dev_list k ≡ some d
      → Step t (record (with_device t k (let_off d)) { phase = release (k + 1) fsh event })
  -- `fsh == event` leaves the loop.
  more_to_do :
      {k fsh event : ℕ}
      → t.phase ≡ release k fsh event
      → k ≡ length t.dev_list
      → fsh ≢ event
      → Step t (record t { phase = head })
  all_finished :
      {k fsh event : ℕ}
      → t.phase ≡ release k fsh event
      → k ≡ length t.dev_list
      → fsh ≡ event
      → Step t (record t { phase = stopped })
  -- `stop_timer`, which `main` calls when it has joined all devices' threads: the flag, and, when the
  -- timer's thread has ended, the release of the devices
  stop : AllGone t → t.timer_started ≡ true → Step t (record t { timer_stop = true })
  join : t.timer_stop ≡ true → t.phase ≡ stopped → Step t (record t { dev_list = [] })

-- `main` attaches its devices before it starts the timer.
pub data Attached : Timer → Type 0 where
  none_yet : Attached unused
  one_more : {t u : Timer} → Attached t → attach_event t ≡ some u → Attached u

-- What the threads can reach when the timer starts with the devices of `t`
pub data Reach (t : Timer) : Timer → Type 0 where
  start : Reach t (start_timer t)
  later : {u v : Timer} → Reach t u → Step u v → Reach t v
