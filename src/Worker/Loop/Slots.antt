-- ===== src/Worker/Loop/Slots.antt =====
-- The semaphore of `_worker_loop` in offwork/worker/remote.py.
use offwork.Base.{
  ℕ, zero, suc, ◌+◌, String, ◌≡◌, refl, ◌⊎◌, inl, inr, Bool, true, false, ◌&&◌, Option, none, some,
  List, [], ◌∷◌, ◌++◌, arith, ◌=ℕ◌, ◌≤◌, ◌<◌, Bool-cases,
}
use offwork.Worker.Loop.{
  Stage, waiting, queued, executing, Job, Loop, Event, arrives, connection_ends, is_due, ends,
  signal, wakes, new_loop, enter, is_waiting, acquire, hand_over_at, hand_over, Left, absent, gone,
  slot_free, under, leaves_as, leave, release, after_leave, stays_for, cancel_all, receive,
  on_signal, wake, Phase, serving, draining, stopped, step, run,
}

abbrev pub one_if_busy : Stage → ℕ
one_if_busy executing = 1
one_if_busy waiting = 0
one_if_busy queued = 0

abbrev pub one_if_queued : Stage → ℕ
one_if_queued executing = 0
one_if_queued waiting = 0
one_if_queued queued = 1

-- The jobs that execute, and those in line.
unfoldable pub busy : List Job → ℕ
busy [] = 0
busy (j ∷ jobs) = one_if_busy j.stage + busy jobs

unfoldable pub in_line : List Job → ℕ
in_line [] = 0
in_line (j ∷ jobs) = one_if_queued j.stage + in_line jobs

-- A step of the semaphore that keeps the count of busy slots and free ones, and queues no one while
-- a slot is free.
abbrev Fair : ℕ → List Job → List Job × ℕ → Type 0
Fair free jobs (jobs', free') =
    (busy jobs' + free' ≡ busy jobs + free)
    × (free' ≤ free)
    × ((free' ≡ 0) ⊎ (in_line jobs' ≡ in_line jobs))

enter-Fair :
    (free : ℕ) (j : Job) (jobs : List Job)
    → j.stage ≡ waiting
    → Fair free (j ∷ jobs) (enter free j jobs)
unfolding busy in_line
enter-Fair zero j jobs h = simp h (refl, omega arith, inl refl)
enter-Fair (suc free) j jobs h = simp h (omega arith, omega arith, inr refl)

passed_over :
    (free : ℕ) (j : Job) (jobs rest : List Job) (left : ℕ)
    → Fair free jobs (rest, left)
    → Fair free (j ∷ jobs) (j ∷ rest, left)
unfolding busy in_line
passed_over free j jobs rest left (count, less, inl none_left) =
    (omega (arith, count), less, inl none_left)
passed_over free j jobs rest left (count, less, inr same) =
    (omega (arith, count), less, inr (omega (arith, same)))

is_waiting-waiting : (s : Stage) → is_waiting s ≡ true → s ≡ waiting
is_waiting-waiting waiting h = refl
is_waiting-waiting queued h = absurd (cc h)
is_waiting-waiting executing h = absurd (cc h)

and_right : (a b : Bool) → (a && b) ≡ true → b ≡ true
and_right true b h = h
and_right false b h = absurd (cc h)

acquire-Fair : (number free : ℕ) (jobs : List Job) → Fair free jobs (acquire number free jobs)
unfolding acquire
acquire-Fair number free [] = (refl, omega arith, inr refl)
acquire-Fair number free (j ∷ jobs) =
    let (rest, left) = acquire number free jobs in
    let test = j.number =ℕ number && is_waiting j.stage in
    elim (Bool-cases test) [
      | inl yes_it_is ↦ rw yes_it_is (
          enter-Fair free j jobs (
            is_waiting-waiting j.stage
              (and_right (j.number =ℕ number) (is_waiting j.stage) yes_it_is)))
      | inr no_it_is ↦
          rw no_it_is (passed_over free j jobs rest left (acquire-Fair number free jobs))
    ]

-- One more is busy, and one less in line, or no one was in line.
abbrev Handed : List Job → Option (List Job) → Type 0
Handed jobs none = in_line jobs ≡ 0
Handed jobs (some jobs') = (busy jobs' ≡ suc (busy jobs)) × (0 < in_line jobs)

hand_over_at-Handed :
    (s : Stage) (j : Job) (jobs : List Job) (rest : Option (List Job))
    → j.stage ≡ s
    → Handed jobs rest
    → Handed (j ∷ jobs) (hand_over_at s j jobs rest)
unfolding busy in_line
hand_over_at-Handed queued j jobs rest e h = simp e (omega arith, omega arith)
hand_over_at-Handed waiting j jobs none e h = simp e (omega (arith, h))
hand_over_at-Handed waiting j jobs (some jobs') e (h, k) =
    simp e (omega (arith, h), omega (arith, k))
hand_over_at-Handed executing j jobs none e h = simp e (omega (arith, h))
hand_over_at-Handed executing j jobs (some jobs') e (h, k) =
    simp e (omega (arith, h), omega (arith, k))

hand_over-Handed : (jobs : List Job) → Handed jobs (hand_over jobs)
unfolding hand_over in_line
hand_over-Handed [] = refl
hand_over-Handed (j ∷ jobs) =
    hand_over_at-Handed j.stage j jobs (hand_over jobs) refl (hand_over-Handed jobs)

-- What a job that ends leaves.
abbrev Freed : List Job → Left → Type 0
Freed jobs absent = Unit
Freed jobs (gone jobs') = (busy jobs' ≡ busy jobs) × (in_line jobs' ≡ in_line jobs)
Freed jobs (slot_free jobs') = (suc (busy jobs') ≡ busy jobs) × (in_line jobs' ≡ in_line jobs)

under-Freed :
    (j : Job) (jobs : List Job) (rest : Left) → Freed jobs rest → Freed (j ∷ jobs) (under j rest)
unfolding busy in_line
under-Freed j jobs absent h = tt
under-Freed j jobs (gone jobs') (h, k) = (omega (arith, h), omega (arith, k))
under-Freed j jobs (slot_free jobs') (h, k) = (omega (arith, h), omega (arith, k))

leaves_as-Freed :
    (s : Stage) (j : Job) (jobs : List Job) (rest : Left)
    → j.stage ≡ s
    → Freed jobs rest
    → Freed (j ∷ jobs) (leaves_as s j jobs rest)
unfolding busy in_line
leaves_as-Freed waiting j jobs rest e h = simp e (omega arith, omega arith)
leaves_as-Freed executing j jobs rest e h = simp e (omega arith, omega arith)
leaves_as-Freed queued j jobs rest e h = under-Freed j jobs rest h

leave-Freed : (number : ℕ) (jobs : List Job) → Freed jobs (leave number jobs)
unfolding leave
leave-Freed number [] = tt
leave-Freed number (j ∷ jobs) =
    let rest = leave number jobs in
    elim (Bool-cases (j.number =ℕ number)) [
      | inl e ↦ rw e (leaves_as-Freed j.stage j jobs rest refl (leave-Freed number jobs))
      | inr e ↦ rw e (under-Freed j jobs rest (leave-Freed number jobs))
    ]

cancelled_at :
    (s : Stage) (j : Job) (jobs rest : List Job)
    → j.stage ≡ s
    → (busy rest ≡ busy jobs) × (in_line rest ≡ 0)
    → (busy (stays_for s j rest) ≡ busy (j ∷ jobs)) × (in_line (stays_for s j rest) ≡ 0)
unfolding busy in_line
cancelled_at executing j jobs rest e (h, k) = simp e (omega (arith, h), omega (arith, k))
cancelled_at waiting j jobs rest e (h, k) = simp e (omega (arith, h), omega (arith, k))
cancelled_at queued j jobs rest e (h, k) = simp e (omega (arith, h), omega (arith, k))

cancel_all-busy :
    (jobs : List Job) → (busy (cancel_all jobs) ≡ busy jobs) × (in_line (cancel_all jobs) ≡ 0)
unfolding cancel_all busy in_line
cancel_all-busy [] = (refl, refl)
cancel_all-busy (j ∷ jobs) =
    cancelled_at j.stage j jobs (cancel_all jobs) refl (cancel_all-busy jobs)

appended :
    (jobs : List Job) (j : Job)
    → j.stage ≡ waiting
    → (busy (jobs ++ j ∷ []) ≡ busy jobs) × (in_line (jobs ++ j ∷ []) ≡ in_line jobs)
unfolding busy in_line
appended [] j e = simp e (omega arith, omega arith)
appended (i ∷ jobs) j e = let (h, k) = appended jobs j e in (omega (arith, h), omega (arith, k))

-- Every slot is free or executes a job, and no job is in line while a slot is free.
abbrev pub SlotsOk : ℕ → Loop → Type 0
SlotsOk concurrency l =
    (busy l.pending + l.free ≡ concurrency) × ((l.free ≡ 0) ⊎ (in_line l.pending ≡ 0))

acquired :
    (n : ℕ) (free : ℕ) (jobs : List Job) (r : List Job × ℕ)
    → Fair free jobs r
    → (busy jobs + free ≡ n) × ((free ≡ 0) ⊎ (in_line jobs ≡ 0))
    → (busy r.0 + r.1 ≡ n) × ((r.1 ≡ 0) ⊎ (in_line r.0 ≡ 0))
acquired n free jobs r (count, less, inl zero_left) (h, k) =
    (omega (arith, count, h), inl zero_left)
acquired n free jobs r (count, less, inr same) (h, inl k) =
    (omega (arith, count, h), inl (omega (arith, less, k)))
acquired n free jobs r (count, less, inr same) (h, inr k) =
    (omega (arith, count, h), inr (omega (arith, same, k)))

released :
    (n free : ℕ) (jobs : List Job) (handed : Option (List Job))
    → Handed jobs handed
    → suc (busy jobs) + free ≡ n
    → (free ≡ 0) ⊎ (in_line jobs ≡ 0)
    → let r = release jobs handed free in (busy r.0 + r.1 ≡ n) × ((r.1 ≡ 0) ⊎ (in_line r.0 ≡ 0))
released n free jobs none h count k = (omega (arith, count), inr h)
released n free jobs (some jobs') (h, some_one) count (inl k) = (omega (arith, count, h), inl k)
released n free jobs (some jobs') (h, some_one) count (inr k) = absurd (omega (arith, some_one, k))

left_ok :
    (n : ℕ) (l : Loop) (left : Left)
    → Freed l.pending left
    → SlotsOk n l
    → SlotsOk n (after_leave left l)
left_ok n l absent f ok = ok
left_ok n l (gone jobs) (b, q) (count, inl k) = (omega (arith, b, count), inl k)
left_ok n l (gone jobs) (b, q) (count, inr k) = (omega (arith, b, count), inr (omega (arith, q, k)))
left_ok n l (slot_free jobs) (b, q) (count, inl k) =
    released n l.free jobs (hand_over jobs) (hand_over-Handed jobs) (omega (arith, b, count))
      (inl k)
left_ok n l (slot_free jobs) (b, q) (count, inr k) =
    released n l.free jobs (hand_over jobs) (hand_over-Handed jobs) (omega (arith, b, count))
      (inr (omega (arith, q, k)))

received_ok :
    (n : ℕ) (listening shutdown : Bool) (task_json : String) (l : Loop)
    → SlotsOk n l
    → SlotsOk n (receive listening shutdown task_json l)
received_ok n false shutdown task_json l ok = ok
received_ok n true true task_json l ok = ok
received_ok n true false task_json l (count, k) =
    let (b, q) =
      appended l.pending (record { number = l.next; task_json = task_json; stage = waiting })
        refl in
    (rw b count, rw q k)

signal_ok : (n : ℕ) (first : Bool) (l : Loop) → SlotsOk n l → SlotsOk n (on_signal first l)
signal_ok n false l ok = ok
signal_ok n true l (count, k) = let (b, q) = cancel_all-busy l.pending in (rw b count, inr q)

wake_ok :
    (n : ℕ) (phase : Phase) (shutdown : Bool) (jobs : List Job) (l : Loop)
    → SlotsOk n l
    → SlotsOk n (wake phase shutdown jobs l)
wake_ok n serving true jobs l ok = ok
wake_ok n serving false jobs l ok = ok
wake_ok n draining shutdown [] l ok = ok
wake_ok n draining shutdown (j ∷ jobs) l ok = ok
wake_ok n stopped shutdown jobs l ok = ok

step_ok : (n : ℕ) (e : Event) (l : Loop) → SlotsOk n l → SlotsOk n (step e l)
unfolding step
step_ok n (arrives task_json) l ok = received_ok n l.listening l.shutdown task_json l ok
step_ok n connection_ends l ok = ok
step_ok n (is_due number) l ok =
    acquired n l.free l.pending (acquire number l.free l.pending)
      (acquire-Fair number l.free l.pending) ok
step_ok n (ends number) l ok =
    left_ok n l (leave number l.pending) (leave-Freed number l.pending) ok
step_ok n signal l ok = signal_ok n l.got_first_signal l ok
step_ok n wakes l ok = wake_ok n l.phase l.shutdown l.pending l ok

run_ok : (n : ℕ) (es : List Event) (l : Loop) → SlotsOk n l → SlotsOk n (run es l)
unfolding run
run_ok n [] l ok = ok
run_ok n (e ∷ es) l ok = run_ok n es (step e l) (step_ok n e l ok)

-- Whatever happens, the worker executes as many tasks as it has slots at most, no slot is ever lost or
-- made up, and no task that is due waits in line while a slot is free.
pub slots_are_kept :
    (concurrency : ℕ) (es : List Event) → SlotsOk concurrency (run es (new_loop concurrency))
unfolding new_loop busy in_line
slots_are_kept concurrency es = run_ok concurrency es (new_loop concurrency) (omega arith, inr refl)
