-- ===== src/Worker/Loop/Shutdown.antt =====
-- The shutdown of `_worker_loop` in offwork/worker/remote.py.
use offwork.Base.{
  ℕ, zero, suc, String, ◌≡◌, ◌≢◌, ◌∙◌, refl, sym, ap, subst, inl, inr, Bool, true, false, ◌&&◌,
  ◌||◌, Option, none, some, List, [], ◌∷◌, ◌++◌, arith, ◌=ℕ◌, Bool-cases,
}
use offwork.Worker.Loop.{
  Stage, waiting, queued, executing, Job, Loop, Event, arrives, connection_ends, is_due, ends,
  signal, wakes, enter, is_waiting, acquire, hand_over_at, hand_over, Left, absent, gone, slot_free,
  under, leaves_as, leave, release, after_leave, stays_for, cancel_all, receive, on_signal, wake,
  Phase, serving, draining, stopped, step, run,
}

-- The worker still has the task of this number.
unfoldable pub has : ℕ → List Job → Bool
has k [] = false
has k (j ∷ jobs) = j.number =ℕ k || has k jobs

enter-has :
    (k free : ℕ) (j : Job) (jobs : List Job) → has k (enter free j jobs).0 ≡ has k (j ∷ jobs)
unfolding has
enter-has k zero j jobs = refl
enter-has k (suc free) j jobs = refl

acquire-has :
    (k number free : ℕ) (jobs : List Job) → has k (acquire number free jobs).0 ≡ has k jobs
unfolding acquire has
acquire-has k number free [] = refl
acquire-has k number free (j ∷ jobs) =
    elim (Bool-cases (j.number =ℕ number && is_waiting j.stage)) [
      | inl e ↦ rw e (enter-has k free j jobs)
      | inr e ↦ rw e (ap (λ (v : Bool). j.number =ℕ k || v) (acquire-has k number free jobs))
    ]

abbrev SameHas : ℕ → List Job → Option (List Job) → Type 0
SameHas k jobs none = Unit
SameHas k jobs (some jobs') = has k jobs' ≡ has k jobs

hand_over_at-has :
    (k : ℕ) (s : Stage) (j : Job) (jobs : List Job) (rest : Option (List Job))
    → SameHas k jobs rest
    → SameHas k (j ∷ jobs) (hand_over_at s j jobs rest)
unfolding has
hand_over_at-has k queued j jobs rest h = refl
hand_over_at-has k waiting j jobs none h = tt
hand_over_at-has k waiting j jobs (some jobs') h = ap (λ (v : Bool). j.number =ℕ k || v) h
hand_over_at-has k executing j jobs none h = tt
hand_over_at-has k executing j jobs (some jobs') h = ap (λ (v : Bool). j.number =ℕ k || v) h

hand_over-has : (k : ℕ) (jobs : List Job) → SameHas k jobs (hand_over jobs)
unfolding hand_over
hand_over-has k [] = tt
hand_over-has k (j ∷ jobs) =
    hand_over_at-has k j.stage j jobs (hand_over jobs) (hand_over-has k jobs)

release-has :
    (k free : ℕ) (jobs : List Job) (handed : Option (List Job))
    → SameHas k jobs handed
    → has k (release jobs handed free).0 ≡ has k jobs
release-has k free jobs none h = refl
release-has k free jobs (some jobs') h = h

-- A job that ends takes no other number with it.
abbrev Loses : ℕ → ℕ → List Job → Left → Type 0
Loses k number jobs absent = Unit
Loses k number jobs (gone jobs') =
    (has k jobs' ≡ true → has k jobs ≡ true) × (k ≢ number → has k jobs' ≡ has k jobs)
Loses k number jobs (slot_free jobs') =
    (has k jobs' ≡ true → has k jobs ≡ true) × (k ≢ number → has k jobs' ≡ has k jobs)

or_mono : (a b c : Bool) → (b ≡ true → c ≡ true) → (a || b) ≡ true → (a || c) ≡ true
or_mono true b c h e = refl
or_mono false b c h e = h e

under-Loses :
    (k number : ℕ) (j : Job) (jobs : List Job) (rest : Left)
    → Loses k number jobs rest
    → Loses k number (j ∷ jobs) (under j rest)
unfolding has
under-Loses k number j jobs absent h = tt
under-Loses k number j jobs (gone jobs') (h, same) = (
  or_mono (j.number =ℕ k) (has k jobs') (has k jobs) h,
  λ d. ap (λ (v : Bool). j.number =ℕ k || v) (same d),
)
under-Loses k number j jobs (slot_free jobs') (h, same) = (
  or_mono (j.number =ℕ k) (has k jobs') (has k jobs) h,
  λ d. ap (λ (v : Bool). j.number =ℕ k || v) (same d),
)

left_out :
    (k number : ℕ) (j : Job) (jobs : List Job)
    → (j.number =ℕ number) ≡ true
    → (has k jobs ≡ true → has k (j ∷ jobs) ≡ true) × (k ≢ number → has k jobs ≡ has k (j ∷ jobs))
unfolding has
left_out k number j jobs e = ground (arith, e)

leaves_as-Loses :
    (k number : ℕ) (s : Stage) (j : Job) (jobs : List Job) (rest : Left)
    → (j.number =ℕ number) ≡ true
    → Loses k number jobs rest
    → Loses k number (j ∷ jobs) (leaves_as s j jobs rest)
leaves_as-Loses k number waiting j jobs rest e h = left_out k number j jobs e
leaves_as-Loses k number executing j jobs rest e h = left_out k number j jobs e
leaves_as-Loses k number queued j jobs rest e h = under-Loses k number j jobs rest h

leave-Loses : (k number : ℕ) (jobs : List Job) → Loses k number jobs (leave number jobs)
unfolding leave
leave-Loses k number [] = tt
leave-Loses k number (j ∷ jobs) =
    let rest = leave number jobs in
    elim (Bool-cases (j.number =ℕ number)) [
      | inl e ↦ rw e (leaves_as-Loses k number j.stage j jobs rest e (leave-Loses k number jobs))
      | inr e ↦ rw e (under-Loses k number j jobs rest (leave-Loses k number jobs))
    ]

stays_mono :
    (k : ℕ) (s : Stage) (j : Job) (jobs rest : List Job)
    → (has k rest ≡ true → has k jobs ≡ true)
    → has k (stays_for s j rest) ≡ true
    → has k (j ∷ jobs) ≡ true
unfolding has
stays_mono k executing j jobs rest h e = or_mono (j.number =ℕ k) (has k rest) (has k jobs) h e
stays_mono k waiting j jobs rest h e = ground (arith, h e)
stays_mono k queued j jobs rest h e = ground (arith, h e)

cancel_all-has : (k : ℕ) (jobs : List Job) → has k (cancel_all jobs) ≡ true → has k jobs ≡ true
unfolding cancel_all
cancel_all-has k [] e = e
cancel_all-has k (j ∷ jobs) e =
    stays_mono k j.stage j jobs (cancel_all jobs) (cancel_all-has k jobs) e

-- A shutdown stays, and brings in no task.
abbrev Closes : ℕ → Loop → Loop → Type 0
Closes k l l' = (l'.shutdown ≡ true) × (has k l'.pending ≡ true → has k l.pending ≡ true)

received_closed :
    (k : ℕ) (listening shutdown : Bool) (task_json : String) (l : Loop)
    → shutdown ≡ true
    → l.shutdown ≡ true
    → Closes k l (receive listening shutdown task_json l)
received_closed k false shutdown task_json l e h = (h, λ x. x)
received_closed k true true task_json l e h = (h, λ x. x)
received_closed k true false task_json l e h = absurd (cc e)

left_closed :
    (k number : ℕ) (l : Loop) (left : Left)
    → Loses k number l.pending left
    → l.shutdown ≡ true
    → Closes k l (after_leave left l)
left_closed k number l absent h s = (s, λ x. x)
left_closed k number l (gone jobs) h s = (s, h.0)
left_closed k number l (slot_free jobs) h s =
    (s, λ x. h.0 (sym (release-has k l.free jobs (hand_over jobs) (hand_over-has k jobs)) ∙ x))

signal_closed :
    (k : ℕ) (first : Bool) (l : Loop) → l.shutdown ≡ true → Closes k l (on_signal first l)
signal_closed k false l h = (refl, λ x. x)
signal_closed k true l h = (h, cancel_all-has k l.pending)

wake_closed :
    (k : ℕ) (phase : Phase) (shutdown : Bool) (jobs : List Job) (l : Loop)
    → l.shutdown ≡ true
    → Closes k l (wake phase shutdown jobs l)
wake_closed k serving true jobs l h = (h, λ x. x)
wake_closed k serving false jobs l h = (h, λ x. x)
wake_closed k draining shutdown [] l h = (h, λ x. x)
wake_closed k draining shutdown (j ∷ jobs) l h = (h, λ x. x)
wake_closed k stopped shutdown jobs l h = (h, λ x. x)

step_closed : (k : ℕ) (e : Event) (l : Loop) → l.shutdown ≡ true → Closes k l (step e l)
unfolding step
step_closed k (arrives task_json) l h = received_closed k l.listening l.shutdown task_json l h h
step_closed k connection_ends l h = (h, λ x. x)
step_closed k (is_due number) l h = (h, λ x. sym (acquire-has k number l.free l.pending) ∙ x)
step_closed k (ends number) l h =
    left_closed k number l (leave number l.pending) (leave-Loses k number l.pending) h
step_closed k signal l h = signal_closed k l.got_first_signal l h
step_closed k wakes l h = wake_closed k l.phase l.shutdown l.pending l h

-- After a shutdown was requested the worker takes in no task: whatever happens, each task that it
-- still has then it had before, also if more tasks arrive.
pub no_task_after_shutdown :
    (es : List Event) (l : Loop) (k : ℕ)
    → l.shutdown ≡ true
    → has k (run es l).pending ≡ true
    → has k l.pending ≡ true
unfolding run
no_task_after_shutdown [] l k h e = e
no_task_after_shutdown (e ∷ es) l k h held =
    let (closed, back) = step_closed k e l h in
    back (no_task_after_shutdown es (step e l) k closed held)

-- The events end not the task of this number, and have no signal after a first one.
abbrev pub Spares : ℕ → Bool → List Event → Type 0
Spares k first [] = Unit
Spares k first (arrives _ ∷ es) = Spares k first es
Spares k first (connection_ends ∷ es) = Spares k first es
Spares k first (is_due _ ∷ es) = Spares k first es
Spares k first (ends number ∷ es) = (k ≢ number) × Spares k first es
Spares k first (signal ∷ es) = (first ≡ false) × Spares k true es
Spares k first (wakes ∷ es) = Spares k first es

has-append : (k : ℕ) (jobs more : List Job) → has k jobs ≡ true → has k (jobs ++ more) ≡ true
unfolding has
has-append k [] more h = absurd (cc h)
has-append k (j ∷ jobs) more h =
    or_mono (j.number =ℕ k) (has k jobs) (has k (jobs ++ more)) (has-append k jobs more) h

-- The task stays, and the signals are as they were.
abbrev Stays : ℕ → Loop → Loop → Type 0
Stays k l l' = (has k l'.pending ≡ true) × (l'.got_first_signal ≡ l.got_first_signal)

receive-Stays :
    (k : ℕ) (listening shutdown : Bool) (task_json : String) (l : Loop)
    → has k l.pending ≡ true
    → Stays k l (receive listening shutdown task_json l)
receive-Stays k false shutdown task_json l h = (h, refl)
receive-Stays k true true task_json l h = (h, refl)
receive-Stays k true false task_json l h = (
  has-append k l.pending (record { number = l.next; task_json = task_json; stage = waiting } ∷ [])
      h,
  refl,
)

after_leave-Stays :
    (k number : ℕ) (l : Loop) (left : Left)
    → Loses k number l.pending left
    → k ≢ number
    → has k l.pending ≡ true
    → Stays k l (after_leave left l)
after_leave-Stays k number l absent h d s = (s, refl)
after_leave-Stays k number l (gone jobs) h d s = (h.1 d ∙ s, refl)
after_leave-Stays k number l (slot_free jobs) h d s =
    (release-has k l.free jobs (hand_over jobs) (hand_over-has k jobs) ∙ h.1 d ∙ s, refl)

wake-Stays :
    (k : ℕ) (phase : Phase) (shutdown : Bool) (jobs : List Job) (l : Loop)
    → has k l.pending ≡ true
    → Stays k l (wake phase shutdown jobs l)
wake-Stays k serving true jobs l h = (h, refl)
wake-Stays k serving false jobs l h = (h, refl)
wake-Stays k draining shutdown [] l h = (h, refl)
wake-Stays k draining shutdown (j ∷ jobs) l h = (h, refl)
wake-Stays k stopped shutdown jobs l h = (h, refl)

-- One signal cancels no task: as long as at most one signal has come, a task that the worker has taken in is there until
-- it ends by itself, whatever else happens.
pub one_signal_cancels_none :
    (es : List Event) (l : Loop) (k : ℕ)
    → has k l.pending ≡ true
    → Spares k l.got_first_signal es
    → has k (run es l).pending ≡ true
unfolding run step
one_signal_cancels_none [] l k h spare = h
one_signal_cancels_none (arrives task_json ∷ es) l k h spare =
    let (held, same) = receive-Stays k l.listening l.shutdown task_json l h in
    one_signal_cancels_none es (step (arrives task_json) l) k held
      (subst (λ f. Spares k f es) (sym same) spare)
one_signal_cancels_none (connection_ends ∷ es) l k h spare =
    one_signal_cancels_none es (step connection_ends l) k h spare
one_signal_cancels_none (is_due number ∷ es) l k h spare =
    one_signal_cancels_none es (step (is_due number) l) k
      (acquire-has k number l.free l.pending ∙ h) spare
one_signal_cancels_none (ends number ∷ es) l k h (d, spare) =
    let (held, same) =
      after_leave-Stays k number l (leave number l.pending) (leave-Loses k number l.pending) d h in
    one_signal_cancels_none es (step (ends number) l) k held
      (subst (λ f. Spares k f es) (sym same) spare)
one_signal_cancels_none (signal ∷ es) l k h (first, spare) =
    one_signal_cancels_none es (step signal l) k (rw first h) (rw first spare)
one_signal_cancels_none (wakes ∷ es) l k h spare =
    let (held, same) = wake-Stays k l.phase l.shutdown l.pending l h in
    one_signal_cancels_none es (step wakes l) k held (subst (λ f. Spares k f es) (sym same) spare)
