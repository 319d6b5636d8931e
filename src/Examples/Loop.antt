-- ===== src/Examples/Loop.antt =====
-- A worker with one slot that receives two tasks, is asked to stop, and goes on until they end.
use offwork.Base.{◌≡◌, refl, true, false, List, [], ◌∷◌, ◌++◌, arith}
use offwork.Worker.Loop.{
  Event, arrives, is_due, ends, signal, wakes, new_loop, acquire, hand_over, leave, step, run,
}
use offwork.Worker.Loop.Slots.{SlotsOk, slots_are_kept}
use offwork.Worker.Loop.Shutdown.{has, one_signal_cancels_none}

abbrev morning : List Event
morning = arrives "a" ∷ arrives "b" ∷ is_due 1 ∷ is_due 0 ∷ signal ∷ []

abbrev evening : List Event
evening = arrives "c" ∷ wakes ∷ ends 1 ∷ []

slots_are_kept_example : SlotsOk 1 (run (morning ++ evening) (new_loop 1))
slots_are_kept_example = slots_are_kept 1 (morning ++ evening)

asked_to_stop : (run morning (new_loop 1)).shutdown ≡ true
unfolding run step new_loop acquire
asked_to_stop = refl

first_kept : has 0 (run evening (run morning (new_loop 1))).pending ≡ true
unfolding run step new_loop acquire leave hand_over has
first_kept = refl

two_there : has 0 (run (arrives "a" ∷ arrives "b" ∷ []) (new_loop 1)).pending ≡ true
unfolding run step new_loop has
two_there = refl

no_signal : (run (arrives "a" ∷ arrives "b" ∷ []) (new_loop 1)).got_first_signal ≡ false
unfolding run step new_loop
no_signal = refl

one_signal_cancels_none_example :
    has 0 (run (signal ∷ evening) (run (arrives "a" ∷ arrives "b" ∷ []) (new_loop 1))).pending
    ≡ true
one_signal_cancels_none_example =
    one_signal_cancels_none (signal ∷ evening) (run (arrives "a" ∷ arrives "b" ∷ []) (new_loop 1)) 0
      two_there (no_signal, ((λ e. absurd (omega (arith, e))), tt))
