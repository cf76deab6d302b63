-- ===== src/Dispatcher/Tests.antt =====
-- Runs of Dispatcher.cpp at fixed inputs. The functions are numbers.
use tactility_halo.Base.{ℕ, ◌≡◌, refl, true, false, [], ◌∷◌, ◌++◌, some, arith}
use tactility_halo.Dispatcher.{Dispatcher, waiting, dispatch_push, dispatch_signal}
use tactility_halo.Dispatcher.Wakeups.{
  Reaches, begins, pushes, signals, in_flight, Reaches-order, no_lost_wakeup,
}
use tactility_halo.Dispatcher.Draining.{consume, consume_drains}

abbrev pushed_one : Dispatcher ℕ
pushed_one = record { queue = 7 ∷ []; flag = false; signalling = 1; phase = waiting }

abbrev full : Dispatcher ℕ
full = record { queue = 7 ∷ 8 ∷ []; flag = true; signalling = 0; phase = waiting }

abbrev drained : Dispatcher ℕ
drained = record { queue = []; flag = false; signalling = 0; phase = waiting }

abbrev queued : Dispatcher ℕ
queued = record { queue = 7 ∷ []; flag = true; signalling = 0; phase = waiting }

queued-Reaches : Reaches queued (7 ∷ []) []
queued-Reaches =
    unfold dispatch_push in
    unfold dispatch_signal in signals {d = pushed_one} (omega arith) (pushes 7 begins)

Reaches-order_example : 7 ∷ [] ≡ [] ++ (in_flight queued.phase ++ queued.queue)
Reaches-order_example = Reaches-order queued (7 ∷ []) [] queued-Reaches

no_lost_wakeup_example : queued.flag ≡ true
no_lost_wakeup_example =
    no_lost_wakeup queued (7 ∷ []) [] queued-Reaches refl refl (λ e. ground (arith, e))

consume_drains_example : consume (false ∷ true ∷ true ∷ []) full ≡ some (drained, 7 ∷ 8 ∷ [], 2)
consume_drains_example =
    consume_drains (false ∷ true ∷ true ∷ []) (7 ∷ 8 ∷ []) 0 (omega arith) (omega arith)
      (omega arith)
