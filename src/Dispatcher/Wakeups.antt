-- ===== src/Dispatcher/Wakeups.antt =====
-- The interleavings of the threads that dispatch with the one that consumes, for `Dispatcher`.
use tactility_halo.Base.{
  ℕ, ◌<◌, ◌≡◌, ◌≢◌, ◌∙◌, refl, ap, subst, sym, ◌⊎◌, inl, inr, Bool, true, false, List, [], ◌∷◌,
  ◌++◌, arith, if◌then◌else◌, append_assoc, Bool-cases,
}
use tactility_halo.Dispatcher.{
  Phase, waiting, woken, looping, calling, Dispatcher, init, dispatch_push, dispatch_signal,
  consume_wait, consume_clear, consume_take, consume_called,
}

-- The states that the threads can reach, with the functions that were put into the queue and the
-- functions that were called, both in their order.
pub data Reaches {C : Type 0} : Dispatcher C → List C → List C → Type 0 where
  begins : Reaches init [] []
  pushes :
      {d : Dispatcher C} {pushed called : List C} (function : C)
      → Reaches d pushed called
      → Reaches (dispatch_push true function d) (pushed ++ function ∷ []) called
  signals :
      {d : Dispatcher C} {pushed called : List C}
      → 0 < d.signalling
      → Reaches d pushed called
      → Reaches (dispatch_signal d) pushed called
  waits :
      {d : Dispatcher C} {pushed called : List C}
      → d.phase ≡ waiting
      → Reaches d pushed called
      → Reaches (consume_wait d) pushed called
  clears :
      {d : Dispatcher C} {pushed called : List C}
      → d.phase ≡ woken
      → Reaches d pushed called
      → Reaches (consume_clear d) pushed called
  takes :
      {d : Dispatcher C} {pushed called : List C} (locks : Bool) (consumed : ℕ)
      → d.phase ≡ looping consumed
      → Reaches d pushed called
      → Reaches (consume_take locks consumed d d.queue) pushed called
  calls :
      {d : Dispatcher C} {pushed called : List C} (function : C) (processing : Bool) (consumed : ℕ)
      → d.phase ≡ calling function processing consumed
      → Reaches d pushed called
      → Reaches (consume_called processing consumed d) pushed (called ++ function ∷ [])

-- The function that was taken from the queue and not called yet.
abbrev pub in_flight : {C : Type 0} → Phase C → List C
in_flight waiting = []
in_flight woken = []
in_flight (looping consumed) = []
in_flight (calling function processing consumed) = function ∷ []

-- The consumer will look at the queue again before it waits.
abbrev pub IsBusy : {C : Type 0} → Phase C → Type 0
IsBusy waiting = ⊥
IsBusy woken = Unit
IsBusy (looping consumed) = Unit
IsBusy (calling function processing consumed) = processing ≡ true

-- Nothing is queued, or somebody will see to it.
abbrev pub IsAwake : {C : Type 0} → Dispatcher C → Type 0
IsAwake d = (d.queue ≡ []) ⊎ (d.flag ≡ true) ⊎ (0 < d.signalling) ⊎ IsBusy d.phase

take_order :
    {C : Type 0} (locks : Bool) (consumed : ℕ) (d : Dispatcher C) (queue : List C)
    → d.queue ≡ queue
    → in_flight (consume_take locks consumed d queue).phase
        ++ (consume_take locks consumed d queue).queue
      ≡ queue
unfolding consume_take
take_order false consumed d queue e = e
take_order true consumed d [] e = e
take_order true consumed d (f ∷ rest) e = refl

called_order :
    {C : Type 0} (processing : Bool) (consumed : ℕ) (d : Dispatcher C)
    → d.queue
      ≡ in_flight (consume_called processing consumed d).phase
        ++ (consume_called processing consumed d).queue
unfolding consume_called
called_order true consumed d = refl
called_order false consumed d = refl

wait_order :
    {C : Type 0} (d : Dispatcher C)
    → d.phase ≡ waiting
    → in_flight d.phase ++ d.queue ≡ in_flight (consume_wait d).phase ++ (consume_wait d).queue
unfolding consume_wait
wait_order d h = elim (Bool-cases d.flag) [
  | inl yes' ↦ rw (yes', consume_wait) (ap (λ x. in_flight x ++ d.queue) h)
  | inr no' ↦ rw (no', consume_wait)
]

-- In every interleaving, what was put into the queue is, in this order: what was called, what is
-- about to be called, and what is still queued.
pub Reaches-order :
    {C : Type 0} (d : Dispatcher C) (pushed called : List C)
    → Reaches d pushed called
    → pushed ≡ called ++ (in_flight d.phase ++ d.queue)
unfolding dispatch_push dispatch_signal consume_clear
Reaches-order d pushed called begins = refl
Reaches-order d pushed called (pushes {d = e} {pushed = p} {called = q} function r) =
    ap (λ x. x ++ function ∷ []) (Reaches-order e p q r)
    ∙ append_assoc q (in_flight e.phase ++ e.queue) (function ∷ [])
    ∙ ap (λ x. q ++ x) (append_assoc (in_flight e.phase) e.queue (function ∷ []))
Reaches-order d pushed called (signals {d = e} {pushed = p} {called = q} h r) =
    Reaches-order e p q r
Reaches-order d pushed called (waits {d = e} {pushed = p} {called = q} h r) =
    Reaches-order e p q r ∙ ap (λ x. q ++ x) (wait_order e h)
Reaches-order d pushed called (clears {d = e} {pushed = p} {called = q} h r) =
    Reaches-order e p q r ∙ ap (λ x. q ++ (in_flight x ++ e.queue)) h
Reaches-order d pushed called (takes {d = e} {pushed = p} {called = q} locks n h r) =
    Reaches-order e p q r
    ∙ ap (λ x. q ++ (in_flight x ++ e.queue)) h
    ∙ ap (λ x. q ++ x) (sym (take_order locks n e e.queue refl))
Reaches-order d pushed called (calls {d = e} {pushed = p} {called = q} f more n h r) =
    Reaches-order e p q r
    ∙ ap (λ x. q ++ (in_flight x ++ e.queue)) h
    ∙ sym (append_assoc q (f ∷ []) e.queue)
    ∙ ap (λ x. (q ++ f ∷ []) ++ x) (called_order more n e)

wait_off : {C : Type 0} (d : Dispatcher C) → d.flag ≡ false → consume_wait d ≡ d
unfolding consume_wait
wait_off d h = ap (λ b. if b then record d { flag = false; phase = woken } else d) h

wait-IsAwake : {C : Type 0} (d : Dispatcher C) → IsAwake d → IsAwake (consume_wait d)
unfolding consume_wait
wait-IsAwake d a = elim (Bool-cases d.flag) [
  | inl set_flag ↦ rw (set_flag, consume_wait) (inr (inr (inr tt)))
  | inr clear_flag ↦ subst IsAwake (sym (wait_off d clear_flag)) a
]

take-IsAwake :
    {C : Type 0} (locks : Bool) (consumed : ℕ) (d : Dispatcher C) (queue : List C)
    → d.queue ≡ queue
    → IsAwake (consume_take locks consumed d queue)
unfolding consume_take
take-IsAwake false consumed d queue e = inr (inr (inr tt))
take-IsAwake true consumed d [] e = inl e
take-IsAwake true consumed d (f ∷ []) e = inl refl
take-IsAwake true consumed d (f ∷ (g ∷ rest)) e = inr (inr (inr refl))

called-IsAwake :
    {C : Type 0} (function : C) (processing : Bool) (consumed : ℕ) (d : Dispatcher C)
    → d.phase ≡ calling function processing consumed
    → IsAwake d
    → IsAwake (consume_called processing consumed d)
unfolding consume_called
called-IsAwake function true consumed d h a = inr (inr (inr tt))
called-IsAwake function false consumed d h a = elim a [
  | inl empty ↦ inl empty
  | inr (inl set_flag) ↦ inr (inl set_flag)
  | inr (inr (inl some_signal)) ↦ inr (inr (inl some_signal))
  | inr (inr (inr busy)) ↦ absurd (ground (arith, subst IsBusy h busy))
]

Reaches-IsAwake :
    {C : Type 0} (d : Dispatcher C) (pushed called : List C) → Reaches d pushed called → IsAwake d
unfolding dispatch_push dispatch_signal consume_clear
Reaches-IsAwake d pushed called begins = inl refl
Reaches-IsAwake d pushed called (pushes {d = e} function r) = inr (inr (inl (omega arith)))
Reaches-IsAwake d pushed called (signals {d = e} h r) = inr (inl refl)
Reaches-IsAwake d pushed called (waits {d = e} {pushed = p} {called = q} h r) =
    wait-IsAwake e (Reaches-IsAwake e p q r)
Reaches-IsAwake d pushed called (clears {d = e} h r) = inr (inr (inr tt))
Reaches-IsAwake d pushed called (takes {d = e} locks n h r) = take-IsAwake locks n e e.queue refl
Reaches-IsAwake d pushed called (calls {d = e} {pushed = p} {called = q} f more n h r) =
    called-IsAwake f more n e h (Reaches-IsAwake e p q r)

-- No wake-up is lost: when the consumer waits and no thread is between its push and its signal, a
-- queued function means that the flag is set, so that the wait ends at once.
pub no_lost_wakeup :
    {C : Type 0} (d : Dispatcher C) (pushed called : List C)
    → Reaches d pushed called
    → d.phase ≡ waiting
    → d.signalling ≡ 0
    → d.queue ≢ []
    → d.flag ≡ true
no_lost_wakeup d pushed called r idle quiet queued = elim (Reaches-IsAwake d pushed called r) [
  | inl empty ↦ absurd (queued empty)
  | inr (inl set_flag) ↦ set_flag
  | inr (inr (inl some_signal)) ↦ absurd (omega arith)
  | inr (inr (inr busy)) ↦ absurd (subst IsBusy idle busy)
]
