-- ===== src/SystemEvents/Publishing.antt =====
-- Who is called for an event after a subscription and after its end.
use tactility_halo.Base.{
  ℕ, ◌+◌, ◌%◌, ◌^◌, ◌≤◌, ◌<◌, ◌≡◌, ◌∙◌, refl, ap, false, List, [], ◌∷◌, ◌++◌, arith, ◌==◌,
  if◌then◌else◌, All, Bool-cases, inl, inr,
}
use tactility_halo.SystemEvents.{
  SystemEvent, value, SubscriptionData, SystemEvents, calls, publish_system_event,
  subscribe_system_event, erase_all, unsubscribe_system_event,
}

module _ {H : Type 0} where
  -- No id is larger than the counter.
  abbrev pub IsValid : SystemEvents H → Type 0
  IsValid s = All (λ d. d.id ≤ s.subscription_counter) s.subscriptions

  calls-append :
      (event : SystemEvent) (l m : List (SubscriptionData H))
      → calls event (l ++ m) ≡ calls event l ++ calls event m
  unfolding calls
  calls-append event [] m = refl
  calls-append event (d ∷ l) m = elim (Bool-cases (value d.event == value event)) [
    | inl same ↦ rw (same, calls) (ap (◌∷◌ d.handler) (calls-append event l m))
    | inr apart ↦ rw (apart, calls) (calls-append event l m)
  ]

  erase_all-append :
      (id n : ℕ) (l : List (SubscriptionData H)) (d : SubscriptionData H)
      → All (λ x. x.id ≤ n) l
      → n < id
      → d.id ≡ id
      → erase_all id (l ++ d ∷ []) ≡ l
  unfolding erase_all
  erase_all-append id n [] d h lt e = ground (arith, e)
  erase_all-append id n (x ∷ l) d h lt e =
      let other : (x.id == id) ≡ false = ground (arith, h.0) in
      rw (other, erase_all) (ap (◌∷◌ x) (erase_all-append id n l d h.1 lt e))

  -- A new subscription adds its handler, behind those from before, to the calls for its event and
  -- to no others; its `unsubscribe` takes exactly that back, as long as the ids do not wrap.
  pub publish-subscribe :
      (s : SystemEvents H) (event other : SystemEvent) (handler : H)
      → IsValid s
      → s.subscription_counter + 1 < 2 ^ 32
      → (publish_system_event (subscribe_system_event s event handler).0 other
          ≡ publish_system_event s other
            ++ (if value event == value other then handler ∷ [] else []))
        × (publish_system_event
              (unsubscribe_system_event
                (subscribe_system_event s event handler).0
                (subscribe_system_event s event handler).1)
              other
            ≡ publish_system_event s other)
  unfolding publish_system_event subscribe_system_event unsubscribe_system_event
  publish-subscribe s event other handler v h =
      let id = (s.subscription_counter + 1) % 2 ^ 32 in
      let d : SubscriptionData H = record { id = id; event = event; handler = handler } in
      (
        calls-append other s.subscriptions (d ∷ [])
            ∙ ap (λ x. calls other s.subscriptions ++ x) (unfold calls in refl),
        ap (calls other)
            (erase_all-append id s.subscription_counter s.subscriptions d v (omega arith) refl),
      )
