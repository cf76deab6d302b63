-- ===== src/PubSub/Handles.antt =====
-- The handle that `subscribe` returns.
use tactility_halo.Base.{◌≡◌, ◌≢◌, List, [], ◌∷◌, ◌++◌, All}
use tactility_halo.PubSub.{Subscription, PubSub}

module _ {C : Type 0} where
  -- The newest subscription is the last item, and the only one with its id.
  record EndsWith (own : Subscription C) (p : PubSub C) : Type 0 where
    others : List (Subscription C)
    items_are : p.items ≡ others ++ own ∷ []
    apart : All (λ t. t.id ≢ own.id) others
    newest : p.last_id ≡ own.id
