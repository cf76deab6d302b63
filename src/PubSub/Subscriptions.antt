-- ===== src/PubSub/Subscriptions.antt =====
-- The handles of the subscriptions of a `PubSub`.
use tactility_halo.Base.{
  ℕ, ◌+◌, ◌%◌, ◌^◌, ◌≤◌, ◌<◌, ◌≡◌, ◌≢◌, refl, ◌⊎◌, inl, inr, false, List, [], ◌∷◌, ◌++◌, none, some,
  arith, ◌==◌, All, All-append, Option-cases, Bool-cases,
}
use native.Mathlib.Nat.{mod-eq_of_lt}
use tactility_halo.PubSub.{
  Subscription, PubSub, subscribe_locked, subscription_handle, unsubscribe, erase_first,
}

module _ {C : Type 0} where
  -- The ids fall from the back to the front, lie below the bound, and none is 0.
  abbrev pub Below : ℕ → List (Subscription C) → Type 0
  Below n = All (λ s. (0 < s.id) × (s.id ≤ n))

  abbrev pub IsDistinct : List (Subscription C) → Type 0
  IsDistinct [] = Unit
  IsDistinct (s ∷ rest) = All (λ t. s.id ≢ t.id) rest × IsDistinct rest

  pub record IsValid (p : PubSub C) : Type 0 where
    pub below : Below p.last_id p.items
    pub distinct : IsDistinct p.items

  Below-mono : (m n : ℕ) (l : List (Subscription C)) → m ≤ n → Below m l → Below n l
  Below-mono m n [] h b = tt
  Below-mono m n (s ∷ l) h b = (omega arith, Below-mono m n l h b.1)

  pub fresh-ne : (n k : ℕ) (l : List (Subscription C)) → n < k → Below n l → All (λ t. t.id ≢ k) l
  fresh-ne n k [] h b = tt
  fresh-ne n k (t ∷ l) h b = (omega arith, fresh-ne n k l h b.1)

  IsDistinct-append :
      (l : List (Subscription C)) (s : Subscription C)
      → IsDistinct l
      → All (λ t. t.id ≢ s.id) l
      → IsDistinct (l ++ s ∷ [])
  IsDistinct-append [] s d f = (tt, tt)
  IsDistinct-append (t ∷ l) s d f =
      (All-append (λ u. t.id ≢ u.id) l (s ∷ []) d.0 (f.0, tt), IsDistinct-append l s d.1 f.1)

  pub subscribe-IsValid :
      (p : PubSub C) (c : C) → p.last_id + 1 < 2 ^ 64 → IsValid p → IsValid (subscribe_locked p c)
  unfolding subscribe_locked
  subscribe-IsValid p c h v = record {
    below =
        All-append (λ s. (0 < s.id) × (s.id ≤ (p.last_id + 1) % 2 ^ 64)) p.items _
          (Below-mono p.last_id _ p.items (omega arith) v.below) ((omega arith, omega arith), tt);
    distinct =
        IsDistinct-append p.items _ v.distinct (fresh-ne p.last_id _ p.items (omega arith) v.below);
  }

  erase_first-append :
      (l : List (Subscription C)) (s : Subscription C)
      → All (λ t. t.id ≢ s.id) l
      → erase_first s.id (l ++ s ∷ []) ≡ some l
  unfolding erase_first
  erase_first-append [] s f = ground arith
  erase_first-append (t ∷ l) s f = ground (arith, erase_first-append l s f.1, f.0)

  pub erase_first-cons :
      (id : ℕ) (s : Subscription C) (l m : List (Subscription C))
      → erase_first id (s ∷ l) ≡ some m
      → ((s.id ≡ id) × (m ≡ l))
        ⊎ ((rest : List (Subscription C)) × (s.id ≢ id)
            × (erase_first id l ≡ some rest)
            × (m ≡ s ∷ rest))
  unfolding erase_first
  erase_first-cons id s l m e = elim (Option-cases (erase_first id l)) [
    | inl gone ↦ elim (Bool-cases (s.id == id)) [
      | inl same ↦ inl (ground arith, ground arith)
      | inr apart ↦ absurd (ground arith)
    ]
    | inr (rest, found) ↦ elim (Bool-cases (s.id == id)) [
      | inl same ↦ inl (ground arith, ground arith)
      | inr apart ↦ inr (rest, λ z. ground arith, found, ground arith)
    ]
  ]

  pub erase_first-All {κ} :
      (P : Subscription C → Type κ) (id : ℕ) (l m : List (Subscription C))
      → erase_first id l ≡ some m
      → All P l
      → All P m
  erase_first-All P id [] m e a = unfold erase_first in cc
  erase_first-All P id (s ∷ l) m e a = elim (erase_first-cons id s l m e) [
    | inl (same, z) ↦ rw z a.1
    | inr (rest, apart, found, z) ↦ rw z (a.0, erase_first-All P id l rest found a.1)
  ]

  apart_from :
      (id k : ℕ) (l : List (Subscription C))
      → k ≡ id
      → All (λ t. k ≢ t.id) l
      → All (λ t. t.id ≢ id) l
  apart_from id k [] e a = tt
  apart_from id k (t ∷ l) e a = (λ z. a.0 (omega arith), apart_from id k l e a.1)

  erase_first-gone :
      (id : ℕ) (l m : List (Subscription C))
      → erase_first id l ≡ some m
      → IsDistinct l
      → IsDistinct m × All (λ t. t.id ≢ id) m
  erase_first-gone id [] m e d = unfold erase_first in cc
  erase_first-gone id (s ∷ l) m e d = elim (erase_first-cons id s l m e) [
    | inl (same, z) ↦ rw z (d.1, apart_from id s.id l same d.0)
    | inr (rest, apart, found, z) ↦
        let (distinct, gone) = erase_first-gone id l rest found d.1 in
        rw z ((erase_first-All (λ t. s.id ≢ t.id) id l rest found d.0, distinct), (apart, gone))
  ]

  erase_first-none :
      (id : ℕ) (l : List (Subscription C)) → All (λ t. t.id ≢ id) l → erase_first id l ≡ none
  unfolding erase_first
  erase_first-none id [] f = refl
  erase_first-none id (t ∷ l) f = ground (arith, erase_first-none id l f.1, f.0)

  pub unsubscribe-split :
      (p q : PubSub C) (handle : ℕ)
      → unsubscribe p handle ≡ some q
      → (items : List (Subscription C)) × (erase_first handle p.items ≡ some items)
        × (q ≡ record p { items = items })
  unfolding unsubscribe
  unsubscribe-split p q handle e = elim (Option-cases (erase_first handle p.items)) [
    | inl gone ↦ absurd (ground arith)
    | inr (items, found) ↦ (items, found, ground arith)
  ]

  pub unsubscribe-IsValid :
      (p q : PubSub C) (handle : ℕ) → unsubscribe p handle ≡ some q → IsValid p → IsValid q
  unsubscribe-IsValid p q handle e v =
      let (items, found, z) = unsubscribe-split p q handle e in
      rw z (record {
        below =
            erase_first-All (λ s. (0 < s.id) × (s.id ≤ p.last_id)) handle p.items items found
              v.below;
        distinct = (erase_first-gone handle p.items items found v.distinct).0;
      })

  pub subscribe_lem :
      (p : PubSub C) (c : C)
      → p.last_id + 1 < 2 ^ 64
      → subscribe_locked p c ≡ record {
        last_id = p.last_id + 1;
        items = p.items ++ record { id = p.last_id + 1; callback = c } ∷ [];
      }
  unfolding subscribe_locked
  subscribe_lem p c h =
      let whole : (p.last_id + 1) % 2 ^ 64 ≡ p.last_id + 1 = omega arith in rw whole

  pub unsubscribe-last :
      (l : List (Subscription C)) (n : ℕ) (c : C)
      → 0 < n
      → All (λ t. t.id ≢ n) l
      → unsubscribe (record { last_id = n; items = l ++ record { id = n; callback = c } ∷ [] }) n
        ≡ some (record { last_id = n; items = l })
  unfolding unsubscribe
  unsubscribe-last l n c h f =
      let nonzero : (n == 0) ≡ false = ground arith in
      rw (nonzero, erase_first-append l (record { id = n; callback = c }) f)

  pub handle_lem :
      (w n : ℕ) (items : List (Subscription C))
      → n < 2 ^ w
      → subscription_handle w (record { last_id = n; items = items }) ≡ n
  unfolding subscription_handle
  handle_lem w n items h = mod-eq_of_lt h

  unsubscribe_gone :
      (p : PubSub C) (items : List (Subscription C)) (handle : ℕ)
      → All (λ t. t.id ≢ handle) items
      → unsubscribe (record p { items = items }) handle ≡ none
  unfolding unsubscribe
  unsubscribe_gone p items handle f = ground (arith, erase_first-none handle items f)

  -- In a valid state a handle is good for one `unsubscribe`: the second one crashes.
  pub unsubscribe_twice :
      (p q : PubSub C) (handle : ℕ)
      → IsValid p
      → unsubscribe p handle ≡ some q
      → unsubscribe q handle ≡ none
  unsubscribe_twice p q handle v e =
      let (items, found, z) = unsubscribe-split p q handle e in
      rw z
        (unsubscribe_gone p items handle (erase_first-gone handle p.items items found v.distinct).1)

  pub last_id-unsubscribe :
      (p q : PubSub C) (handle : ℕ) → unsubscribe p handle ≡ some q → q.last_id ≡ p.last_id
  last_id-unsubscribe p q handle e = let (items, found, z) = unsubscribe-split p q handle e in rw z
