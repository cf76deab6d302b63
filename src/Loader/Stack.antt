-- ===== src/Loader/Stack.antt =====
-- The stack of the apps: which one is visible, and in which order they were launched.
use tactility_halo.Base.{
  ℕ, suc, ◌≤◌, ◌<◌, ◌≡◌, refl, inl, inr, String, List, [], ◌∷◌, ◌++◌, Option, arith, All, ◌==◌,
  Bool-cases,
}
use tactility_halo.Bundle.{Bundle}
use tactility_halo.Apps.{AppResult, showing, hiding, AppInstance}
use tactility_halo.Loader.{
  LoaderService, Message, start_message, stop_message, hide_previous, resume,
}
use tactility_halo.Loader.Runs.{set_result_of}

-- The app on top is showing, the others are hiding.
abbrev pub IsShown : List AppInstance → Type 0
IsShown [] = Unit
IsShown (app ∷ rest) = (app.state ≡ showing) × All (λ a. a.state ≡ hiding) rest

-- The launch ids fall from the top to the root, all below a limit.
abbrev pub Falls : ℕ → List AppInstance → Type 0
Falls limit [] = Unit
Falls limit (app ∷ rest) = (app.launch_id < limit) × Falls app.launch_id rest

-- The launch ids that wait in the queue rise, from a lower limit to a bound.
abbrev pub Rises : ℕ → List Message → ℕ → Type 0
Rises low [] bound = low ≤ bound
Rises low (start_message id launch_id parameters ∷ queue) bound =
    (low ≤ launch_id) × Rises (suc launch_id) queue bound
Rises low (stop_message id ∷ queue) bound = Rises low queue bound

-- Launches of ids up to the bound have been dispatched, in the order of their ids.
pub record IsValid (bound : ℕ) (s : LoaderService) : Type 0 where
  pub shown : IsShown s.app_stack
  pub limit : ℕ
  pub falls : Falls limit s.app_stack
  pub rises : Rises limit s.queue bound

pub Falls-mono : (m n : ℕ) (st : List AppInstance) → m ≤ n → Falls m st → Falls n st
Falls-mono m n [] h f = tt
Falls-mono m n (app ∷ rest) h f = (omega arith, f.1)

pub Rises-mono : (m n next : ℕ) (q : List Message) → m ≤ n → Rises n q next → Rises m q next
Rises-mono m n next [] h r = omega arith
Rises-mono m n next (start_message id l p ∷ q) h r = (omega arith, r.1)
Rises-mono m n next (stop_message id ∷ q) h r = Rises-mono m n next q h r

pub Rises-start :
    (low bound l : ℕ) (q : List Message) (id : String) (p : Option Bundle)
    → bound ≤ l
    → Rises low q bound
    → Rises low (q ++ start_message id l p ∷ []) (suc l)
Rises-start low bound l [] id p h r = (omega arith, omega arith)
Rises-start low bound l (start_message id' l' p' ∷ q) id p h r =
    (r.0, Rises-start (suc l') bound l q id p h r.1)
Rises-start low bound l (stop_message id' ∷ q) id p h r = Rises-start low bound l q id p h r

pub Rises-stop :
    (low next : ℕ) (q : List Message) (id : String)
    → Rises low q next
    → Rises low (q ++ stop_message id ∷ []) next
Rises-stop low next [] id r = r
Rises-stop low next (start_message id' l p' ∷ q) id r = (r.0, Rises-stop (suc l) next q id r.1)
Rises-stop low next (stop_message id' ∷ q) id r = Rises-stop low next q id r

pub hide_previous-All :
    (st : List AppInstance) → IsShown st → All (λ a. a.state ≡ hiding) (hide_previous st).0
unfolding hide_previous
hide_previous-All [] h = tt
hide_previous-All (app ∷ rest) h = (refl, h.1)

pub hide_previous-Falls :
    (limit : ℕ) (st : List AppInstance) → Falls limit st → Falls limit (hide_previous st).0
unfolding hide_previous
hide_previous-Falls limit [] f = tt
hide_previous-Falls limit (app ∷ rest) f = f

pub resume-IsShown :
    (st : List AppInstance) → All (λ a. a.state ≡ hiding) st → IsShown (resume st).0
unfolding resume
resume-IsShown [] h = tt
resume-IsShown (app ∷ rest) h = (refl, h.1)

pub resume-Falls : (limit : ℕ) (st : List AppInstance) → Falls limit st → Falls limit (resume st).0
unfolding resume
resume-Falls limit [] f = tt
resume-Falls limit (app ∷ rest) f = f

set_result_of-All :
    (l : ℕ) (r : AppResult) (b : Option Bundle) (st : List AppInstance)
    → All (λ a. a.state ≡ hiding) st
    → All (λ a. a.state ≡ hiding) (set_result_of l r b st)
unfolding set_result_of
set_result_of-All l r b [] h = tt
set_result_of-All l r b (app ∷ rest) h = (ground arith, set_result_of-All l r b rest h.1)

pub set_result_of-IsShown :
    (l : ℕ) (r : AppResult) (b : Option Bundle) (st : List AppInstance)
    → IsShown st
    → IsShown (set_result_of l r b st)
unfolding set_result_of
set_result_of-IsShown l r b [] h = tt
set_result_of-IsShown l r b (app ∷ rest) h = (ground arith, set_result_of-All l r b rest h.1)

pub set_result_of-Falls :
    (limit l : ℕ) (r : AppResult) (b : Option Bundle) (st : List AppInstance)
    → Falls limit st
    → Falls limit (set_result_of l r b st)
unfolding set_result_of
set_result_of-Falls limit l r b [] h = tt
set_result_of-Falls limit l r b (app ∷ rest) h = elim (Bool-cases (app.launch_id == l)) [
  | inl same ↦ rw same (h.0, set_result_of-Falls app.launch_id l r b rest h.1)
  | inr apart ↦ rw apart (h.0, set_result_of-Falls app.launch_id l r b rest h.1)
]
