-- ===== src/CasLoop.antt =====
-- The compare-and-swap loops of rate_limit.go over an atomic pointer, for any number of threads.
-- A thread loads the pointer, computes the next value and swaps it in if the pointer is still the
-- one that it loaded; else it starts again. Each stored value is a new allocation, so that a
-- pointer is modelled by a version number that each store raises.
pub mod Serial
pub mod History
use kubio.Prelude.{
  ℕ, suc, Bool, true, false, Option, none, some, List, [], ◌∷◌, ◌==◌, if◌then◌else◌,
}

pub data Thread {ℓ} (A : Type ℓ) : Type ℓ where
  idle : Thread A
  loaded : ℕ → A → Thread A
  returned : Bool → Thread A

-- What a thread or another part of the program does next.
pub data Action {ℓ} (A : Type ℓ) : Type ℓ where
  load : ℕ → Action A
  attempt : ℕ → ℕ → Action A
  store : A → Action A

-- What has happened to the pointer.
pub data Event {ℓ} (A : Type ℓ) : Type ℓ where
  swapped : ℕ → ℕ → Bool → Event A
  passed : ℕ → ℕ → A → Event A
  stored : A → Event A

pub record Machine {ℓ} (A : Type ℓ) : Type ℓ where
  pub version : ℕ
  pub value : A
  pub threads : ℕ → Thread A
  pub history : List (Event A)

abbrev pub update {ℓ} : {A : Type ℓ} → (ℕ → A) → ℕ → A → ℕ → A
update f i a j = if i == j then a else f j

-- `next` is what an attempt computes: nothing where the loop returns without a swap, admitted.
module _ {ℓ} {A : Type ℓ} (next : A → ℕ → Option (A × Bool)) where
  -- The swap of thread `t`, which has loaded `a` at version `v`.
  swap : Machine A → ℕ → ℕ → ℕ → A × Bool → Machine A
  swap m t now v (a, ok) =
      if v == m.version
      then record {
        version = suc m.version;
        value = a;
        threads = update m.threads t (returned ok);
        history = swapped t now ok ∷ m.history;
      }
      else record m { threads = update m.threads t idle }

  attempt_loaded : Machine A → ℕ → ℕ → Thread A → Machine A
  unfolding swap
  attempt_loaded m t now idle = m
  attempt_loaded m t now (returned ok) = m
  attempt_loaded m t now (loaded v a) = elim (next a now) [
    | none ↦ record m {
      threads = update m.threads t (returned true);
      history = passed t now a ∷ m.history;
    }
    | some r ↦ swap m t now v r
  ]

  load_idle : Machine A → ℕ → Thread A → Machine A
  load_idle m t idle = record m { threads = update m.threads t (loaded m.version m.value) }
  load_idle m t (loaded v a) = m
  load_idle m t (returned ok) = m

  unfoldable pub step : Machine A → Action A → Machine A
  unfolding attempt_loaded load_idle
  step m (load t) = load_idle m t (m.threads t)
  step m (attempt t now) = attempt_loaded m t now (m.threads t)
  step m (store a) = record m { version = suc m.version; value = a; history = stored a ∷ m.history }

  unfoldable pub run : Machine A → List (Action A) → Machine A
  unfolding step
  run m [] = m
  run m (a ∷ later) = run (step m a) later

-- Nobody has loaded yet.
unfoldable pub start {ℓ} : {A : Type ℓ} → A → Machine A
start a = record { version = 0; value = a; threads = λ t. idle; history = [] }
