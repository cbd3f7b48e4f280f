-- ===== src/Backend/Schedule.antt =====
-- proxy.go: the order in which a backend with weights takes its targets (smooth weighted round
-- robin). An int is an integer here: the checks bound the weights by 1000 and their sum by 10000,
-- so that no sum comes near the bounds of int64.
pub mod Pick
pub mod Balance
pub mod Exact
pub mod Turns
use kubio.Prelude.{
  ℕ, zero, suc, ◌+◌, Bool, true, false, Option, none, some, List, [], ◌∷◌, map, ◌==◌, if◌then◌else◌,
  length, set, get_or, Result, ok, err, ◌>>=◌, ◌>>◌, reject_if, not, ◌||◌,
}
use kubio.Prelude.Int.{ℤ, pos, pos_part, ◌+ℤ◌, ◌-ℤ◌, ltb_ℤ}

-- maxTargetWeight
abbrev pub max_target_weight : ℕ
max_target_weight = 1_000

-- maxTargetWeightTotal
abbrev pub max_target_weight_total : ℕ
max_target_weight_total = 10_000

pub data WeightError : Type 0 where
  no_weights not_one_per_target : WeightError
  weight_range sum_range : ℕ → WeightError

-- The loop of validateTargetWeights.
unfoldable pub validate_weights_from : ℕ → ℤ → List ℤ → Result WeightError (Unit {0})
validate_weights_from index total [] = ok tt
validate_weights_from index total (weight ∷ weights) =
    let rest = validate_weights_from (suc index) (total +ℤ weight) weights in
    if ltb_ℤ weight (pos 1) || ltb_ℤ (pos max_target_weight) weight
    then err (weight_range index)
    else if ltb_ℤ (pos max_target_weight_total -ℤ weight) total
    then err (sum_range index)
    else rest

-- validateTargetWeights
unfoldable pub validate_target_weights : List ℤ → ℕ → Result WeightError (Unit {0})
unfolding validate_weights_from
validate_target_weights weights target_count = do
  reject_if (length weights == 0) no_weights
  reject_if (not (length weights == target_count)) not_one_per_target
  validate_weights_from 0 (pos 0) weights

abbrev pub sum_ℤ : List ℤ → ℤ
sum_ℤ [] = pos 0
sum_ℤ (x ∷ xs) = x +ℤ sum_ℤ xs

-- The selected index with current[selected]; nothing is selected before index 0.
abbrev pub Selection : Type 0
Selection = Option (ℕ × ℤ)

-- if index == 0 || current[index] > current[selected] { selected = index }
unfoldable pub reselect : ℕ → ℤ → Selection → Selection
reselect index value none = some (index, value)
reselect index value (some (selected, best)) =
    if ltb_ℤ best value then some (index, value) else some (selected, best)

-- The inner loop of buildTargetSchedule: the new values of current and the selection.
unfoldable pub bump_from : ℕ → List ℤ → List ℤ → Selection → List ℤ × Selection
unfolding reselect
bump_from index (weight ∷ weights) (value ∷ current) selection =
    let value' = value +ℤ weight in
    let (current', selection') =
      bump_from (suc index) weights current (reselect index value' selection) in
    (value' ∷ current', selection')
bump_from index weights current selection = (current, selection)

-- current[selected] -= total
unfoldable pub take_turn : ℤ → List ℤ × Selection → List ℤ × ℕ
take_turn total (current, none) = (current, 0)
take_turn total (current, some (selected, value)) =
    (set current selected (value -ℤ total), selected)

-- The outer loop.
unfoldable pub schedule_from : ℕ → ℤ → List ℤ → List ℤ → List ℕ
unfolding bump_from take_turn
schedule_from zero total weights current = []
schedule_from (suc rounds) total weights current =
    let (current', selected) = take_turn total (bump_from 0 weights current none) in
    selected ∷ schedule_from rounds total weights current'

-- buildTargetSchedule
unfoldable pub build_target_schedule : List ℤ → List ℕ
unfolding schedule_from ◌+ℤ◌ ◌-ℤ◌
build_target_schedule weights =
    schedule_from (pos_part (sum_ℤ weights)) (sum_ℤ weights) weights (map (λ w. pos 0) weights)
