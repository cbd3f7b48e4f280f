-- ===== src/Backend/Schedule/Turns.antt =====
-- Weights that pass the checks, and the turns in the schedule built from them.
use kubio.Prelude.{
  ℕ, zero, suc, ◌+◌, ◌≤◌, ◌<◌, ◌≡◌, refl, ap, ◌∙◌, sym, List, [], ◌∷◌, arith, map, get_elem?,
  get_or, some, length, count, ◌==◌, ok,
}
use kubio.Prelude.Int.{ℤ, pos, negsuc, ◌+ℤ◌}
use kubio.Backend.Schedule.{
  schedule_from, build_target_schedule, sum_ℤ, validate_target_weights, validate_weights_from,
}
use kubio.Backend.Schedule.Balance.{Balanced, sum, count_turn}
use kubio.Backend.Schedule.Exact.{tally, schedule_from-tally}

-- How often an index occurs.
abbrev pub occurrences : ℕ → List ℕ → ℕ
occurrences i [] = 0
occurrences i (s ∷ schedule) = count (s == i) + occurrences i schedule

count_turn-get_or :
    (ns : List ℕ) (s i : ℕ)
    → i < length ns
    → get_or (count_turn ns s) i 0 ≡ count (s == i) + get_or ns i 0
count_turn-get_or [] s i h = absurd (omega arith)
count_turn-get_or (n ∷ ns) zero zero h = omega arith
count_turn-get_or (n ∷ ns) zero (suc i) h = ground arith
count_turn-get_or (n ∷ ns) (suc s) zero h = ground arith
count_turn-get_or (n ∷ ns) (suc s) (suc i) h =
    ground (arith, count_turn-get_or ns s i (omega arith))

length-count_turn : (ns : List ℕ) (s : ℕ) → length (count_turn ns s) ≡ length ns
length-count_turn [] s = refl
length-count_turn (n ∷ ns) zero = refl
length-count_turn (n ∷ ns) (suc s) = ap suc (length-count_turn ns s)

tally-get_or :
    (schedule ns : List ℕ) (i : ℕ)
    → i < length ns
    → get_or (tally ns schedule) i 0 ≡ occurrences i schedule + get_or ns i 0
tally-get_or [] ns i h = omega arith
tally-get_or (s ∷ schedule) ns i h = omega (
  arith,
  tally-get_or schedule (count_turn ns s) i (omega (arith, length-count_turn ns s)),
  count_turn-get_or ns s i h,
)

zeros : List ℕ → List ℕ
zeros [] = []
zeros (w ∷ ws) = 0 ∷ zeros ws

zeros-sum : (ws : List ℕ) → sum (zeros ws) ≡ 0
unfolding zeros
zeros-sum [] = refl
zeros-sum (w ∷ ws) = omega (arith, zeros-sum ws)

zeros-length : (ws : List ℕ) → length (zeros ws) ≡ length ws
unfolding zeros
zeros-length [] = refl
zeros-length (w ∷ ws) = ap suc (zeros-length ws)

zeros-get_or : (ws : List ℕ) (i : ℕ) → get_or (zeros ws) i 0 ≡ 0
unfolding zeros
zeros-get_or [] i = refl
zeros-get_or (w ∷ ws) zero = refl
zeros-get_or (w ∷ ws) (suc i) = zeros-get_or ws i

zeros-Balanced :
    (total : ℕ) (ws : List ℕ)
    → 0 < total
    → Balanced total 0 ws (map (λ w. pos 0) (map pos ws)) (zeros ws)
unfolding zeros
zeros-Balanced total [] p = tt
zeros-Balanced total (w ∷ ws) p = (omega arith, omega arith, zeros-Balanced total ws p)

sum_ℤ-pos : (ws : List ℕ) → sum_ℤ (map pos ws) ≡ pos (sum ws)
unfolding ◌+ℤ◌
sum_ℤ-pos [] = refl
sum_ℤ-pos (w ∷ ws) = rw (sum_ℤ-pos ws) (ground arith)

-- The weights as natural numbers, each positive.
valid_weights :
    (index : ℕ) (total : ℤ) (weights : List ℤ)
    → validate_weights_from index total weights ≡ ok tt
    → (ws : List ℕ) × (weights ≡ map pos ws) × (length weights ≤ sum ws)
unfolding validate_weights_from
valid_weights index total [] h = ([], refl, omega arith)
valid_weights index total (negsuc n ∷ weights) h = absurd (ground arith)
valid_weights index total (pos zero ∷ weights) h = absurd (ground arith)
valid_weights index total (pos (suc n) ∷ weights) h =
    let (ws, e, l) = valid_weights (suc index) (total +ℤ pos (suc n)) weights (ground arith) in
    (suc n ∷ ws, ap (◌∷◌ (pos (suc n))) e, omega arith)

positive_sum :
    (weights : List ℤ) (n : ℕ)
    → validate_target_weights weights n ≡ ok tt
    → (ws : List ℕ) × (weights ≡ map pos ws) × (0 < sum ws)
unfolding validate_target_weights
positive_sum [] n h = absurd cc
positive_sum (w ∷ weights) n h =
    let (ws, e, l) = valid_weights 0 (pos 0) (w ∷ weights) (ground arith) in (ws, e, omega arith)

natural_turns :
    (ws : List ℕ) (i : ℕ)
    → 0 < sum ws
    → i < length ws
    → occurrences i (build_target_schedule (map pos ws)) ≡ get_or ws i 0
unfolding build_target_schedule
natural_turns ws i p h = rw (sum_ℤ-pos ws) (
    let all_turns =
      schedule_from-tally (sum ws) (sum ws) 0 ws (map (λ w. pos 0) (map pos ws)) (zeros ws) p refl
        (zeros-sum ws) (omega arith) (zeros-Balanced (sum ws) ws p) in
    omega (
      arith,
      tally-get_or
          (schedule_from (sum ws) (pos (sum ws)) (map pos ws) (map (λ w. pos 0) (map pos ws)))
          (zeros ws) i (omega (arith, zeros-length ws)),
      ap (λ ns. get_or ns i 0) all_turns,
      zeros-get_or ws i,
    ))

inside_map :
    (ws : List ℕ) (i : ℕ) (w : ℤ)
    → get_elem? (map pos ws) i ≡ some w
    → (i < length ws) × (pos (get_or ws i 0) ≡ w)
inside_map [] i w h = absurd cc
inside_map (x ∷ ws) zero w h = (omega arith, cc)
inside_map (x ∷ ws) (suc i) w h = let (l, e) = inside_map ws i w h in (omega arith, e)

-- When validateTargetWeights accepts the weights, each target has exactly as many turns in the
-- schedule as its weight says.
pub build_target_schedule-occurrences :
    (weights : List ℤ) (n i : ℕ) (w : ℤ)
    → validate_target_weights weights n ≡ ok tt
    → get_elem? weights i ≡ some w
    → pos (occurrences i (build_target_schedule weights)) ≡ w
build_target_schedule-occurrences weights n i w valid at_i =
    let (ws, e, p) = positive_sum weights n valid in
    let (inside, value) = inside_map ws i w (ap (λ x. get_elem? x i) (sym e) ∙ at_i) in
    ap (λ x. pos (occurrences i (build_target_schedule x))) e
    ∙ ap pos (natural_turns ws i p inside)
    ∙ value
