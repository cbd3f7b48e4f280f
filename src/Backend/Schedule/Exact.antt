-- ===== src/Backend/Schedule/Exact.antt =====
-- In one pass of the schedule every target has exactly as many turns as its weight.
use kubio.Prelude.{
  ℕ, zero, suc, ◌+◌, ◌<◌, ◌≡◌, ap, ◌∙◌, subst, List, [], ◌∷◌, arith, map, set, none, length,
}
use kubio.Prelude.Int.{ℤ, pos, ◌+ℤ◌, ◌-ℤ◌}
use kubio.Backend.Schedule.{bump_from, take_turn, schedule_from}
use kubio.Backend.Schedule.Pick.{add_weights, pick-All, bump_from_lem}
use kubio.Backend.Schedule.Balance.{
  Balanced, sum, count_turn, sum-count_turn, Balanced-length, Balanced-add_weights, Balanced-set,
  winner_positive, Balanced-done,
}

-- What one round does.
one_turn :
    (total k w : ℕ) (ws : List ℕ) (c : ℤ) (cs : List ℤ) (ns : List ℕ)
    → 0 < total
    → sum (w ∷ ws) ≡ total
    → sum ns ≡ k
    → Balanced total k (w ∷ ws) (c ∷ cs) ns
    → (cs' : List ℤ) × (s : ℕ) × (take_turn
          (pos total)
          (bump_from 0 (map pos (w ∷ ws)) (c ∷ cs) none)
        ≡ (cs', s))
      × Balanced total (suc k) (w ∷ ws) cs' (count_turn ns s)
      × (s < length ns)
unfolding take_turn
one_turn total k w ws c cs ns p sums turns bal =
    let bumped =
      bump_from_lem 0 (map pos (w ∷ ws)) (c ∷ cs) none
        (Balanced-length total k (w ∷ ws) (c ∷ cs) ns bal).0 in
    let added = Balanced-add_weights total k (w ∷ ws) (c ∷ cs) ns bal in
    let (s, b, picked, place, top) = pick-All (c +ℤ pos w) (add_weights (map pos ws) cs) in
    let positive =
      winner_positive total k b (w ∷ ws) (add_weights (map pos (w ∷ ws)) (c ∷ cs)) ns p sums turns
        top added in
    let (bal', inside) =
      Balanced-set total (suc k) s b (w ∷ ws) (add_weights (map pos (w ∷ ws)) (c ∷ cs)) ns place
        positive added in
    (
      set (add_weights (map pos (w ∷ ws)) (c ∷ cs)) s (b -ℤ pos total),
      s,
      rw (bumped, picked),
      bal',
      inside,
    )

-- The turns of a schedule, added up target by target.
abbrev pub tally : List ℕ → List ℕ → List ℕ
tally ns [] = ns
tally ns (s ∷ schedule) = tally (count_turn ns s) schedule

pub schedule_from-tally :
    (rounds total k : ℕ) (ws : List ℕ) (cs : List ℤ) (ns : List ℕ)
    → 0 < total
    → sum ws ≡ total
    → sum ns ≡ k
    → k + rounds ≡ total
    → Balanced total k ws cs ns
    → tally ns (schedule_from rounds (pos total) (map pos ws) cs) ≡ ws
unfolding schedule_from
schedule_from-tally zero total k ws cs ns p sums turns left bal =
    let full : k ≡ total = omega arith in
    Balanced-done total ws cs ns (subst (λ x. Balanced total x ws cs ns) full bal) (omega arith)
schedule_from-tally (suc rounds) total k [] cs ns p sums turns left bal = absurd (omega arith)
schedule_from-tally (suc rounds) total k (w ∷ ws) [] ns p sums turns left bal = absurd bal
schedule_from-tally (suc rounds) total k (w ∷ ws) (c ∷ cs) ns p sums turns left bal =
    let (cs', s, turn, bal', inside) = one_turn total k w ws c cs ns p sums turns bal in
    rw turn (
      schedule_from-tally rounds total (suc k) (w ∷ ws) cs' (count_turn ns s) p sums
        (sum-count_turn ns s inside ∙ ap suc turns) (omega arith) bal')
