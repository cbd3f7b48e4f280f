-- ===== src/Backend/Schedule/Balance.antt =====
-- What the rounds keep: each target's value is what its weight has earned less what its turns cost,
-- and never falls by the whole total.
use kubio.Prelude.{
  ℕ, zero, suc, ◌+◌, ◌*◌, ◌≤◌, ◌<◌, ◌≡◌, refl, subst, List, [], ◌∷◌, arith, map, get_elem?, set,
  some, All, length, ◌⊎◌, inl, inr,
}
use native.Mathlib.Decide.{dec_lt}
use kubio.Prelude.Int.{ℤ, pos, pos_part, neg_part, negsuc, ◌+ℤ◌, ◌-ℤ◌, ◌≤ℤ◌, +ℤ_parts, -ℤ_parts}
use kubio.Backend.Schedule.Pick.{add_weights}

-- One list holds the weights, one the values, and one the turns so far, after k rounds.
abbrev pub Balanced : ℕ → ℕ → List ℕ → List ℤ → List ℕ → Type 0
Balanced total k [] [] [] = Unit
Balanced total k (w ∷ ws) (c ∷ cs) (n ∷ ns) =
    (pos_part c + total * n ≡ neg_part c + k * w) × (neg_part c < total) × Balanced total k ws cs ns
Balanced total k ws cs ns = ⊥

abbrev pub sum : List ℕ → ℕ
sum [] = 0
sum (x ∷ xs) = x + sum xs

abbrev pos_sum : List ℤ → ℕ
pos_sum [] = 0
pos_sum (c ∷ cs) = pos_part c + pos_sum cs

abbrev neg_sum : List ℤ → ℕ
neg_sum [] = 0
neg_sum (c ∷ cs) = neg_part c + neg_sum cs

Balanced-sum :
    (total k : ℕ) (ws : List ℕ) (cs : List ℤ) (ns : List ℕ)
    → Balanced total k ws cs ns
    → pos_sum cs + total * sum ns ≡ neg_sum cs + k * sum ws
Balanced-sum total k [] [] [] b = omega arith
Balanced-sum total k [] [] (n ∷ ns) b = absurd b
Balanced-sum total k [] (c ∷ cs) ns b = absurd b
Balanced-sum total k (w ∷ ws) [] ns b = absurd b
Balanced-sum total k (w ∷ ws) (c ∷ cs) [] b = absurd b
Balanced-sum total k (w ∷ ws) (c ∷ cs) (n ∷ ns) (e, l, b) =
    omega (arith, Balanced-sum total k ws cs ns b)

pub Balanced-length :
    (total k : ℕ) (ws : List ℕ) (cs : List ℤ) (ns : List ℕ)
    → Balanced total k ws cs ns
    → (length (map pos ws) ≡ length cs) × (length ns ≡ length ws)
Balanced-length total k [] [] [] b = (refl, refl)
Balanced-length total k [] [] (n ∷ ns) b = absurd b
Balanced-length total k [] (c ∷ cs) ns b = absurd b
Balanced-length total k (w ∷ ws) [] ns b = absurd b
Balanced-length total k (w ∷ ws) (c ∷ cs) [] b = absurd b
Balanced-length total k (w ∷ ws) (c ∷ cs) (n ∷ ns) (e, l, b) =
    let (x, y) = Balanced-length total k ws cs ns b in (omega arith, omega arith)

neg_add : (c : ℤ) (w total : ℕ) → neg_part c < total → neg_part (c +ℤ pos w) < total
unfolding ◌+ℤ◌
neg_add c w total l = ground arith

-- An integer has only one part.
parts : (c : ℤ) → (pos_part c ≡ 0) ⊎ (neg_part c ≡ 0)
parts (pos n) = inr refl
parts (negsuc n) = inl refl

paid :
    (total k w n : ℕ) (b : ℤ)
    → pos_part b + total * n ≡ neg_part b + k * w
    → pos_part (b -ℤ pos total) + total * suc n ≡ neg_part (b -ℤ pos total) + k * w
paid total k w n b e = omega (arith, -ℤ_parts b (pos total))

kept : (b : ℤ) (total : ℕ) → 0 < pos_part b → 0 < total → neg_part (b -ℤ pos total) < total
unfolding ◌-ℤ◌
kept b total p q = ground arith

pub Balanced-add_weights :
    (total k : ℕ) (ws : List ℕ) (cs : List ℤ) (ns : List ℕ)
    → Balanced total k ws cs ns
    → Balanced total (suc k) ws (add_weights (map pos ws) cs) ns
Balanced-add_weights total k [] [] [] b = tt
Balanced-add_weights total k [] [] (n ∷ ns) b = absurd b
Balanced-add_weights total k [] (c ∷ cs) ns b = absurd b
Balanced-add_weights total k (w ∷ ws) [] ns b = absurd b
Balanced-add_weights total k (w ∷ ws) (c ∷ cs) [] b = absurd b
Balanced-add_weights total k (w ∷ ws) (c ∷ cs) (n ∷ ns) (e, l, b) =
    (earned total k w n c e, above c w total l, Balanced-add_weights total k ws cs ns b)
  where
    earned :
        (total k w n : ℕ) (c : ℤ)
        → pos_part c + total * n ≡ neg_part c + k * w
        → pos_part (c +ℤ pos w) + total * n ≡ neg_part (c +ℤ pos w) + suc k * w
    earned total k w n c e = omega (arith, +ℤ_parts c (pos w))

    above : (c : ℤ) (w total : ℕ) → neg_part c < total → neg_part (c +ℤ pos w) < total
    above c w total l = neg_add c w total l

-- One more turn for a target.
abbrev pub count_turn : List ℕ → ℕ → List ℕ
count_turn [] s = []
count_turn (n ∷ ns) zero = suc n ∷ ns
count_turn (n ∷ ns) (suc s) = n ∷ count_turn ns s

pub sum-count_turn : (ns : List ℕ) (s : ℕ) → s < length ns → sum (count_turn ns s) ≡ suc (sum ns)
sum-count_turn [] s h = absurd (omega arith)
sum-count_turn (n ∷ ns) zero h = omega arith
sum-count_turn (n ∷ ns) (suc s) h = omega (arith, sum-count_turn ns s (omega arith))

pub Balanced-set :
    (total k s : ℕ) (b : ℤ) (ws : List ℕ) (cs : List ℤ) (ns : List ℕ)
    → get_elem? cs s ≡ some b
    → 0 < pos_part b
    → Balanced total k ws cs ns
    → Balanced total k ws (set cs s (b -ℤ pos total)) (count_turn ns s) × (s < length ns)
Balanced-set total k s b ws [] ns e p bal = cc
Balanced-set total k s b [] (c ∷ cs) ns e p bal = absurd bal
Balanced-set total k s b (w ∷ ws) (c ∷ cs) [] e p bal = absurd bal
Balanced-set total k zero b (w ∷ ws) (c ∷ cs) (n ∷ ns) e p (q, l, bal) =
    let same : c ≡ b = cc in
    (
      (
        paid total k w n b (subst (λ x. pos_part x + total * n ≡ neg_part x + k * w) same q),
        kept b total p (omega arith),
        bal,
      ),
      omega arith,
    )
Balanced-set total k (suc s) b (w ∷ ws) (c ∷ cs) (n ∷ ns) e p (q, l, bal) =
    let (bal', inside) = Balanced-set total k s b ws cs ns e p bal in ((q, l, bal'), omega arith)

none_positive : (b : ℤ) (cs : List ℤ) → pos_part b ≡ 0 → All (λ x. x ≤ℤ b) cs → pos_sum cs ≡ 0
none_positive b [] e h = refl
none_positive b (c ∷ cs) e (h, hs) = omega (arith, none_positive b cs e hs, parts c)

-- Position by position not more.
abbrev Under : List ℕ → List ℕ → Type 0
Under [] [] = Unit
Under (n ∷ ns) (w ∷ ws) = (n ≤ w) × Under ns ws
Under ns ws = ⊥

Under-sum : (ns ws : List ℕ) → Under ns ws → sum ns ≤ sum ws
Under-sum [] [] u = omega arith
Under-sum [] (w ∷ ws) u = absurd u
Under-sum (n ∷ ns) [] u = absurd u
Under-sum (n ∷ ns) (w ∷ ws) (h, u) = omega (arith, Under-sum ns ws u)

all_equal : (ns ws : List ℕ) → Under ns ws → sum ws ≤ sum ns → ns ≡ ws
all_equal [] [] u e = refl
all_equal [] (w ∷ ws) u e = absurd u
all_equal (n ∷ ns) [] u e = absurd u
all_equal (n ∷ ns) (w ∷ ws) (h, u) e =
    let rest = Under-sum ns ws u in
    let same : n ≡ w = omega arith in cc (all_equal ns ws u (omega arith), same)

-- After the weights were added the greatest value is positive.
pub winner_positive :
    (total k : ℕ) (b : ℤ) (ws : List ℕ) (cs : List ℤ) (ns : List ℕ)
    → 0 < total
    → sum ws ≡ total
    → sum ns ≡ k
    → All (λ x. x ≤ℤ b) cs
    → Balanced total (suc k) ws cs ns
    → 0 < pos_part b
winner_positive total k b ws cs ns p w s top bal = elim (dec_lt 0 (pos_part b)) [
  | yes h ↦ h
  | no h ↦
      let whole : pos_sum cs + total * k ≡ neg_sum cs + suc k * total =
        subst (λ x. pos_sum cs + total * x ≡ neg_sum cs + suc k * total) s
          (subst (λ x. pos_sum cs + total * sum ns ≡ neg_sum cs + suc k * x) w
            (Balanced-sum total (suc k) ws cs ns bal)) in
      absurd (omega (arith, none_positive b cs (omega arith) top))
]

-- After all rounds no target has had more turns than its weight.
pub Balanced-done :
    (total : ℕ) (ws : List ℕ) (cs : List ℤ) (ns : List ℕ)
    → Balanced total total ws cs ns
    → sum ws ≤ sum ns
    → (ns ≡ ws)
Balanced-done total ws cs ns bal e = all_equal ns ws (under ws cs ns bal) e
  where
    few :
        (w n : ℕ) (c : ℤ)
        → pos_part c + total * n ≡ neg_part c + total * w
        → neg_part c < total
        → n ≤ w
    few w n c q l = grind arith

    under : (ws : List ℕ) (cs : List ℤ) (ns : List ℕ) → Balanced total total ws cs ns → Under ns ws
    under [] [] [] b = tt
    under [] [] (n ∷ ns) b = absurd b
    under [] (c ∷ cs) ns b = absurd b
    under (w ∷ ws) [] ns b = absurd b
    under (w ∷ ws) (c ∷ cs) [] b = absurd b
    under (w ∷ ws) (c ∷ cs) (n ∷ ns) (q, l, b) = (few w n c q l, under ws cs ns b)
