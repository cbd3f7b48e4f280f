-- ===== src/Site/Index.antt =====
-- The maps of buildRouteIndex hold, at each path, the positions of the routes with that path.
use kubio.Prelude.{
  ℕ, zero, suc, ◌+◌, ◌≤◌, ◌≡◌, sym, ◌∙◌, ap, Bool, true, false, ◌⊎◌, inl, inr, some, List, [], ◌∷◌,
  ◌++◌, arith, if◌then◌else◌, get_elem?, ◌↔◌,
}
use kubio.Text.{Text, text_eq}
use kubio.Text.Laws.{text_eq_iff}
use kubio.Net.{values_of}
use kubio.Route.{Route, PathIndex}
use kubio.Site.{append_at, index_step, index_from, build_route_index}
use kubio.Site.Scan.{In}

values_of-append_at :
    (k path : Text) (i : ℕ) (m : PathIndex)
    → values_of k (append_at path i m)
      ≡ (if text_eq k path then values_of k m ++ i ∷ [] else values_of k m)
unfolding values_of append_at
values_of-append_at k path i [] = ground (arith, text_eq_iff k path, text_eq_iff path k)
values_of-append_at k path i ((key, positions) ∷ m) = ground (
  arith,
  text_eq_iff k path,
  text_eq_iff path k,
  text_eq_iff key path,
  text_eq_iff key k,
  values_of-append_at k path i m,
)

In-append : (i j : ℕ) (xs : List ℕ) → In i (xs ++ j ∷ []) ↔ (In i xs ⊎ (i ≡ j))
In-append i j [] = ground arith
In-append i j (x ∷ xs) = ground (arith, In-append i j xs)

-- The map of wildcard routes, or that of exact ones.
abbrev map_of : Bool → PathIndex × PathIndex → PathIndex
map_of true maps = maps.1
map_of false maps = maps.0

-- The route at position i, counted from `index`, is of the kind and has the path.
abbrev Stands : {P : Type 0} → Bool → Text → ℕ → ℕ → List (Route P) → Type 0
Stands kind k i index [] = ⊥
Stands kind k i index (r ∷ routes) =
    ((i ≡ index) × (r.pattern.wildcard ≡ kind) × (r.pattern.path ≡ k))
    ⊎ Stands kind k i (suc index) routes

In-append_at :
    (i j : ℕ) (k path : Text) (m : PathIndex)
    → In i (values_of k (append_at path j m)) ↔ (In i (values_of k m) ⊎ ((i ≡ j) × (path ≡ k)))
In-append_at i j k path m =
    rw (values_of-append_at k path j m)
      (ground (arith, In-append i j (values_of k m), text_eq_iff k path))

In-index_step :
    {P : Type 0} (kind : Bool) (i index : ℕ) (k : Text) (r : Route P) (maps : PathIndex × PathIndex)
    → In i (values_of k (map_of kind (index_step index r maps))) ↔ (
        In i (values_of k (map_of kind maps))
        ⊎ ((i ≡ index) × (r.pattern.wildcard ≡ kind) × (r.pattern.path ≡ k)))
unfolding index_step
In-index_step true i index k r maps = ground (arith, In-append_at i index k r.pattern.path maps.1)
In-index_step false i index k r maps = ground (arith, In-append_at i index k r.pattern.path maps.0)

In-index_from :
    {P : Type 0} (kind : Bool) (i index : ℕ) (k : Text) (routes : List (Route P))
    (maps : PathIndex × PathIndex)
    → In i (values_of k (map_of kind (index_from index routes maps)))
      ↔ (In i (values_of k (map_of kind maps)) ⊎ Stands kind k i index routes)
unfolding index_from
In-index_from kind i index k [] maps = ground arith
In-index_from kind i index k (r ∷ routes) maps =
    let (to, from) = In-index_from kind i (suc index) k routes (index_step index r maps) in
    let (one_to, one_from) = In-index_step kind i index k r maps in
    (
      λ h. elim (to h) [
        | inl l ↦ elim (one_to l) [ inl old ↦ inl old | inr new ↦ inr (inl new) ]
        | inr later ↦ inr (inr later)
      ],
      λ h. elim h [
        | inl old ↦ from (inl (one_from (inl old)))
        | inr (inl new) ↦ from (inl (one_from (inr new)))
        | inr (inr later) ↦ from (inr later)
      ],
    )

Stands-le :
    {P : Type 0} (kind : Bool) (k : Text) (p index : ℕ) (routes : List (Route P))
    → Stands kind k p index routes
    → index ≤ p
Stands-le kind k p index [] h = absurd h
Stands-le kind k p index (r ∷ routes) (inl (e, w, same)) = omega arith
Stands-le kind k p index (r ∷ routes) (inr later) =
    omega (arith, Stands-le kind k p (suc index) routes later)

-- The route at a position.
Stands-get_elem? :
    {P : Type 0} (kind : Bool) (k : Text) (p i index : ℕ) (routes : List (Route P)) (r : Route P)
    → p ≡ index + i
    → get_elem? routes i ≡ some r
    → Stands kind k p index routes ↔ ((r.pattern.wildcard ≡ kind) × (r.pattern.path ≡ k))
Stands-get_elem? kind k p i index [] r at e = cc
Stands-get_elem? kind k p zero index (q ∷ routes) r at e =
    let same : q ≡ r = cc in
    (
      λ h. elim h [
        | inl (here, w, k') ↦
            (ap (λ x. x.pattern.wildcard) (sym same) ∙ w, ap (λ x. x.pattern.path) (sym same) ∙ k')
        | inr later ↦ absurd (omega (arith, Stands-le kind k p (suc index) routes later))
      ],
      λ (w, k').
          inl (
            omega arith,
            ap (λ x. x.pattern.wildcard) same ∙ w,
            ap (λ x. x.pattern.path) same ∙ k',
          ),
    )
Stands-get_elem? kind k p (suc i) index (q ∷ routes) r at e =
    let (to, from) = Stands-get_elem? kind k p i (suc index) routes r (omega arith) e in
    (
      λ h. elim h [ inl (here, w, k') ↦ absurd (omega arith) | inr later ↦ to later ],
      λ h. inr (from h),
    )

nowhere : (kind : Bool) (k : Text) (i : ℕ) → In i (values_of k (map_of kind ([], []))) → ⊥
unfolding values_of
nowhere true k i h = h
nowhere false k i h = h

-- A position stands in a map at a path exactly when the route there is of the map's kind and has
-- that path.
In-build_route_index :
    {P : Type 0} (kind : Bool) (k : Text) (routes : List (Route P)) (i : ℕ) (r : Route P)
    → get_elem? routes i ≡ some r
    → In i (values_of k (map_of kind (build_route_index routes)))
      ↔ ((r.pattern.wildcard ≡ kind) × (r.pattern.path ≡ k))
unfolding build_route_index
In-build_route_index kind k routes i r e =
    let (to, from) = In-index_from kind i 0 k routes ([], []) in
    let (to', from') = Stands-get_elem? kind k i i 0 routes r (omega arith) e in
    (
      λ h. elim (to h) [ inl found ↦ absurd (nowhere kind k i found) | inr s ↦ to' s ],
      λ h. from (inr (from' h)),
    )

pub exact_index_iff :
    {P : Type 0} (k : Text) (routes : List (Route P)) (i : ℕ) (r : Route P)
    → get_elem? routes i ≡ some r
    → In i (values_of k (build_route_index routes).0)
      ↔ ((r.pattern.wildcard ≡ false) × (r.pattern.path ≡ k))
exact_index_iff k routes i r e = In-build_route_index false k routes i r e

pub wildcard_index_iff :
    {P : Type 0} (k : Text) (routes : List (Route P)) (i : ℕ) (r : Route P)
    → get_elem? routes i ≡ some r
    → In i (values_of k (build_route_index routes).1)
      ↔ ((r.pattern.wildcard ≡ true) × (r.pattern.path ≡ k))
wildcard_index_iff k routes i r e = In-build_route_index true k routes i r e
