-- ===== src/RequestId/Tokens.antt =====
-- Splitting, trimming and joining the tokens of a header's value.
use kubio.Prelude.{
  ℕ, ◌≡◌, refl, ap, ap₂, sym, ◌∙◌, Bool, true, false, not, List, [], ◌∷◌, ◌++◌, ◌==◌, if◌then◌else◌,
  all, map, Bool-cases, inl, inr, arith, All,
}
use kubio.Text.{
  Text, trim_left, trim_right, trim, trim_space, keep_right, split_byte, cons_split, is_space,
  equal_fold,
}
use kubio.Headers.{is_empty_list}
use kubio.RequestId.{join, request_id_header, filter_tokens, keep_values}

module _ (p : ℕ → Bool) where
  keep_right_idem :
      (c : ℕ) (t : Text) → trim_right p t ≡ t → trim_right p (keep_right p c t) ≡ keep_right p c t
  unfolding trim_right
  keep_right_idem c [] h = ground arith
  keep_right_idem c (d ∷ t) h = rw h

  trim_right_idem : (s : Text) → trim_right p (trim_right p s) ≡ trim_right p s
  unfolding trim_right
  trim_right_idem [] = refl
  trim_right_idem (c ∷ s) = keep_right_idem c (trim_right p s) (trim_right_idem s)

  trim_left-keep_right :
      (c : ℕ) (t : Text) → p c ≡ false → trim_left p (keep_right p c t) ≡ keep_right p c t
  unfolding trim_left
  trim_left-keep_right c [] h = ground arith
  trim_left-keep_right c (d ∷ t) h = ground arith

  trim_left-trim :
      (s : Text) → trim_left p (trim_right p (trim_left p s)) ≡ trim_right p (trim_left p s)
  unfolding trim_left trim_right
  trim_left-trim [] = refl
  trim_left-trim (c ∷ s) = elim (Bool-cases (p c)) [
    | inl skip ↦ rw skip (trim_left-trim s)
    | inr stop ↦ rw stop (trim_left-keep_right c (trim_right p s) stop)
  ]

  trim_idem : (s : Text) → trim p (trim p s) ≡ trim p s
  unfolding trim
  trim_idem s = rw (trim_left-trim s) (trim_right_idem (trim_left p s))

trim_space_idem : (s : Text) → trim_space (trim_space s) ≡ trim_space s
unfolding trim_space
trim_space_idem s = trim_idem is_space s

-- A text without the separator.
abbrev NoComma : Text → Type 0
NoComma t = all (λ c. not (c == b',')) t ≡ true

trim_left-NoComma : (s : Text) → NoComma s → NoComma (trim_left is_space s)
unfolding trim_left
trim_left-NoComma [] h = refl
trim_left-NoComma (c ∷ s) h = ground (arith, trim_left-NoComma s)

keep_right-NoComma :
    (c : ℕ) (t : Text) → not (c == b',') ≡ true → NoComma t → NoComma (keep_right is_space c t)
keep_right-NoComma c [] h g = ground arith
keep_right-NoComma c (d ∷ t) h g = ground arith

trim_right-NoComma : (s : Text) → NoComma s → NoComma (trim_right is_space s)
unfolding trim_right
trim_right-NoComma [] h = refl
trim_right-NoComma (c ∷ s) h =
    keep_right-NoComma c (trim_right is_space s) (ground arith)
      (trim_right-NoComma s (ground arith))

trim_space-NoComma : (s : Text) → NoComma s → NoComma (trim_space s)
unfolding trim_space trim
trim_space-NoComma s h = trim_right-NoComma (trim_left is_space s) (trim_left-NoComma s h)

-- The pieces of a split do not hold the separator.
cons_split-NoComma :
    (b : Bool) (c : ℕ) (ts : List Text)
    → (c == b',') ≡ b
    → All NoComma ts
    → All NoComma (cons_split b c ts)
cons_split-NoComma true c ts e h = (refl, h)
cons_split-NoComma false c [] e h = (ground arith, tt)
cons_split-NoComma false c (t ∷ ts) e (first, h) = (ground arith, h)

split_byte-NoComma : (s : Text) → All NoComma (split_byte s b',')
unfolding split_byte
split_byte-NoComma [] = (refl, tt)
split_byte-NoComma (c ∷ s) =
    cons_split-NoComma (c == b',') c (split_byte s b',') refl (split_byte-NoComma s)

split_byte-append :
    (t s : Text) → NoComma t → split_byte (t ++ (b',' ∷ s)) b',' ≡ t ∷ split_byte s b','
unfolding split_byte
split_byte-append [] s h = refl
split_byte-append (c ∷ t) s h = rw (split_byte-append t s (ground arith)) (ground arith)

split_byte_alone : (t : Text) → NoComma t → split_byte t b',' ≡ t ∷ []
unfolding split_byte
split_byte_alone [] h = refl
split_byte_alone (c ∷ t) h = rw (split_byte_alone t (ground arith)) (ground arith)

-- The tokens of a value, trimmed.
abbrev pub tokens_of : Text → List Text
tokens_of value = map trim_space (split_byte value b',')

abbrev pub tokens_in : List Text → List Text
tokens_in [] = []
tokens_in (value ∷ values) = tokens_of value ++ tokens_in values

-- The tokens that are not the name of the id's header.
unfoldable pub other_tokens : List Text → List Text
other_tokens [] = []
other_tokens (t ∷ ts) =
    if not (equal_fold t request_id_header) then t ∷ other_tokens ts else other_tokens ts

abbrev IsToken : Text → Type 0
IsToken t = NoComma t × (trim_space t ≡ t)

filter_tokens-IsToken :
    (pieces : List Text) → All NoComma pieces → All IsToken (filter_tokens pieces)
unfolding filter_tokens
filter_tokens-IsToken [] h = tt
filter_tokens-IsToken (piece ∷ pieces) (first, h) =
    elim (Bool-cases (equal_fold (trim_space piece) request_id_header)) [
      | inl named ↦ rw named (filter_tokens-IsToken pieces h)
      | inr other ↦
          rw other (
            (trim_space-NoComma piece first, trim_space_idem piece),
            filter_tokens-IsToken pieces h,
          )
    ]

filter_tokens-other_tokens :
    (pieces : List Text) → filter_tokens pieces ≡ other_tokens (map trim_space pieces)
unfolding filter_tokens other_tokens
filter_tokens-other_tokens [] = refl
filter_tokens-other_tokens (piece ∷ pieces) = rw (filter_tokens-other_tokens pieces) refl

-- A space before a value is not part of its first token.
pub tokens_of-space : (value : Text) → tokens_of (32 ∷ value) ≡ tokens_of value
unfolding split_byte trim_space trim trim_left
tokens_of-space [] = refl
tokens_of-space (c ∷ value) = after_space (c == b',') (split_byte value b',')
  where
    after_space :
        (b : Bool) (ts : List Text)
        → map trim_space (cons_split false 32 (cons_split b c ts))
          ≡ map trim_space (cons_split b c ts)
    after_space true ts = refl
    after_space false [] = refl
    after_space false (t ∷ ts) = refl

-- What is joined is split again.
tokens_of-join :
    (t : Text) (ts : List Text) → All IsToken (t ∷ ts) → tokens_of (join (t ∷ ts)) ≡ t ∷ ts
unfolding join
tokens_of-join t [] ((free, same), h) = rw (split_byte_alone t free) (ap (λ u. u ∷ []) same)
tokens_of-join t (u ∷ ts) ((free, same), h) =
    rw (split_byte-append t (32 ∷ join (u ∷ ts)) free, same)
      (ap (◌∷◌ t) (tokens_of-space (join (u ∷ ts)) ∙ tokens_of-join u ts h))

other_tokens-append :
    (ts us : List Text) → other_tokens (ts ++ us) ≡ other_tokens ts ++ other_tokens us
unfolding other_tokens
other_tokens-append [] us = refl
other_tokens-append (t ∷ ts) us = ground (arith, other_tokens-append ts us)

kept_tokens :
    (filtered rest : List Text)
    → All IsToken filtered
    → tokens_in (if is_empty_list filtered then rest else join filtered ∷ rest)
      ≡ filtered ++ tokens_in rest
kept_tokens [] rest h = refl
kept_tokens (t ∷ ts) rest h = ap (λ us. us ++ tokens_in rest) (tokens_of-join t ts h)

-- The tokens of the values that removeRequestIDTrailer keeps of a header are, in their order, those
-- of the header's values that are not the name of the id's header in any case.
pub tokens_in-keep_values :
    (values : List Text) → tokens_in (keep_values values) ≡ other_tokens (tokens_in values)
unfolding keep_values other_tokens
tokens_in-keep_values [] = refl
tokens_in-keep_values (value ∷ values) =
    let pieces = split_byte value b',' in
    kept_tokens (filter_tokens pieces) (keep_values values)
      (filter_tokens-IsToken pieces (split_byte-NoComma value))
    ∙ ap₂ (◌++◌) (filter_tokens-other_tokens pieces) (tokens_in-keep_values values)
    ∙ sym (other_tokens-append (tokens_of value) (tokens_in values))
