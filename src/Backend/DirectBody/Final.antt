-- ===== src/Backend/DirectBody/Final.antt =====
-- What holds of a body with a deadline, however its users interleave.
use kubio.Prelude.{
  ℕ, arith, suc, ◌≡◌, refl, ◌∙◌, All, ◌⊎◌, ap, subst, sym, Bool, true, false, Option, none, some,
  List, [], ◌∷◌, if◌then◌else◌, ◌==◌, Bool-cases, inl, inr,
}
use kubio.Backend.DirectBody.{
  Reader, idle, reading, answered, checked, returned, DirectBody, or_default, finalize, set_reader,
  error_of, closed_error, finalize_read, begin_read, answer_read, check_context, last_error,
  check_closed, Happening, cancel, expire, close, begins, answers, context_checked, closed_checked,
  happen, happen_all,
}

module _ {E : Type 0} where
  -- A call of Read that has not returned without an error.
  abbrev pub NoSuccess : Reader E → Type 0
  NoSuccess idle = Unit
  NoSuccess reading = Unit
  NoSuccess (answered n) = Unit
  NoSuccess (checked n) = Unit
  NoSuccess (returned n none) = ⊥
  NoSuccess (returned n (some e)) = Unit

  -- A closed body that stays as it is: its cause and its calls of Close, and each reader as it was at
  -- first, or with no success.
  abbrev pub Stays : Option E → ℕ → (ℕ → Reader E) → DirectBody E → Type 0
  Stays cause closes first b =
      (b.closed ≡ true)
      × (b.cause ≡ cause)
      × (b.closes ≡ closes)
      × ((t : ℕ) → (b.readers t ≡ first t) ⊎ NoSuccess (b.readers t))

  finalize_closed :
      (b : DirectBody E) (e : Option E) → b.closed ≡ true → finalize b e ≡ (b, or_default b.cause e)
  unfolding finalize
  finalize_closed b e c =
      ap
        (λ x. if x then (b, or_default b.cause e) else (
          record b { closed = true; cause = or_default b.context_error e; closes = suc b.closes },
          or_default b.context_error e,
        ))
        c

  fails : (o : Option E) (e : E) (n : ℕ) → NoSuccess (returned n (error_of (or_default o (some e))))
  fails none e n = tt
  fails (some c) e n = tt

  module _ (cause : Option E) (closes : ℕ) (first : ℕ → Reader E) where
    set_reader-Stays :
        (b : DirectBody E) (t : ℕ) (r : Reader E)
        → NoSuccess r
        → Stays cause closes first b
        → Stays cause closes first (set_reader b t r)
    set_reader-Stays b t r good (c, k, n, h) = (
      c,
      k,
      n,
      λ u. elim (Bool-cases (t == u)) [
        | inl same ↦ rw same (inr good)
        | inr other ↦ rw other (h u)
      ],
    )

    finalize-Stays :
        (b : DirectBody E) (e : Option E)
        → Stays cause closes first b
        → Stays cause closes first (finalize b e).0
    finalize-Stays b e f =
        subst (λ r. Stays cause closes first r.0) (sym (finalize_closed b e f.0)) f

    finalize_read-Stays :
        (b : DirectBody E) (t n : ℕ) (e : E)
        → Stays cause closes first b
        → Stays cause closes first (finalize_read b t n e)
    unfolding finalize_read
    finalize_read-Stays b t n e f =
        subst (λ r. Stays cause closes first (set_reader r.0 t (returned n (error_of r.1))))
          (sym (finalize_closed b (some e) f.0))
          (set_reader-Stays b t (returned n (error_of (or_default b.cause (some e))))
            (fails b.cause e n) f)

    begin_closed :
        (b : DirectBody E) (t : ℕ)
        → Stays cause closes first b
        → Stays cause closes first (
            if b.closed
            then set_reader b t (returned 0 (some (closed_error b.cause)))
            else set_reader b t reading)
    begin_closed b t f =
        subst
          (λ x. Stays cause closes first (
            if x
            then set_reader b t (returned 0 (some (closed_error b.cause)))
            else set_reader b t reading))
          (sym f.0) (set_reader-Stays b t (returned 0 (some (closed_error b.cause))) tt f)

    begin_read-Stays :
        (b : DirectBody E) (t : ℕ) (r : Reader E)
        → Stays cause closes first b
        → Stays cause closes first (begin_read b t r)
    unfolding begin_read
    begin_read-Stays b t idle f = begin_closed b t f
    begin_read-Stays b t (returned n e) f = begin_closed b t f
    begin_read-Stays b t reading f = f
    begin_read-Stays b t (answered n) f = f
    begin_read-Stays b t (checked n) f = f

    answer_read-Stays :
        (b : DirectBody E) (t n : ℕ) (e : Option E) (r : Reader E)
        → Stays cause closes first b
        → Stays cause closes first (answer_read b t n e r)
    unfolding answer_read
    answer_read-Stays b t n none reading f = set_reader-Stays b t (answered n) tt f
    answer_read-Stays b t n (some e) reading f = finalize_read-Stays b t n e f
    answer_read-Stays b t n e idle f = f
    answer_read-Stays b t n e (answered m) f = f
    answer_read-Stays b t n e (checked m) f = f
    answer_read-Stays b t n e (returned m g) f = f

    check_context-Stays :
        (b : DirectBody E) (t : ℕ) (e : Option E) (r : Reader E)
        → Stays cause closes first b
        → Stays cause closes first (check_context b t e r)
    unfolding check_context
    check_context-Stays b t none (answered n) f = set_reader-Stays b t (checked n) tt f
    check_context-Stays b t (some e) (answered n) f = finalize_read-Stays b t n e f
    check_context-Stays b t e idle f = f
    check_context-Stays b t e reading f = f
    check_context-Stays b t e (checked n) f = f
    check_context-Stays b t e (returned n g) f = f

    last_fails :
        (closed : Bool) (o : Option E) (n : ℕ)
        → closed ≡ true
        → NoSuccess (returned n (last_error closed o))
    last_fails true none n c = tt
    last_fails true (some e) n c = tt
    last_fails false o n c = absurd cc

    check_closed-Stays :
        (b : DirectBody E) (t : ℕ) (r : Reader E)
        → Stays cause closes first b
        → Stays cause closes first (check_closed b t r)
    unfolding check_closed
    check_closed-Stays b t (checked n) f =
        set_reader-Stays b t (returned n (last_error b.closed b.cause))
          (last_fails b.closed b.cause n f.0) f
    check_closed-Stays b t idle f = f
    check_closed-Stays b t reading f = f
    check_closed-Stays b t (answered n) f = f
    check_closed-Stays b t (returned n e) f = f

    happen-Stays :
        (deadline : E) (b : DirectBody E) (x : Happening E)
        → Stays cause closes first b
        → Stays cause closes first (happen deadline b x)
    unfolding happen
    happen-Stays deadline b (cancel e) f = f
    happen-Stays deadline b expire f = finalize-Stays b (some deadline) f
    happen-Stays deadline b close f = finalize-Stays b none f
    happen-Stays deadline b (begins t) f = begin_read-Stays b t (b.readers t) f
    happen-Stays deadline b (answers t n e) f = answer_read-Stays b t n e (b.readers t) f
    happen-Stays deadline b (context_checked t) f =
        check_context-Stays b t b.context_error (b.readers t) f
    happen-Stays deadline b (closed_checked t) f = check_closed-Stays b t (b.readers t) f

  -- A happening in which a reader does not begin to read.
  abbrev pub IsNoBegin : ℕ → Happening E → Type 0
  IsNoBegin u (begins t) = (t == u) ≡ false
  IsNoBegin u (cancel e) = Unit
  IsNoBegin u expire = Unit
  IsNoBegin u close = Unit
  IsNoBegin u (answers t n e) = Unit
  IsNoBegin u (context_checked t) = Unit
  IsNoBegin u (closed_checked t) = Unit

  -- Readers after some happenings: one has no success, or is as it was and has not begun to read.
  abbrev Fails : (ℕ → Reader E) → List (Happening E) → (ℕ → Reader E) → Type 0
  Fails first later readers =
      (t : ℕ) → NoSuccess (readers t) ⊎ ((readers t ≡ first t) × All (IsNoBegin t) later)

  -- What a closed body has become after some happenings.
  abbrev pub IsFinal : DirectBody E → List (Happening E) → DirectBody E → Type 0
  IsFinal b later final =
      (final.closed ≡ true)
      × (final.cause ≡ b.cause)
      × (final.closes ≡ b.closes)
      × Fails (b.readers) later (final.readers)

  begun_fails :
      (b : DirectBody E) (t : ℕ)
      → b.closed ≡ true
      → NoSuccess (
          (if b.closed
              then set_reader b t (returned 0 (some (closed_error b.cause)))
              else set_reader b t reading).readers
            t)
  begun_fails b t c =
      let self : (t == t) ≡ true = ground arith in
      subst
        (λ x. NoSuccess (
          (if x
              then set_reader b t (returned 0 (some (closed_error b.cause)))
              else set_reader b t reading).readers
            t))
        (sym c) (rw self tt)

  begin_fails :
      (b : DirectBody E) (t : ℕ) (r : Reader E)
      → b.closed ≡ true
      → b.readers t ≡ r
      → NoSuccess ((begin_read b t r).readers t)
  unfolding begin_read
  begin_fails b t idle c e = begun_fails b t c
  begin_fails b t (returned n o) c e = begun_fails b t c
  begin_fails b t reading c e = subst NoSuccess (sym e) tt
  begin_fails b t (answered n) c e = subst NoSuccess (sym e) tt
  begin_fails b t (checked n) c e = subst NoSuccess (sym e) tt

  happen-Fails :
      (deadline : E) (b : DirectBody E) (x : Happening E)
      → b.closed ≡ true
      → Fails (b.readers) (x ∷ []) ((happen deadline b x).readers)
  unfolding happen
  happen-Fails deadline b x c t = quiet x (
      (happen-Stays (b.cause) (b.closes) (b.readers) deadline b x (c, refl, refl, λ u. inl refl)).3
        t)
    where
      quiet :
          (x : Happening E)
          → ((happen deadline b x).readers t ≡ b.readers t)
            ⊎ NoSuccess ((happen deadline b x).readers t)
          → NoSuccess ((happen deadline b x).readers t)
            ⊎ (((happen deadline b x).readers t ≡ b.readers t) × All (IsNoBegin t) (x ∷ []))
      quiet x (inr f) = inl f
      quiet (begins s) (inl same) = elim (Bool-cases (s == t)) [
        | inl here ↦
            let e : s ≡ t = ground arith in
            inl (
              subst (λ v. NoSuccess ((begin_read b s (b.readers s)).readers v)) e
                (begin_fails b s (b.readers s) c refl))
        | inr other ↦ inr (same, (other, tt))
      ]
      quiet (cancel e) (inl same) = inr (same, (tt, tt))
      quiet expire (inl same) = inr (same, (tt, tt))
      quiet close (inl same) = inr (same, (tt, tt))
      quiet (answers s n e) (inl same) = inr (same, (tt, tt))
      quiet (context_checked s) (inl same) = inr (same, (tt, tt))
      quiet (closed_checked s) (inl same) = inr (same, (tt, tt))

  -- Once a body with a deadline is closed, by its timer, its context, its closer or a failed read,
  -- whatever was read before, and whatever happens then, in any order: it stays closed with the same
  -- cause, and the wrapped body is not closed again; and each reader is at the end not one whose Read
  -- has returned without an error, or is as it was and has not begun to read since.
  pub happen_all-IsFinal :
      (deadline : E) (b : DirectBody E) (later : List (Happening E))
      → b.closed ≡ true
      → IsFinal b later (happen_all deadline b later)
  unfolding happen_all
  happen_all-IsFinal deadline b [] c = (c, refl, refl, λ t. inr (refl, tt))
  happen_all-IsFinal deadline b (x ∷ later) c =
      let (c1, cause, closes, h) =
        happen-Stays (b.cause) (b.closes) (b.readers) deadline b x (c, refl, refl, λ u. inl refl) in
      let (c2, cause', closes', h') = happen_all-IsFinal deadline (happen deadline b x) later c1 in
      (
        c2,
        cause' ∙ cause,
        closes' ∙ closes,
        λ t. elim (h' t) [
          | inl f ↦ inl f
          | inr (same', more) ↦ elim (happen-Fails deadline b x c t) [
            | inl f ↦ inl (subst NoSuccess (sym same') f)
            | inr (same, (no_begin, last)) ↦ inr (same' ∙ same, (no_begin, more))
          ]
        ],
      )
