-- ===== src/Backend/DirectBody/Once.antt =====
-- The wrapped body of a body with a deadline is closed once.
use kubio.Prelude.{
  ℕ, suc, ◌≡◌, refl, Bool, true, false, Option, none, some, List, [], ◌∷◌, if◌then◌else◌, count,
  arith,
}
use kubio.Backend.DirectBody.{
  Reader, idle, reading, answered, checked, returned, DirectBody, new_direct_body, or_default,
  finalize, set_reader, closed_error, finalize_read, begin_read, answer_read, check_context,
  check_closed, Happening, cancel, expire, close, begins, answers, context_checked, closed_checked,
  happen, happen_all,
}

module _ {E : Type 0} where
  -- The calls of the wrapped body's Close: one if the body is closed, none if it is not.
  abbrev pub IsOnce : DirectBody E → Type 0
  IsOnce b = b.closes ≡ count b.closed

  -- What finalize returns for a body that is closed or not.
  abbrev finalized : DirectBody E → Option E → Bool → DirectBody E × Option E
  finalized b e x = if x then (b, or_default b.cause e) else (
    record b { closed = true; cause = or_default b.context_error e; closes = suc b.closes },
    or_default b.context_error e,
  )

  finalize-IsOnce : (b : DirectBody E) (e : Option E) → IsOnce b → IsOnce (finalize b e).0
  unfolding finalize
  finalize-IsOnce b e h = by_closed b.closed refl
    where
      by_closed : (x : Bool) → b.closed ≡ x → IsOnce (finalized b e x).0
      by_closed true c = h
      by_closed false c = ground arith

  begin_open :
      (b : DirectBody E) (t : ℕ) (x : Bool)
      → IsOnce b
      → IsOnce (
          if x
          then set_reader b t (returned 0 (some (closed_error b.cause)))
          else set_reader b t reading)
  begin_open b t true h = h
  begin_open b t false h = h

  begin_read-IsOnce :
      (b : DirectBody E) (t : ℕ) (r : Reader E) → IsOnce b → IsOnce (begin_read b t r)
  unfolding begin_read
  begin_read-IsOnce b t idle h = begin_open b t b.closed h
  begin_read-IsOnce b t (returned n e) h = begin_open b t b.closed h
  begin_read-IsOnce b t reading h = h
  begin_read-IsOnce b t (answered n) h = h
  begin_read-IsOnce b t (checked n) h = h

  answer_read-IsOnce :
      (b : DirectBody E) (t n : ℕ) (e : Option E) (r : Reader E)
      → IsOnce b
      → IsOnce (answer_read b t n e r)
  unfolding answer_read finalize_read
  answer_read-IsOnce b t n none reading h = h
  answer_read-IsOnce b t n (some e) reading h = finalize-IsOnce b (some e) h
  answer_read-IsOnce b t n e idle h = h
  answer_read-IsOnce b t n e (answered m) h = h
  answer_read-IsOnce b t n e (checked m) h = h
  answer_read-IsOnce b t n e (returned m g) h = h

  check_context-IsOnce :
      (b : DirectBody E) (t : ℕ) (e : Option E) (r : Reader E)
      → IsOnce b
      → IsOnce (check_context b t e r)
  unfolding check_context finalize_read
  check_context-IsOnce b t none (answered n) h = h
  check_context-IsOnce b t (some e) (answered n) h = finalize-IsOnce b (some e) h
  check_context-IsOnce b t e idle h = h
  check_context-IsOnce b t e reading h = h
  check_context-IsOnce b t e (checked n) h = h
  check_context-IsOnce b t e (returned n g) h = h

  check_closed-IsOnce :
      (b : DirectBody E) (t : ℕ) (r : Reader E) → IsOnce b → IsOnce (check_closed b t r)
  unfolding check_closed
  check_closed-IsOnce b t (checked n) h = h
  check_closed-IsOnce b t idle h = h
  check_closed-IsOnce b t reading h = h
  check_closed-IsOnce b t (answered n) h = h
  check_closed-IsOnce b t (returned n e) h = h

  happen-IsOnce :
      (deadline : E) (b : DirectBody E) (x : Happening E) → IsOnce b → IsOnce (happen deadline b x)
  unfolding happen
  happen-IsOnce deadline b (cancel e) h = h
  happen-IsOnce deadline b expire h = finalize-IsOnce b (some deadline) h
  happen-IsOnce deadline b close h = finalize-IsOnce b none h
  happen-IsOnce deadline b (begins t) h = begin_read-IsOnce b t (b.readers t) h
  happen-IsOnce deadline b (answers t n e) h = answer_read-IsOnce b t n e (b.readers t) h
  happen-IsOnce deadline b (context_checked t) h =
      check_context-IsOnce b t b.context_error (b.readers t) h
  happen-IsOnce deadline b (closed_checked t) h = check_closed-IsOnce b t (b.readers t) h

  happen_all-kept :
      (deadline : E) (b : DirectBody E) (steps : List (Happening E))
      → IsOnce b
      → IsOnce (happen_all deadline b steps)
  unfolding happen_all
  happen_all-kept deadline b [] h = h
  happen_all-kept deadline b (x ∷ later) h =
      happen_all-kept deadline (happen deadline b x) later (happen-IsOnce deadline b x h)

  -- From a new body with a deadline on, however its readers, its timer, its context and its closer
  -- interleave: the wrapped body has been closed once if the body is closed, and else not at all.
  pub happen_all-IsOnce :
      (deadline : E) (context_error : Option E) (steps : List (Happening E))
      → IsOnce (happen_all deadline (new_direct_body context_error) steps)
  unfolding new_direct_body
  happen_all-IsOnce deadline context_error steps =
      happen_all-kept deadline (new_direct_body context_error) steps refl
