-- ===== src/Backend/DirectBody.antt =====
-- proxy.go: directBody, the body of a response with a deadline, which readers, its timer, its context
-- and its closer share. What a mutex guards is one step, and so is what finalize does after it: only
-- the call that found the body open does it.
pub mod Final
pub mod Once
mod Tests
use kubio.Prelude.{ℕ, suc, Bool, true, false, Option, none, some, List, [], ◌∷◌, if◌then◌else◌}
use kubio.CasLoop.{update}

module _ (E : Type 0) where
  -- The error of a read: http.ErrBodyReadAfterClose, or a cause.
  pub data ReadError : Type 0 where
    after_close : ReadError
    because : E → ReadError

-- A call of Read: the wrapped body is being read; it has answered with no error; the context had no
-- error either; the call has returned.
pub data Reader (E : Type 0) : Type 0 where
  idle reading : Reader E
  answered checked : ℕ → Reader E
  returned : ℕ → Option (ReadError E) → Reader E

-- directBody, with the error of its context, the calls of the wrapped body's Close, and its readers
pub record DirectBody (E : Type 0) : Type 0 where
  pub closed : Bool
  pub cause : Option E
  pub context_error : Option E
  pub closes : ℕ
  pub readers : ℕ → Reader E

module _ {E : Type 0} where
  -- newDirectBody
  unfoldable pub new_direct_body : Option E → DirectBody E
  new_direct_body context_error = record {
    closed = false;
    cause = none;
    context_error = context_error;
    closes = 0;
    readers = λ t. idle;
  }

  abbrev pub or_default : Option E → Option E → Option E
  or_default none default = default
  or_default (some cause) default = some cause

  -- directBody.finalize, with the cause that it returns
  unfoldable pub finalize : DirectBody E → Option E → DirectBody E × Option E
  finalize b default = if b.closed then (b, or_default b.cause default) else (
    record b { closed = true; cause = or_default b.context_error default; closes = suc b.closes },
    or_default b.context_error default,
  )

  abbrev pub set_reader : DirectBody E → ℕ → Reader E → DirectBody E
  set_reader b t r = record b { readers = update b.readers t r }

  abbrev pub error_of : Option E → Option (ReadError E)
  error_of none = none
  error_of (some cause) = some (because cause)

  abbrev pub closed_error : Option E → ReadError E
  closed_error none = after_close
  closed_error (some cause) = because cause

  -- The return of finalize(err) by a reader.
  unfoldable pub finalize_read : DirectBody E → ℕ → ℕ → E → DirectBody E
  finalize_read b t n e =
      let (c, cause) = finalize b (some e) in set_reader c t (returned n (error_of cause))

  -- The first part of Read, by a call that has not begun or that has returned.
  unfoldable pub begin_read : DirectBody E → ℕ → Reader E → DirectBody E
  begin_read b t idle =
      if b.closed
      then set_reader b t (returned 0 (some (closed_error b.cause)))
      else set_reader b t reading
  begin_read b t (returned n e) =
      if b.closed
      then set_reader b t (returned 0 (some (closed_error b.cause)))
      else set_reader b t reading
  begin_read b t reading = b
  begin_read b t (answered n) = b
  begin_read b t (checked n) = b

  -- The wrapped body's answer.
  unfoldable pub answer_read : DirectBody E → ℕ → ℕ → Option E → Reader E → DirectBody E
  answer_read b t n none reading = set_reader b t (answered n)
  answer_read b t n (some e) reading = finalize_read b t n e
  answer_read b t n e idle = b
  answer_read b t n e (answered m) = b
  answer_read b t n e (checked m) = b
  answer_read b t n e (returned m f) = b

  -- ctx.Err() after an answer with no error.
  unfoldable pub check_context : DirectBody E → ℕ → Option E → Reader E → DirectBody E
  check_context b t none (answered n) = set_reader b t (checked n)
  check_context b t (some e) (answered n) = finalize_read b t n e
  check_context b t e idle = b
  check_context b t e reading = b
  check_context b t e (checked n) = b
  check_context b t e (returned n f) = b

  -- The last check of Read.
  abbrev pub last_error : Bool → Option E → Option (ReadError E)
  last_error closed (some cause) = some (because cause)
  last_error true none = some after_close
  last_error false none = none

  unfoldable pub check_closed : DirectBody E → ℕ → Reader E → DirectBody E
  check_closed b t (checked n) = set_reader b t (returned n (last_error b.closed b.cause))
  check_closed b t idle = b
  check_closed b t reading = b
  check_closed b t (answered n) = b
  check_closed b t (returned n e) = b

-- What happens next: the context ends, the timer fires, Close is called, or a reader goes on.
pub data Happening (E : Type 0) : Type 0 where
  cancel : E → Happening E
  expire close : Happening E
  begins context_checked closed_checked : ℕ → Happening E
  answers : ℕ → ℕ → Option E → Happening E

-- `deadline` is context.DeadlineExceeded; the first error of a context stays.
module _ {E : Type 0} (deadline : E) where
  unfoldable pub happen : DirectBody E → Happening E → DirectBody E
  happen b (cancel e) = record b { context_error = or_default b.context_error (some e) }
  happen b expire = (finalize b (some deadline)).0
  happen b close = (finalize b none).0
  happen b (begins t) = begin_read b t (b.readers t)
  happen b (answers t n e) = answer_read b t n e (b.readers t)
  happen b (context_checked t) = check_context b t b.context_error (b.readers t)
  happen b (closed_checked t) = check_closed b t (b.readers t)

  unfoldable pub happen_all : DirectBody E → List (Happening E) → DirectBody E
  happen_all b [] = b
  happen_all b (x ∷ later) = happen_all (happen b x) later
