-- ===== src/Backend/DirectBody/Tests.antt =====
-- proxy.go: a body with a deadline that is read, closed and read again.
use kubio.Prelude.{ℕ, refl, true, none, some, List, [], ◌∷◌, if◌then◌else◌, ◌==◌}
use kubio.Backend.DirectBody.{
  reading, returned, DirectBody, new_direct_body, Happening, cancel, expire, close, begins, answers,
  context_checked, closed_checked, happen_all,
}
use kubio.Backend.DirectBody.Final.{IsFinal, happen_all-IsFinal}
use kubio.Backend.DirectBody.Once.{IsOnce, happen_all-IsOnce}

-- An error is a number, 7 that of the deadline. Reader 0 has read five bytes, another is reading.
abbrev expired : DirectBody ℕ
expired = record {
  closed = true;
  cause = some 7;
  context_error = none;
  closes = 1;
  readers = λ t. if t == 0 then returned 5 none else reading;
}

abbrev later : List (Happening ℕ)
later = close ∷ answers 1 4 none ∷ context_checked 1 ∷ cancel 3 ∷ begins 0 ∷ closed_checked 1 ∷ []

happen_all-IsFinal_example : IsFinal expired later (happen_all 7 expired later)
happen_all-IsFinal_example = happen_all-IsFinal 7 expired later refl

abbrev race : List (Happening ℕ)
race = begins 0 ∷ answers 0 5 none ∷ expire ∷ close ∷ context_checked 0 ∷ closed_checked 0 ∷ []

happen_all-IsOnce_example : IsOnce (happen_all 7 (new_direct_body none) race)
happen_all-IsOnce_example = happen_all-IsOnce 7 none race
