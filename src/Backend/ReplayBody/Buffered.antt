-- ===== src/Backend/ReplayBody/Buffered.antt =====
-- The loop ends, and what it buffers is what was read.
use kubio.Prelude.{
  ℕ, zero, suc, ◌+◌, ◌-◌, ◌*◌, ◌≤◌, ◌<◌, ◌≡◌, refl, subst, ◌⊎◌, ◌∙◌, ap, ap₂, sym, Option, none,
  some, [], ◌∷◌, ◌++◌, arith, min, length, length-append, append_assoc, Bool-cases, inl, inr,
  append-nil, ltb, ◌==◌, Result, ok, err, Bool, true, false,
}
use native.Mathlib.Decide.{dec_lt}
use kubio.Text.{Text}
use kubio.Backend.ReplayBody.{
  proxy_buffer_size, ReadEnd, eof, broken, BodyError, context_done, read_failed, too_large,
  no_progress, out_of_fuel, Reader, Step, fail, complete, more, after_read, unless_done,
  unless_long, read_step, read_all, prepare_retry_body,
}

module _ {E : Type 0} where
  -- The bytes of the reads from one on, so many of them.
  abbrev pub bytes_read : Reader E → ℕ → ℕ → ℕ → ℕ → Text
  bytes_read reader max zero k total = []
  bytes_read reader max (suc n) k total =
      let (chunk, end) = reader.read k (min proxy_buffer_size (max - total + 1)) in
      chunk ++ bytes_read reader max n (suc k) (total + length chunk)

  -- The read with a number, after so many bytes.
  abbrev pub read_at : Reader E → ℕ → ℕ → ℕ → Text × Option (ReadEnd E)
  read_at reader max k total = reader.read k (min proxy_buffer_size (max - total + 1))

  -- What holds of the number and of the bytes before after so many reads, each without an error.
  abbrev pub AfterReads : Reader E → ℕ → (ℕ → ℕ → Type 0) → ℕ → ℕ → ℕ → Type 0
  AfterReads reader max P zero k total = P k total
  AfterReads reader max P (suc n) k total =
      ((read_at reader max k total).1 ≡ none)
      × AfterReads reader max P n (suc k) (total + length (read_at reader max k total).0)

  -- What an iteration's error says.
  abbrev pub Explains : Reader E → ℕ → BodyError E → ℕ → ℕ → Type 0
  Explains reader max (context_done e) k total =
      (reader.before k ≡ some e) ⊎ (reader.after k ≡ some e)
  Explains reader max (read_failed e) k total = (read_at reader max k total).1 ≡ some (broken e)
  Explains reader max too_large k total = max < total + length (read_at reader max k total).0
  Explains reader max no_progress k total = read_at reader max k total ≡ ([], none)
  Explains reader max out_of_fuel k total = ⊥

  -- What holds of an iteration from a payload: its bytes are those and the chunk's, within the limit;
  -- it is the last only if the read ends the body, and goes on only if the read has no error, nearer
  -- to the end of the loop; and its error is explained.
  abbrev Progress : Reader E → ℕ → ℕ → ℕ → Text → Step E → Type 0
  Progress reader max k empty_reads payload (fail e) = Explains reader max e k (length payload)
  Progress reader max k empty_reads payload (complete bytes) =
      let (chunk, end) = read_at reader max k (length payload) in
      (end ≡ some eof) × (bytes ≡ payload ++ chunk) × (length bytes ≤ max)
  Progress reader max k empty_reads payload (more n bytes) =
      let (chunk, end) = read_at reader max k (length payload) in
      (end ≡ none)
      × (bytes ≡ payload ++ chunk)
      × (length bytes ≤ max)
      × (n < 100)
      × (101 * (max - length bytes) + (100 - n)
          < 101 * (max - length payload) + (100 - empty_reads))

  after_read-Progress :
      (reader : Reader E) (max k empty_reads : ℕ) (payload chunk : Text) (end : Option (ReadEnd E))
      → read_at reader max k (length payload) ≡ (chunk, end)
      → empty_reads < 100
      → length payload ≤ max
      → length chunk ≤ max - length payload
      → Progress reader max k empty_reads payload (after_read empty_reads payload chunk end)
  unfolding after_read
  after_read-Progress reader max k empty_reads payload chunk (some eof) is few l h = (
    ap (λ r. r.1) is,
    ap (λ r. payload ++ r.0) (sym is),
    omega (arith, length-append payload chunk),
  )
  after_read-Progress reader max k empty_reads payload chunk (some (broken e)) is few l h =
      ap (λ r. r.1) is
  after_read-Progress reader max k empty_reads payload (byte ∷ chunk) none is few l h =
      let len = length-append payload (byte ∷ chunk) in
      (
        ap (λ r. r.1) is,
        ap (λ r. payload ++ r.0) (sym is),
        omega (arith, len),
        omega arith,
        omega (arith, len),
      )
  after_read-Progress reader max k empty_reads payload [] none is few l h =
      elim (dec_lt (suc empty_reads) 100) [
        | no full ↦ rw (last (omega arith)) is
        | yes still ↦ rw (goes_on still) (
          ap (λ r. r.1) is,
          sym (append-nil payload) ∙ ap (λ r. payload ++ r.0) (sym is),
          l,
          still,
          omega arith,
        )
      ]
    where
      last : suc empty_reads ≡ 100 → (suc empty_reads == 100) ≡ true
      last e = ground arith

      goes_on : suc empty_reads < 100 → (suc empty_reads == 100) ≡ false
      goes_on h = ground arith

  unless_done-Progress :
      (reader : Reader E) (max k empty_reads : ℕ) (payload : Text) (before after : Option E)
      (step : Step E)
      → reader.before k ≡ before
      → reader.after k ≡ after
      → Progress reader max k empty_reads payload step
      → Progress reader max k empty_reads payload (unless_done before after step)
  unfolding unless_done
  unless_done-Progress reader max k empty_reads payload (some e) after step b a h = inl b
  unless_done-Progress reader max k empty_reads payload none (some e) step b a h = inr a
  unless_done-Progress reader max k empty_reads payload none none step b a h = h

  read_step-Progress :
      (reader : Reader E) (max k empty_reads : ℕ) (payload : Text)
      → empty_reads < 100
      → length payload ≤ max
      → Progress reader max k empty_reads payload (read_step reader max k empty_reads payload)
  unfolding read_step
  read_step-Progress reader max k empty_reads payload few l =
      let (chunk, end) = read_at reader max k (length payload) in
      unless_done-Progress reader max k empty_reads payload (reader.before k) (reader.after k) _
        refl refl
        (elim (Bool-cases (ltb (max - length payload) (length chunk))) [
          | inl over ↦ rw over (ground arith)
          | inr fit ↦ rw fit (
              after_read-Progress reader max k empty_reads payload chunk end refl few l
                (ground arith))
        ])

  -- The result of the loop: a payload that the bytes of all reads up to the first that ends the body
  -- complete, or an error that is explained by a read.
  abbrev pub Buffers : Reader E → ℕ → ℕ → Text → Result (BodyError E) Text → Type 0
  Buffers reader max k payload (err e) =
      (n : ℕ) × AfterReads reader max (Explains reader max e) n k (length payload)
  Buffers reader max k payload (ok bytes) =
      (n : ℕ) × AfterReads reader max (λ k total. (read_at reader max k total).1 ≡ some eof) n k
        (length payload)
      × (bytes ≡ payload ++ bytes_read reader max (suc n) k (length payload))
      × (length bytes ≤ max)

  Buffers-step :
      (reader : Reader E) (max k : ℕ) (payload bytes : Text) (result : Result (BodyError E) Text)
      → (read_at reader max k (length payload)).1 ≡ none
      → bytes ≡ payload ++ (read_at reader max k (length payload)).0
      → Buffers reader max (suc k) bytes result
      → Buffers reader max k payload result
  Buffers-step reader max k payload bytes (err e) on is (n, h) =
      let chunk = (read_at reader max k (length payload)).0 in
      let len : length bytes ≡ length payload + length chunk =
        ap length is ∙ length-append payload chunk in
      (suc n, (on, subst (AfterReads reader max (Explains reader max e) n (suc k)) len h))
  Buffers-step reader max k payload bytes (ok whole) on is (n, ends, e, l) =
      let chunk = (read_at reader max k (length payload)).0 in
      let len : length bytes ≡ length payload + length chunk =
        ap length is ∙ length-append payload chunk in
      (
        suc n,
        (
          on,
          subst
              (AfterReads reader max (λ k total. (read_at reader max k total).1 ≡ some eof) n
                (suc k))
              len ends,
        ),
        e
            ∙ ap₂ (λ x y. x ++ bytes_read reader max (suc n) (suc k) y) is len
            ∙ append_assoc payload chunk
                (bytes_read reader max (suc n) (suc k) (length payload + length chunk)),
        l,
      )

  -- The rest of the loop after an iteration.
  after_step-Buffers :
      (reader : Reader E) (max fuel k empty_reads : ℕ) (payload : Text) (step : Step E)
      → read_step reader max k empty_reads payload ≡ step
      → Progress reader max k empty_reads payload step
      → ((n : ℕ) (bytes : Text)
          → n < 100
          → length bytes ≤ max
          → 101 * (max - length bytes) + (100 - n)
            < 101 * (max - length payload) + (100 - empty_reads)
          → Buffers reader max (suc k) bytes (read_all reader max fuel (suc k) n bytes))
      → Buffers reader max k payload (read_all reader max (suc fuel) k empty_reads payload)
  unfolding read_all
  after_step-Buffers reader max fuel k empty_reads payload (fail e) is h rest =
      rw (is, read_all) (0, h)
  after_step-Buffers reader max fuel k empty_reads payload (complete bytes) is (ends, e, b) rest =
      let chunk = (read_at reader max k (length payload)).0 in
      rw (is, read_all) (0, ends, e ∙ ap (λ c. payload ++ c) (sym (append-nil chunk)), b)
  after_step-Buffers reader max fuel k empty_reads payload (more n bytes) is (on, e, b, few, less)
        rest =
      rw (is, read_all)
        (Buffers-step reader max k payload bytes (read_all reader max fuel (suc k) n bytes) on e
          (rest n bytes few b less))

  read_all-Buffers :
      (reader : Reader E) (max fuel k empty_reads : ℕ) (payload : Text)
      → empty_reads < 100
      → length payload ≤ max
      → 101 * (max - length payload) + (100 - empty_reads) < fuel
      → Buffers reader max k payload (read_all reader max fuel k empty_reads payload)
  read_all-Buffers reader max zero k empty_reads payload few l enough = absurd (omega arith)
  read_all-Buffers reader max (suc fuel) k empty_reads payload few l enough =
      after_step-Buffers reader max fuel k empty_reads payload
        (read_step reader max k empty_reads payload) refl
        (read_step-Progress reader max k empty_reads payload few l)
        (λ n bytes few' b less.
          read_all-Buffers reader max fuel (suc k) n bytes few' b (omega arith))

  -- The result of prepareRetryBody: that of the loop where the context is not done before and the
  -- stated length is within the limit, and else the error of that.
  abbrev pub IsPrepared : Reader E → ℕ → ℕ → Result (BodyError E) Text → Type 0
  IsPrepared reader max content_length result =
      ((content_length ≤ max) × Buffers reader max 0 [] result)
      ⊎ ((max < content_length) × (result ≡ err too_large))
      ⊎ ((e : E) × (result ≡ err (context_done e))
          × ((reader.at_start ≡ some e) ⊎ (reader.at_length ≡ some e)))

  unless_long-IsPrepared :
      (reader : Reader E) (max content_length : ℕ) (start later : Option E) (long : Bool)
      (result : Result (BodyError E) Text)
      → reader.at_start ≡ start
      → reader.at_length ≡ later
      → ltb max content_length ≡ long
      → Buffers reader max 0 [] result
      → IsPrepared reader max content_length (unless_long start later long result)
  unfolding unless_long
  unless_long-IsPrepared reader max content_length (some e) later long result s l h b =
      inr (inr (e, refl, inl s))
  unless_long-IsPrepared reader max content_length none (some e) true result s l h b =
      inr (inr (e, refl, inr l))
  unless_long-IsPrepared reader max content_length none none true result s l h b =
      inr (inl (ground arith, refl))
  unless_long-IsPrepared reader max content_length none later false result s l h b =
      inl (ground arith, b)

  -- prepareRetryBody ends, whatever the body and the context do, and in one of these ways. With a
  -- payload within the limit, which is the whole body: the bytes of all reads from the first on, each
  -- without an error, up to and with one that returns the end of the file. With the context's error
  -- at a check. With the error of a read. With a refusal for its length only where the stated length,
  -- or that of the bytes up to a read, is above the limit. With a refusal for no progress only after a
  -- read without bytes and without an error.
  pub prepare_retry_body-IsPrepared :
      (reader : Reader E) (max content_length : ℕ)
      → IsPrepared reader max content_length (prepare_retry_body reader max content_length)
  unfolding prepare_retry_body
  prepare_retry_body-IsPrepared reader max content_length =
      unless_long-IsPrepared reader max content_length (reader.at_start) (reader.at_length)
        (ltb max content_length) _ refl refl refl
        (read_all-Buffers reader max (101 * max + 101) 0 0 [] (omega arith) (omega arith)
          (omega arith))
