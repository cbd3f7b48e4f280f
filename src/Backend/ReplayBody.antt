-- ===== src/Backend/ReplayBody.antt =====
-- proxy.go: the buffering of a request's body for retries. The body is the results of its reads by
-- number and buffer size; the context is its error before and after each read. The close of the
-- original body on every return and the capacity of the buffers are left out. The limit is below
-- 2 ^ 63 - 1.
pub mod Buffered
use kubio.Prelude.{
  ℕ, zero, suc, ◌+◌, ◌-◌, ◌*◌, Option, none, some, List, [], ◌∷◌, ◌++◌, min, length, ltb, ◌==◌,
  if◌then◌else◌, Result, ok, err, Bool, true, false, ◌&&◌,
}
use kubio.Text.{Text}

-- proxyBufferSize
abbrev pub proxy_buffer_size : ℕ
proxy_buffer_size = 32 * 1024

-- The error of a Read.
pub data ReadEnd {ℓ} (E : Type ℓ) : Type ℓ where
  eof : ReadEnd E
  broken : E → ReadEnd E

pub data BodyError {ℓ} (E : Type ℓ) : Type ℓ where
  context_done read_failed : E → BodyError E
  too_large no_progress out_of_fuel : BodyError E

pub record Reader {ℓ} (E : Type ℓ) : Type ℓ where
  pub read : ℕ → ℕ → Text × Option (ReadEnd E)
  pub at_start : Option E
  pub at_length : Option E
  pub before : ℕ → Option E
  pub after : ℕ → Option E

-- What one iteration of the loop comes to.
pub data Step {ℓ} (E : Type ℓ) : Type ℓ where
  fail : BodyError E → Step E
  complete : Text → Step E
  more : ℕ → Text → Step E

module _ {ℓ} {E : Type ℓ} where
  -- The end of an iteration, with the bytes read and the error of the read.
  unfoldable pub after_read : ℕ → Text → Text → Option (ReadEnd E) → Step E
  after_read empty_reads payload chunk (some eof) = complete (payload ++ chunk)
  after_read empty_reads payload chunk (some (broken e)) = fail (read_failed e)
  after_read empty_reads payload [] none =
      if suc empty_reads == 100 then fail no_progress else more (suc empty_reads) payload
  after_read empty_reads payload (byte ∷ chunk) none = more 0 (payload ++ byte ∷ chunk)

  -- The context's error before a read, or after it.
  unfoldable pub unless_done : Option E → Option E → Step E → Step E
  unless_done (some e) later step = fail (context_done e)
  unless_done none (some e) step = fail (context_done e)
  unless_done none none step = step

  -- One iteration of the loop of prepareRetryBody.
  unfoldable pub read_step : Reader E → ℕ → ℕ → ℕ → Text → Step E
  read_step reader max k empty_reads payload =
      let remaining = max - length payload in
      let (chunk, end) = reader.read k (min proxy_buffer_size (remaining + 1)) in
      unless_done (reader.before k) (reader.after k) (
        if ltb remaining (length chunk)
        then fail too_large
        else after_read empty_reads payload chunk end)

  unfoldable pub read_all : Reader E → ℕ → ℕ → ℕ → ℕ → Text → Result (BodyError E) Text
  read_all reader max zero k empty_reads payload = err out_of_fuel
  read_all reader max (suc fuel) k empty_reads payload =
      elim (read_step reader max k empty_reads payload) [
        | fail e ↦ err e
        | complete bytes ↦ ok bytes
        | more n bytes ↦ read_all reader max fuel (suc k) n bytes
      ]

  -- The checks before the loop: the context's error, and the length that the request states.
  unfoldable pub unless_long :
      Option E → Option E → Bool → Result (BodyError E) Text → Result (BodyError E) Text
  unless_long (some e) later long result = err (context_done e)
  unless_long none (some e) true result = err (context_done e)
  unless_long none none true result = err too_large
  unless_long none later false result = result

  -- The fuel covers 101 reads for each byte up to the limit.
  unfoldable pub prepare_retry_body : Reader E → ℕ → ℕ → Result (BodyError E) Text
  prepare_retry_body reader max content_length =
      unless_long (reader.at_start) (reader.at_length) (ltb max content_length)
        (read_all reader max (101 * max + 101) 0 0 [])
