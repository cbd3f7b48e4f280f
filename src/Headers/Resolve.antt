-- ===== src/Headers/Resolve.antt =====
-- What is known of the headers that resolveHeaders accepts.
use kubio.Prelude.{
  ℕ, ◌≤◌, ◌≡◌, ◌≢◌, ◌⊎◌, arith, refl, sym, subst, Bool, true, false, not, List, [], ◌∷◌, All, any,
  Bool-cases, inl, inr, ok, ◌>>◌, reject_if, checked, bound,
}
use kubio.Text.{Text, text, text_eq, to_lower}
use kubio.Text.Laws.{text_eq_iff}
use kubio.Headers.{
  HeaderEnv, invalid_name, duplicate_item, managed_header, invalid_value, put, has_key,
  valid_header_name, valid_header_value, restricted_header, expand_env, resolve_headers,
  resolve_headers_from,
}

-- A byte that ends no line and is no control character but the tab.
abbrev pub IsPlain : ℕ → Type 0
IsPlain c = (c ≢ 13) × (c ≢ 10) × (c ≢ 127) × ((32 ≤ c) ⊎ (c ≡ 9))

-- The names of the connection and of the message's framing.
abbrev pub managed_names : List Text
managed_names =
    text "connection"
    ∷ text "proxy-connection"
    ∷ text "keep-alive"
    ∷ text "transfer-encoding"
    ∷ text "te"
    ∷ text "trailer"
    ∷ text "upgrade"
    ∷ text "content-length"
    ∷ []

-- A name that is none of those, in any case.
abbrev pub IsUnmanaged : Text → Type 0
IsUnmanaged name = All (λ t. to_lower name ≢ t) managed_names

-- A header that may be sent.
abbrev pub IsAllowed : Text × Text → Type 0
IsAllowed entry = IsUnmanaged entry.0 × All IsPlain entry.1

valid_header_value-IsPlain : (value : Text) → valid_header_value value ≡ true → All IsPlain value
unfolding valid_header_value
valid_header_value-IsPlain [] h = tt
valid_header_value-IsPlain (c ∷ value) h =
    (ground arith, valid_header_value-IsPlain value (ground arith))

differs : (s t : Text) → text_eq s t ≡ false → s ≢ t
differs s t h e = let same : text_eq s t ≡ true = (text_eq_iff s t).1 e in absurd cc

none_equal : (s : Text) (ts : List Text) → any (text_eq s) ts ≡ false → All (λ t. s ≢ t) ts
none_equal s [] h = tt
none_equal s (t ∷ ts) h = (differs s t (ground arith), none_equal s ts (ground arith))

restricted_header-IsUnmanaged : (name : Text) → restricted_header name ≡ false → IsUnmanaged name
unfolding restricted_header
restricted_header-IsUnmanaged name h = none_equal (to_lower name) managed_names h

put-IsAllowed :
    (name value : Text) (headers : List (Text × Text))
    → IsAllowed (name, value)
    → All IsAllowed headers
    → All IsAllowed (put name value headers)
unfolding put
put-IsAllowed name value [] new h = (new, tt)
put-IsAllowed name value ((key, old) ∷ headers) new (first, h) =
    elim (Bool-cases (text_eq key name)) [
      | inl same ↦
          rw same ((subst IsUnmanaged (sym ((text_eq_iff key name).0 same)) new.0, new.1), h)
      | inr other ↦ rw other (first, put-IsAllowed name value headers new h)
    ]

not-false : (b : Bool) → not b ≡ false → b ≡ true
not-false true h = refl
not-false false h = absurd cc

resolve_headers_from-IsAllowed :
    (env : HeaderEnv) (headers raw resolved : List (Text × Text))
    → All IsAllowed headers
    → resolve_headers_from env headers raw ≡ ok resolved
    → All IsAllowed resolved
unfolding resolve_headers_from
resolve_headers_from-IsAllowed env headers [] resolved h e = subst (All IsAllowed) (cc e) h
resolve_headers_from-IsAllowed env headers ((raw_name, raw_value) ∷ rest) resolved h e =
    let name = env.canonical raw_name in
    let (valid, e1) = checked (not (valid_header_name raw_name)) invalid_name _ resolved e in
    let (new, e2) = checked (has_key name headers) duplicate_item _ resolved e1 in
    let (free, e3) = checked (restricted_header name) managed_header _ resolved e2 in
    let (value, expanded, e4) =
      bound (expand_env env.lookup raw_value)
        (λ v.
          reject_if (not (valid_header_value v)) invalid_value
          >> resolve_headers_from env (put name v headers) rest)
        resolved e3 in
    let (good, e5) = checked (not (valid_header_value value)) invalid_value _ resolved e4 in
    resolve_headers_from-IsAllowed env (put name value headers) rest resolved
      (put-IsAllowed name value headers
        (
          restricted_header-IsUnmanaged name free,
          valid_header_value-IsPlain value (not-false (valid_header_value value) good),
        )
        h)
      e5

-- When resolveHeaders accepts the headers of the configuration, whatever the environment's variables
-- hold: no header that results is, in any case, Connection, Proxy-Connection, Keep-Alive,
-- Transfer-Encoding, TE, Trailer, Upgrade or Content-Length, and no value holds a carriage return, a
-- line feed, a delete or another control character than the tab.
pub resolve_headers-IsAllowed :
    (env : HeaderEnv) (raw resolved : List (Text × Text))
    → resolve_headers env raw ≡ ok resolved
    → All IsAllowed resolved
unfolding resolve_headers
resolve_headers-IsAllowed env raw resolved e =
    resolve_headers_from-IsAllowed env [] raw resolved tt e
