-- ===== src/Path/Strip.antt =====
-- What a route takes off a path it takes off the raw path too.
use kubio.Prelude.{
  ℕ, ◌≡◌, refl, ap, sym, ◌∙◌, Option, none, some, [], ◌∷◌, ◌++◌, arith, ◌==◌, Bool-cases,
  Option-cases, inl, inr, ==_iff, ◌⊎◌, ◌≢◌,
}
use kubio.Text.{Text}
use kubio.Text.Laws.{cut_prefix-append}
use kubio.Url.{Url, path_unescape, cons_some}
use kubio.Path.{escaped_path_byte, strip_escaped_path_prefix, strip_path_prefix, strip_request_path}
use kubio.Path.Escape.{
  append_some, then_unescape, path_unescape-escaped_path_byte, path_unescape_nil,
}

cons-ne-nil : (c : ℕ) (o : Option Text) → cons_some c o ≢ some []
cons-ne-nil c none e = cc
cons-ne-nil c (some s) e = cc

append_some_nil : (o : Option Text) → o ≡ append_some [] o
append_some_nil none = refl
append_some_nil (some s) = refl

append_some-cons :
    (p : ℕ) (prefix : Text) (o : Option Text)
    → cons_some p (append_some prefix o) ≡ append_some (p ∷ prefix) o
append_some-cons p prefix none = refl
append_some-cons p prefix (some s) = refl

unescape_of_byte :
    (raw : Text) {value : ℕ} {next : Text}
    → escaped_path_byte raw ≡ some (value, next)
    → path_unescape raw ≡ cons_some value (path_unescape next)
unfolding escaped_path_byte
unescape_of_byte [] e = cc
unescape_of_byte (a ∷ raw) e = path_unescape-escaped_path_byte a raw ∙ ap then_unescape e

-- When stripEscapedPathPrefix takes a prefix off a raw path, the raw path reads as the prefix
-- followed by what the rest reads as, or both do not read.
pub strip_escaped_path_prefix_sound :
    (raw prefix rest : Text)
    → strip_escaped_path_prefix raw prefix ≡ some rest
    → path_unescape raw ≡ append_some prefix (path_unescape rest)
unfolding strip_escaped_path_prefix
strip_escaped_path_prefix_sound raw [] rest e =
    let same : raw ≡ rest = cc in ap path_unescape same ∙ append_some_nil (path_unescape rest)
strip_escaped_path_prefix_sound raw (p ∷ prefix) rest e =
    elim (Option-cases (escaped_path_byte raw)) [
      | inl missing ↦ cc (rw (missing, strip_escaped_path_prefix) at e)
      | inr ((value, next), read) ↦ elim (Bool-cases (value == p)) [
        | inl same ↦
            let ih =
              strip_escaped_path_prefix_sound next prefix rest
                (rw (read, strip_escaped_path_prefix, same) at e) in
            unescape_of_byte raw read
            ∙ ap (cons_some value) ih
            ∙ append_some-cons value prefix (path_unescape rest)
            ∙ ap (λ q. append_some (q ∷ prefix) (path_unescape rest)) ((==_iff value p).0 same)
        | inr other ↦ cc (rw (read, strip_escaped_path_prefix, other) at e)
      ]
    ]

byte_of_unescape :
    (raw : Text) (c : ℕ) (s : Text)
    → path_unescape raw ≡ some (c ∷ s)
    → (next : Text) × (escaped_path_byte raw ≡ some (c, next)) × (path_unescape next ≡ some s)
byte_of_unescape [] c s e = cc path_unescape_nil
byte_of_unescape (a ∷ raw) c s e = go (escaped_path_byte (a ∷ raw)) refl
  where
    go :
        (o : Option (ℕ × Text))
        → escaped_path_byte (a ∷ raw) ≡ o
        → (next : Text) × (escaped_path_byte (a ∷ raw) ≡ some (c, next))
          × (path_unescape next ≡ some s)
    go none r = cc (path_unescape-escaped_path_byte a raw, ap then_unescape r)
    go (some (value, next)) r =
        let whole : cons_some value (path_unescape next) ≡ some (c ∷ s) =
          sym (path_unescape-escaped_path_byte a raw ∙ ap then_unescape r) ∙ e in
        (next, ground arith, ground arith)

-- When a raw path reads as a prefix followed by a text, stripEscapedPathPrefix takes the prefix off,
-- however it was escaped, and the rest reads as the text.
pub strip_escaped_path_prefix_complete :
    (raw prefix s : Text)
    → path_unescape raw ≡ some (prefix ++ s)
    → (rest : Text) × (strip_escaped_path_prefix raw prefix ≡ some rest)
      × (path_unescape rest ≡ some s)
unfolding strip_escaped_path_prefix
strip_escaped_path_prefix_complete raw [] s e = (raw, refl, e)
strip_escaped_path_prefix_complete raw (p ∷ prefix) s e =
    let (next, read, later) = byte_of_unescape raw p (prefix ++ s) e in
    let (rest, stripped, reads) = strip_escaped_path_prefix_complete next prefix s later in
    (rest, rw (read, strip_escaped_path_prefix) (ground arith), reads)

-- The raw path of a URL is empty, or it reads as the path.
abbrev pub Reads : Url → Type 0
Reads u = (u.raw_path ≡ []) ⊎ (path_unescape u.raw_path ≡ some u.path)

empty_of_unescape : (raw : Text) → path_unescape raw ≡ some [] → raw ≡ []
empty_of_unescape [] e = refl
empty_of_unescape (a ∷ raw) e = go (escaped_path_byte (a ∷ raw)) refl
  where
    go : (o : Option (ℕ × Text)) → escaped_path_byte (a ∷ raw) ≡ o → a ∷ raw ≡ []
    go none r = cc (path_unescape-escaped_path_byte a raw, ap then_unescape r)
    go (some (value, next)) r =
        let whole : cons_some value (path_unescape next) ≡ some [] =
          sym (path_unescape-escaped_path_byte a raw ∙ ap then_unescape r) ∙ e in
        absurd (cons-ne-nil value (path_unescape next) whole)

strip_path_prefix_append :
    (q : ℕ) (p : Text) (c : ℕ) (d : Text) → strip_path_prefix ((q ∷ p) ++ c ∷ d) (q ∷ p) ≡ c ∷ d
unfolding strip_path_prefix
strip_path_prefix_append q p c d = rw (cut_prefix-append (q ∷ p) (c ∷ d))

-- What stripRequestPath leaves where the raw path still reads as the path.
Reads-stripped :
    (path raw p : Text) (q : ℕ) (rest : Text)
    → path_unescape raw ≡ some path
    → path_unescape raw ≡ append_some (q ∷ p) (path_unescape rest)
    → Reads (record { path = strip_path_prefix path (q ∷ p); raw_path = rest })
Reads-stripped path raw p q rest reads split = go (path_unescape rest) refl
  where
    go :
        (o : Option Text)
        → path_unescape rest ≡ o
        → Reads (record { path = strip_path_prefix path (q ∷ p); raw_path = rest })
    go none r = cc (split, ap (append_some (q ∷ p)) r)
    go (some []) r = inl (empty_of_unescape rest r)
    go (some (c ∷ d)) r =
        let whole : path ≡ (q ∷ p) ++ c ∷ d = cc (split, ap (append_some (q ∷ p)) r) in
        inr (
          r
          ∙ ap some (
              sym (ap (λ s. strip_path_prefix s (q ∷ p)) whole ∙ strip_path_prefix_append q p c d)))

Reads-strip :
    (path raw prefix : Text)
    → (raw ≡ []) ⊎ (path_unescape raw ≡ some path)
    → Reads (strip_request_path (record { path = path; raw_path = raw }) prefix)
unfolding strip_request_path
Reads-strip path [] prefix h = inl refl
Reads-strip path (r ∷ raw) [] h = h
Reads-strip path (r ∷ raw) (q ∷ p) (inl e) = cc
Reads-strip path (r ∷ raw) (q ∷ p) (inr reads) =
    elim (Option-cases (strip_escaped_path_prefix (r ∷ raw) (q ∷ p))) [
      | inl failed ↦ inl (rw failed)
      | inr (rest, stripped) ↦ rw stripped (
          Reads-stripped path (r ∷ raw) p q rest reads
            (strip_escaped_path_prefix_sound (r ∷ raw) (q ∷ p) rest stripped))
    ]

-- stripRequestPath keeps the two paths of a URL together: when the raw path is empty or reads as the
-- path, the same holds of the URL after it.
pub strip_request_path-Reads :
    (u : Url) (prefix : Text) → Reads u → Reads (strip_request_path u prefix)
strip_request_path-Reads u prefix h = Reads-strip u.path u.raw_path prefix h
