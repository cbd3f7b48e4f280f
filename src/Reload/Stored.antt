-- ===== src/Reload/Stored.antt =====
-- What watchConfig stores, and how often.
use kubio.Prelude.{
  ℕ, suc, ◌≤◌, ◌≡◌, refl, Bool, true, false, not, Option, none, some, List, [], ◌∷◌, if◌then◌else◌,
  length, map, All, arith, Bool-cases, inl, inr,
}
use kubio.Text.{Text, text_eq}
use kubio.Text.Laws.{text_eq_iff}
use kubio.Reload.Watch.{
  FileState, same_bool, same_file, stat_config, Loaded, Tick, keep, accept, check_file,
  watch_config,
}

same_bool_sound : (a b : Bool) → same_bool a b ≡ true → a ≡ b
same_bool_sound true b h = ground arith
same_bool_sound false b h = ground arith

-- The changes of a file that some answers of statConfig show, from the state that was seen last.
abbrev pub changes : FileState → List (Option FileState) → ℕ
changes last [] = 0
changes last (none ∷ rest) = changes last rest
changes last (some current ∷ rest) =
    if same_file current last then changes last rest else suc (changes current rest)

length-keep : {A : Type 0} (s : Option A) (xs : List A) → length (keep s xs) ≤ suc (length xs)
length-keep none xs = omega arith
length-keep (some x) xs = omega arith

module _ {G : Type 0} where
  -- What is stored fits the listener, and was built from its configuration.
  abbrev pub Fits : Text → Bool → Loaded G × G → Type 0
  Fits listen tls_enabled stored =
      (stored.0.listen ≡ listen)
      × (stored.0.has_tls ≡ tls_enabled)
      × (stored.0.generation ≡ some stored.1)

  abbrev AllFit : Text → Bool → Option (Loaded G × G) → Type 0
  AllFit listen tls_enabled none = Unit
  AllFit listen tls_enabled (some s) = Fits listen tls_enabled s

  accept-Fits :
      (listen : Text) (tls_enabled : Bool) (load : Option (Loaded G))
      → AllFit listen tls_enabled (accept listen tls_enabled load)
  unfolding accept
  accept-Fits listen tls_enabled none = tt
  accept-Fits listen tls_enabled (some cfg) =
      by_tests (text_eq cfg.listen listen) (same_bool cfg.has_tls tls_enabled) cfg.generation refl
        refl refl
    where
      by_tests :
          (a b : Bool) (g : Option G)
          → text_eq cfg.listen listen ≡ a
          → same_bool cfg.has_tls tls_enabled ≡ b
          → cfg.generation ≡ g
          → AllFit listen tls_enabled (
              if not a
              then none
              else if not b
              then none
              else elim g [ none ↦ none | some next ↦ some (cfg, next) ])
      by_tests false b g e f h = tt
      by_tests true false g e f h = tt
      by_tests true true none e f h = tt
      by_tests true true (some next) e f h =
          ((text_eq_iff cfg.listen listen).0 e, same_bool_sound cfg.has_tls tls_enabled f, h)

  check_file-Fits :
      (listen : Text) (tls_enabled : Bool) (last : FileState) (load : Option (Loaded G))
      (current : Option FileState)
      → AllFit listen tls_enabled (check_file listen tls_enabled last load current).1
  unfolding check_file
  check_file-Fits listen tls_enabled last load none = tt
  check_file-Fits listen tls_enabled last load (some current) =
      elim (Bool-cases (same_file current last)) [
        | inl same ↦ rw same tt
        | inr other ↦ rw other (accept-Fits listen tls_enabled load)
      ]

  keep-Fits :
      (listen : Text) (tls_enabled : Bool) (s : Option (Loaded G × G)) (later : List (Loaded G × G))
      → AllFit listen tls_enabled s
      → All (Fits listen tls_enabled) later
      → All (Fits listen tls_enabled) (keep s later)
  keep-Fits listen tls_enabled none later h rest = rest
  keep-Fits listen tls_enabled (some s) later h rest = (h, rest)

  -- Whatever the ticks find: each generation that watchConfig stores was built from a configuration
  -- with the address and the TLS mode of the running listener.
  pub watch_config-Fits :
      (listen : Text) (tls_enabled : Bool) (last : FileState) (ticks : List (Tick G))
      → All (Fits listen tls_enabled) (watch_config listen tls_enabled last ticks).1
  unfolding watch_config
  watch_config-Fits listen tls_enabled last [] = tt
  watch_config-Fits listen tls_enabled last (tick ∷ ticks) =
      let seen = (check_file listen tls_enabled last tick.load (stat_config tick.stat)).0 in
      keep-Fits listen tls_enabled _ _
        (check_file-Fits listen tls_enabled last tick.load (stat_config tick.stat))
        (watch_config-Fits listen tls_enabled seen ticks)

  -- watchConfig stores at most once for each change of the file that its calls of statConfig show: a
  -- file that stays the same, or that cannot be read, is not loaded again.
  pub watch_config-changes :
      (listen : Text) (tls_enabled : Bool) (last : FileState) (ticks : List (Tick G))
      → length (watch_config listen tls_enabled last ticks).1
        ≤ changes last (map (λ t. stat_config t.stat) ticks)
  unfolding watch_config check_file
  watch_config-changes listen tls_enabled last [] = omega arith
  watch_config-changes listen tls_enabled last (tick ∷ ticks) =
      by_stat (stat_config tick.stat) (λ seen. watch_config-changes listen tls_enabled seen ticks)
    where
      by_stat :
          (current : Option FileState)
          → ((seen : FileState)
              → length (watch_config listen tls_enabled seen ticks).1
                ≤ changes seen (map (λ t. stat_config t.stat) ticks))
          → length (
              keep
                (check_file listen tls_enabled last tick.load current).1
                (watch_config listen tls_enabled
                  (check_file listen tls_enabled last tick.load current).0
                  ticks).1)
            ≤ changes last (current ∷ map (λ t. stat_config t.stat) ticks)
      by_stat none later = later last
      by_stat (some current) later = elim (Bool-cases (same_file current last)) [
        | inl same ↦ rw same (later last)
        | inr other ↦ rw other (
            omega (
              arith,
              later current,
              length-keep (accept listen tls_enabled tick.load)
                  (watch_config listen tls_enabled current ticks).1,
            ))
      ]
