-- ===== src/Reload/Watch.antt =====
-- main.go: watchConfig, which reloads the configuration when its file changes.
use kubio.Prelude.{
  ℕ, Bool, true, false, ◌&&◌, not, Option, none, some, List, [], ◌∷◌, ◌==◌, if◌then◌else◌,
}
use kubio.Text.{Text, text_eq}

-- fileState
pub record FileState : Type 0 where
  pub exists : Bool
  pub size : ℕ
  pub mod_time : ℕ

abbrev pub same_bool : Bool → Bool → Bool
same_bool true b = b
same_bool false b = not b

-- current == last
unfoldable pub same_file : FileState → FileState → Bool
same_file f g = same_bool f.exists g.exists && f.size == g.size && f.mod_time == g.mod_time

-- The file as os.Stat answers: its size and time, that it does not exist, or another error.
pub data Stat : Type 0 where
  found : ℕ → ℕ → Stat
  not_exist failed : Stat

-- statConfig
unfoldable pub stat_config : Stat → Option FileState
stat_config (found size time) = some (record { exists = true; size = size; mod_time = time })
stat_config not_exist = some (record { exists = false; size = 0; mod_time = 0 })
stat_config failed = none

-- What loadConfig returns: the address, whether TLS is set, and what buildRuntimeGeneration makes of it.
pub record Loaded (G : Type 0) : Type 0 where
  pub listen : Text
  pub has_tls : Bool
  pub generation : Option G

-- What a tick finds, the file read only where the code reads it.
pub record Tick (G : Type 0) : Type 0 where
  pub stat : Stat
  pub load : Option (Loaded G)

abbrev pub keep {ℓ} : {A : Type ℓ} → Option A → List A → List A
keep none xs = xs
keep (some x) xs = x ∷ xs

module _ {G : Type 0} where
  -- The part of a round after loadConfig: the configuration that is stored with its generation.
  unfoldable pub accept : Text → Bool → Option (Loaded G) → Option (Loaded G × G)
  accept listen tls_enabled none = none
  accept listen tls_enabled (some cfg) =
      if not (text_eq cfg.listen listen)
      then none
      else if not (same_bool cfg.has_tls tls_enabled)
      then none
      else elim cfg.generation [ none ↦ none | some next ↦ some (cfg, next) ]

  -- The part of a round after statConfig.
  unfoldable pub check_file :
      Text
      → Bool
      → FileState
      → Option (Loaded G)
      → Option FileState
      → FileState × Option (Loaded G × G)
  check_file listen tls_enabled last load none = (last, none)
  check_file listen tls_enabled last load (some current) =
      if same_file current last then (last, none) else (current, accept listen tls_enabled load)

  -- watchConfig: the state of the file that is seen last, and what is stored, in its order.
  unfoldable pub watch_config :
      Text → Bool → FileState → List (Tick G) → FileState × List (Loaded G × G)
  watch_config listen tls_enabled last [] = (last, [])
  watch_config listen tls_enabled last (tick ∷ ticks) =
      let (seen, stored) = check_file listen tls_enabled last tick.load (stat_config tick.stat) in
      let (final, later) = watch_config listen tls_enabled seen ticks in (final, keep stored later)
