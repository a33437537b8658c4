-- ===== src/Reclaim/Caches.antt =====
-- mgd/src/evictor/cache_drop.rs: the page cache of configured paths is dropped before anything is frozen.
-- What a walk advises on a path is a parameter.
use lmkd_linux.Prelude.{
  ℕ, ◌-◌, String, Bool, true, false, ◌&&◌, ◌||◌, not, List, [], ◌∷◌, ltb, ◌==◌, if◌then◌else◌,
}
use lmkd_linux.Psi.{PressureLevel, below}
use lmkd_linux.Config.{CompiledConfig}

-- `CacheDropResult` of monitor/cache.rs.
pub record CacheDropResult : Type 0 where
  pub pattern : String
  pub files_advised : ℕ
  pub bytes_advised : ℕ

-- `LAST_CACHE_DROP`, the times of the walks with their results, and the patterns that were logged, the
-- newest first.
pub record CacheState : Type 0 where
  pub last_cache_drop : ℕ
  pub walks : List (ℕ × List CacheDropResult)
  pub logged : List String

abbrev pub is_empty {ℓ} : {A : Type ℓ} → List A → Bool
is_empty [] = true
is_empty (x ∷ xs) = false

unfoldable pub log_each : List CacheDropResult → List String → List String
log_each [] log = log
log_each (r ∷ rs) log = log_each rs (if ltb 0 r.files_advised then r.pattern ∷ log else log)

unfoldable pub check_cache_drop :
    (List String → List CacheDropResult)
    → PressureLevel
    → ℕ
    → CompiledConfig
    → CacheState
    → CacheState
check_cache_drop drop_caches level now cfg s =
    if not cfg.cache_drop_enabled || is_empty cfg.cache_drop_paths
    then s
    else if below level cfg.cache_drop_trigger
    then s
    else if not (s.last_cache_drop == 0)
        && ltb (now - s.last_cache_drop) cfg.cache_drop_cooldown_secs
    then s
    else (let results = drop_caches cfg.cache_drop_paths in
        record {
          last_cache_drop = now;
          walks = (now, results) ∷ s.walks;
          logged = log_each results s.logged;
        })
