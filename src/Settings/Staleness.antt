-- ===== src/Settings/Staleness.antt =====
-- How long a process can serve settings that have been changed.
use bidvault_backend.Common.{
  ℕ, ◌≤◌, Option, none, ◌≡◌, some, ◌⊎◌, ◌+◌, inr, refl, arith, inl, ◌<◌, All, ◌∷◌, Memᴰ, All-map,
  All-mem,
}
use bidvault_backend.Settings.{
  asked, PlatformSettings, fetch_settings, SettingsState, get_platform_settings, CachedSettings,
  Fetch, idle, fetched, fetch_reads, fetch_done, fetch_fails, SettingsPatch,
  update_platform_settings, updated_elsewhere, invalidate_settings_cache, ask, fresh_settings,
  settings_ttl_ms, done_with, get_with, served, upsert_settings, store_settings,
}
use bidvault_backend.Settings.Timeline.{
  Timeline, Happens, Runs, started, gets, reads, is_done, fails, updates, updates_elsewhere,
  is_told, here, more, stores,
}

abbrev CacheFollows : ℕ → ℕ → ℕ → PlatformSettings → Option CachedSettings → Type 0
CacheFollows span changed_at clock now_stored none = Unit
CacheFollows span changed_at clock now_stored (some c) =
    ((c.settings ≡ now_stored) ⊎ (c.at ≤ changed_at + span)) × (c.at ≤ clock)

abbrev FetchFollows : ℕ → ℕ → PlatformSettings → Fetch → Type 0
FetchFollows changed_at read_at now_stored idle = Unit
FetchFollows changed_at read_at now_stored asked = Unit
FetchFollows changed_at read_at now_stored (fetched settings) =
    (settings ≡ now_stored) ⊎ (read_at ≤ changed_at)

-- What is cached or read is the stored row, or it dates from the last change at the latest.
record Follows (span : ℕ) (t : Timeline) : Type 0 where
  pub cached : CacheFollows span t.changed_at t.clock (fetch_settings t.state.row) t.state.cache
  pub in_flight : FetchFollows t.changed_at t.read_at (fetch_settings t.state.row) t.state.inflight
  pub written_before : All (λ (w : ℕ × PlatformSettings). w.0 ≤ t.changed_at) t.written
  pub changed_before : t.changed_at ≤ t.clock
  pub read_before : t.read_at ≤ t.clock

Follows-start : (span : ℕ) (row : Option PlatformSettings) → Follows span (started row)
Follows-start span row = record {
  cached = tt;
  in_flight = tt;
  written_before = tt;
  changed_before = omega arith;
  read_before = omega arith;
}

-- A cached entry stays what it was as the clock goes on.
CacheFollows-later :
    (span changed_at clock now : ℕ) (stored : PlatformSettings) (c : Option CachedSettings)
    → clock ≤ now
    → CacheFollows span changed_at clock stored c
    → CacheFollows span changed_at now stored c
CacheFollows-later span changed_at clock now stored none h f = tt
CacheFollows-later span changed_at clock now stored (some c) h f = (f.0, omega arith)

-- After a change of the row what is cached dates from the change at the latest.
CacheFollows-changed :
    (span changed_at clock now : ℕ) (stored stored' : PlatformSettings) (c : Option CachedSettings)
    → clock ≤ now
    → CacheFollows span changed_at clock stored c
    → CacheFollows span now now stored' c
CacheFollows-changed span changed_at clock now stored stored' none h f = tt
CacheFollows-changed span changed_at clock now stored stored' (some c) h f =
    (inr (omega arith), omega arith)

FetchFollows-changed :
    (changed_at read_at now : ℕ) (stored stored' : PlatformSettings) (i : Fetch)
    → read_at ≤ now
    → FetchFollows changed_at read_at stored i
    → FetchFollows now read_at stored' i
FetchFollows-changed changed_at read_at now stored stored' idle h f = tt
FetchFollows-changed changed_at read_at now stored stored' asked h f = tt
FetchFollows-changed changed_at read_at now stored stored' (fetched settings) h f = inr h

FetchFollows-ask :
    (changed_at read_at : ℕ) (stored : PlatformSettings) (i : Fetch)
    → FetchFollows changed_at read_at stored i
    → FetchFollows changed_at read_at stored (ask i)
FetchFollows-ask changed_at read_at stored idle f = tt
FetchFollows-ask changed_at read_at stored asked f = tt
FetchFollows-ask changed_at read_at stored (fetched settings) f = f

module _ (span : ℕ) (t : Timeline) (now : ℕ) (h : t.clock ≤ now) (f : Follows span t) where
  later : CacheFollows span t.changed_at now (fetch_settings t.state.row) t.state.cache
  later =
      CacheFollows-later span t.changed_at t.clock now (fetch_settings t.state.row) t.state.cache h
        f.cached

  ticks-Follows : Follows span (record t { clock = now })
  ticks-Follows = record {
    cached = later;
    in_flight = f.in_flight;
    written_before = f.written_before;
    changed_before = omega (arith, f.changed_before);
    read_before = omega (arith, f.read_before);
  }

  gets-Follows :
      (hit : Option PlatformSettings)
      → Follows span (record t { state = (get_with hit t.state).1; clock = now })
  gets-Follows (some settings) = ticks-Follows
  gets-Follows none = record {
    cached = later;
    in_flight =
        FetchFollows-ask t.changed_at t.read_at (fetch_settings t.state.row) t.state.inflight
          f.in_flight;
    written_before = f.written_before;
    changed_before = omega (arith, f.changed_before);
    read_before = omega (arith, f.read_before);
  }

  reads-Follows :
      t.state.inflight ≡ asked
      → Follows span (record t { state = fetch_reads t.state; clock = now; read_at = now })
  unfolding fetch_reads
  reads-Follows waits = rw waits (record {
    cached = later;
    in_flight = inl refl;
    written_before = f.written_before;
    changed_before = omega (arith, f.changed_before);
    read_before = omega arith;
  })

  is_done-Follows :
      now ≤ t.read_at + span
      → (i : Fetch) → FetchFollows t.changed_at t.read_at (fetch_settings t.state.row) i
      → Follows span (record t { state = done_with now i t.state; clock = now })
  is_done-Follows short idle i = ticks-Follows
  is_done-Follows short asked i = ticks-Follows
  is_done-Follows short (fetched settings) (inl same) = record {
    cached = (inl same, omega arith);
    in_flight = tt;
    written_before = f.written_before;
    changed_before = omega (arith, f.changed_before);
    read_before = omega (arith, f.read_before);
  }
  is_done-Follows short (fetched settings) (inr old) = record {
    cached = (inr (omega arith), omega arith);
    in_flight = tt;
    written_before = f.written_before;
    changed_before = omega (arith, f.changed_before);
    read_before = omega (arith, f.read_before);
  }

  fails-Follows : Follows span (record t { state = fetch_fails t.state; clock = now })
  unfolding fetch_fails
  fails-Follows = record {
    cached = later;
    in_flight = tt;
    written_before = f.written_before;
    changed_before = omega (arith, f.changed_before);
    read_before = omega (arith, f.read_before);
  }

  -- The updates so far come before a change at this time.
  older : All (λ (w : ℕ × PlatformSettings). w.0 ≤ now) t.written
  older = All-map (λ w before. omega (arith, f.changed_before)) t.written f.written_before

  updates-Follows :
      (patch : SettingsPatch)
      → Follows span (record t {
        state = (upsert_settings patch t.state).1;
        clock = now;
        changed_at = now;
        written = (now, (upsert_settings patch t.state).0) ∷ t.written;
      })
  unfolding upsert_settings
  updates-Follows patch = record {
    cached =
        CacheFollows-changed span t.changed_at t.clock now (fetch_settings t.state.row) _
          t.state.cache h f.cached;
    in_flight =
        FetchFollows-changed t.changed_at t.read_at now (fetch_settings t.state.row) _
          t.state.inflight (omega (arith, f.read_before)) f.in_flight;
    written_before = (omega arith, older);
    changed_before = omega arith;
    read_before = omega (arith, f.read_before);
  }

  stores-Follows :
      (written_at : ℕ) (settings : PlatformSettings)
      → Memᴰ (written_at, settings) t.written
      → now ≤ written_at + span
      → Follows span (record t { state = store_settings now settings t.state; clock = now })
  unfolding store_settings
  stores-Follows written_at settings is_one short =
      let before =
        All-mem (λ (w : ℕ × PlatformSettings). w.0 ≤ t.changed_at) t.written f.written_before
          is_one in
      record {
        cached = (inr (omega arith), omega arith);
        in_flight = f.in_flight;
        written_before = f.written_before;
        changed_before = omega (arith, f.changed_before);
        read_before = omega (arith, f.read_before);
      }

  elsewhere-Follows :
      (patch : SettingsPatch)
      → Follows span
          (record t { state = updated_elsewhere patch t.state; clock = now; changed_at = now })
  unfolding updated_elsewhere
  elsewhere-Follows patch = record {
    cached =
        CacheFollows-changed span t.changed_at t.clock now (fetch_settings t.state.row) _
          t.state.cache h f.cached;
    in_flight =
        FetchFollows-changed t.changed_at t.read_at now (fetch_settings t.state.row) _
          t.state.inflight (omega (arith, f.read_before)) f.in_flight;
    written_before = older;
    changed_before = omega arith;
    read_before = omega (arith, f.read_before);
  }

  is_told-Follows :
      Follows span (record t { state = invalidate_settings_cache t.state; clock = now })
  unfolding invalidate_settings_cache
  is_told-Follows = record {
    cached = tt;
    in_flight = f.in_flight;
    written_before = f.written_before;
    changed_before = omega (arith, f.changed_before);
    read_before = omega (arith, f.read_before);
  }

Happens-Follows : (span : ℕ) {t u : Timeline} → Happens span t u → Follows span t → Follows span u
unfolding get_platform_settings fetch_done
Happens-Follows span (gets t now h) f =
    gets-Follows span t now h f (fresh_settings now t.state.cache)
Happens-Follows span (reads t now h waits) f = reads-Follows span t now h f waits
Happens-Follows span (is_done t now h short) f =
    is_done-Follows span t now h f short t.state.inflight f.in_flight
Happens-Follows span (fails t now h) f = fails-Follows span t now h f
Happens-Follows span (updates t now patch h) f = updates-Follows span t now h f patch
Happens-Follows span (stores t now at settings h is_one short) f =
    stores-Follows span t now h f at settings is_one short
Happens-Follows span (updates_elsewhere t now patch h) f = elsewhere-Follows span t now h f patch
Happens-Follows span (is_told t now h) f = is_told-Follows span t now h f

Runs-Follows :
    (span : ℕ) (row : Option PlatformSettings) {t : Timeline}
    → Runs span (started row) t
    → Follows span t
Runs-Follows span row here = Follows-start span row
Runs-Follows span row (more r s) = Happens-Follows span s (Runs-Follows span row r)

hit-current :
    (span now changed_at clock : ℕ) (stored : PlatformSettings) (c : Option CachedSettings)
    {settings : PlatformSettings}
    → CacheFollows span changed_at clock stored c
    → changed_at + span + settings_ttl_ms ≤ now
    → fresh_settings now c ≡ some settings
    → settings ≡ stored
hit-current span now changed_at clock stored none f long hit = cc
hit-current span now changed_at clock stored (some c) f long hit = ground arith

served-hit :
    (now : ℕ) (s : SettingsState) (hit : Option PlatformSettings) {settings : PlatformSettings}
    → (get_with hit s).0 ≡ served settings
    → hit ≡ some settings
served-hit now s none e = ground arith
served-hit now s (some settings) e = ground arith

-- In a process whose fetches are each done at most a span after they read the row, and whose updates
-- each write the cache at most a span after their upsert, a call that is served from the cache, the
-- span and ten seconds after the last change of the row or later, is served the stored settings, or
-- the defaults where there is no row: whatever updates, here or in other processes, calls, failures
-- and messages came before, also between an upsert and its write of the cache, and also where no
-- message arrives.
pub served_current :
    (span : ℕ) (row : Option PlatformSettings) {t : Timeline} (now : ℕ)
    {settings : PlatformSettings}
    → Runs span (started row) t
    → t.changed_at + span + settings_ttl_ms ≤ now
    → (get_platform_settings now t.state).0 ≡ served settings
    → settings ≡ fetch_settings t.state.row
unfolding get_platform_settings
served_current span row {t} now r long e =
    hit-current span now t.changed_at t.clock (fetch_settings t.state.row) t.state.cache
      (Runs-Follows span row r).cached long
      (served-hit now t.state (fresh_settings now t.state.cache) e)

-- An update that comes while a fetch has read the row is lost to the cache of its own process: when
-- the fetch is done, calls are served what it had read, until ten seconds after.
pub update_overwritten :
    (s : SettingsState) (patch : SettingsPatch) (now later at : ℕ) (old : PlatformSettings)
    → s.inflight ≡ fetched old
    → at < later + settings_ttl_ms
    → (get_platform_settings at (fetch_done later (update_platform_settings now patch s).1)).0
      ≡ served old
unfolding get_platform_settings fetch_done update_platform_settings
update_overwritten s patch now later at old read soon = rw read (ground arith)
