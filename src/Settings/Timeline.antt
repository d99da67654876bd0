-- ===== src/Settings/Timeline.antt =====
-- What happens to one process's settings over time.
use bidvault_backend.Settings.{
  idle, Fetch, SettingsState, get_platform_settings, PlatformSettings, fetch_reads, fetch_done,
  fetch_fails, SettingsPatch, updated_elsewhere, invalidate_settings_cache, upsert_settings,
  store_settings,
}
use bidvault_backend.Common.{ℕ, Option, ◌≤◌, none, ◌≡◌, ◌+◌, List, [], ◌∷◌, Memᴰ}

-- A process with its clock, the time of the last change of the row, that of the last fetch's reading of
-- it, and the updates of the process, each with the time of its upsert and the row that it gave.
pub record Timeline : Type 0 where
  pub state : SettingsState
  pub clock : ℕ
  pub changed_at : ℕ
  pub read_at : ℕ
  pub written : List (ℕ × PlatformSettings)

-- What can happen, at a time that does not go back. A fetch is done at most `span` after it read, and an
-- update stores what its upsert gave at most `span` after the upsert; anything may come in between.
pub data Happens (span : ℕ) : Timeline → Timeline → Type 0 where
  gets :
      (t : Timeline) (now : ℕ)
      → t.clock ≤ now
      → Happens span t (record t { state = (get_platform_settings now t.state).1; clock = now })
  reads :
      (t : Timeline) (now : ℕ)
      → t.clock ≤ now
      → t.state.inflight ≡ Fetch.asked
      → Happens span t (record t { state = fetch_reads t.state; clock = now; read_at = now })
  is_done :
      (t : Timeline) (now : ℕ)
      → t.clock ≤ now
      → now ≤ t.read_at + span
      → Happens span t (record t { state = fetch_done now t.state; clock = now })
  fails :
      (t : Timeline) (now : ℕ)
      → t.clock ≤ now
      → Happens span t (record t { state = fetch_fails t.state; clock = now })
  updates :
      (t : Timeline) (now : ℕ) (patch : SettingsPatch)
      → t.clock ≤ now
      → Happens span t (record t {
        state = (upsert_settings patch t.state).1;
        clock = now;
        changed_at = now;
        written = (now, (upsert_settings patch t.state).0) ∷ t.written;
      })
  stores :
      (t : Timeline) (now written_at : ℕ) (settings : PlatformSettings)
      → t.clock ≤ now
      → Memᴰ (written_at, settings) t.written
      → now ≤ written_at + span
      → Happens span t (record t { state = store_settings now settings t.state; clock = now })
  updates_elsewhere :
      (t : Timeline) (now : ℕ) (patch : SettingsPatch)
      → t.clock ≤ now
      → Happens span t
          (record t { state = updated_elsewhere patch t.state; clock = now; changed_at = now })
  is_told :
      (t : Timeline) (now : ℕ)
      → t.clock ≤ now
      → Happens span t (record t { state = invalidate_settings_cache t.state; clock = now })

pub data Runs (span : ℕ) (start : Timeline) : Timeline → Type 0 where
  here : Runs span start start
  more : {t u : Timeline} → Runs span start t → Happens span t u → Runs span start u

-- A process that has just started.
abbrev pub started : Option PlatformSettings → Timeline
started row = record {
  state = record { row = row; cache = none; inflight = idle };
  clock = 0;
  changed_at = 0;
  read_at = 0;
  written = [];
}
