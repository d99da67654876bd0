-- ===== src/Settings.antt =====
-- src/services/settings.service.ts: the settings row and its cache in one process. A fetch is asked,
-- reads the row, and is done, at times of its own; calls that come meanwhile wait for it.
pub mod Timeline
pub mod Staleness
use bidvault_backend.Common.{
  ℕ, [], ◌∷◌, none, Bool, some, or_else, Option, true, String, false, if◌then◌else◌, ltb, ◌-◌,
}

-- TTL_MS
abbrev pub settings_ttl_ms : ℕ
settings_ttl_ms = 10000

pub record PlatformSettings : Type 0 where
  pub email_notifs_enabled : Bool
  pub maintenance_mode : Bool
  pub max_bid_increment : ℕ
  pub min_listing_price : ℕ
  pub review_timeout_hours : ℕ
  pub payment_deadline_hours : ℕ
  pub review_edit_window_hours : ℕ
  pub support_email : String

-- DEFAULTS, which are also those of the columns
abbrev pub default_settings : PlatformSettings
default_settings = record {
  email_notifs_enabled = true;
  maintenance_mode = false;
  max_bid_increment = 500000;
  min_listing_price = 1000;
  review_timeout_hours = 48;
  payment_deadline_hours = 48;
  review_edit_window_hours = 72;
  support_email = "support@bidvault.tech";
}

-- `Partial<PlatformSettingsData>`
pub record SettingsPatch : Type 0 where
  pub email_notifs_enabled : Option Bool
  pub maintenance_mode : Option Bool
  pub max_bid_increment : Option ℕ
  pub min_listing_price : Option ℕ
  pub review_timeout_hours : Option ℕ
  pub payment_deadline_hours : Option ℕ
  pub review_edit_window_hours : Option ℕ
  pub support_email : Option String

unfoldable pub patched : SettingsPatch → PlatformSettings → PlatformSettings
patched patch row = record {
  email_notifs_enabled = or_else patch.email_notifs_enabled row.email_notifs_enabled;
  maintenance_mode = or_else patch.maintenance_mode row.maintenance_mode;
  max_bid_increment = or_else patch.max_bid_increment row.max_bid_increment;
  min_listing_price = or_else patch.min_listing_price row.min_listing_price;
  review_timeout_hours = or_else patch.review_timeout_hours row.review_timeout_hours;
  payment_deadline_hours = or_else patch.payment_deadline_hours row.payment_deadline_hours;
  review_edit_window_hours = or_else patch.review_edit_window_hours row.review_edit_window_hours;
  support_email = or_else patch.support_email row.support_email;
}

pub record CachedSettings : Type 0 where
  pub settings : PlatformSettings
  pub at : ℕ

-- `inflight`: no fetch, one whose query has not been answered yet, or one that has read the row.
pub data Fetch : Type 0 where
  idle asked : Fetch
  fetched : (settings : PlatformSettings) → Fetch

-- The row is in the database; the cache and the fetch are those of the process.
pub record SettingsState : Type 0 where
  pub row : Option PlatformSettings
  pub cache : Option CachedSettings
  pub inflight : Fetch

unfoldable pub fetch_settings : Option PlatformSettings → PlatformSettings
fetch_settings row = or_else row default_settings

pub data SettingsAnswer : Type 0 where
  served : (settings : PlatformSettings) → SettingsAnswer
  waiting : SettingsAnswer

abbrev pub fresh_settings : ℕ → Option CachedSettings → Option PlatformSettings
fresh_settings now none = none
fresh_settings now (some c) = if ltb (now - c.at) settings_ttl_ms then some c.settings else none

abbrev pub ask : Fetch → Fetch
ask idle = asked
ask asked = asked
ask (fetched settings) = fetched settings

abbrev pub get_with : Option PlatformSettings → SettingsState → SettingsAnswer × SettingsState
get_with (some settings) s = (served settings, s)
get_with none s = (waiting, record s { inflight = ask s.inflight })

unfoldable pub get_platform_settings : ℕ → SettingsState → SettingsAnswer × SettingsState
get_platform_settings now s = get_with (fresh_settings now s.cache) s

abbrev pub read_with : Fetch → SettingsState → SettingsState
read_with idle s = s
read_with asked s = record s { inflight = fetched (fetch_settings s.row) }
read_with (fetched settings) s = s

-- The query of the fetch reads the row.
unfoldable pub fetch_reads : SettingsState → SettingsState
fetch_reads s = read_with s.inflight s

abbrev pub done_with : ℕ → Fetch → SettingsState → SettingsState
done_with now idle s = s
done_with now asked s = s
done_with now (fetched settings) s = record s {
  cache = some (record { settings = settings; at = now });
  inflight = idle;
}

-- `.then` and `.finally` of the fetch: every call that waits is served what it read.
unfoldable pub fetch_done : ℕ → SettingsState → SettingsState
fetch_done now s = done_with now s.inflight s

unfoldable pub fetch_fails : SettingsState → SettingsState
fetch_fails s = record s { inflight = idle }

-- The upsert of an update, which gives the row.
unfoldable pub upsert_settings : SettingsPatch → SettingsState → PlatformSettings × SettingsState
upsert_settings patch s =
    let settings = patched patch (or_else s.row default_settings) in
    (settings, record s { row = some settings })

-- `cache = { data, at: Date.now() }`, when the upsert has answered.
unfoldable pub store_settings : ℕ → PlatformSettings → SettingsState → SettingsState
store_settings now settings s = record s { cache = some (record { settings = settings; at = now }) }

-- An update between whose upsert and whose write of the cache nothing comes.
unfoldable pub update_platform_settings :
    ℕ → SettingsPatch → SettingsState → PlatformSettings × SettingsState
unfolding upsert_settings store_settings
update_platform_settings now patch s =
    let (settings, s') = upsert_settings patch s in (settings, store_settings now settings s')

-- An update in another process: here only its row is seen, and later its message.
unfoldable pub updated_elsewhere : SettingsPatch → SettingsState → SettingsState
unfolding upsert_settings
updated_elsewhere patch s = (upsert_settings patch s).1

unfoldable pub invalidate_settings_cache : SettingsState → SettingsState
invalidate_settings_cache s = record s { cache = none }
