-- ===== src/Scenarios/Figures.antt =====
-- The settings of a process over time, and an analytics page, on concrete data.
use bidvault_backend.Settings.{
  idle, SettingsPatch, get_platform_settings, SettingsState, fetch_done, fetched, fetch_reads,
  default_settings, update_platform_settings, fetch_settings, served, PlatformSettings,
  upsert_settings, store_settings, patched,
}
use bidvault_backend.Settings.Timeline.{
  Timeline, Runs, started, gets, reads, is_done, here, more, updates, stores,
}
use bidvault_backend.Common.{
  ℕ, [], ◌∷◌, List, none, map, inl, some, ◌≡◌, ◌*◌, true, ◌/◌, arith, refl, ltb, ◌%◌, Memᴰ,
}
use bidvault_backend.Analytics.{
  Shares, category_breakdown, total_pct, AreShares, CategoryGroup, CategoryShare,
}
use bidvault_backend.Analytics.Apportioned.{breakdown_total}
use bidvault_backend.Settings.Staleness.{served_current, update_overwritten}

abbrev no_patch : SettingsPatch
no_patch = record {
  email_notifs_enabled = none;
  maintenance_mode = none;
  max_bid_increment = none;
  min_listing_price = none;
  review_timeout_hours = none;
  payment_deadline_hours = none;
  review_edit_window_hours = none;
  support_email = none;
}

-- Maintenance is turned on while a fetch has read that it is off.
abbrev turn_on : SettingsPatch
turn_on = record no_patch { maintenance_mode = some true }

abbrev reading : SettingsState
reading = record { row = none; cache = none; inflight = fetched default_settings }

-- Maintenance is turned on at 100 and stored at 110. A call at 10200 finds the cache too old and asks for
-- the row, which is read one millisecond later and stored one later.
abbrev turned_on : PlatformSettings
turned_on = record default_settings { maintenance_mode = true }

abbrev told_at : Timeline
told_at = record {
  state = record {
    row = some turned_on;
    cache = some (record { settings = turned_on; at = 10202 });
    inflight = idle;
  };
  clock = 10202;
  changed_at = 100;
  read_at = 10201;
  written = (100, turned_on) ∷ [];
}

told_run : Runs 10 (started none) told_at
unfolding get_platform_settings fetch_reads fetch_done fetch_settings upsert_settings store_settings
    patched
told_run =
    more
      (more
        (more
          (more (more here (updates _ 100 turn_on (omega arith)))
            (stores _ 110 100 turned_on (omega arith) (Memᴰ.head refl) (omega arith)))
          (gets _ 10200 (omega arith)))
        (reads _ 10201 (omega arith) refl))
      (is_done _ 10202 (omega arith) (omega arith))

served_current_example : turned_on ≡ fetch_settings (some turned_on)
unfolding get_platform_settings
served_current_example =
    served_current 10 none {t = told_at} 10210 {settings = turned_on} told_run (omega arith) refl

update_overwritten_example :
    (get_platform_settings 7000
      (fetch_done 6001 (update_platform_settings 6000 turn_on reading).1)).0
    ≡ served default_settings
update_overwritten_example =
    update_overwritten reading turn_on 6000 6001 7000 default_settings refl (omega arith)

abbrev exact_shares : Shares
exact_shares = record {
  floor = λ count total. count * 100 / total;
  is_below = λ total a b. ltb (a * 100 % total) (b * 100 % total);
}

exact_shares-AreShares : AreShares exact_shares
exact_shares-AreShares = record { floor_exact = λ count total h. inl (grind arith, grind arith) }

-- Three categories with a third of the listings each, and a half and two quarters.
abbrev thirds : List CategoryGroup
thirds =
    record { category = "Art"; count = 1 }
    ∷ record { category = "Books"; count = 1 }
    ∷ record { category = "Cars"; count = 1 }
    ∷ []

breakdown_total_example : total_pct (category_breakdown exact_shares thirds) ≡ 100
breakdown_total_example = breakdown_total exact_shares thirds exact_shares-AreShares (omega arith)

-- The point that is left over goes to the first of them.
thirds_shown :
    map (λ (r : ℕ × CategoryShare). (r.1).pct) (category_breakdown exact_shares thirds)
    ≡ 34 ∷ 33 ∷ 33 ∷ []
unfolding category_breakdown
thirds_shown = refl
