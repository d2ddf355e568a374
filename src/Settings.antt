-- ===== src/Settings.antt =====
-- The proxy part of the settings and the mutations of its rules.
pub mod Mutation
-- The proxy part of the application's settings, src/settings.rs.
use fluxcope.Common.{ℕ, Bool, true, Option, none, List, []}
use fluxcope.Common.Text.{Text}

pub record ProxyMapRemoteRule : Type 0 where
  pub from : Text
  pub to : Text
  pub enable : Bool

pub record ProxyMapLocalRule : Type 0 where
  pub from : Text
  pub to : Text
  pub enable : Bool

pub record ProxyMapRemoteSettings : Type 0 where
  pub enable : Bool
  pub rules : List ProxyMapRemoteRule

pub record ProxyMapLocalSettings : Type 0 where
  pub enable : Bool
  pub rules : List ProxyMapLocalRule

pub record ProxyPresetSettings : Type 0 where
  pub name : Text
  pub map_remote : ProxyMapRemoteSettings
  pub map_local : ProxyMapLocalSettings

pub record ProxySettings : Type 0 where
  pub enable : Bool
  pub active_preset : Option Text
  pub presets : List ProxyPresetSettings

abbrev pub default_remote : ProxyMapRemoteSettings
default_remote = record { enable = true; rules = [] }

abbrev pub default_local : ProxyMapLocalSettings
default_local = record { enable = true; rules = [] }

abbrev pub default_preset : ProxyPresetSettings
default_preset = record { name = []; map_remote = default_remote; map_local = default_local }

abbrev pub default_proxy : ProxySettings
default_proxy = record { enable = true; active_preset = none; presets = [] }
