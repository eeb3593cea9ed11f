-- ===== src/Manifest.antt =====
-- internal/plugins/manifest/manifest.go: the plugin.yaml of a plugin, its defaults, and the one that
-- is made up for a hosted endpoint.
pub mod Document
pub mod Patterns
pub mod Paths
pub mod Quantities
pub mod Schema
pub mod Settings
pub mod Fields
pub mod Declarations
pub mod Validation
pub mod Parsing
use llm_cache.Common.{ℕ}
