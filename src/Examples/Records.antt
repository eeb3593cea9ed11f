-- ===== src/Examples/Records.antt =====
-- A record of internal/plugins/registry/record.go.
use llm_cache.Common.{[], none, false, Str, codes}
use llm_cache.Plugins.{PluginType, State}
use llm_cache.Plugins.Registry.{Record, Confirmations}

abbrev pub p : Str
p = codes "p"

abbrev pub no_confirmations : Confirmations
no_confirmations = record {
  embedder_compat = [];
  threshold = none;
  persistence_compat = [];
  vector_compat = [];
}

abbrev pub plain : Record Unit
plain = record {
  id = p;
  kind = PluginType.queue;
  state = State.draft;
  state_detail = [];
  active = false;
  previous_active_id = [];
  previous_threshold = none;
  confirmations = no_confirmations;
  rev = 0;
  created_at = 1;
  updated_at = 1;
  rest = tt;
}
