-- ===== src/Examples/Metadata.antt =====
-- The laws of internal/domain/metadata_cache.go with a lifetime of ten.
use mcpv.Base.{◌≡◌, refl, true, none, some, [], ◌∷◌, String, if◌then◌else◌}
use mcpv.Domain.MetadataCache.{MetadataCache, set_tools, set_prompts, get_tools}
use mcpv.Domain.MetadataCache.Age.{is_over, Forgotten, set_tools-get_tools, stale_tools}

abbrev blank : MetadataCache String String String
blank = record {
  ttl = 10;
  tools = [];
  resources = [];
  prompts = [];
  tool_etags = [];
  resource_etags = [];
  prompt_etags = [];
  cached_at = [];
}

set_tools-get_tools_example :
    ((get_tools "k" 20 (set_tools 1 "k" ("add" ∷ []) "e" blank)).0
      ≡ (if is_over 10 1 20 then none else some ("add" ∷ [])))
    × (is_over 10 1 20 ≡ true
        → Forgotten "k" (get_tools "k" 20 (set_tools 1 "k" ("add" ∷ []) "e" blank)).1)
set_tools-get_tools_example = set_tools-get_tools 1 20 "k" ("add" ∷ []) "e" blank

stale_tools_example :
    (get_tools "k" 20 (set_prompts 15 "k" [] "p" (set_tools 1 "k" ("add" ∷ []) "e" blank))).0
    ≡ some ("add" ∷ [])
stale_tools_example = stale_tools 1 15 20 "k" ("add" ∷ []) [] "e" "p" blank refl refl
