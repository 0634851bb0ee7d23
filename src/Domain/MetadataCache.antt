-- ===== src/Domain/MetadataCache.antt =====
-- internal/domain/metadata_cache.go: what servers were found to offer, kept for a time. The definitions of
-- tools, resources and prompts are types of the reader's choice. A lifetime of 0 stands for one that is not
-- positive. Each method runs under the cache's lock; those that read may clear an expired server.
pub mod Age
use mcpv.Base.{
  ℕ, ◌+◌, ◌-◌, String, Bool, true, false, Option, none, some, List, [], ◌∷◌, ◌++◌, if◌then◌else◌,
  ◌==◌, ltb, length, is_some, lookup, insert, delete, keys, add_once,
}

pub record MetadataCache (Tool Resource Prompt : Type 0) : Type 0 where
  pub ttl : ℕ
  pub tools : List (String × List Tool)
  pub resources : List (String × List Resource)
  pub prompts : List (String × List Prompt)
  pub tool_etags : List (String × String)
  pub resource_etags : List (String × String)
  pub prompt_etags : List (String × String)
  pub cached_at : List (String × ℕ)

pub record MetadataCacheStats : Type 0 where
  pub server_count : ℕ
  pub tool_count : ℕ
  pub resource_count : ℕ
  pub prompt_count : ℕ

abbrev pub text_or_empty : Option String → String
text_or_empty none = ""
text_or_empty (some text) = text

-- `range` over a map of lists.
unfoldable pub all_of : {A : Type 0} → List (String × List A) → List A
all_of [] = []
all_of ((key, xs) ∷ m) = xs ++ all_of m

abbrev pub add_keys : List String → List String → List String
add_keys [] seen = seen
add_keys (k ∷ ks) seen = add_keys ks (add_once k seen)

abbrev pub too_old : ℕ → ℕ → Option ℕ → Bool
too_old ttl now none = true
too_old ttl now (some at) = ltb ttl (now - at)

module _ {Tool Resource Prompt : Type 0} where
  unfoldable pub set_tools :
      ℕ
      → String
      → List Tool
      → String
      → MetadataCache Tool Resource Prompt
      → MetadataCache Tool Resource Prompt
  set_tools now key tools etag c = record c {
    tools = insert key tools c.tools;
    tool_etags = insert key etag c.tool_etags;
    cached_at = insert key now c.cached_at;
  }

  unfoldable pub set_resources :
      ℕ
      → String
      → List Resource
      → String
      → MetadataCache Tool Resource Prompt
      → MetadataCache Tool Resource Prompt
  set_resources now key resources etag c = record c {
    resources = insert key resources c.resources;
    resource_etags = insert key etag c.resource_etags;
    cached_at = insert key now c.cached_at;
  }

  unfoldable pub set_prompts :
      ℕ
      → String
      → List Prompt
      → String
      → MetadataCache Tool Resource Prompt
      → MetadataCache Tool Resource Prompt
  set_prompts now key prompts etag c = record c {
    prompts = insert key prompts c.prompts;
    prompt_etags = insert key etag c.prompt_etags;
    cached_at = insert key now c.cached_at;
  }

  unfoldable pub clear_spec :
      String → MetadataCache Tool Resource Prompt → MetadataCache Tool Resource Prompt
  clear_spec key c = record c {
    tools = delete key c.tools;
    resources = delete key c.resources;
    prompts = delete key c.prompts;
    tool_etags = delete key c.tool_etags;
    resource_etags = delete key c.resource_etags;
    prompt_etags = delete key c.prompt_etags;
    cached_at = delete key c.cached_at;
  }

  unfoldable pub is_expired : String → ℕ → MetadataCache Tool Resource Prompt → Bool
  is_expired key now c = if c.ttl == 0 then false else too_old c.ttl now (lookup key c.cached_at)

  -- A read of a server, with the value for one that has expired, and is cleared.
  unfoldable pub read_spec :
      {A : Type 0}
      → String
      → ℕ
      → A
      → (MetadataCache Tool Resource Prompt → A)
      → MetadataCache Tool Resource Prompt
      → A × MetadataCache Tool Resource Prompt
  unfolding is_expired clear_spec
  read_spec key now missing read c =
      if is_expired key now c then (missing, clear_spec key c) else (read c, c)

  unfoldable pub get_tools :
      String
      → ℕ
      → MetadataCache Tool Resource Prompt
      → Option (List Tool) × MetadataCache Tool Resource Prompt
  unfolding read_spec
  get_tools key now c = read_spec key now none (λ d. lookup key d.tools) c

  unfoldable pub get_resources :
      String
      → ℕ
      → MetadataCache Tool Resource Prompt
      → Option (List Resource) × MetadataCache Tool Resource Prompt
  unfolding read_spec
  get_resources key now c = read_spec key now none (λ d. lookup key d.resources) c

  unfoldable pub get_prompts :
      String
      → ℕ
      → MetadataCache Tool Resource Prompt
      → Option (List Prompt) × MetadataCache Tool Resource Prompt
  unfolding read_spec
  get_prompts key now c = read_spec key now none (λ d. lookup key d.prompts) c

  unfoldable pub get_tool_etag :
      String → ℕ → MetadataCache Tool Resource Prompt → String × MetadataCache Tool Resource Prompt
  unfolding read_spec
  get_tool_etag key now c = read_spec key now "" (λ d. text_or_empty (lookup key d.tool_etags)) c

  unfoldable pub get_resource_etag :
      String → ℕ → MetadataCache Tool Resource Prompt → String × MetadataCache Tool Resource Prompt
  unfolding read_spec
  get_resource_etag key now c =
      read_spec key now "" (λ d. text_or_empty (lookup key d.resource_etags)) c

  unfoldable pub get_prompt_etag :
      String → ℕ → MetadataCache Tool Resource Prompt → String × MetadataCache Tool Resource Prompt
  unfolding read_spec
  get_prompt_etag key now c =
      read_spec key now "" (λ d. text_or_empty (lookup key d.prompt_etags)) c

  unfoldable pub get_cached_at :
      String
      → ℕ
      → MetadataCache Tool Resource Prompt
      → Option ℕ × MetadataCache Tool Resource Prompt
  unfolding read_spec
  get_cached_at key now c = read_spec key now none (λ d. lookup key d.cached_at) c

  unfoldable pub has_tools :
      String → ℕ → MetadataCache Tool Resource Prompt → Bool × MetadataCache Tool Resource Prompt
  unfolding read_spec
  has_tools key now c = read_spec key now false (λ d. is_some (lookup key d.tools)) c

  unfoldable pub has_resources :
      String → ℕ → MetadataCache Tool Resource Prompt → Bool × MetadataCache Tool Resource Prompt
  unfolding read_spec
  has_resources key now c = read_spec key now false (λ d. is_some (lookup key d.resources)) c

  unfoldable pub has_prompts :
      String → ℕ → MetadataCache Tool Resource Prompt → Bool × MetadataCache Tool Resource Prompt
  unfolding read_spec
  has_prompts key now c = read_spec key now false (λ d. is_some (lookup key d.prompts)) c

  abbrev pub clear : MetadataCache Tool Resource Prompt → MetadataCache Tool Resource Prompt
  clear c = record {
    ttl = c.ttl;
    tools = [];
    resources = [];
    prompts = [];
    tool_etags = [];
    resource_etags = [];
    prompt_etags = [];
    cached_at = [];
  }

  -- The loop over the times of the cache as it was before the loop.
  unfoldable pub purge_entries :
      ℕ
      → List (String × ℕ)
      → MetadataCache Tool Resource Prompt
      → MetadataCache Tool Resource Prompt
  unfolding clear_spec
  purge_entries now [] c = c
  purge_entries now ((key, at) ∷ rest) c =
      let kept = purge_entries now rest c in
      if ltb c.ttl (now - at) then clear_spec key kept else kept

  unfoldable pub purge_expired_cache :
      ℕ → MetadataCache Tool Resource Prompt → MetadataCache Tool Resource Prompt
  unfolding purge_entries
  purge_expired_cache now c = if c.ttl == 0 then c else purge_entries now c.cached_at c

  abbrev pub get_all_tools :
      ℕ → MetadataCache Tool Resource Prompt → List Tool × MetadataCache Tool Resource Prompt
  get_all_tools now c = let d = purge_expired_cache now c in (all_of d.tools, d)

  abbrev pub get_all_resources :
      ℕ → MetadataCache Tool Resource Prompt → List Resource × MetadataCache Tool Resource Prompt
  get_all_resources now c = let d = purge_expired_cache now c in (all_of d.resources, d)

  abbrev pub get_all_prompts :
      ℕ → MetadataCache Tool Resource Prompt → List Prompt × MetadataCache Tool Resource Prompt
  get_all_prompts now c = let d = purge_expired_cache now c in (all_of d.prompts, d)

  abbrev pub cached_spec_keys :
      ℕ → MetadataCache Tool Resource Prompt → List String × MetadataCache Tool Resource Prompt
  cached_spec_keys now c =
      let d = purge_expired_cache now c in
      (add_keys (keys d.tools) (add_keys (keys d.resources) (add_keys (keys d.prompts) [])), d)

  abbrev pub cache_stats :
      ℕ
      → MetadataCache Tool Resource Prompt
      → MetadataCacheStats × MetadataCache Tool Resource Prompt
  cache_stats now c =
      let d = purge_expired_cache now c in
      (
        record {
          server_count = length d.cached_at;
          tool_count = length (all_of d.tools);
          resource_count = length (all_of d.resources);
          prompt_count = length (all_of d.prompts);
        },
        d,
      )
