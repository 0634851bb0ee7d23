-- ===== src/Domain/MetadataCache/Age.antt =====
-- internal/domain/metadata_cache.go: how long what is stored can be read.
use mcpv.Base.{
  ℕ, ◌-◌, ◌≡◌, refl, ◌∙◌, inl, inr, String, Bool, true, false, none, some, List, if◌then◌else◌,
  ◌==◌, ltb, eq_iff, lookup, insert, delete, lookup-insert, lookup-delete, Bool-cases, arith, ◌&&◌,
  not,
}
use mcpv.Domain.MetadataCache.{
  MetadataCache, set_tools, set_prompts, clear_spec, is_expired, read_spec, get_tools,
}

lookup-insert_same {ℓ} :
    {V : Type ℓ} (key : String) (v : V) (m : List (String × V))
    → lookup key (insert key v m) ≡ some v
lookup-insert_same key v m = lookup-insert key key v m ∙ ground (arith, eq_iff key key)

lookup-delete_same {ℓ} :
    {V : Type ℓ} (key : String) (m : List (String × V)) → lookup key (delete key m) ≡ none
lookup-delete_same key m = lookup-delete key key m ∙ ground (arith, eq_iff key key)

-- Whether what was last stored at `at` is over at `now`.
abbrev pub is_over : ℕ → ℕ → ℕ → Bool
is_over ttl at now = not (ttl == 0) && ltb ttl (now - at)

module _ {Tool Resource Prompt : Type 0} where
  is_expired-at :
      (key : String) (at now : ℕ) (c : MetadataCache Tool Resource Prompt)
      → lookup key c.cached_at ≡ some at
      → is_expired key now c ≡ is_over c.ttl at now
  unfolding is_expired
  is_expired-at key at now c stored = rw stored (ground arith)

  -- Nothing of the server is left.
  abbrev pub Forgotten : String → MetadataCache Tool Resource Prompt → Type 0
  Forgotten key c =
      (lookup key c.tools ≡ none)
      × (lookup key c.resources ≡ none)
      × (lookup key c.prompts ≡ none)
      × (lookup key c.cached_at ≡ none)

  clear_spec-Forgotten :
      (key : String) (c : MetadataCache Tool Resource Prompt) → Forgotten key (clear_spec key c)
  unfolding clear_spec
  clear_spec-Forgotten key c = (
    lookup-delete_same key c.tools,
    lookup-delete_same key c.resources,
    lookup-delete_same key c.prompts,
    lookup-delete_same key c.cached_at,
  )

  -- The tools of a server, last stored for at `at`.
  get_tools-at :
      (key : String) (at later : ℕ) (tools : List Tool) (c : MetadataCache Tool Resource Prompt)
      → lookup key c.cached_at ≡ some at
      → lookup key c.tools ≡ some tools
      → let (found, d) = get_tools key later c in
        (found ≡ (if is_over c.ttl at later then none else some tools))
        × (is_over c.ttl at later ≡ true → Forgotten key d)
  unfolding get_tools read_spec
  get_tools-at key at later tools c stored written =
      rw (is_expired-at key at later c stored) (elim (Bool-cases (is_over c.ttl at later)) [
        | inl t ↦ simp t (refl, λ _. clear_spec-Forgotten key c)
        | inr t ↦ simp t (written, λ bad. absurd (cc))
      ])

  -- What `SetTools` stores `GetTools` gives back until the lifetime is over; then it gives
  -- nothing, and the tools, resources, prompts and time of the server are gone from the cache.
  pub set_tools-get_tools :
      (at later : ℕ) (key : String) (tools : List Tool) (etag : String)
      (c : MetadataCache Tool Resource Prompt)
      → let (found, d) = get_tools key later (set_tools at key tools etag c) in
        (found ≡ (if is_over c.ttl at later then none else some tools))
        × (is_over c.ttl at later ≡ true → Forgotten key d)
  unfolding set_tools
  set_tools-get_tools at later key tools etag c =
      get_tools-at key at later tools (set_tools at key tools etag c)
        (lookup-insert_same key at c.cached_at) (lookup-insert_same key tools c.tools)

  -- The lifetime is not that of the tools: tools that are older than it are still given back when prompts
  -- were stored for their server since and these are not older.
  pub stale_tools :
      (at mid later : ℕ) (key : String) (tools : List Tool) (prompts : List Prompt)
      (etag other : String) (c : MetadataCache Tool Resource Prompt)
      → is_over c.ttl at later ≡ true
      → is_over c.ttl mid later ≡ false
      → (get_tools key later (set_prompts mid key prompts other (set_tools at key tools etag c))).0
        ≡ some tools
  unfolding set_tools set_prompts
  stale_tools at mid later key tools prompts etag other c old recent =
      (get_tools-at key mid later tools
        (set_prompts mid key prompts other (set_tools at key tools etag c))
        (lookup-insert_same key mid (insert key at c.cached_at))
        (lookup-insert_same key tools c.tools)).0
      ∙ rw recent refl
