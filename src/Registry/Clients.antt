-- ===== src/Registry/Clients.antt =====
-- internal/app/controlplane/registry/client_registry.go with its helpers, activation and catalog
-- updates, and internal/app/bootstrap/activation/activation.go. A function is what runs under one
-- lock, or between two. The tags and the server name arrive as the resolver normalises them. Calls
-- of the startup orchestrator and the scheduler are listed, and what they return is an argument.
use mcpv.Base.{
  ℕ, suc, ◌-◌, String, Bool, false, not, ◌&&◌, ◌||◌, Option, none, some, List, [], ◌∷◌,
  if◌then◌else◌, ◌==◌, ltb, leb, str_eq, length, has, keep_if, add_once, lookup, insert, delete,
  keys, Result, ok, err,
}
use mcpv.Registry.Visibility.{Specs, visible_spec_keys, tags_equal}

pub record ClientState : Type 0 where
  pub pid : ℕ
  pub tags : List String
  pub server : String
  pub spec_keys : List String
  pub last_heartbeat : ℕ

pub record ClientRegistry : Type 0 where
  pub active_clients : List (String × ClientState)
  pub spec_counts : List (String × ℕ)

pub data RegistryError : Type 0 where
  client_required pid_required exclusive_selector unknown_spec_key no_scheduler : RegistryError
  client_not_registered : RegistryError
  call_failed : String → RegistryError

abbrev pub internal_ui_client_name : String
internal_ui_client_name = "mcpv-ui-internal"

unfoldable pub is_internal : String → Bool
is_internal client = str_eq client internal_ui_client_name

unfoldable pub new_client_registry : ClientRegistry
new_client_registry = record { active_clients = []; spec_counts = [] }

-- `counts[key]`, 0 where the map has no entry.
abbrev or_zero : Option ℕ → ℕ
or_zero none = 0
or_zero (some n) = n

unfoldable pub count_of : String → List (String × ℕ) → ℕ
count_of key counts = or_zero (lookup key counts)

unfoldable pub raise : String → List (String × ℕ) → List (String × ℕ)
unfolding count_of
raise key counts = insert key (suc (count_of key counts)) counts

unfoldable pub lower : String → List (String × ℕ) → List (String × ℕ)
unfolding count_of
lower key counts =
    if leb (count_of key counts) 1
    then delete key counts
    else insert key (count_of key counts - 1) counts

unfoldable pub raise_all : List String → List (String × ℕ) → List (String × ℕ)
unfolding raise
raise_all [] counts = counts
raise_all (key ∷ add) counts = raise_all add (raise key counts)

unfoldable pub lower_all : List String → List (String × ℕ) → List (String × ℕ)
unfolding lower
lower_all [] counts = counts
lower_all (key ∷ remove) counts = lower_all remove (lower key counts)

unfoldable pub apply_spec_delta : List (String × ℕ) → List String → List String → List (String × ℕ)
unfolding raise_all lower_all
apply_spec_delta counts add remove = lower_all remove (raise_all add counts)

-- The set of the texts of a list, each once.
unfoldable pub set_of : List String → List String → List String
set_of [] set = set
set_of (x ∷ xs) set = set_of xs (add_once x set)

abbrev without : List String → List String → List String
without keys set = keep_if (λ k. not (has k set)) keys

unfoldable pub diff_keys : List String → List String → List String × List String
unfolding set_of
diff_keys next prev =
    let next_set = set_of next [] in
    let prev_set = set_of prev [] in (without next_set prev_set, without prev_set next_set)

-- `filterOverlap`: the first loop removes from the set what it skips.
unfoldable pub drop_text : String → List String → List String
drop_text x set = keep_if (λ y. not (str_eq y x)) set

unfoldable pub skip_common : List String → List String → List String × List String
unfolding drop_text
skip_common [] set = ([], set)
skip_common (key ∷ activate) set =
    let (kept, left) = skip_common activate (drop_text key set) in
    let (kept', left') = skip_common activate set in
    if has key set then (kept, left) else (key ∷ kept', left')

unfoldable pub filter_overlap : List String → List String → List String × List String
unfolding skip_common set_of
filter_overlap activate deactivate =
    let (kept, left) = skip_common activate (set_of deactivate []) in
    if length activate == 0 || length deactivate == 0
    then (activate, deactivate)
    else (kept, keep_if (λ k. has k left) deactivate)

-- What `RegisterClient` leaves under its lock: the registry, the keys to activate and those to
-- deactivate, and whether the selector has changed. `refreshed` is the early return.
pub data Registered : Type 0 where
  refreshed : Registered
  changed : List String → List String → Bool → Registered

abbrev pub fresh_state : ℕ → ℕ → List String → String → List String → ClientState
fresh_state now pid tags server visible = record {
  pid = pid;
  tags = tags;
  server = server;
  spec_keys = visible;
  last_heartbeat = now;
}

abbrev counted : Bool → List (String × ℕ) → List String → List String → List (String × ℕ)
counted internal counts add remove = if internal then counts else apply_spec_delta counts add remove

unfoldable pub register_found :
    ℕ
    → String
    → ℕ
    → List String
    → String
    → List String
    → Option ClientState
    → ClientRegistry
    → Registered × ClientRegistry
unfolding apply_spec_delta diff_keys is_internal tags_equal
register_found now client pid tags server visible none r = (
  changed (if is_internal client then [] else visible) [] false,
  record {
    active_clients = insert client (fresh_state now pid tags server visible) r.active_clients;
    spec_counts = counted (is_internal client) r.spec_counts visible [];
  },
)
register_found now client pid tags server visible (some old) r =
    let selector_changed = not (tags_equal old.tags tags) || not (str_eq old.server server) in
    let (add, remove) = diff_keys visible old.spec_keys in
    if old.pid == pid && not selector_changed
    then (
      refreshed,
      record r {
        active_clients = insert client (record old { last_heartbeat = now }) r.active_clients;
      },
    )
    else (
      changed (if is_internal client then [] else add) (if is_internal client then [] else remove)
          selector_changed,
      record {
        active_clients = insert client (fresh_state now pid tags server visible) r.active_clients;
        spec_counts = counted (is_internal client) r.spec_counts add remove;
      },
    )

-- The checks of `RegisterClient` and its section under the lock.
unfoldable pub register :
    ℕ
    → String
    → ℕ
    → List String
    → String
    → List String
    → ClientRegistry
    → Result RegistryError Registered × ClientRegistry
unfolding register_found
register now client pid tags server visible r =
    let (done, r') =
      register_found now client pid tags server visible (lookup client r.active_clients) r in
    if str_eq client ""
    then (err client_required, r)
    else if pid == 0
    then (err pid_required, r)
    else if not (str_eq server "") && not (length tags == 0)
    then (err exclusive_selector, r)
    else (ok done, r')

-- The section of `UnregisterClient` under the lock, and the keys to deactivate.
unfoldable pub unregister_found :
    String → Option ClientState → ClientRegistry → List String × ClientRegistry
unfolding apply_spec_delta is_internal
unregister_found client none r = ([], r)
unregister_found client (some old) r = (
  (if is_internal client then [] else old.spec_keys),
  record {
    active_clients = delete client r.active_clients;
    spec_counts = counted (is_internal client) r.spec_counts [] old.spec_keys;
  },
)

unfoldable pub unregister :
    String → ClientRegistry → Result RegistryError (List String) × ClientRegistry
unfolding unregister_found
unregister client r =
    let (stops, r') = unregister_found client (lookup client r.active_clients) r in
    if str_eq client "" then (err client_required, r) else (ok stops, r')

-- The loop of `ApplyCatalogUpdate` over the clients: the new states, the new counts, and the clients
-- whose keys have changed.
unfoldable pub reassign :
    Specs
    → List (String × String)
    → List (String × ClientState)
    → List (String × ClientState) × List (String × ℕ) × List String
unfolding visible_spec_keys tags_equal raise_all is_internal
reassign specs server_keys [] = ([], [], [])
reassign specs server_keys ((client, old) ∷ rest) =
    let (states, counts, altered) = reassign specs server_keys rest in
    let next = (visible_spec_keys specs server_keys old.tags old.server).0 in
    let same = tags_equal old.spec_keys next in
    (
      (client, (if same then old else record old { spec_keys = next })) ∷ states,
      (if is_internal client then counts else raise_all next counts),
      (if same then altered else client ∷ altered),
    )

unfoldable pub diff_counts : List (String × ℕ) → List (String × ℕ) → List String × List String
unfolding count_of
diff_counts old_counts new_counts = (
  keep_if (λ k. ltb 0 (count_of k new_counts) && count_of k old_counts == 0) (keys new_counts),
  keep_if (λ k. ltb 0 (count_of k old_counts) && count_of k new_counts == 0) (keys old_counts),
)

-- `ApplyCatalogUpdate` under its lock: the keys to start and to stop, and the altered clients.
unfoldable pub apply_catalog_update :
    Specs
    → List (String × String)
    → ClientRegistry
    → (List String × List String) × List String × ClientRegistry
unfolding reassign diff_counts filter_overlap
apply_catalog_update specs server_keys r =
    let (states, counts, altered) = reassign specs server_keys r.active_clients in
    let (starts, stops) = diff_counts r.spec_counts counts in
    (filter_overlap starts stops, altered, record { active_clients = states; spec_counts = counts })

-- `loadClientState`: a lookup is a sign of life.
unfoldable pub load_found :
    ℕ → String → Option ClientState → ClientRegistry → Option ClientState × ClientRegistry
load_found now client none r = (none, r)
load_found now client (some old) r =
    let state = record old { last_heartbeat = now } in
    (some state, record r { active_clients = insert client state r.active_clients })

unfoldable pub load_client_state : ℕ → String → ClientRegistry → Option ClientState × ClientRegistry
unfolding load_found
load_client_state now client r =
    if str_eq client "" then (none, r) else load_found now client (lookup client r.active_clients) r
