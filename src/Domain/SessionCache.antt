-- ===== src/Domain/SessionCache.antt =====
-- internal/domain/session_cache.go, with `SessionCacheEntry` of subagent.go. An element of the list
-- of recent use is a handle into `heap`; `lru` holds the handles, the most recent one first. The
-- map of a session's schemas is inlined in its entry. Times and the lifetime count nanoseconds;
-- what the map's loop does is the same in every order.
pub mod Linked
pub mod Bounded
pub mod Recall
use mcpv.Base.{
  ℕ, zero, suc, ◌+◌, ◌-◌, String, Bool, true, false, not, Option, none, some, List, [], ◌∷◌,
  if◌then◌else◌, ◌==◌, ltb, str_eq, length, keep_if, lookup, insert, delete,
}

pub record SessionCacheEntry : Type 0 where
  pub session_key : String
  pub sent_schemas : List (String × String)
  pub last_updated : ℕ
  pub request_count : ℕ

pub record LruEntry : Type 0 where
  pub session_key : String
  pub entry : SessionCacheEntry

-- `next` is the handle that `PushFront` gives to its new element.
pub record SessionCache : Type 0 where
  pub entries : List (String × ℕ)
  pub lru : List ℕ
  pub heap : ℕ → LruEntry
  pub next : ℕ
  pub ttl : ℕ
  pub max_size : ℕ

abbrev pub blank_entry : String → SessionCacheEntry
blank_entry key = record {
  session_key = key;
  sent_schemas = [];
  last_updated = 0;
  request_count = 0;
}

abbrev pub lru_entry : String → SessionCacheEntry → LruEntry
lru_entry key e = record { session_key = key; entry = e }

unfoldable pub new_session_cache : ℕ → ℕ → SessionCache
new_session_cache ttl max_size = record {
  entries = [];
  lru = [];
  heap = λ h. lru_entry "" (blank_entry "");
  next = 0;
  ttl = ttl;
  max_size = max_size;
}

-- `Remove`, `MoveToFront` and `Back` of `container/list`.
unfoldable pub unlink : ℕ → List ℕ → List ℕ
unlink h xs = keep_if (λ x. not (x == h)) xs

unfoldable pub move_to_front : ℕ → List ℕ → List ℕ
unfolding unlink
move_to_front h xs = h ∷ unlink h xs

unfoldable pub back : List ℕ → Option ℕ
back [] = none
back (x ∷ xs) = elim (back xs) [ none ↦ some x | some y ↦ some y ]

unfoldable pub is_stale : ℕ → ℕ → SessionCacheEntry → Bool
is_stale now ttl e = ltb ttl (now - e.last_updated)

unfoldable pub touch : ℕ → SessionCache → SessionCache
unfolding move_to_front
touch h c = record c { lru = move_to_front h c.lru }

-- `Get`.
unfoldable pub get_found : ℕ → Option ℕ → SessionCache → Option SessionCacheEntry × SessionCache
unfolding is_stale touch
get_found now none c = (none, c)
get_found now (some h) c =
    if is_stale now c.ttl (c.heap h).entry then (none, c) else (some (c.heap h).entry, touch h c)

unfoldable pub get : ℕ → String → SessionCache → Option SessionCacheEntry × SessionCache
unfolding get_found
get now key c = get_found now (lookup key c.entries) c

-- The merge of the sent schemas into those of the entry.
unfoldable pub merge : List (String × String) → List (String × String) → List (String × String)
merge [] known = known
merge ((name, hash) ∷ sent) known = merge sent (insert name hash known)

unfoldable pub refresh : ℕ → List (String × String) → SessionCacheEntry → SessionCacheEntry
unfolding merge
refresh now sent e = record e {
  sent_schemas = merge sent e.sent_schemas;
  last_updated = now;
  request_count = suc e.request_count;
}

abbrev pub set_entry : ℕ → LruEntry → SessionCache → SessionCache
set_entry h e c = record c { heap = λ k. if k == h then e else c.heap k }

-- The element of the session, in front: pushed for a new session.
unfoldable pub open_session : String → Option ℕ → SessionCache → ℕ × SessionCache
unfolding touch
open_session key (some h) c = (h, touch h c)
open_session key none c = (
  c.next,
  set_entry c.next (lru_entry key (blank_entry key))
      (record c { lru = c.next ∷ c.lru; entries = insert key c.next c.entries; next = suc c.next }),
)

-- The list and the map without an element and a key.
unfoldable pub forget : String → ℕ → SessionCache → SessionCache
unfolding unlink
forget key h c = record c { lru = unlink h c.lru; entries = delete key c.entries }

unfoldable pub evict_found : Option ℕ → SessionCache → SessionCache
unfolding forget
evict_found none c = c
evict_found (some h) c = forget (c.heap h).session_key h c

unfoldable pub evict_oldest : SessionCache → SessionCache
unfolding evict_found back
evict_oldest c = evict_found (back c.lru) c

-- The loop that enforces the size. Fuel of the number of entries is enough.
unfoldable pub shrink : ℕ → SessionCache → SessionCache
unfolding evict_oldest
shrink zero c = c
shrink (suc fuel) c =
    let smaller = shrink fuel (evict_oldest c) in
    if ltb c.max_size (length c.entries) then smaller else c

unfoldable pub write_sent : ℕ → List (String × String) → ℕ → SessionCache → SessionCache
unfolding refresh
write_sent now sent h c =
    set_entry h (lru_entry (c.heap h).session_key (refresh now sent (c.heap h).entry)) c

unfoldable pub update : ℕ → String → List (String × String) → SessionCache → SessionCache
unfolding open_session write_sent shrink
update now key sent c =
    let (h, opened) = open_session key (lookup key c.entries) c in
    shrink (length opened.entries) (write_sent now sent h opened)

unfoldable pub invalidate_found : String → Option ℕ → SessionCache → SessionCache
unfolding forget
invalidate_found key none c = c
invalidate_found key (some h) c = forget key h c

unfoldable pub invalidate : String → SessionCache → SessionCache
unfolding invalidate_found
invalidate key c = invalidate_found key (lookup key c.entries) c

-- `NeedsFull` at an entry that is not stale, by the hash that was sent last.
unfoldable pub compare_sent : ℕ → String → Option String → SessionCache → Bool × SessionCache
unfolding touch
compare_sent h current none c = (true, c)
compare_sent h current (some last) c = (not (str_eq last current), touch h c)

unfoldable pub needs_full_found :
    ℕ → String → String → Option ℕ → SessionCache → Bool × SessionCache
unfolding compare_sent is_stale
needs_full_found now tool current none c = (true, c)
needs_full_found now tool current (some h) c =
    if is_stale now c.ttl (c.heap h).entry
    then (true, c)
    else compare_sent h current (lookup tool (c.heap h).entry.sent_schemas) c

unfoldable pub needs_full : ℕ → String → String → String → SessionCache → Bool × SessionCache
unfolding needs_full_found
needs_full now key tool current c = needs_full_found now tool current (lookup key c.entries) c

unfoldable pub sweep_found : ℕ → String → Option ℕ → SessionCache → SessionCache
unfolding forget is_stale
sweep_found now key none c = c
sweep_found now key (some h) c = if is_stale now c.ttl (c.heap h).entry then forget key h c else c

-- The loop over the map, which meets a key only while it is there.
unfoldable pub sweep : ℕ → List (String × ℕ) → SessionCache → SessionCache
unfolding sweep_found
sweep now [] c = c
sweep now ((key, h) ∷ seen) c = sweep now seen (sweep_found now key (lookup key c.entries) c)

unfoldable pub cleanup : ℕ → SessionCache → SessionCache
unfolding sweep
cleanup now c = sweep now c.entries c

unfoldable pub size : SessionCache → ℕ
size c = length c.entries
