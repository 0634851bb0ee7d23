-- ===== src/Examples/Sessions.antt =====
-- The laws of internal/domain/session_cache.go at a cache with two sessions.
use mcpv.Base.{
  ◌-◌, ◌≤◌, ◌<◌, ◌≡◌, refl, String, not, some, List, [], ◌∷◌, str_eq, lookup, insert, arith,
}
use mcpv.Domain.SessionCache.{
  SessionCache, new_session_cache, update, size, needs_full, open_session, touch, write_sent,
  refresh, merge, shrink,
}
use mcpv.Domain.SessionCache.Linked.{IsLinked}
use mcpv.Domain.SessionCache.Bounded.{Used, unused, again, updates, IsWithin, Used-IsWithin}
use mcpv.Domain.SessionCache.Recall.{Unique, update-needs_full}

abbrev tool_hash : List (String × String)
tool_hash = ("grep", "h1") ∷ []

abbrev one_session : SessionCache
one_session = update 10 "a" tool_hash (new_session_cache 100 2)

abbrev two_sessions : SessionCache
two_sessions = update 20 "b" tool_hash one_session

to_one : Used 100 2 one_session
to_one = again unused (updates 10 "a" tool_hash)

Used-IsWithin_example : IsWithin 2 two_sessions
Used-IsWithin_example = Used-IsWithin 100 2 two_sessions (again to_one (updates 20 "b" tool_hash))

one-IsLinked : IsLinked one_session
unfolding IsWithin
one-IsLinked = (Used-IsWithin 100 2 one_session to_one).0

room : size one_session < one_session.max_size
unfolding size update new_session_cache open_session touch write_sent refresh merge shrink lookup
    insert
room = omega arith

hash-Unique : Unique tool_hash
unfolding Unique lookup
hash-Unique = (refl, tt)

told : lookup "grep" tool_hash ≡ some "h1"
unfolding lookup
told = refl

lifetime : 90 - 20 ≤ one_session.ttl
unfolding update new_session_cache open_session touch write_sent refresh merge shrink lookup insert
lifetime = omega arith

update-needs_full_example :
    (needs_full 90 "b" "grep" "h2" (update 20 "b" tool_hash one_session)).0 ≡ not (str_eq "h1" "h2")
update-needs_full_example =
    update-needs_full 20 90 "b" "grep" "h2" "h1" tool_hash one_session one-IsLinked room hash-Unique
      told lifetime
