-- ===== src/Domain/SessionCache/Bounded.antt =====
-- internal/domain/session_cache.go: the bound on the sessions, over all sequences of calls.
use mcpv.Base.{
  ℕ, ◌≤◌, ◌≡◌, refl, ◌∙◌, inl, inr, String, Option, none, some, List, [], ◌∷◌, Bool-cases,
  Option-cases, length, member, lookup, arith,
}
use mcpv.Domain.SessionCache.{
  SessionCache, new_session_cache, size, is_stale, get, get_found, update, write_sent, open_session,
  touch, forget, invalidate, invalidate_found, needs_full, needs_full_found, compare_sent, cleanup,
  sweep, sweep_found,
}
use mcpv.Domain.SessionCache.Linked.{
  IsLinked, touch-IsLinked, forget-IsLinked, write_sent-IsLinked, open_session-IsLinked,
  shrink-IsLinked, shrink-bounded, shrink-max_size, length-delete-le,
}

-- The calls on a cache.
pub data Use : SessionCache → SessionCache → Type 0 where
  gets : (now : ℕ) (key : String) {c : SessionCache} → Use c (get now key c).1
  updates :
      (now : ℕ) (key : String) (sent : List (String × String)) {c : SessionCache}
      → Use c (update now key sent c)
  invalidates : (key : String) {c : SessionCache} → Use c (invalidate key c)
  asks :
      (now : ℕ) (key tool current : String) {c : SessionCache}
      → Use c (needs_full now key tool current c).1
  cleans : (now : ℕ) {c : SessionCache} → Use c (cleanup now c)

pub data Used (ttl max_size : ℕ) : SessionCache → Type 0 where
  unused : Used ttl max_size (new_session_cache ttl max_size)
  again : {c c' : SessionCache} → Used ttl max_size c → Use c c' → Used ttl max_size c'

-- The map and the list hold the same sessions, at most as many as the bound.
unfoldable pub IsWithin : ℕ → SessionCache → Type 0
unfolding size
IsWithin bound c = IsLinked c × (c.max_size ≡ bound) × (size c ≤ bound)

touch-IsWithin :
    (bound : ℕ) (key : String) (h : ℕ) (c : SessionCache)
    → lookup key c.entries ≡ some h
    → IsWithin bound c
    → IsWithin bound (touch h c)
unfolding IsWithin touch
touch-IsWithin bound key h c at (i, m, le) = (touch-IsLinked h c (i.linked key h at).0 i, m, le)

forget-IsWithin :
    (bound : ℕ) (key : String) (h : ℕ) (c : SessionCache)
    → lookup key c.entries ≡ some h
    → IsWithin bound c
    → IsWithin bound (forget key h c)
unfolding IsWithin forget
forget-IsWithin bound key h c at (i, m, le) =
    (forget-IsLinked key h c at i, m, omega (arith, length-delete-le key c.entries, le))

get-IsWithin :
    (bound now : ℕ) (key : String) (c : SessionCache)
    → IsWithin bound c
    → IsWithin bound (get now key c).1
unfolding get get_found
get-IsWithin bound now key c w = elim (Option-cases (lookup key c.entries)) [
  | inl e ↦ rw e w
  | inr (h, e) ↦ rw e (elim (Bool-cases (is_stale now c.ttl (c.heap h).entry)) [
    | inl x ↦ rw x w
    | inr x ↦ rw x (touch-IsWithin bound key h c e w)
  ])
]

invalidate-IsWithin :
    (bound : ℕ) (key : String) (c : SessionCache)
    → IsWithin bound c
    → IsWithin bound (invalidate key c)
unfolding invalidate invalidate_found
invalidate-IsWithin bound key c w = elim (Option-cases (lookup key c.entries)) [
  | inl e ↦ rw e w
  | inr (h, e) ↦ rw e (forget-IsWithin bound key h c e w)
]

compare_sent-IsWithin :
    (bound : ℕ) (key : String) (h : ℕ) (current : String) (o : Option String) (c : SessionCache)
    → lookup key c.entries ≡ some h
    → IsWithin bound c
    → IsWithin bound (compare_sent h current o c).1
unfolding compare_sent
compare_sent-IsWithin bound key h current none c at w = w
compare_sent-IsWithin bound key h current (some last) c at w = touch-IsWithin bound key h c at w

needs_full-IsWithin :
    (bound now : ℕ) (key tool current : String) (c : SessionCache)
    → IsWithin bound c
    → IsWithin bound (needs_full now key tool current c).1
unfolding needs_full needs_full_found
needs_full-IsWithin bound now key tool current c w = elim (Option-cases (lookup key c.entries)) [
  | inl e ↦ rw e w
  | inr (h, e) ↦ rw e (elim (Bool-cases (is_stale now c.ttl (c.heap h).entry)) [
    | inl x ↦ rw x w
    | inr x ↦
        let last = lookup tool (c.heap h).entry.sent_schemas in
        rw x (compare_sent-IsWithin bound key h current last c e w)
  ])
]

sweep_found-IsWithin :
    (bound now : ℕ) (key : String) (c : SessionCache)
    → IsWithin bound c
    → IsWithin bound (sweep_found now key (lookup key c.entries) c)
unfolding sweep_found
sweep_found-IsWithin bound now key c w = elim (Option-cases (lookup key c.entries)) [
  | inl e ↦ rw e w
  | inr (h, e) ↦ rw e (elim (Bool-cases (is_stale now c.ttl (c.heap h).entry)) [
    | inl x ↦ rw x (forget-IsWithin bound key h c e w)
    | inr x ↦ rw x w
  ])
]

sweep-IsWithin :
    (bound now : ℕ) (seen : List (String × ℕ)) (c : SessionCache)
    → IsWithin bound c
    → IsWithin bound (sweep now seen c)
unfolding sweep
sweep-IsWithin bound now [] c w = w
sweep-IsWithin bound now ((key, h) ∷ seen) c w =
    let c' = sweep_found now key (lookup key c.entries) c in
    sweep-IsWithin bound now seen c' (sweep_found-IsWithin bound now key c w)

open_session-max_size :
    (key : String) (o : Option ℕ) (c : SessionCache)
    → (open_session key o c).1.max_size ≡ c.max_size
unfolding open_session touch
open_session-max_size key none c = refl
open_session-max_size key (some h) c = refl

write_sent-max_size :
    (now : ℕ) (sent : List (String × String)) (h : ℕ) (c : SessionCache)
    → (write_sent now sent h c).max_size ≡ c.max_size
unfolding write_sent
write_sent-max_size now sent h c = refl

write_sent-entries :
    (now : ℕ) (sent : List (String × String)) (h : ℕ) (c : SessionCache)
    → length (write_sent now sent h c).entries ≡ length c.entries
unfolding write_sent
write_sent-entries now sent h c = refl

update-IsWithin :
    (bound now : ℕ) (key : String) (sent : List (String × String)) (c : SessionCache)
    → IsWithin bound c
    → IsWithin bound (update now key sent c)
unfolding update IsWithin size
update-IsWithin bound now key sent c (i, m, le) =
    let (h, opened) = open_session key (lookup key c.entries) c in
    let written = write_sent now sent h opened in
    let j = write_sent-IsLinked now sent h opened (open_session-IsLinked key c i).0 in
    let same = open_session-max_size key (lookup key c.entries) c ∙ m in
    let top = write_sent-max_size now sent h opened ∙ same in
    let fuel = length opened.entries in
    let small =
      shrink-bounded fuel written j (omega (arith, write_sent-entries now sent h opened)) in
    (shrink-IsLinked fuel written j, shrink-max_size fuel written ∙ top, omega (arith, small, top))

Use-IsWithin : (bound : ℕ) (c c' : SessionCache) → Use c c' → IsWithin bound c → IsWithin bound c'
unfolding cleanup
Use-IsWithin bound c c' (gets now key) w = get-IsWithin bound now key c w
Use-IsWithin bound c c' (updates now key sent) w = update-IsWithin bound now key sent c w
Use-IsWithin bound c c' (invalidates key) w = invalidate-IsWithin bound key c w
Use-IsWithin bound c c' (asks now key tool current) w =
    needs_full-IsWithin bound now key tool current c w
Use-IsWithin bound c c' (cleans now) w = sweep-IsWithin bound now c.entries c w

-- After any sequence of calls on a new cache its map and its list of recent use hold the same
-- sessions, and no more of them than the size that the cache was made with; the loop that evicts
-- has ended by then.
pub Used-IsWithin :
    (ttl max_size : ℕ) (c : SessionCache) → Used ttl max_size c → IsWithin max_size c
unfolding IsWithin size new_session_cache member lookup
Used-IsWithin ttl max_size c unused = (
  record {
    backed = λ h m. absurd (cc);
    linked = λ key h at. absurd (cc);
    below = λ h m. absurd (cc);
  },
  refl,
  omega arith,
)
Used-IsWithin ttl max_size c (again {c = b} before s) =
    Use-IsWithin max_size b c s (Used-IsWithin ttl max_size b before)
