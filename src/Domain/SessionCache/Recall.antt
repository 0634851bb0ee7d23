-- ===== src/Domain/SessionCache/Recall.antt =====
-- internal/domain/session_cache.go: what `NeedsFull` answers after the calls that change a session,
-- and which sessions `Cleanup` leaves.
use mcpv.Base.{
  ℕ, zero, suc, ◌-◌, ◌≤◌, ◌<◌, ◌≡◌, refl, ◌∙◌, inl, inr, String, true, false, not, Option, none,
  some, List, [], ◌∷◌, Bool-cases, Option-cases, if◌then◌else◌, ==_refl, str_eq, eq_iff, is_some,
  length, lookup, insert, delete, lookup-insert, lookup-delete, arith,
}
use mcpv.Domain.SessionCache.{
  SessionCache, size, is_stale, merge, update, write_sent, refresh, open_session, touch, shrink,
  forget, invalidate, invalidate_found, needs_full, needs_full_found, compare_sent, cleanup, sweep,
  sweep_found,
}
use mcpv.Domain.SessionCache.Linked.{IsLinked, open_session-IsLinked}

-- A map as its entries: no key twice.
unfoldable pub Unique : List (String × String) → Type 0
Unique [] = Unit {0}
Unique ((name, hash) ∷ sent) = (lookup name sent ≡ none) × Unique sent

lookup-merge-none :
    (name : String) (sent known : List (String × String))
    → lookup name sent ≡ none
    → lookup name (merge sent known) ≡ lookup name known
unfolding merge lookup
lookup-merge-none name [] known e = refl
lookup-merge-none name ((n, x) ∷ sent) known e =
    let apart : str_eq n name ≡ false = ground arith in
    lookup-merge-none name sent (insert n x known) (ground arith)
    ∙ lookup-insert n name x known
    ∙ rw apart refl

length-insert-le :
    (key : String) (h : ℕ) (m : List (String × ℕ)) → length (insert key h m) ≤ suc (length m)
unfolding insert
length-insert-le key h [] = omega arith
length-insert-le key h ((k, g) ∷ m) = ground (arith, length-insert-le key h m)

open_session-config :
    (key : String) (o : Option ℕ) (c : SessionCache)
    → ((open_session key o c).1.max_size ≡ c.max_size) × ((open_session key o c).1.ttl ≡ c.ttl)
unfolding open_session touch
open_session-config key none c = (refl, refl)
open_session-config key (some h) c = (refl, refl)

lookup-merge :
    (name hash : String) (sent known : List (String × String))
    → Unique sent
    → lookup name sent ≡ some hash
    → lookup name (merge sent known) ≡ some hash
unfolding Unique merge lookup
lookup-merge name hash [] known u e = absurd (cc)
lookup-merge name hash ((n, x) ∷ sent) known (new, u) e = elim (Bool-cases (str_eq n name)) [
  | inr apart ↦ lookup-merge name hash sent (insert n x known) u (ground arith)
  | inl same ↦
      let at : n ≡ name = ground (arith, eq_iff n name) in
      let absent : lookup name sent ≡ none = ground arith in
      let its : x ≡ hash = ground arith in
      lookup-merge-none name sent (insert n x known) absent
      ∙ lookup-insert n name x known
      ∙ ground arith
]

shrink_fits : (fuel : ℕ) (c : SessionCache) → length c.entries ≤ c.max_size → shrink fuel c ≡ c
unfolding shrink
shrink_fits zero c le = refl
shrink_fits (suc fuel) c le = ground arith

open_session-length :
    (key : String) (o : Option ℕ) (c : SessionCache)
    → length (open_session key o c).1.entries ≤ suc (length c.entries)
unfolding open_session touch
open_session-length key (some h) c = omega arith
open_session-length key none c = length-insert-le key c.next c.entries

asked :
    (then_now : ℕ) (key tool current hash : String) (h : ℕ) (c : SessionCache)
    → lookup key c.entries ≡ some h
    → is_stale then_now c.ttl (c.heap h).entry ≡ false
    → lookup tool (c.heap h).entry.sent_schemas ≡ some hash
    → (needs_full then_now key tool current c).0 ≡ not (str_eq hash current)
unfolding needs_full needs_full_found compare_sent
asked then_now key tool current hash h c at lives last = rw (at, lives, last) refl

-- After `Update` has recorded the hash of a tool's schema, in a cache with room for a session,
-- `NeedsFull` asks for the full schema just if the hash has changed, until the lifetime is over.
pub update-needs_full :
    (now then_now : ℕ) (key tool current hash : String) (sent : List (String × String))
    (c : SessionCache)
    → IsLinked c
    → size c < c.max_size
    → Unique sent
    → lookup tool sent ≡ some hash
    → then_now - now ≤ c.ttl
    → (needs_full then_now key tool current (update now key sent c)).0 ≡ not (str_eq hash current)
unfolding update write_sent size refresh is_stale
update-needs_full now then_now key tool current hash sent c i room u told fresh =
    let o = lookup key c.entries in
    let h = (open_session key o c).0 in
    let opened = (open_session key o c).1 in
    let written = write_sent now sent h opened in
    let (limit, life) = open_session-config key o c in
    let fits : length opened.entries ≤ opened.max_size =
      omega (arith, open_session-length key o c, limit, room) in
    rw (shrink_fits (length opened.entries) written fits) (
      asked then_now key tool current hash h written (open_session-IsLinked key c i).1
        (rw (==_refl h, life) (ground arith))
        (rw (==_refl h) (lookup-merge tool hash sent (opened.heap h).entry.sent_schemas u told)))

-- An invalidated session is sent full schemas, and the other sessions keep their entries.
pub invalidate-forgets :
    (now : ℕ) (key other tool current : String) (c : SessionCache)
    → ((needs_full now key tool current (invalidate key c)).0 ≡ true)
      × (lookup other (invalidate key c).entries
          ≡ (if str_eq key other then none else lookup other c.entries))
unfolding needs_full needs_full_found invalidate invalidate_found forget
invalidate-forgets now key other tool current c = elim (Option-cases (lookup key c.entries)) [
  | inl e ↦ rw e (rw e refl, ground (arith, eq_iff key other))
  | inr (h, e) ↦ rw e (
      (
        let gone : lookup key (delete key c.entries) ≡ none =
              ground (arith, lookup-delete key key c.entries, eq_iff key key) in
            rw gone refl,
        lookup-delete key other c.entries,
      ))
]

-- A lookup that leaves out what is stale.
abbrev pub unexpired : ℕ → SessionCache → Option ℕ → Option ℕ
unexpired now c none = none
unexpired now c (some h) = if is_stale now c.ttl (c.heap h).entry then none else some h

sweep_found-heap :
    (now : ℕ) (key : String) (o p : Option ℕ) (c : SessionCache)
    → unexpired now (sweep_found now key o c) p ≡ unexpired now c p
unfolding sweep_found forget
sweep_found-heap now key none p c = refl
sweep_found-heap now key (some h) none c = refl
sweep_found-heap now key (some h) (some g) c =
    elim (Bool-cases (is_stale now c.ttl (c.heap h).entry)) [
      | inl x ↦ rw x refl
      | inr x ↦ rw x refl
    ]

sweep_found-lookup :
    (now : ℕ) (key wanted : String) (o : Option ℕ) (c : SessionCache)
    → lookup key c.entries ≡ o
    → lookup wanted (sweep_found now key o c).entries
      ≡ (if str_eq key wanted then unexpired now c o else lookup wanted c.entries)
unfolding sweep_found forget
sweep_found-lookup now key wanted none c at = ground (arith, eq_iff key wanted)
sweep_found-lookup now key wanted (some h) c at =
    elim (Bool-cases (is_stale now c.ttl (c.heap h).entry)) [
      | inl x ↦ rw (x, lookup-delete key wanted c.entries) refl
      | inr x ↦ rw x (ground (arith, eq_iff key wanted))
    ]

unexpired_twice :
    (now : ℕ) (c : SessionCache) (o : Option ℕ)
    → unexpired now c (unexpired now c o) ≡ unexpired now c o
unexpired_twice now c none = refl
unexpired_twice now c (some h) = ground arith

sweep-lookup :
    (now : ℕ) (wanted : String) (seen : List (String × ℕ)) (c : SessionCache)
    → lookup wanted (sweep now seen c).entries ≡ (
        if is_some (lookup wanted seen)
        then unexpired now c (lookup wanted c.entries)
        else lookup wanted c.entries)
unfolding sweep lookup
sweep-lookup now wanted [] c = refl
sweep-lookup now wanted ((key, h) ∷ seen) c =
    let o = lookup key c.entries in
    let c' = sweep_found now key o c in
    let one = sweep_found-lookup now key wanted o c refl in
    let rest = sweep-lookup now wanted seen c' in
    let same = sweep_found-heap now key o (lookup wanted c'.entries) c in
    rest ∙ elim (Bool-cases (str_eq key wanted)) [
      | inl e ↦
          let at : key ≡ wanted = ground (arith, eq_iff key wanted) in
          rw (same, one, e, at, unexpired_twice now c (lookup wanted c.entries)) (ground arith)
      | inr e ↦ rw (same, one, e) refl
    ]

-- `Cleanup` removes just the sessions whose lifetime is over.
pub cleanup-exact :
    (now : ℕ) (key : String) (c : SessionCache)
    → lookup key (cleanup now c).entries ≡ unexpired now c (lookup key c.entries)
unfolding cleanup
cleanup-exact now key c =
    sweep-lookup now key c.entries c
    ∙ elim (Option-cases (lookup key c.entries)) [ inl e ↦ rw e refl | inr (h, e) ↦ rw e refl ]
