-- ===== src/Domain/SessionCache/Linked.antt =====
-- internal/domain/session_cache.go: the map and the list of recent use hold the same sessions, after
-- every operation.
use mcpv.Base.{
  ℕ, zero, suc, ◌+◌, ◌≤◌, ◌<◌, ◌≡◌, refl, sym, subst, ◌∙◌, inl, inr, String, true, false, not, ◌&&◌,
  none, some, List, [], ◌∷◌, Bool-cases, Option-cases, ◌==◌, ==_refl, ltb, str_eq, eq_iff, length,
  member, member-cons, member-keep_if, lookup, delete, lookup-insert, lookup-delete, arith,
}
use mcpv.Domain.SessionCache.{
  SessionCache, unlink, move_to_front, back, touch, forget, write_sent, open_session, evict_found,
  evict_oldest, shrink,
}

pub record IsLinked (c : SessionCache) : Type 0 where
  pub backed : (h : ℕ) → member h c.lru ≡ true → lookup (c.heap h).session_key c.entries ≡ some h
  pub linked :
      (key : String) (h : ℕ)
      → lookup key c.entries ≡ some h
      → (member h c.lru ≡ true) × ((c.heap h).session_key ≡ key)
  pub below : (h : ℕ) → member h c.lru ≡ true → h < c.next

member-unlink : (g h : ℕ) (xs : List ℕ) → member g (unlink h xs) ≡ (member g xs && not (g == h))
unfolding unlink
member-unlink g h xs = member-keep_if g (λ x. not (x == h)) xs

member-move_to_front :
    (g h : ℕ) (xs : List ℕ) → member h xs ≡ true → member g (move_to_front h xs) ≡ member g xs
unfolding move_to_front
member-move_to_front g h xs held = elim (Bool-cases (h == g)) [
  | inl e ↦
      let same : h ≡ g = ground arith in
      rw (member-cons g h (unlink h xs), e) (sym (subst (λ x. member x xs ≡ true) same held))
  | inr e ↦
      let apart : (g == h) ≡ false = ground arith in
      rw (member-cons g h (unlink h xs), e, member-unlink g h xs, apart) (ground arith)
]

pub touch-IsLinked :
    (h : ℕ) (c : SessionCache) → member h c.lru ≡ true → IsLinked c → IsLinked (touch h c)
unfolding touch
touch-IsLinked h c held i = record {
  backed = λ g m. i.backed g (sym (member-move_to_front g h c.lru held) ∙ m);
  linked =
      λ key g at. let (m, k) = i.linked key g at in (member-move_to_front g h c.lru held ∙ m, k);
  below = λ g m. i.below g (sym (member-move_to_front g h c.lru held) ∙ m);
}

pub forget-IsLinked :
    (key : String) (h : ℕ) (c : SessionCache)
    → lookup key c.entries ≡ some h
    → IsLinked c
    → IsLinked (forget key h c)
unfolding forget
forget-IsLinked key h c at i =
    let its = (i.linked key h at).1 in
    record {
      backed = λ g m.
          let was : member g c.lru ≡ true = ground (arith, member-unlink g h c.lru) in
          let old = i.backed g was in
          let other : (g == h) ≡ false = ground (arith, member-unlink g h c.lru) in
          let apart : str_eq key (c.heap g).session_key ≡ false =
            ground (arith, eq_iff key (c.heap g).session_key) in
          rw (lookup-delete key (c.heap g).session_key c.entries, apart) old;
      linked = λ k g m.
          let apart : str_eq key k ≡ false = ground (arith, lookup-delete key k c.entries) in
          let old : lookup k c.entries ≡ some g = ground (arith, lookup-delete key k c.entries) in
          let (was, its_key) = i.linked k g old in
          let other : (g == h) ≡ false = ground (arith, eq_iff key k) in
          (rw (member-unlink g h c.lru, was, other) refl, its_key);
      below = λ g m. i.below g (ground (arith, member-unlink g h c.lru));
    }

write_sent-key :
    (now : ℕ) (sent : List (String × String)) (h g : ℕ) (c : SessionCache)
    → ((write_sent now sent h c).heap g).session_key ≡ (c.heap g).session_key
unfolding write_sent
write_sent-key now sent h g c = elim (Bool-cases (g == h)) [
  | inl e ↦ let same : g ≡ h = ground arith in rw (e, same) refl
  | inr e ↦ rw e refl
]

pub write_sent-IsLinked :
    (now : ℕ) (sent : List (String × String)) (h : ℕ) (c : SessionCache)
    → IsLinked c
    → IsLinked (write_sent now sent h c)
unfolding write_sent
write_sent-IsLinked now sent h c i = record {
  backed = λ g m. rw (write_sent-key now sent h g c) (i.backed g m);
  linked = λ key g at. let (m, k) = i.linked key g at in (m, write_sent-key now sent h g c ∙ k);
  below = i.below;
}

lookup_touched :
    (key : String) (h : ℕ) (c : SessionCache)
    → lookup key c.entries ≡ some h
    → lookup key (touch h c).entries ≡ some h
unfolding touch
lookup_touched key h c e = e

push-IsLinked :
    (key : String) (c : SessionCache)
    → lookup key c.entries ≡ none
    → IsLinked c
    → IsLinked (open_session key none c).1
unfolding open_session
push-IsLinked key c e i = record {
  backed = λ g m. elim (Bool-cases (g == c.next)) [
    | inl new ↦
        let same : g ≡ c.next = ground arith in
        rw (new, same) (ground (arith, lookup-insert key key c.next c.entries, eq_iff key key))
    | inr old ↦
        let was : member g c.lru ≡ true = ground (arith, member-cons g c.next c.lru) in
        let had = i.backed g was in
        let apart : str_eq key (c.heap g).session_key ≡ false =
          ground (arith, eq_iff key (c.heap g).session_key) in
        rw (old, lookup-insert key (c.heap g).session_key c.next c.entries, apart) had
  ];
  linked = λ k g at. elim (Bool-cases (str_eq key k)) [
    | inl new ↦
        let same : key ≡ k = ground (arith, eq_iff key k) in
        let its : g ≡ c.next = ground (arith, lookup-insert key k c.next c.entries) in
        rw (its, member-cons c.next c.next c.lru, ==_refl c.next) (refl, same)
    | inr old ↦
        let had : lookup k c.entries ≡ some g =
          ground (arith, lookup-insert key k c.next c.entries) in
        let (m, its) = i.linked k g had in
        let lt = i.below g m in
        let apart : (g == c.next) ≡ false = ground arith in
        (rw (member-cons g c.next c.lru) (ground arith), rw apart its)
  ];
  below = λ g m. elim (Bool-cases (c.next == g)) [
    | inl new ↦ ground arith
    | inr old ↦
        let was : member g c.lru ≡ true = ground (arith, member-cons g c.next c.lru) in
        let lt = i.below g was in omega arith
  ];
}

-- The element that `Update` works on is in the list, under its session's key.
pub open_session-IsLinked :
    (key : String) (c : SessionCache)
    → IsLinked c
    → let (h, opened) = open_session key (lookup key c.entries) c in
      IsLinked opened × (lookup key opened.entries ≡ some h)
unfolding open_session
open_session-IsLinked key c i = elim (Option-cases (lookup key c.entries)) [
  | inr (h, e) ↦ rw e (touch-IsLinked h c (i.linked key h e).0 i, lookup_touched key h c e)
  | inl e ↦ rw e (
    push-IsLinked key c e i,
    rw (lookup-insert key key c.next c.entries) (ground (arith, eq_iff key key)),
  )
]

member-back : (h : ℕ) (xs : List ℕ) → back xs ≡ some h → member h xs ≡ true
unfolding back
member-back h [] e = absurd (cc)
member-back h (x ∷ xs) e = elim (Option-cases (back xs)) [
  | inl n ↦ rw (member-cons h x xs) (ground (arith, ==_refl h))
  | inr (y, s) ↦ rw (member-cons h x xs) (ground (arith, member-back h xs))
]

nothing-back : (xs : List ℕ) → back xs ≡ none → (h : ℕ) → member h xs ≡ false
unfolding back member
nothing-back [] e h = refl
nothing-back (x ∷ xs) e h = absurd (ground arith)

pub evict_oldest-IsLinked : (c : SessionCache) → IsLinked c → IsLinked (evict_oldest c)
unfolding evict_oldest evict_found
evict_oldest-IsLinked c i = elim (Option-cases (back c.lru)) [
  | inl e ↦ rw e i
  | inr (h, e) ↦
      rw e (forget-IsLinked (c.heap h).session_key h c (i.backed h (member-back h c.lru e)) i)
]

pub length-delete-le : (key : String) (m : List (String × ℕ)) → length (delete key m) ≤ length m
unfolding delete
length-delete-le key [] = omega arith
length-delete-le key ((k, h) ∷ m) = ground (arith, length-delete-le key m)

length-delete-lt :
    (key : String) (h : ℕ) (m : List (String × ℕ))
    → lookup key m ≡ some h
    → length (delete key m) < length m
unfolding delete lookup
length-delete-lt key h [] e = absurd (cc)
length-delete-lt key h ((k, g) ∷ m) e =
    ground (arith, length-delete-le key m, length-delete-lt key h m)

first_entry :
    (m : List (String × ℕ)) → 0 < length m → (key : String) × (h : ℕ) × (lookup key m ≡ some h)
unfolding lookup
first_entry [] lt = absurd (omega (arith, lt))
first_entry ((key, h) ∷ m) lt = (key, h, ground (arith, eq_iff key key))

-- An eviction makes a cache that is not empty smaller.
pub evict_oldest-shrinks :
    (c : SessionCache)
    → IsLinked c
    → 0 < length c.entries
    → length (evict_oldest c).entries < length c.entries
unfolding evict_oldest evict_found forget
evict_oldest-shrinks c i lt = elim (Option-cases (back c.lru)) [
  | inl e ↦
      let (key, h, at) = first_entry c.entries lt in
      let (held, k) = i.linked key h at in absurd (ground (arith, nothing-back c.lru e h))
  | inr (h, e) ↦
      rw e
        (length-delete-lt (c.heap h).session_key h c.entries (i.backed h (member-back h c.lru e)))
]

pub shrink-IsLinked : (fuel : ℕ) (c : SessionCache) → IsLinked c → IsLinked (shrink fuel c)
unfolding shrink
shrink-IsLinked zero c i = i
shrink-IsLinked (suc fuel) c i = elim (Bool-cases (ltb c.max_size (length c.entries))) [
  | inl e ↦ rw e (shrink-IsLinked fuel (evict_oldest c) (evict_oldest-IsLinked c i))
  | inr e ↦ rw e i
]

evict_oldest-max_size : (c : SessionCache) → (evict_oldest c).max_size ≡ c.max_size
unfolding evict_oldest evict_found forget
evict_oldest-max_size c = elim (Option-cases (back c.lru)) [
  | inl e ↦ rw e refl
  | inr (h, e) ↦ rw e refl
]

pub shrink-bounded :
    (fuel : ℕ) (c : SessionCache)
    → IsLinked c
    → length c.entries ≤ fuel + c.max_size
    → length (shrink fuel c).entries ≤ c.max_size
unfolding shrink
shrink-bounded zero c i le = omega (arith, le)
shrink-bounded (suc fuel) c i le = elim (Bool-cases (ltb c.max_size (length c.entries))) [
  | inr e ↦ rw e (ground arith)
  | inl e ↦
      let over : c.max_size < length c.entries = ground arith in
      let kept = evict_oldest-max_size c in
      let smaller = evict_oldest-shrinks c i (omega (arith, over)) in
      let rest =
        shrink-bounded fuel (evict_oldest c) (evict_oldest-IsLinked c i)
          (omega (arith, smaller, kept, le)) in
      rw e (omega (arith, rest, kept))
]

pub shrink-max_size : (fuel : ℕ) (c : SessionCache) → (shrink fuel c).max_size ≡ c.max_size
unfolding shrink
shrink-max_size zero c = refl
shrink-max_size (suc fuel) c = elim (Bool-cases (ltb c.max_size (length c.entries))) [
  | inr e ↦ rw e refl
  | inl e ↦ rw e (shrink-max_size fuel (evict_oldest c) ∙ evict_oldest-max_size c)
]
