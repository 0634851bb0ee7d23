-- ===== src/Scheduler/Pool/Removal.antt =====
-- `removeInstanceLocked`: the instance leaves the pool and takes its bindings with it.
use mcpv.Base.{
  ℕ, ◌≡◌, refl, ◌∙◌, sym, Bool, true, false, none, some, List, [], ◌∷◌, String, str_eq, Bool-cases,
  member, inl, inr, arith, ◌==◌, lookup, lookup-delete, keep_if, length, position_of, ==_iff, suc,
  ap,
}
use mcpv.Scheduler.Pool.Bindings.{Bound}
use mcpv.Scheduler.State.{PoolState, StickyBinding}
use mcpv.Scheduler.Pool.{drop_bound, remove_instance, lookup_sticky, other_than}

abbrev Entries : Type 0
Entries = List (String × StickyBinding)

-- The loop only deletes.
drop_bound-none :
    (h : ℕ) (entries m : Entries) (j : String)
    → lookup j m ≡ none
    → lookup j (drop_bound h entries m) ≡ none
unfolding drop_bound
drop_bound-none h [] m j e = e
drop_bound-none h ((key, b) ∷ r) m j e =
    drop_bound-none h r _ j (ground (arith, lookup-delete key j m))

drop_bound-old :
    (h : ℕ) (entries m : Entries) (j : String) (b : StickyBinding)
    → lookup j (drop_bound h entries m) ≡ some b
    → lookup j m ≡ some b
unfolding drop_bound
drop_bound-old h [] m j b e = e
drop_bound-old h ((key, c) ∷ r) m j b e =
    let after = drop_bound-old h r _ j b e in ground (arith, after, lookup-delete key j m)

-- A key bound to the instance has no binding after the loop.
drop_bound-gone :
    (h : ℕ) (entries m : Entries) (j : String) (b : StickyBinding)
    → lookup j entries ≡ some b
    → b.inst ≡ h
    → lookup j (drop_bound h entries m) ≡ none
unfolding drop_bound lookup
drop_bound-gone h [] m j b e at = absurd (cc)
drop_bound-gone h ((key, c) ∷ r) m j b e at = elim (Bool-cases (str_eq key j)) [
  | inl f ↦ drop_bound-none h r _ j (ground (arith, lookup-delete key j m))
  | inr f ↦ drop_bound-gone h r _ j b (ground arith) at
]

keep_if_empty : (p : ℕ → Bool) (xs : List ℕ) → (length xs == 0) ≡ true → xs ≡ keep_if p xs
keep_if_empty p [] e = refl
keep_if_empty p (x ∷ xs) e = absurd (omega (arith, (==_iff (suc (length xs)) 0).0 e))

pub remove_instance-instances :
    (h : ℕ) (s : PoolState) → (remove_instance h s).instances ≡ keep_if (other_than h) s.instances
unfolding remove_instance
remove_instance-instances h s = elim (Bool-cases (length s.instances == 0)) [
  | inl e ↦ rw (e, remove_instance) (keep_if_empty (other_than h) s.instances e)
  | inr e ↦ rw (e, remove_instance) refl
]

remove_instance-sticky :
    (h : ℕ) (s : PoolState)
    → (length s.instances == 0) ≡ false
    → (remove_instance h s).sticky ≡ drop_bound h s.sticky s.sticky
unfolding remove_instance
remove_instance-sticky h s e = rw (e, remove_instance) refl

remove_instance_empty :
    (h : ℕ) (s : PoolState) → (length s.instances == 0) ≡ true → remove_instance h s ≡ s
unfolding remove_instance
remove_instance_empty h s e = rw (e, remove_instance) refl

-- A binding that is left is an old one to another instance.
pub remove_instance-Bound :
    (h : ℕ) (s : PoolState)
    → ((j : String) (k : ℕ) → Bound j s k → member k s.instances ≡ true)
    → (j : String) (k : ℕ) → Bound j (remove_instance h s) k
    → Bound j s k × ((k == h) ≡ false)
unfolding lookup_sticky
remove_instance-Bound h s binds j k (b, l, at) = elim (Bool-cases (length s.instances == 0)) [
  | inl e ↦
      let old : Bound j s k = (
        b,
        ap (λ (t : PoolState). lookup j t.sticky) (sym (remove_instance_empty h s e)) ∙ l,
        at,
      ) in
      let (i, lt, x) = position_of k s.instances (binds j k old) in absurd (ground (arith, lt, e))
  | inr e ↦
      let l' : lookup j (drop_bound h s.sticky s.sticky) ≡ some b =
        ap (lookup j) (sym (remove_instance-sticky h s e)) ∙ l in
      let was : lookup j s.sticky ≡ some b = drop_bound-old h s.sticky s.sticky j b l' in
      (
        (b, was, at),
        elim (Bool-cases (k == h)) [
          | inr f ↦ f
          | inl f ↦ cc (l', drop_bound-gone h s.sticky s.sticky j b was (ground arith))
        ],
      )
]
