-- ===== src/Gateway/Capacity.antt =====
-- internal/infra/gateway/pool.go: the limit on the instances.
use mcpv.Base.{
  ℕ, suc, ◌+◌, ◌<◌, ◌≡◌, refl, ap, ◌∙◌, inl, inr, String, true, false, none, some, List, [], ◌∷◌,
  str_eq, length, lookup, insert, arith, Bool-cases, lookup-insert,
}
use mcpv.Gateway.{
  Selector, GatewayPool, starts_runtime, get_begin, get_commit, start_runtime, add_runtime,
  is_valid, selector_key,
}

length-insert_new {ℓ} :
    {V : Type ℓ} (key : String) (v : V) (m : List (String × V))
    → lookup key m ≡ none
    → length (insert key v m) ≡ suc (length m)
unfolding lookup insert
length-insert_new key v [] = λ n. refl
length-insert_new key v ((k, w) ∷ m) = elim (Bool-cases (str_eq k key)) [
  | inl t ↦ rw t (λ bad. absurd (cc))
  | inr t ↦ rw t (λ n. ap suc (length-insert_new key v m n))
]

commit-length :
    (now : ℕ) (key : String) (r server : ℕ) (g : GatewayPool)
    → g.closed ≡ false
    → lookup key g.runtimes ≡ none
    → length (get_commit now key r (some server) g).1.runtimes ≡ suc (length g.runtimes)
unfolding get_commit add_runtime
commit-length now key r server g live new =
    simp (live, new) (length-insert_new key _ g.runtimes new)

-- The pool is open, has room, and has no runtime for the selector.
abbrev pub CanStart : Selector → GatewayPool → Type 0
CanStart sel g =
    (is_valid sel ≡ true)
    × (str_eq (selector_key sel) "" ≡ false)
    × (g.closed ≡ false)
    × (lookup (selector_key sel) g.runtimes ≡ none)
    × (length g.runtimes < g.max_instances)

begin-asks :
    (now : ℕ) (sel : Selector) (g : GatewayPool)
    → CanStart sel g
    → get_begin now sel g ≡ (starts_runtime (selector_key sel), g)
unfolding get_begin
begin-asks now sel g (valid, some_key, live, new, room) =
    simp (valid, some_key, live, new) (ground arith)

commit-others :
    (now : ℕ) (key other : String) (r server : ℕ) (g : GatewayPool)
    → g.closed ≡ false
    → str_eq key other ≡ false
    → lookup key g.runtimes ≡ none
    → lookup other g.runtimes ≡ none
    → let h = (get_commit now key r (some server) g).1 in
      (h.closed ≡ false) × (lookup other h.runtimes ≡ none)
unfolding get_commit add_runtime
commit-others now key other r server g live apart new free =
    simp (live, new) (refl, lookup-insert key other _ g.runtimes ∙ rw (apart, free) refl)

-- The limit does not hold: with room for one more runtime, two calls of `Get` for different selectors
-- that both pass the first section before either has put its runtime into the pool are both granted, and
-- the pool then has more runtimes than `MaxInstances`.
pub two_starts_exceed :
    (now : ℕ) (a b : Selector) (r q s t : ℕ) (g : GatewayPool)
    → CanStart a g
    → CanStart b g
    → str_eq (selector_key a) (selector_key b) ≡ false
    → length g.runtimes + 1 ≡ g.max_instances
    → let h = start_runtime q (start_runtime r g) in
      (get_begin now a g ≡ (starts_runtime (selector_key a), g))
      × (get_begin now b g ≡ (starts_runtime (selector_key b), g))
      × (g.max_instances
          < length
              (get_commit now
                (selector_key b)
                q
                (some t)
                (get_commit now (selector_key a) r (some s) h).1).1.runtimes)
unfolding start_runtime
two_starts_exceed now a b r q s t g can also apart last =
    let (_, _, live, new, _) = can in
    let (_, _, _, free, _) = also in
    let h = start_runtime q (start_runtime r g) in
    let (live', free') =
      commit-others now (selector_key a) (selector_key b) r s h live apart new free in
    (
      begin-asks now a g can,
      begin-asks now b g also,
      omega (
        arith,
        last,
        commit-length now (selector_key a) r s h live new,
        commit-length now (selector_key b) q t (get_commit now (selector_key a) r (some s) h).1
            live' free',
      ),
    )
