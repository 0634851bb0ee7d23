-- ===== src/Gateway/Accounts.antt =====
-- internal/infra/gateway/pool.go: no runtime is lost, whatever the goroutines do.
use mcpv.Base.{
  ℕ, suc, ◌+◌, ◌-◌, ◌<◌, ◌≡◌, refl, inl, inr, String, Bool, true, false, ◌&&◌, ◌||◌, not, Option,
  none, some, List, [], ◌∷◌, ◌++◌, if◌then◌else◌, str_eq, ltb, leb, ◌==◌, length, lookup, insert,
  keep_if, arith, Bool-cases, ==_iff, subst,
}
use mcpv.Gateway.{
  Selector, PooledRuntime, GatewayPool, Reply, get_begin, get_open, get_commit, get_commit_open,
  start_runtime, stop_started, add_runtime, touch, close, evict_idle, is_idle, take_out,
  stop_runtime, runtimes_of, is_valid, selector_key,
}

-- How often a runtime is in a list.
unfoldable pub times : ℕ → List ℕ → ℕ
times r [] = 0
times r (x ∷ xs) = let rest = times r xs in if x == r then suc rest else rest

-- The runtimes that run are those in the pool, those that a `Get` has started and not yet put there, those
-- about to be stopped, and those whose stop has failed.
pub record Accounted (g : GatewayPool) : Type 0 where
  pub count :
      (r : ℕ)
      → times r g.running
        ≡ times r (runtimes_of g.runtimes)
          + times r g.starting
          + times r g.stopping
          + times r g.unstopped
  pub shut : g.closed ≡ true → g.runtimes ≡ []

times-take_out :
    (r q : ℕ) (xs : List ℕ) → times r (take_out q xs) ≡ times r xs - (if q == r then 1 else 0)
unfolding times take_out
times-take_out r q [] = ground arith
times-take_out r q (x ∷ xs) = ground (arith, times-take_out r q xs)

times-append : (r : ℕ) (xs ys : List ℕ) → times r (xs ++ ys) ≡ times r xs + times r ys
unfolding times
times-append r [] ys = omega arith
times-append r (x ∷ xs) ys = ground (arith, times-append r xs ys)

times-runtimes_split :
    (r : ℕ) (p : String × PooledRuntime → Bool) (m : List (String × PooledRuntime))
    → times r (runtimes_of (keep_if (λ e. not (p e)) m)) + times r (runtimes_of (keep_if p m))
      ≡ times r (runtimes_of m)
unfolding times runtimes_of
times-runtimes_split r p [] = omega arith
times-runtimes_split r p ((k, v) ∷ m) = ground (arith, times-runtimes_split r p m)

-- A new key adds its runtime; the same runtime again changes nothing.
times-insert_new :
    (r : ℕ) (key : String) (v : PooledRuntime) (m : List (String × PooledRuntime))
    → lookup key m ≡ none
    → times r (runtimes_of (insert key v m))
      ≡ times r (runtimes_of m) + (if v.runtime == r then 1 else 0)
unfolding times runtimes_of lookup insert
times-insert_new r key v [] = λ n. ground arith
times-insert_new r key v ((k, w) ∷ m) = elim (Bool-cases (str_eq k key)) [
  | inl t ↦ rw t (λ bad. absurd (cc))
  | inr t ↦ rw t (λ n. ground (arith, times-insert_new r key v m n))
]

times-insert_same :
    (r : ℕ) (key : String) (v old : PooledRuntime) (m : List (String × PooledRuntime))
    → v.runtime ≡ old.runtime
    → lookup key m ≡ some old
    → times r (runtimes_of (insert key v m)) ≡ times r (runtimes_of m)
unfolding times runtimes_of lookup insert
times-insert_same r key v old [] same = λ bad. absurd (cc)
times-insert_same r key v old ((k, w) ∷ m) same = elim (Bool-cases (str_eq k key)) [
  | inl t ↦ rw t (λ found. ground (arith, same))
  | inr t ↦ rw t (λ found. ground (arith, times-insert_same r key v old m same found))
]

touch-Accounted :
    (key : String) (now : ℕ) (pooled : PooledRuntime) (g : GatewayPool)
    → g.closed ≡ false
    → lookup key g.runtimes ≡ some pooled
    → Accounted g
    → Accounted (touch key now pooled g)
unfolding touch
touch-Accounted key now pooled g live found v = record {
  count = λ r. omega (
    arith,
    v.count r,
    times-insert_same r key (record pooled { last_used = now }) pooled g.runtimes refl found,
  );
  shut = λ bad. absurd (cc);
}

-- A goroutine's own runtime, under another name.
mine_at : (q r : ℕ) (xs : List ℕ) → 0 < times q xs → (q == r) ≡ true → 0 < times r xs
mine_at q r xs mine t = subst (λ (x : ℕ). 0 < times x xs) ((==_iff q r).0 t) mine

stop_started-Accounted :
    (q : ℕ) (g : GatewayPool) → 0 < times q g.starting → Accounted g → Accounted (stop_started q g)
unfolding stop_started times
stop_started-Accounted q g mine v = record {
  count =
      λ r. ground (arith, v.count r, times-take_out r q g.starting, mine_at q r g.starting mine);
  shut = v.shut;
}

pub stop_runtime-Accounted :
    (q : ℕ) (stops : Bool) (g : GatewayPool)
    → 0 < times q g.stopping
    → Accounted g
    → Accounted (stop_runtime q stops g)
unfolding stop_runtime times
stop_runtime-Accounted q true g due v = record {
  count = λ r. ground (
    arith,
    v.count r,
    times-take_out r q g.running,
    times-take_out r q g.stopping,
    mine_at q r g.stopping due,
  );
  shut = v.shut;
}
stop_runtime-Accounted q false g due v = record {
  count = λ r. ground (arith, v.count r, times-take_out r q g.stopping, mine_at q r g.stopping due);
  shut = v.shut;
}

add_runtime-Accounted :
    (now : ℕ) (key : String) (q server : ℕ) (g : GatewayPool)
    → 0 < times q g.starting
    → g.closed ≡ false
    → lookup key g.runtimes ≡ none
    → Accounted g
    → Accounted (add_runtime now key q server g)
unfolding add_runtime
add_runtime-Accounted now key q server g mine live new v =
    let p : PooledRuntime = record { runtime = q; server = some server; last_used = now } in
    record {
      count = λ r. ground (
        arith,
        v.count r,
        times-insert_new r key p g.runtimes new,
        times-take_out r q g.starting,
        mine_at q r g.starting mine,
      );
      shut = λ bad. absurd (cc);
    }

if-Accounted :
    (b : Bool) (x y : Reply × GatewayPool)
    → (b ≡ true → Accounted x.1)
    → (b ≡ false → Accounted y.1)
    → Accounted (if b then x else y).1
if-Accounted true x y yes_case no_case = yes_case refl
if-Accounted false x y yes_case no_case = no_case refl

get_open-Accounted :
    (now : ℕ) (key : String) (o : Option PooledRuntime) (g : GatewayPool)
    → g.closed ≡ false
    → lookup key g.runtimes ≡ o
    → Accounted g
    → Accounted (get_open now key o g).1
get_open-Accounted now key (some pooled) g live found v =
    touch-Accounted key now pooled g live found v
get_open-Accounted now key none g live found v =
    elim (Bool-cases (ltb 0 g.max_instances && leb g.max_instances (length g.runtimes))) [
      | inl t ↦ simp t v
      | inr t ↦ simp t v
    ]

pub get_begin-Accounted :
    (now : ℕ) (sel : Selector) (g : GatewayPool) → Accounted g → Accounted (get_begin now sel g).1
unfolding get_begin
get_begin-Accounted now sel g v =
    elim (Bool-cases (not (is_valid sel) || str_eq (selector_key sel) "")) [
      | inl t ↦ simp t v
      | inr t ↦ elim (Bool-cases g.closed) [
        | inl u ↦ simp (t, u) v
        | inr u ↦
            simp (t, u)
              (get_open-Accounted now (selector_key sel) (lookup (selector_key sel) g.runtimes) g u
                refl v)
      ]
    ]

get_commit_open-Accounted :
    (now : ℕ) (key : String) (q server : ℕ) (o : Option PooledRuntime) (g : GatewayPool)
    → 0 < times q g.starting
    → g.closed ≡ false
    → lookup key g.runtimes ≡ o
    → Accounted g
    → Accounted (get_commit_open now key q server o g).1
unfolding touch
get_commit_open-Accounted now key q server (some existing) g mine live found v =
    stop_started-Accounted q (touch key now existing g) mine
      (touch-Accounted key now existing g live found v)
get_commit_open-Accounted now key q server none g mine live found v =
    add_runtime-Accounted now key q server g mine live found v

pub get_commit-Accounted :
    (now : ℕ) (key : String) (q : ℕ) (server : Option ℕ) (g : GatewayPool)
    → 0 < times q g.starting
    → Accounted g
    → Accounted (get_commit now key q server g).1
unfolding get_commit
get_commit-Accounted now key q none g mine v = stop_started-Accounted q g mine v
get_commit-Accounted now key q (some server) g mine v =
    if-Accounted g.closed _ _ (λ u. stop_started-Accounted q g mine v)
      (λ u. get_commit_open-Accounted now key q server (lookup key g.runtimes) g mine u refl v)

pub start_runtime-Accounted :
    (q : ℕ) (g : GatewayPool) → Accounted g → Accounted (start_runtime q g)
unfolding start_runtime times
start_runtime-Accounted q g v = record { count = λ r. ground (arith, v.count r); shut = v.shut }

closing-Accounted :
    (g : GatewayPool)
    → Accounted g
    → Accounted
        (record g { closed = true; runtimes = []; stopping = runtimes_of g.runtimes ++ g.stopping })
unfolding times runtimes_of
closing-Accounted g v = record {
  count = λ r. omega (arith, v.count r, times-append r (runtimes_of g.runtimes) g.stopping);
  shut = λ _. refl;
}

pub close-Accounted : (g : GatewayPool) → Accounted g → Accounted (close g)
unfolding close
close-Accounted g v = elim (Bool-cases g.closed) [
  | inl u ↦ simp u v
  | inr u ↦ simp u (closing-Accounted g v)
]

keep_if-nil :
    (p : String × PooledRuntime → Bool) (m : List (String × PooledRuntime))
    → m ≡ []
    → keep_if p m ≡ []
keep_if-nil p m e = rw e refl

evicting-Accounted :
    (idle : String × PooledRuntime → Bool) (g : GatewayPool)
    → Accounted g
    → Accounted (record g {
      runtimes = keep_if (λ e. not (idle e)) g.runtimes;
      stopping = runtimes_of (keep_if idle g.runtimes) ++ g.stopping;
    })
evicting-Accounted idle g v = record {
  count = λ r. omega (
    arith,
    v.count r,
    times-runtimes_split r idle g.runtimes,
    times-append r (runtimes_of (keep_if idle g.runtimes)) g.stopping,
  );
  shut = λ c. keep_if-nil (λ e. not (idle e)) g.runtimes (v.shut c);
}

pub evict_idle-Accounted : (now : ℕ) (g : GatewayPool) → Accounted g → Accounted (evict_idle now g)
unfolding evict_idle
evict_idle-Accounted now g v = elim (Bool-cases (g.idle_timeout == 0)) [
  | inl u ↦ simp u v
  | inr u ↦ simp u (evicting-Accounted (λ e. is_idle now g.idle_timeout e.1) g v)
]
