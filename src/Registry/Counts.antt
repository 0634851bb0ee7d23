-- ===== src/Registry/Counts.antt =====
-- internal/app/controlplane/registry: the counts of the clients that see each specification.
use mcpv.Base.{
  ℕ, suc, ◌+◌, ◌-◌, ◌≤◌, ◌≡◌, refl, inl, inr, String, Bool, true, false, not, ◌&&◌, ◌||◌, Option,
  none, some, List, [], ◌∷◌, if◌then◌else◌, str_eq, eq_iff, has, keep_if, add_once, occurs,
  AtMostOnce, occurs-add_once, occurs-has, has-add_once, lookup, insert, delete, lookup-insert,
  lookup-delete, Bool-cases, arith,
}
use mcpv.Registry.Clients.{
  ClientState, is_internal, count_of, raise, lower, raise_all, lower_all, apply_spec_delta, set_of,
  diff_keys,
}

count_of-insert :
    (k key : String) (n : ℕ) (m : List (String × ℕ))
    → count_of k (insert key n m) ≡ (if str_eq key k then n else count_of k m)
unfolding count_of
count_of-insert k key n m = ground (arith, lookup-insert key k n m)

count_of-delete :
    (k key : String) (m : List (String × ℕ))
    → count_of k (delete key m) ≡ (if str_eq key k then 0 else count_of k m)
unfolding count_of
count_of-delete k key m = ground (arith, lookup-delete key k m)

pub count_of-raise :
    (k key : String) (m : List (String × ℕ))
    → count_of k (raise key m) ≡ (if str_eq key k then 1 else 0) + count_of k m
unfolding raise
count_of-raise k key m =
    ground (arith, count_of-insert k key (suc (count_of key m)) m, eq_iff key k)

pub count_of-lower :
    (k key : String) (m : List (String × ℕ))
    → count_of k (lower key m) ≡ count_of k m - (if str_eq key k then 1 else 0)
unfolding lower
count_of-lower k key m =
    ground
      (arith, count_of-insert k key (count_of key m - 1) m, count_of-delete k key m, eq_iff key k)

pub count_of-raise_all :
    (k : String) (add : List String) (m : List (String × ℕ))
    → count_of k (raise_all add m) ≡ occurs k add + count_of k m
unfolding raise_all occurs
count_of-raise_all k [] m = omega arith
count_of-raise_all k (key ∷ add) m =
    omega (arith, count_of-raise_all k add (raise key m), count_of-raise k key m)

pub count_of-lower_all :
    (k : String) (remove : List String) (m : List (String × ℕ))
    → count_of k (lower_all remove m) ≡ count_of k m - occurs k remove
unfolding lower_all occurs
count_of-lower_all k [] m = omega arith
count_of-lower_all k (key ∷ remove) m =
    omega (arith, count_of-lower_all k remove (lower key m), count_of-lower k key m)

pub count_of-apply_spec_delta :
    (k : String) (m : List (String × ℕ)) (add remove : List String)
    → count_of k (apply_spec_delta m add remove) ≡ (occurs k add + count_of k m) - occurs k remove
unfolding apply_spec_delta
count_of-apply_spec_delta k m add remove =
    omega (arith, count_of-lower_all k remove (raise_all add m), count_of-raise_all k add m)

-- A set holds each text of its list once.
abbrev one_if : Bool → ℕ
one_if b = if b then 1 else 0

occurs-set_of :
    (k : String) (xs set : List String)
    → occurs k set ≡ one_if (has k set)
    → occurs k (set_of xs set) ≡ one_if (has k set || has k xs)
unfolding set_of has
occurs-set_of k [] set once = ground arith
occurs-set_of k (x ∷ xs) set once =
    ground
      (arith, occurs-set_of k xs (add_once x set), occurs-add_once k x set, has-add_once k x set)

pub occurs-without :
    (k : String) (xs set : List String)
    → occurs k (keep_if (λ x. not (has x set)) xs) ≡ (if has k set then 0 else occurs k xs)
unfolding occurs
occurs-without k [] set = ground arith
occurs-without k (x ∷ xs) set = elim (Bool-cases (str_eq x k)) [
  | inl e ↦
      let same : x ≡ k = ground (arith, eq_iff x k) in
      rw same (ground (arith, occurs-without k xs set))
  | inr e ↦ ground (arith, occurs-without k xs set)
]

pub has-set_of :
    (k : String) (xs set : List String) → has k (set_of xs set) ≡ (has k set || has k xs)
unfolding set_of has
has-set_of k [] set = ground arith
has-set_of k (x ∷ xs) set = ground (arith, has-set_of k xs (add_once x set), has-add_once k x set)

has_nothing : (k : String) → (has k [] ≡ false) × (occurs k [] ≡ 0)
unfolding has occurs
has_nothing k = (refl, refl)

-- What a new list of keys adds and removes.
pub occurs-diff_keys :
    (k : String) (next prev : List String)
    → (occurs k (diff_keys next prev).0 ≡ one_if (has k next && not (has k prev)))
      × (occurs k (diff_keys next prev).1 ≡ one_if (has k prev && not (has k next)))
unfolding diff_keys
occurs-diff_keys k next prev =
    let (nothing, none_of) = has_nothing k in
    let once : occurs k [] ≡ one_if (has k []) = rw (nothing, none_of) refl in
    let n = occurs-set_of k next [] once in
    let p = occurs-set_of k prev [] once in
    let hn = has-set_of k next [] in
    let hp = has-set_of k prev [] in
    (
      ground (arith, occurs-without k (set_of next []) (set_of prev [])),
      ground (arith, occurs-without k (set_of prev []) (set_of next [])),
    )

occurs_pos : (k : String) (xs : List String) → has k xs ≡ true → 1 ≤ occurs k xs
unfolding occurs has
occurs_pos k [] e = absurd (cc)
occurs_pos k (x ∷ xs) e = ground (arith, occurs_pos k xs)

pub occurs-AtMostOnce :
    (k : String) (xs : List String) → AtMostOnce xs → occurs k xs ≡ one_if (has k xs)
unfolding AtMostOnce
occurs-AtMostOnce k xs once = elim (Bool-cases (has k xs)) [
  | inl e ↦ rw e (omega (arith, once k, occurs_pos k xs e))
  | inr e ↦ rw e (occurs-has k xs e)
]

-- How many clients see a key; the internal client is not counted.
unfoldable pub seen_by : String → String → ClientState → ℕ
seen_by k client st = if is_internal client then 0 else occurs k st.spec_keys

unfoldable pub clients_seeing : String → List (String × ClientState) → ℕ
unfolding seen_by
clients_seeing k [] = 0
clients_seeing k ((client, st) ∷ m) = seen_by k client st + clients_seeing k m

abbrev pub seen_before : String → String → Option ClientState → ℕ
seen_before k client none = 0
seen_before k client (some st) = seen_by k client st

unfoldable pub UniqueNames : List (String × ClientState) → Type 0
UniqueNames [] = Unit {0}
UniqueNames ((client, st) ∷ m) = (lookup client m ≡ none) × UniqueNames m

pub clients_seeing-insert :
    (k client : String) (st : ClientState) (m : List (String × ClientState))
    → clients_seeing k (insert client st m) + seen_before k client (lookup client m)
      ≡ clients_seeing k m + seen_by k client st
unfolding clients_seeing insert lookup
clients_seeing-insert k client st [] = omega arith
clients_seeing-insert k client st ((c, old) ∷ m) = elim (Bool-cases (str_eq c client)) [
  | inl e ↦ let same : c ≡ client = ground (arith, eq_iff c client) in rw (e, same) (omega arith)
  | inr e ↦ rw e (omega (arith, clients_seeing-insert k client st m))
]

delete_absent :
    (client : String) (m : List (String × ClientState))
    → lookup client m ≡ none
    → delete client m ≡ m
unfolding delete lookup
delete_absent client [] e = refl
delete_absent client ((c, old) ∷ m) e = ground (arith, delete_absent client m)

pub clients_seeing-delete :
    (k client : String) (m : List (String × ClientState))
    → UniqueNames m
    → clients_seeing k (delete client m) + seen_before k client (lookup client m)
      ≡ clients_seeing k m
unfolding clients_seeing delete lookup UniqueNames
clients_seeing-delete k client [] u = omega arith
clients_seeing-delete k client ((c, old) ∷ m) (absent, u) = elim (Bool-cases (str_eq c client)) [
  | inl e ↦
      let same : c ≡ client = ground (arith, eq_iff c client) in
      let gone : delete client m ≡ m = delete_absent client m (rw (← same) absent) in
      rw (e, gone, same) (omega arith)
  | inr e ↦ rw e (omega (arith, clients_seeing-delete k client m u))
]

pub UniqueNames-insert :
    (client : String) (st : ClientState) (m : List (String × ClientState))
    → UniqueNames m
    → UniqueNames (insert client st m)
unfolding UniqueNames insert lookup
UniqueNames-insert client st [] u = (refl, tt)
UniqueNames-insert client st ((c, old) ∷ m) (absent, u) = elim (Bool-cases (str_eq c client)) [
  | inl e ↦ rw e (absent, u)
  | inr e ↦ rw e (
    ground (arith, lookup-insert client c st m, eq_iff client c, eq_iff c client),
    UniqueNames-insert client st m u,
  )
]

pub UniqueNames-delete :
    (client : String) (m : List (String × ClientState))
    → UniqueNames m
    → UniqueNames (delete client m)
unfolding UniqueNames delete
UniqueNames-delete client [] u = tt
UniqueNames-delete client ((c, old) ∷ m) (absent, u) = elim (Bool-cases (str_eq c client)) [
  | inl e ↦ rw e (UniqueNames-delete client m u)
  | inr e ↦ rw e (ground (arith, lookup-delete client c m), UniqueNames-delete client m u)
]
