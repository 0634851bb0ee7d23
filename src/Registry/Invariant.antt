-- ===== src/Registry/Invariant.antt =====
-- internal/app/controlplane/registry: the reference counts agree with the clients, over every order
-- of registrations, removals, lookups and catalog updates.
use mcpv.Base.{
  ℕ, ◌+◌, ◌≤◌, ◌≡◌, refl, subst, inl, inr, String, Bool, true, false, not, ◌&&◌, ◌||◌, Option, none,
  some, List, [], ◌∷◌, if◌then◌else◌, ◌==◌, str_eq, length, occurs, AtMostOnce, sort_strings,
  occurs-sort_strings, occurs-add_once, lookup, insert, delete, lookup-insert, lookup-delete,
  Bool-cases, Option-cases, is_some, arith,
}
use mcpv.Domain.Spec.{ServerSpec}
use mcpv.Registry.Visibility.{Specs, visible_spec_keys, see, see_all, tags_equal, see_server}
use mcpv.Registry.Clients.{
  fresh_state, ClientState, ClientRegistry, new_client_registry, is_internal, count_of,
  apply_spec_delta, diff_keys, register, register_found, unregister, unregister_found,
  load_client_state, load_found,
}
use mcpv.Registry.Counts.{
  seen_by, seen_before, clients_seeing, clients_seeing-insert, clients_seeing-delete, UniqueNames,
  UniqueNames-insert, UniqueNames-delete, count_of-apply_spec_delta, occurs-diff_keys,
  occurs-AtMostOnce,
}

-- The set of visible keys holds no key twice.
see-AtMostOnce :
    (tags : List String) (key : String) (o : Option ServerSpec) (visible : List String) (n : ℕ)
    → AtMostOnce visible
    → AtMostOnce (see tags key o (visible, n)).0
unfolding see AtMostOnce
see-AtMostOnce tags key none visible n once k = once k
see-AtMostOnce tags key (some spec) visible n once k =
    ground (arith, once k, occurs-add_once k key visible)

see_all-AtMostOnce :
    (tags : List String) (specs : Specs) (rest : List (String × String)) (visible : List String)
    (n : ℕ)
    → AtMostOnce visible
    → AtMostOnce (see_all tags specs rest (visible, n)).0
unfolding see_all
see_all-AtMostOnce tags specs [] visible n once = once
see_all-AtMostOnce tags specs ((name, key) ∷ rest) visible n once =
    let (visible', n') = see tags key (lookup name specs) (visible, n) in
    see_all-AtMostOnce tags specs rest visible' n'
      (see-AtMostOnce tags key (lookup name specs) visible n once)

nil-AtMostOnce : AtMostOnce []
unfolding AtMostOnce occurs
nil-AtMostOnce k = omega arith

one-AtMostOnce : (key : String) → AtMostOnce (key ∷ [])
unfolding AtMostOnce occurs
one-AtMostOnce key k = ground arith

sort-AtMostOnce : (xs : List String) → AtMostOnce xs → AtMostOnce (sort_strings xs)
unfolding AtMostOnce
sort-AtMostOnce xs once k = omega (arith, once k, occurs-sort_strings k xs)

by_server : (o : Option String) (listed : Bool) → AtMostOnce (see_server o listed).0
by_server none listed = nil-AtMostOnce
by_server (some key) true = one-AtMostOnce key
by_server (some key) false = nil-AtMostOnce

pub visible_spec_keys-AtMostOnce :
    (specs : Specs) (server_keys : List (String × String)) (tags : List String) (server : String)
    → AtMostOnce (visible_spec_keys specs server_keys tags server).0
unfolding visible_spec_keys
visible_spec_keys-AtMostOnce specs server_keys tags server =
    elim (Bool-cases (length server_keys == 0)) [
      | inl e ↦ rw e nil-AtMostOnce
      | inr e ↦ elim (Bool-cases (str_eq server "")) [
        | inl x ↦
            rw (e, x)
              (sort-AtMostOnce (see_all tags specs server_keys ([], 0)).0
                (see_all-AtMostOnce tags specs server_keys [] 0 nil-AtMostOnce))
        | inr x ↦ rw (e, x) (by_server (lookup server server_keys) (is_some (lookup server specs)))
      ]
    ]

-- Each client's keys are distinct, and each count is the number of clients that see the key.
pub record RegistryInv (r : ClientRegistry) : Type 0 where
  pub unique : UniqueNames r.active_clients
  pub distinct :
      (client : String) (st : ClientState)
      → lookup client r.active_clients ≡ some st
      → AtMostOnce st.spec_keys
  pub counts : (k : String) → count_of k r.spec_counts ≡ clients_seeing k r.active_clients

pub new-RegistryInv : RegistryInv new_client_registry
unfolding new_client_registry UniqueNames lookup count_of clients_seeing
new-RegistryInv = record { unique = tt; distinct = λ client st e. absurd (cc); counts = λ k. refl }

-- An entry put in, with a change of the counts that fits it.
put-RegistryInv :
    (client : String) (st : ClientState) (r : ClientRegistry) (counts : List (String × ℕ))
    → RegistryInv r
    → AtMostOnce st.spec_keys
    → ((k : String)
        → count_of k counts + seen_before k client (lookup client r.active_clients)
          ≡ count_of k r.spec_counts + seen_by k client st)
    → RegistryInv
        (record { active_clients = insert client st r.active_clients; spec_counts = counts })
put-RegistryInv client st r counts i once fits = record {
  unique = UniqueNames-insert client st r.active_clients i.unique;
  distinct = λ c old e. elim (Bool-cases (str_eq client c)) [
    | inl x ↦
        let its : st ≡ old = ground (arith, lookup-insert client c st r.active_clients) in
        subst (λ (q : ClientState). AtMostOnce q.spec_keys) its once
    | inr x ↦ i.distinct c old (ground (arith, lookup-insert client c st r.active_clients))
  ];
  counts =
      λ k. omega (arith, fits k, i.counts k, clients_seeing-insert k client st r.active_clients);
}

-- The same keys, with another heartbeat.
same-fits :
    (client : String) (st old : ClientState) (r : ClientRegistry)
    → lookup client r.active_clients ≡ some old
    → st.spec_keys ≡ old.spec_keys
    → (k : String)
    → count_of k r.spec_counts + seen_before k client (lookup client r.active_clients)
      ≡ count_of k r.spec_counts + seen_by k client st
unfolding seen_by
same-fits client st old r at same k = rw (at, same) refl

-- What a registered client adds to the counts, and what its old keys no longer do.
new-fits :
    (client : String) (st : ClientState) (r : ClientRegistry)
    → lookup client r.active_clients ≡ none
    → (k : String)
    → count_of k (
          if is_internal client
          then r.spec_counts
          else apply_spec_delta r.spec_counts st.spec_keys [])
        + seen_before k client (lookup client r.active_clients)
      ≡ count_of k r.spec_counts + seen_by k client st
unfolding seen_by occurs
new-fits client st r at k = elim (Bool-cases (is_internal client)) [
  | inl e ↦ rw (at, e) refl
  | inr e ↦ rw (at, e) (omega (arith, count_of-apply_spec_delta k r.spec_counts st.spec_keys []))
]

-- A key that a client sees is counted.
seen_counts :
    (client : String) (old : ClientState) (r : ClientRegistry)
    → RegistryInv r
    → lookup client r.active_clients ≡ some old
    → is_internal client ≡ false
    → (k : String) → occurs k old.spec_keys ≤ count_of k r.spec_counts
unfolding seen_by
seen_counts client old r i at e k =
    let total = clients_seeing-delete k client r.active_clients i.unique in
    let its : seen_before k client (lookup client r.active_clients) ≡ occurs k old.spec_keys =
      rw (at, e) refl in
    omega (arith, total, its, i.counts k)

changed-fits :
    (client : String) (st old : ClientState) (r : ClientRegistry)
    → RegistryInv r
    → lookup client r.active_clients ≡ some old
    → AtMostOnce st.spec_keys
    → (k : String)
    → let d = diff_keys st.spec_keys old.spec_keys in
      count_of k
          (if is_internal client then r.spec_counts else apply_spec_delta r.spec_counts d.0 d.1)
        + seen_before k client (lookup client r.active_clients)
      ≡ count_of k r.spec_counts + seen_by k client st
unfolding seen_by
changed-fits client st old r i at once k = elim (Bool-cases (is_internal client)) [
  | inl e ↦ rw (at, e) refl
  | inr e ↦
      let (add, remove) = diff_keys st.spec_keys old.spec_keys in
      let (a, d) = occurs-diff_keys k st.spec_keys old.spec_keys in
      let new = occurs-AtMostOnce k st.spec_keys once in
      let was = occurs-AtMostOnce k old.spec_keys (i.distinct client old at) in
      let enough = seen_counts client old r i at e k in
      let total = count_of-apply_spec_delta k r.spec_counts add remove in rw (at, e) (ground arith)
]

removed-fits :
    (client : String) (old : ClientState) (r : ClientRegistry)
    → RegistryInv r
    → lookup client r.active_clients ≡ some old
    → (k : String)
    → count_of k (
        if is_internal client
        then r.spec_counts
        else apply_spec_delta r.spec_counts [] old.spec_keys)
      ≡ clients_seeing k (delete client r.active_clients)
unfolding seen_by occurs
removed-fits client old r i at k =
    let total = clients_seeing-delete k client r.active_clients i.unique in
    elim (Bool-cases (is_internal client)) [
      | inl e ↦
          let its : seen_before k client (lookup client r.active_clients) ≡ 0 = rw (at, e) refl in
          rw e (omega (arith, total, its, i.counts k))
      | inr e ↦
          let its : seen_before k client (lookup client r.active_clients) ≡ occurs k old.spec_keys =
            rw (at, e) refl in
          let after = count_of-apply_spec_delta k r.spec_counts [] old.spec_keys in
          rw e (omega (arith, total, its, i.counts k, after))
    ]

register_found-RegistryInv :
    (now : ℕ) (client : String) (pid : ℕ) (tags : List String) (server : String)
    (visible : List String) (o : Option ClientState) (r : ClientRegistry)
    → RegistryInv r
    → AtMostOnce visible
    → lookup client r.active_clients ≡ o
    → RegistryInv (register_found now client pid tags server visible o r).1
unfolding register_found
register_found-RegistryInv now client pid tags server visible none r i once at =
    let st : ClientState = fresh_state now pid tags server visible in
    let counts =
      if is_internal client then r.spec_counts else apply_spec_delta r.spec_counts visible [] in
    put-RegistryInv client st r counts i once (new-fits client st r at)
register_found-RegistryInv now client pid tags server visible (some old) r i once at =
    let changed_selector = not (tags_equal old.tags tags) || not (str_eq old.server server) in
    elim (Bool-cases (old.pid == pid && not changed_selector)) [
      | inl e ↦
          let st = record old { last_heartbeat = now } in
          rw e (
            put-RegistryInv client st r r.spec_counts i (i.distinct client old at)
              (same-fits client st old r at refl))
      | inr e ↦
          let st : ClientState = fresh_state now pid tags server visible in
          let d = diff_keys visible old.spec_keys in
          let counts =
            if is_internal client then r.spec_counts else apply_spec_delta r.spec_counts d.0 d.1 in
          rw e (put-RegistryInv client st r counts i once (changed-fits client st old r i at once))
    ]

pub register-RegistryInv :
    (now : ℕ) (client : String) (pid : ℕ) (tags : List String) (server : String)
    (visible : List String) (r : ClientRegistry)
    → RegistryInv r
    → AtMostOnce visible
    → RegistryInv (register now client pid tags server visible r).1
unfolding register
register-RegistryInv now client pid tags server visible r i once =
    let o = lookup client r.active_clients in
    let kept = register_found-RegistryInv now client pid tags server visible o r i once refl in
    elim (Bool-cases (str_eq client "")) [
      | inl a ↦ rw a i
      | inr a ↦ elim (Bool-cases (pid == 0)) [
        | inl b ↦ rw (a, b) i
        | inr b ↦ elim (Bool-cases (not (str_eq server "") && not (length tags == 0))) [
          | inl c ↦ rw (a, b, c) i
          | inr c ↦ rw (a, b, c) kept
        ]
      ]
    ]

unregister_found-RegistryInv :
    (client : String) (o : Option ClientState) (r : ClientRegistry)
    → RegistryInv r
    → lookup client r.active_clients ≡ o
    → RegistryInv (unregister_found client o r).1
unfolding unregister_found
unregister_found-RegistryInv client none r i at = i
unregister_found-RegistryInv client (some old) r i at = record {
  unique = UniqueNames-delete client r.active_clients i.unique;
  distinct = λ c st e. i.distinct c st (ground (arith, lookup-delete client c r.active_clients));
  counts = λ k. removed-fits client old r i at k;
}

pub unregister-RegistryInv :
    (client : String) (r : ClientRegistry) → RegistryInv r → RegistryInv (unregister client r).1
unfolding unregister
unregister-RegistryInv client r i = elim (Bool-cases (str_eq client "")) [
  | inl e ↦ rw e i
  | inr e ↦ rw e (unregister_found-RegistryInv client (lookup client r.active_clients) r i refl)
]

pub load_client_state-RegistryInv :
    (now : ℕ) (client : String) (r : ClientRegistry)
    → RegistryInv r
    → RegistryInv (load_client_state now client r).1
unfolding load_client_state load_found
load_client_state-RegistryInv now client r i = elim (Bool-cases (str_eq client "")) [
  | inl e ↦ rw e i
  | inr e ↦ elim (Option-cases (lookup client r.active_clients)) [
    | inl n ↦ rw (e, n) i
    | inr (old, at) ↦
        let st = record old { last_heartbeat = now } in
        rw (e, at)
          (put-RegistryInv client st r r.spec_counts i (i.distinct client old at)
            (same-fits client st old r at refl))
  ]
]
