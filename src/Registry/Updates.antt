-- ===== src/Registry/Updates.antt =====
-- internal/app/controlplane/registry: the counts after a catalog update, and over all sequences of
-- calls.
use mcpv.Base.{
  ℕ, ◌≡◌, refl, sym, subst, ◌∙◌, inl, inr, String, true, none, some, List, [], ◌∷◌, if◌then◌else◌,
  str_eq, eq_iff, AtMostOnce, lookup, Bool-cases, Option-cases, arith,
}
use mcpv.Registry.Visibility.{Specs, visible_spec_keys, tags_equal}
use mcpv.Registry.Clients.{
  ClientState, ClientRegistry, new_client_registry, is_internal, count_of, register, unregister,
  reassign, apply_catalog_update, load_client_state,
}
use mcpv.Registry.Counts.{seen_by, clients_seeing, UniqueNames, count_of-raise_all}
use mcpv.Registry.Invariant.{
  RegistryInv, new-RegistryInv, register-RegistryInv, unregister-RegistryInv,
  load_client_state-RegistryInv, visible_spec_keys-AtMostOnce,
}

tags_equal-eq : (xs ys : List String) → tags_equal xs ys ≡ true → xs ≡ ys
unfolding tags_equal
tags_equal-eq [] [] e = refl
tags_equal-eq [] (y ∷ ys) e = absurd (cc)
tags_equal-eq (x ∷ xs) [] e = absurd (cc)
tags_equal-eq (x ∷ xs) (y ∷ ys) e = ground (arith, eq_iff x y, tags_equal-eq xs ys)

-- The state that a client has after an update.
abbrev updated : Specs → List (String × String) → ClientState → ClientState
updated specs server_keys old =
    let next = (visible_spec_keys specs server_keys old.tags old.server).0 in
    if tags_equal old.spec_keys next then old else record old { spec_keys = next }

updated-spec_keys :
    (specs : Specs) (server_keys : List (String × String)) (old : ClientState)
    → (updated specs server_keys old).spec_keys
      ≡ (visible_spec_keys specs server_keys old.tags old.server).0
updated-spec_keys specs server_keys old =
    let next = (visible_spec_keys specs server_keys old.tags old.server).0 in
    elim (Bool-cases (tags_equal old.spec_keys next)) [
      | inl e ↦ rw e (tags_equal-eq old.spec_keys next e)
      | inr e ↦ rw e refl
    ]

reassign-lookup :
    (specs : Specs) (server_keys : List (String × String)) (m : List (String × ClientState))
    (client : String)
    → lookup client (reassign specs server_keys m).0
      ≡ (elim (lookup client m) [ none ↦ none | some old ↦ some (updated specs server_keys old) ])
unfolding reassign lookup
reassign-lookup specs server_keys [] client = refl
reassign-lookup specs server_keys ((c, old) ∷ m) client = elim (Bool-cases (str_eq c client)) [
  | inl e ↦ rw e refl
  | inr e ↦ rw e (reassign-lookup specs server_keys m client)
]

nothing_counted : (k : String) → count_of k [] ≡ clients_seeing k []
unfolding count_of clients_seeing lookup
nothing_counted k = refl

pub reassign-counts :
    (specs : Specs) (server_keys : List (String × String)) (m : List (String × ClientState))
    (k : String)
    → count_of k (reassign specs server_keys m).1
      ≡ clients_seeing k (reassign specs server_keys m).0
unfolding reassign clients_seeing seen_by
reassign-counts specs server_keys [] k = nothing_counted k
reassign-counts specs server_keys ((c, old) ∷ m) k =
    let next = (visible_spec_keys specs server_keys old.tags old.server).0 in
    let counts = (reassign specs server_keys m).1 in
    elim (Bool-cases (is_internal c)) [
      | inl e ↦ rw e (omega (arith, reassign-counts specs server_keys m k))
      | inr e ↦
          let keys = updated-spec_keys specs server_keys old in
          let ih = reassign-counts specs server_keys m k in
          rw (e, keys) (omega (arith, ih, count_of-raise_all k next counts))
    ]

reassign-UniqueNames :
    (specs : Specs) (server_keys : List (String × String)) (m : List (String × ClientState))
    → UniqueNames m
    → UniqueNames (reassign specs server_keys m).0
unfolding reassign UniqueNames
reassign-UniqueNames specs server_keys [] u = tt
reassign-UniqueNames specs server_keys ((c, old) ∷ m) (absent, u) = (
  reassign-lookup specs server_keys m c ∙ rw absent refl,
  reassign-UniqueNames specs server_keys m u,
)

pub apply_catalog_update-RegistryInv :
    (specs : Specs) (server_keys : List (String × String)) (r : ClientRegistry)
    → RegistryInv r
    → RegistryInv (apply_catalog_update specs server_keys r).2
unfolding apply_catalog_update
apply_catalog_update-RegistryInv specs server_keys r i = record {
  unique = reassign-UniqueNames specs server_keys r.active_clients i.unique;
  distinct = λ client st e. elim (Option-cases (lookup client r.active_clients)) [
    | inl n ↦
        let gone : lookup client (reassign specs server_keys r.active_clients).0 ≡ none =
          reassign-lookup specs server_keys r.active_clients client ∙ rw n refl in
        absurd (cc)
    | inr (old, at) ↦
        let now : lookup client (reassign specs server_keys r.active_clients).0
            ≡ some (updated specs server_keys old) =
          reassign-lookup specs server_keys r.active_clients client ∙ rw at refl in
        let its : updated specs server_keys old ≡ st = cc in
        let keys = sym (updated-spec_keys specs server_keys old) in
        let once = visible_spec_keys-AtMostOnce specs server_keys old.tags old.server in
        subst (λ (q : ClientState). AtMostOnce q.spec_keys) its (subst AtMostOnce keys once)
  ];
  counts = reassign-counts specs server_keys r.active_clients;
}

-- The sections under the registry's lock, with any arguments.
pub data Change : ClientRegistry → ClientRegistry → Type 0 where
  registers :
      (now : ℕ) (client : String) (pid : ℕ) (tags : List String) (server : String) (specs : Specs)
      (server_keys : List (String × String)) {r : ClientRegistry}
      → Change r
          (register now client pid tags server
            (visible_spec_keys specs server_keys tags server).0
            r).1
  unregisters : (client : String) {r : ClientRegistry} → Change r (unregister client r).1
  loads :
      (now : ℕ) (client : String) {r : ClientRegistry} → Change r (load_client_state now client r).1
  updates :
      (specs : Specs) (server_keys : List (String × String)) {r : ClientRegistry}
      → Change r (apply_catalog_update specs server_keys r).2

pub data Changes : ClientRegistry → Type 0 where
  empty : Changes new_client_registry
  then_change : {r r' : ClientRegistry} → Changes r → Change r r' → Changes r'

Change-RegistryInv : (r r' : ClientRegistry) → Change r r' → RegistryInv r → RegistryInv r'
Change-RegistryInv r r' (registers now client pid tags server specs server_keys) i =
    register-RegistryInv now client pid tags server
      (visible_spec_keys specs server_keys tags server).0 r i
      (visible_spec_keys-AtMostOnce specs server_keys tags server)
Change-RegistryInv r r' (unregisters client) i = unregister-RegistryInv client r i
Change-RegistryInv r r' (loads now client) i = load_client_state-RegistryInv now client r i
Change-RegistryInv r r' (updates specs server_keys) i =
    apply_catalog_update-RegistryInv specs server_keys r i

-- After any sequence of registrations, removals, lookups and catalog updates, whatever their
-- arguments and interleaving, no client has a key twice and the count of each key is the number of
-- active clients, the internal one aside, that see it.
pub Changes-RegistryInv : (r : ClientRegistry) → Changes r → RegistryInv r
Changes-RegistryInv r empty = new-RegistryInv
Changes-RegistryInv r (then_change {r = q} before c) =
    Change-RegistryInv q r c (Changes-RegistryInv q before)
