-- ===== src/Registry/Starts.antt =====
-- internal/app/controlplane/registry: which keys `activateSpecs` starts after a change of clients.
use mcpv.Base.{
  ℕ, ◌≤◌, ◌≡◌, refl, ap, ◌∙◌, inl, inr, String, Bool, true, false, not, ◌&&◌, ◌||◌, none, List, [],
  ◌∷◌, ◌==◌, ltb, str_eq, eq_iff, length, has, occurs, AtMostOnce, keep_if, keys, has-keys,
  has-sort_strings, sort_strings, lookup, Bool-cases, Option-cases, arith,
}
use mcpv.Registry.Visibility.{Specs}
use mcpv.Registry.Clients.{
  ClientRegistry, is_internal, count_of, apply_spec_delta, register_found, changed, diff_counts,
  filter_overlap, skip_common, drop_text, set_of, apply_catalog_update, reassign,
}
use mcpv.Registry.Counts.{clients_seeing, has-set_of, count_of-apply_spec_delta, occurs-AtMostOnce}
use mcpv.Registry.Invariant.{RegistryInv}
use mcpv.Registry.Activation.{specs_to_start}
use mcpv.Registry.Updates.{reassign-counts}

pub has-keep_if :
    (k : String) (p : String → Bool) (xs : List String) → has k (keep_if p xs) ≡ (has k xs && p k)
unfolding has
has-keep_if k p [] = refl
has-keep_if k p (x ∷ xs) = elim (Bool-cases (str_eq x k)) [
  | inl e ↦
      let same : x ≡ k = ground (arith, eq_iff x k) in
      rw same (ground (arith, has-keep_if k p xs, eq_iff k k))
  | inr e ↦ ground (arith, has-keep_if k p xs)
]

-- A key is started just if one client sees it.
pub has-specs_to_start :
    (k : String) (counts : List (String × ℕ)) (ks : List String)
    → has k (specs_to_start counts ks) ≡ (has k ks && count_of k counts == 1)
unfolding specs_to_start
has-specs_to_start k counts ks =
    has-keep_if k (λ x. count_of x counts == 1) (sort_strings ks)
    ∙ ap (λ b. b && count_of k counts == 1) (has-sort_strings k ks)

-- When a client registers that was not there, and activates its specifications before any other
-- change of the counts, the keys that it sees and no other client saw are started and no others.
pub register-starts :
    (now : ℕ) (client : String) (pid : ℕ) (tags : List String) (server : String)
    (visible : List String) (r : ClientRegistry) (k : String)
    → RegistryInv r
    → AtMostOnce visible
    → lookup client r.active_clients ≡ none
    → is_internal client ≡ false
    → let (done, r') = register_found now client pid tags server visible none r in
      (done ≡ changed visible [] false)
      × (has k (specs_to_start r'.spec_counts visible)
          ≡ (has k visible && clients_seeing k r.active_clients == 0))
unfolding register_found occurs
register-starts now client pid tags server visible r k i once absent outside =
    let total = count_of-apply_spec_delta k r.spec_counts visible [] in
    let mine = occurs-AtMostOnce k visible once in
    let before = i.counts k in
    rw outside (
      refl,
      has-specs_to_start k (apply_spec_delta r.spec_counts visible []) visible ∙ ground arith,
    )

has-drop_text :
    (k x : String) (set : List String) → has k set ≡ false → has k (drop_text x set) ≡ false
unfolding drop_text
has-drop_text k x set e = has-keep_if k (λ y. not (str_eq y x)) set ∙ rw e refl

has-skip_common :
    (k : String) (activate set : List String)
    → has k set ≡ false
    → has k (skip_common activate set).0 ≡ has k activate
unfolding skip_common has
has-skip_common k [] set e = refl
has-skip_common k (x ∷ xs) set e = elim (Bool-cases (str_eq x k)) [
  | inl same ↦
      let at : x ≡ k = ground (arith, eq_iff x k) in
      let out : has x set ≡ false = rw at e in
      rw out (ap (λ b. str_eq x k || b) (has-skip_common k xs set e))
  | inr apart ↦ elim (Bool-cases (has x set)) [
    | inl held ↦ rw (held, apart) (has-skip_common k xs (drop_text x set) (has-drop_text k x set e))
    | inr free ↦ rw free (ap (λ b. str_eq x k || b) (has-skip_common k xs set e))
  ]
]

nothing_else : (k : String) (xs : List String) → has k xs ≡ false → (has k [] || has k xs) ≡ false
unfolding has
nothing_else k xs e = e

-- A key that is not to be stopped stays among those to be started.
has-filter_overlap :
    (k : String) (starts stops : List String)
    → has k stops ≡ false
    → has k (filter_overlap starts stops).0 ≡ has k starts
unfolding filter_overlap
has-filter_overlap k starts stops e = elim (Bool-cases (length starts == 0 || length stops == 0)) [
  | inl x ↦ rw x refl
  | inr x ↦
      rw x (
        has-skip_common k starts (set_of stops []) (has-set_of k stops [] ∙ nothing_else k stops e))
]

counted_key : (k : String) (m : List (String × ℕ)) → 1 ≤ count_of k m → has k (keys m) ≡ true
unfolding count_of
counted_key k m le =
    has-keys k m
    ∙ elim (Option-cases (lookup k m)) [ inl e ↦ absurd (ground arith) | inr (n, e) ↦ rw e refl ]

-- A catalog update that makes a key visible to two or more clients, when none saw it before,
-- reports the key as one to start, and `activateSpecs` does not start it.
pub shared_key_unstarted :
    (specs : Specs) (server_keys : List (String × String)) (r : ClientRegistry) (k : String)
    → RegistryInv r
    → clients_seeing k r.active_clients ≡ 0
    → let ((starts, stops), altered, r') = apply_catalog_update specs server_keys r in
      2 ≤ clients_seeing k r'.active_clients
      → (has k starts ≡ true) × (has k (specs_to_start r'.spec_counts starts) ≡ false)
unfolding apply_catalog_update diff_counts
shared_key_unstarted specs server_keys r k i unseen two =
    let counts = (reassign specs server_keys r.active_clients).1 in
    let after = reassign-counts specs server_keys r.active_clients k in
    let before = i.counts k in
    let starts =
      keep_if (λ x. ltb 0 (count_of x counts) && count_of x r.spec_counts == 0) (keys counts) in
    let stops =
      keep_if (λ x. ltb 0 (count_of x r.spec_counts) && count_of x counts == 0)
        (keys r.spec_counts) in
    let held = counted_key k counts (omega (arith, after, two)) in
    let begun : has k starts ≡ true =
      has-keep_if k (λ x. ltb 0 (count_of x counts) && count_of x r.spec_counts == 0) (keys counts)
      ∙ ground arith in
    let not_ended : has k stops ≡ false =
      has-keep_if k (λ x. ltb 0 (count_of x r.spec_counts) && count_of x counts == 0)
        (keys r.spec_counts)
      ∙ ground arith in
    (
      has-filter_overlap k starts stops not_ended ∙ begun,
      has-specs_to_start k counts (filter_overlap starts stops).0 ∙ ground arith,
    )
