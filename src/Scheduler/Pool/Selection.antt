-- ===== src/Scheduler/Pool/Selection.antt =====
-- The choice of `findReadyInstanceLocked` against its description: the least loaded of the
-- instances that can take a request, the first such in the order of the round robin.
use native.Mathlib.Nat.{add-zero, zero-add, add-suc, suc-add, mod-lt}
use native.Mathlib.Numerals.{add-one}
use mcpv.Base.{
  ℕ, zero, suc, ◌+◌, ◌%◌, ◌≤◌, ◌<◌, ◌≡◌, refl, inl, inr, ◌&&◌, Bool, true, false, Option, none,
  some, length, get_or, ltb, ◌==◌, if◌then◌else◌, Bool-cases, arith, below-suc, member,
  member-get_or, position_of, reach_round,
}
use mcpv.Domain.Instance.{is_routable}
use mcpv.Scheduler.State.{PoolState}
use mcpv.Scheduler.Pool.{
  state_of, busy_count_of, Best, improves, consider, scan, find_ready_instance, pick,
}

-- A round sees an instance that is available or not, under a load, at a position.
module _ (free : ℕ → Bool) (load pos : ℕ → ℕ) where
  -- `best` is right for the first `m` rounds: found at round `w`, available, strictly less loaded
  -- than all available ones before it, and not more than any after.
  abbrev pub IsBest : ℕ → Best → Type 0
  IsBest m none = (i : ℕ) → i < m → free i ≡ true → ⊥
  IsBest m (some (idx, b)) =
      (w : ℕ) × (w < m)
      × (idx ≡ pos w)
      × (b ≡ load w)
      × (free w ≡ true)
      × ((i : ℕ) → i < m → free i ≡ true → load w ≤ load i)
      × ((i : ℕ) → i < w → free i ≡ true → load w < load i)

  skip-IsBest : (m : ℕ) (best : Best) → free m ≡ false → IsBest m best → IsBest (suc m) best
  skip-IsBest m none e h = below-suc (λ i. free i ≡ true → ⊥) m h (λ t. cc)
  skip-IsBest m (some (idx, b)) e (w, lt, p, l, f, least, first) = (
    w,
    omega arith,
    p,
    l,
    f,
    below-suc (λ i. free i ≡ true → load w ≤ load i) m least (λ t. absurd (cc)),
    first,
  )

  keep-IsBest :
      (m idx b : ℕ)
      → improves (load m) (some (idx, b)) ≡ false
      → IsBest m (some (idx, b))
      → IsBest (suc m) (some (idx, b))
  keep-IsBest m idx b e (w, lt, p, l, f, least, first) = (
    w,
    omega arith,
    p,
    l,
    f,
    below-suc (λ i. free i ≡ true → load w ≤ load i) m least (λ t. ground arith),
    first,
  )

  take-IsBest :
      (m : ℕ) (best : Best)
      → free m ≡ true
      → improves (load m) best ≡ true
      → IsBest m best
      → IsBest (suc m) (some (pos m, load m))
  take-IsBest m none f e h = (
    m,
    omega arith,
    refl,
    refl,
    f,
    below-suc (λ i. free i ≡ true → load m ≤ load i) m (λ i lt t. absurd (h i lt t))
        (λ t. omega arith),
    λ i lt t. absurd (h i lt t),
  )
  take-IsBest m (some (idx, b)) f e (w, lt, p, l, fw, least, first) =
      let less : (i : ℕ) → i < m → free i ≡ true → load m < load i =
        λ i lt t. ground (arith, least i lt t) in
      (
        m,
        omega arith,
        refl,
        refl,
        f,
        below-suc (λ i. free i ≡ true → load m ≤ load i) m (λ i lt t. omega (arith, less i lt t))
            (λ t. omega arith),
        less,
      )

  -- A load of 0 cannot be improved on: what is best of some rounds is best of any more.
  stop-IsBest :
      (m n idx b : ℕ)
      → m ≤ n
      → (b == 0) ≡ true
      → IsBest m (some (idx, b))
      → IsBest n (some (idx, b))
  stop-IsBest m n idx b h e (w, lt, p, l, f, least, first) =
      let z : load w ≡ 0 = ground arith in
      (w, omega arith, p, l, f, λ i lt t. omega (arith, z), first)

-- The instance can take one more request.
abbrev pub is_available : PoolState → ℕ → Bool
is_available s h = is_routable (state_of s h) && ltb (busy_count_of s h) s.spec.max_concurrent

abbrev pub position : PoolState → ℕ → ℕ → ℕ
position s start i = (start + i) % length s.instances

-- The instance that round `i` looks at.
abbrev pub visited : PoolState → ℕ → ℕ → ℕ
visited s start i = get_or s.instances (position s start i) 0

abbrev pub Picked : PoolState → ℕ → ℕ → Best → Type 0
Picked s start =
    IsBest (λ i. is_available s (visited s start i)) (λ i. busy_count_of s (visited s start i))
      (position s start)

-- What a round does, by the two tests that matter.
consider_cases :
    (s : PoolState) (idx : ℕ) (best : Best)
    → let h = get_or s.instances idx 0 in
      let b = busy_count_of s h in
      consider s idx best ≡ (
        if is_available s h
        then (if improves b best then (some (idx, b), b == 0) else (best, false))
        else (best, false))
unfolding consider
consider_cases s idx best = ground arith

-- A round keeps the choice right, and a break means that it is right for all rounds to come.
abbrev Round : PoolState → ℕ → ℕ → Best × Bool → Type 0
Round s start i r =
    Picked s start (suc i) r.0 × (r.1 ≡ true → (n : ℕ) → suc i ≤ n → Picked s start n r.0)

Round-by_tests :
    (s : PoolState) (start i : ℕ) (best : Best)
    → Picked s start i best
    → (f g : Bool) → is_available s (visited s start i) ≡ f
    → improves (busy_count_of s (visited s start i)) best ≡ g
    → let b = busy_count_of s (visited s start i) in
      Round s start i (
        if f
        then (if g then (some (position s start i, b), b == 0) else (best, false))
        else (best, false))
Round-by_tests s start i best h false g e e' = (skip-IsBest _ _ _ i best e h, λ stop. cc)
Round-by_tests s start i best h true true e e' =
    let taken = take-IsBest _ _ _ i best e e' h in
    (taken, λ stop n le. stop-IsBest _ _ _ (suc i) n _ _ le stop taken)
Round-by_tests s start i none h true false e e' = absurd (cc)
Round-by_tests s start i (some (idx, b)) h true false e e' =
    (keep-IsBest _ _ _ i idx b e' h, λ stop. cc)

consider-Round :
    (s : PoolState) (start i : ℕ) (best : Best)
    → Picked s start i best
    → Round s start i (consider s (position s start i) best)
consider-Round s start i best h =
    rw (consider_cases s (position s start i) best) (Round-by_tests s start i best h _ _ refl refl)

scan-Picked :
    (s : PoolState) (start k i : ℕ) (best : Best)
    → Picked s start i best
    → Picked s start (i + k) (scan s start k i best)
unfolding scan
scan-Picked s start zero i best h = rw add-zero h
scan-Picked s start (suc k) i best h = elim (Bool-cases (consider s (position s start i) best).1) [
  | inl e ↦ rw e ((consider-Round s start i best h).1 e (i + suc k) (omega arith))
  | inr e ↦
      rw (e, add-one, add-suc, ← suc-add)
        (scan-Picked s start k (suc i) _ (consider-Round s start i best h).0)
]

-- What the caller is told and what has changed, against the description.
abbrev pub Selects : PoolState → Option ℕ × PoolState → Type 0
Selects s (none, s') =
    ((h : ℕ) → member h s.instances ≡ true → is_available s h ≡ false)
    × (s' ≡ record s { rr_index = s'.rr_index })
Selects s (some h, s') =
    let start = s.rr_index % length s.instances in
    (member h s.instances ≡ true)
    × (is_available s h ≡ true)
    × ((k : ℕ)
        → member k s.instances ≡ true
        → is_available s k ≡ true
        → busy_count_of s h ≤ busy_count_of s k)
    × ((w : ℕ) × (h ≡ visited s start w)
        × ((i : ℕ)
            → i < w
            → is_available s (visited s start i) ≡ true
            → busy_count_of s h < busy_count_of s (visited s start i))
        × (s' ≡ record s { rr_index = (position s start w + 1) % length s.instances }))

-- Every instance of the pool has its round.
round_of :
    (s : PoolState) (start k : ℕ)
    → start < length s.instances
    → member k s.instances ≡ true
    → (i : ℕ) × (i < length s.instances) × (visited s start i ≡ k)
round_of s start k h m =
    let (j, lt, at) = position_of k s.instances m in
    let (i, li, e) = reach_round (length s.instances) start j h lt in (i, li, rw e at)

pick-Selects :
    (s : PoolState) (best : Best)
    → 0 < length s.instances
    → Picked
        (record s { rr_index = s.rr_index % length s.instances })
        (s.rr_index % length s.instances)
        (length s.instances)
        best
    → Selects s (pick (record s { rr_index = s.rr_index % length s.instances }) best)
pick-Selects s none pos h = (
  λ k m.
      let (i, lt, e) = round_of s (s.rr_index % length s.instances) k (mod-lt s.rr_index pos) m in
      elim (Bool-cases (is_available s k)) [ inl t ↦ absurd (h i lt (rw e t)) | inr t ↦ t ],
  refl,
)
pick-Selects s (some (idx, b)) pos (w, lt, p, l, f, least, first) = rw p (
  member-get_or s.instances _ (mod-lt _ pos),
  f,
  λ k m t.
      let (i, li, e) = round_of s (s.rr_index % length s.instances) k (mod-lt s.rr_index pos) m in
      rw e at (least i li (rw e t)),
  (w, refl, first, refl),
)

no_member : (s : PoolState) (h : ℕ) → length s.instances ≡ 0 → member h s.instances ≡ true → ⊥
no_member s h e m = let (j, lt, at) = position_of h s.instances m in omega arith

-- An instance that `find_ready_instance` returns is in the pool, routable and below
-- `max_concurrent`; no such instance has fewer requests, and those that come before it in the
-- round-robin order have more; the next search starts behind it. It returns none only when no
-- instance of the pool is routable and below `max_concurrent`. Nothing else of the pool changes.
pub find_ready_instance-Selects : (s : PoolState) → Selects s (find_ready_instance s)
unfolding find_ready_instance
find_ready_instance-Selects s = elim (Bool-cases (length s.instances == 0)) [
  | inl e ↦ rw e (λ h m. absurd (no_member s h (ground arith) m), refl)
  | inr e ↦ rw e (
      pick-Selects s _ (ground arith) (
        rw zero-add at (
          scan-Picked (record s { rr_index = s.rr_index % length s.instances })
            (s.rr_index % length s.instances) (length s.instances) 0 none (λ i lt t. omega arith))))
]
