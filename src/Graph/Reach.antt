-- ===== src/Graph/Reach.antt =====
-- What the search of a graph decides.
use eventframed.Prelude.{
  ℕ, zero, suc, ◌+◌, ◌≤◌, String, Bool, true, false, ◌||◌, none, some, List, [], ◌∷◌, ◌++◌, ◌≡◌,
  ◌↔◌, ◌⊎◌, inl, inr, refl, sym, subst, arith, str_eq, eq_iff, eq_refl, str_mem, length,
  length-append, Bool-cases, Option-cases, if◌then◌else◌,
}
use eventframed.Prelude.Dict.{Dict, get}
use eventframed.Graph.{or_nil}
use eventframed.Graph.Search.{scan, search, names, answered, search_all, reachable}

abbrev pub Near : Dict (List String) → String → String → Type 0
Near adjacency u v = str_mem v (or_nil (get u adjacency)) ≡ true

-- A walk of at least one step.
pub data Walk (adjacency : Dict (List String)) (u : String) : String → Type 0 where
  first : {v : String} → Near adjacency u v → Walk adjacency u v
  next : {v w : String} → Walk adjacency u v → Near adjacency v w → Walk adjacency u w

pub str_mem-append :
    (x : String) (xs ys : List String) → str_mem x (xs ++ ys) ≡ (str_mem x xs || str_mem x ys)
str_mem-append x [] ys = refl
str_mem-append x (y ∷ xs) ys = ground (arith, str_mem-append x xs ys)

-- The names that the search has not come to yet.
unseen : List String → List String → ℕ
unseen seen [] = 0
unseen seen (x ∷ xs) = if str_mem x seen then unseen seen xs else suc (unseen seen xs)

unseen-le-length : (seen xs : List String) → unseen seen xs ≤ length xs
unfolding unseen
unseen-le-length seen [] = omega arith
unseen-le-length seen (x ∷ xs) = ground (arith, unseen-le-length seen xs)

unseen-cons_le : (x : String) (seen xs : List String) → unseen (x ∷ seen) xs ≤ unseen seen xs
unfolding unseen
unseen-cons_le x seen [] = omega arith
unseen-cons_le x seen (y ∷ xs) = ground (arith, unseen-cons_le x seen xs)

unseen-cons_lt :
    (x : String) (seen xs : List String)
    → str_mem x xs ≡ true
    → str_mem x seen ≡ false
    → suc (unseen (x ∷ seen) xs) ≤ unseen seen xs
unfolding unseen
unseen-cons_lt x seen [] h k = absurd (ground arith)
unseen-cons_lt x seen (y ∷ xs) h k =
    ground (arith, eq_iff x y, eq_iff y x, unseen-cons_le x seen xs, unseen-cons_lt x seen xs)

-- What one pass over the neighbours `ns` does, if it does not meet `to`.
record Passed (to : String) (ns seen queue seen' queue' : List String) : Type 0 where
  kept : (v : String) → str_mem v seen ≡ true → str_mem v seen' ≡ true
  waiting : (v : String) → str_mem v queue ≡ true → str_mem v queue' ≡ true
  covered : (v : String) → str_mem v ns ≡ true → (str_mem v seen' ≡ true) × (str_eq v to ≡ false)
  fresh :
      (v : String) → str_mem v seen' ≡ true → (str_mem v seen ≡ true) ⊎ (str_mem v queue' ≡ true)
  queued : (v : String) → str_mem v queue' ≡ true → (str_mem v queue ≡ true) ⊎ (str_mem v ns ≡ true)

scan-none :
    (to : String) (ns seen queue : List String)
    → scan to ns seen queue ≡ none
    → str_mem to ns ≡ true
unfolding scan
scan-none to [] seen queue h = absurd (ground arith)
scan-none to (n ∷ ns) seen queue h =
    ground (arith, scan-none to ns seen queue, scan-none to ns (n ∷ seen) (queue ++ (n ∷ [])))

scan-Passed :
    (to : String) (ns seen queue : List String) {seen' queue' : List String}
    → scan to ns seen queue ≡ some (seen', queue')
    → Passed to ns seen queue seen' queue'
unfolding scan
scan-Passed to [] seen queue {seen'} {queue'} h =
    let same : seen ≡ seen' = ground arith in
    let same_queue : queue ≡ queue' = ground arith in
    record {
      kept = λ v k. rw (← same) k;
      waiting = λ v k. rw (← same_queue) k;
      covered = λ v k. absurd (ground arith);
      fresh = λ v k. inl (rw same k);
      queued = λ v k. inl (rw same_queue k);
    }
scan-Passed to (n ∷ ns) seen queue {seen'} {queue'} h = elim (Bool-cases (str_mem n seen)) [
  | inl old ↦
      let rest : Passed to ns seen queue seen' queue' =
        scan-Passed to ns seen queue (ground arith) in
      record {
        kept = rest.kept;
        waiting = rest.waiting;
        covered = λ v k. ground (arith, eq_iff n v, rest.kept v, rest.covered v);
        fresh = rest.fresh;
        queued = λ v k. ground (arith, rest.queued v k);
      }
  | inr new ↦
      let rest : Passed to ns (n ∷ seen) (queue ++ (n ∷ [])) seen' queue' =
        scan-Passed to ns (n ∷ seen) (queue ++ (n ∷ [])) (ground arith) in
      record {
        kept = λ v k. rest.kept v (ground arith);
        waiting = λ v k. rest.waiting v (rw str_mem-append (ground arith));
        covered = λ v k. ground (arith, eq_iff n v, rest.kept v, rest.covered v);
        fresh =
            λ v k. ground (arith, rest.fresh v k, rest.waiting v, str_mem-append v queue (n ∷ []));
        queued = λ v k. ground (arith, rest.queued v k, str_mem-append v queue (n ∷ []));
      }
]

-- Each name that a pass queues is one less to come to.
scan-unseen :
    (to : String) (ns seen queue all : List String) {seen' queue' : List String}
    → ((v : String) → str_mem v ns ≡ true → str_mem v all ≡ true)
    → scan to ns seen queue ≡ some (seen', queue')
    → unseen seen' all + length queue' ≤ unseen seen all + length queue
unfolding scan
scan-unseen to [] seen queue all sub h = ground arith
scan-unseen to (n ∷ ns) seen queue all {seen'} {queue'} sub h = elim (Bool-cases (str_mem n seen)) [
  | inl old ↦ scan-unseen to ns seen queue all (λ v k. sub v (ground arith)) (ground arith)
  | inr new ↦
      let rest =
        scan-unseen to ns (n ∷ seen) (queue ++ (n ∷ [])) all {seen' = seen'} {queue' = queue'}
          (λ v k. sub v (ground arith)) (ground arith) in
      omega (
        arith,
        rest,
        length-append queue (n ∷ []),
        unseen-cons_lt n seen all (sub n (ground (arith, eq_refl n))) new,
      )
]

Near-names :
    (adjacency : Dict (List String)) (u v : String)
    → Near adjacency u v
    → str_mem v (names adjacency) ≡ true
unfolding names get
Near-names [] u v h = cc
Near-names ((k, ns) ∷ adjacency) u v h =
    ground (arith, str_mem-append v ns (names adjacency), Near-names adjacency u v)

-- The search from `from` has come to `seen`, `queue` is still to be looked at, and `to` is not met.
record Front (adjacency : Dict (List String)) (from to : String) (seen queue : List String)
    : Type 0 where
  start : str_mem from seen ≡ true
  sound : (u : String) → str_mem u queue ≡ true → (u ≡ from) ⊎ Walk adjacency from u
  closed :
      (u v : String)
      → str_mem u seen ≡ true
      → Near adjacency u v
      → (str_mem u queue ≡ true) ⊎ ((str_mem v seen ≡ true) × (str_eq v to ≡ false))

module _ (adjacency : Dict (List String)) (from to : String) where
  -- What the answer of the search means.
  abbrev Means : Bool → Type 0
  Means true = Walk adjacency from to
  Means false = ¬ Walk adjacency from to

  step-Walk :
      (u v : String)
      → (u ≡ from) ⊎ Walk adjacency from u
      → Near adjacency u v
      → Walk adjacency from v
  step-Walk u v (inl same) h = first (subst (λ x. Near adjacency x v) same h)
  step-Walk u v (inr walk) h = next walk h

  Front-scan :
      (current : String) (seen queue : List String) {seen' queue' : List String}
      → Front adjacency from to seen (current ∷ queue)
      → scan to (or_nil (get current adjacency)) seen queue ≡ some (seen', queue')
      → Front adjacency from to seen' queue'
  Front-scan current seen queue {seen'} {queue'} front h =
      let p : Passed to (or_nil (get current adjacency)) seen queue seen' queue' =
        scan-Passed to _ seen queue h in
      let current_walk = front.sound current (ground (arith, eq_refl current)) in
      record {
        start = p.kept from front.start;
        sound = λ u k. elim (p.queued u k) [
          | inl old ↦ front.sound u (ground arith)
          | inr near ↦ inr (step-Walk current u current_walk near)
        ];
        closed = λ u v k near. elim (p.fresh u k) [
          | inr waits ↦ inl waits
          | inl old ↦ elim (front.closed u v old near) [
            | inr covered ↦ inr (p.kept v covered.0, covered.1)
            | inl waits ↦ elim (Bool-cases (str_eq current u)) [
              | inl same ↦ inr (
                  p.covered v
                    (subst (λ x. Near adjacency x v) (sym ((eq_iff current u).0 same)) near))
              | inr differs ↦ inl (p.waiting u (ground arith))
            ]
          ]
        ];
      }

  -- With an empty queue no walk leads out of what has been seen.
  closed-Walk :
      (seen : List String) {v : String}
      → Front adjacency from to seen []
      → Walk adjacency from v
      → (str_mem v seen ≡ true) × (str_eq v to ≡ false)
  closed-Walk seen {v} front (first h) = ground (arith, front.closed from v front.start h)
  closed-Walk seen {v} front (next {v = u} walk h) =
      let (old, _) = closed-Walk seen front walk in ground (arith, front.closed u v old h)

  search-Means :
      (fuel : ℕ) (seen queue : List String)
      → Front adjacency from to seen queue
      → unseen seen (names adjacency) + length queue ≤ fuel
      → (b : Bool) × (search fuel adjacency to seen queue ≡ some b) × Means b
  unfolding search
  search-Means zero seen [] front h =
      (false, refl, λ walk. cc ((closed-Walk seen front walk).1, eq_refl to))
  search-Means (suc fuel) seen [] front h =
      (false, refl, λ walk. cc ((closed-Walk seen front walk).1, eq_refl to))
  search-Means zero seen (current ∷ queue) front h = absurd (omega arith)
  search-Means (suc fuel) seen (current ∷ queue) front h =
      elim (Option-cases (scan to (or_nil (get current adjacency)) seen queue)) [
        | inl found ↦ (
          true,
          rw (found, search) refl,
          step-Walk current to (front.sound current (ground (arith, eq_refl current)))
              (scan-none to _ seen queue found),
        )
        | inr ((seen', queue'), passed) ↦
            let less =
              scan-unseen to (or_nil (get current adjacency)) seen queue (names adjacency)
                (λ v k. Near-names adjacency current v k) passed in
            let (b, e, means) =
              search-Means fuel seen' queue' (Front-scan current seen queue front passed)
                (omega (arith, less)) in
            (b, rw (passed, search) e, means)
      ]

  Front-start : Front adjacency from to (from ∷ []) (from ∷ [])
  Front-start = record {
    start = ground (arith, eq_refl from);
    sound = λ u k. inl (ground (arith, eq_iff from u));
    closed = λ u v k near. inl k;
  }

  search_all-Means : (b : Bool) × (search_all adjacency from to ≡ some b) × Means b
  unfolding search_all
  search_all-Means =
      search-Means (suc (length (names adjacency))) (from ∷ []) (from ∷ []) Front-start
        (omega (arith, unseen-le-length (from ∷ []) (names adjacency)))

  decided :
      (b : Bool)
      → search_all adjacency from to ≡ some b
      → Means b
      → (search_all adjacency from to ≡ some (reachable adjacency from to))
        × ((reachable adjacency from to ≡ true) ↔ Walk adjacency from to)
  unfolding reachable answered
  decided true e walk = (rw e refl, (λ _. walk, λ _. rw e refl))
  decided false e none_leads = (rw e refl, (λ h. cc (e, h), λ walk. absurd (none_leads walk)))

  -- The search of `reachable` always ends, and it says whether a walk of at least one step leads
  -- from `from` to `to`.
  pub search_all-decides :
      (search_all adjacency from to ≡ some (reachable adjacency from to))
      × ((reachable adjacency from to ≡ true) ↔ Walk adjacency from to)
  search_all-decides = let (b, e, means) = search_all-Means in decided b e means
