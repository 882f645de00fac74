-- ===== src/Packing/Packed.antt =====
-- What a packet of `Select` is like.
use mathlib.Core.List.{Perm, append-nil, append_assoc, perm_middle}
use mathlib.Core.List.Perm
use eventframed.Prelude.{
  ℕ, suc, ◌+◌, ◌*◌, ◌≤◌, ◌<◌, String, Bool, true, false, ◌&&◌, Option, some, List, [], ◌∷◌, ◌++◌,
  ◌≡◌, refl, sym, subst, arith, length, length-append, ltb, leb, if_elim,
}
use eventframed.Prelude.Dict.{Dict}
use eventframed.Packing.{
  Candidate, PackingPolicy, Packet, Measures, count_correlated, pack_loop, places_of, packet_of,
  should_expand, select,
}
use eventframed.Packing.Diverse.{diversify-Perm}

-- The tokens of the candidates together.
abbrev pub total_tokens : List Candidate → ℕ
total_tokens [] = 0
total_tokens (c ∷ rest) = c.estimated_tokens + total_tokens rest

total_tokens-append :
    (xs ys : List Candidate) → total_tokens (xs ++ ys) ≡ total_tokens xs + total_tokens ys
total_tokens-append [] ys = omega arith
total_tokens-append (x ∷ xs) ys = omega (arith, total_tokens-append xs ys)

module _ (m : Measures) (policy : PackingPolicy) (keys : Dict String) where
  -- A candidate may follow the ones before it.
  abbrev pub Fresh : List Candidate → Candidate → Type 0
  Fresh before c =
      0 < policy.evidence_occupancy_limit
      → count_correlated m policy keys c before < policy.evidence_occupancy_limit

  -- Each candidate may follow the ones before it.
  abbrev pub Spread : List Candidate → List Candidate → Type 0
  Spread before [] = Unit
  Spread before (c ∷ rest) = Fresh before c × Spread (before ++ (c ∷ [])) rest

  Spread-append :
      (before xs : List Candidate) (c : Candidate)
      → Spread before xs
      → Fresh (before ++ xs) c
      → Spread before (xs ++ (c ∷ []))
  Spread-append before [] c h f = (subst (λ l. Fresh l c) (append-nil before) f, tt)
  Spread-append before (x ∷ xs) c h f = (
    h.0,
    Spread-append (before ++ (x ∷ [])) xs c h.1
        (subst (λ l. Fresh l c) (sym (append_assoc before (x ∷ []) xs)) f),
  )

  -- A packet within its limits; `left` is what it leaves of the candidates.
  pub record Packs (limit budget : ℕ) (candidates packed : List Candidate) (used : ℕ) : Type 0 where
    pub few : length packed ≤ limit
    pub counted : used ≡ total_tokens packed
    pub within : used ≤ budget
    pub spread : Spread [] packed
    pub left : List Candidate
    pub part : Perm (packed ++ left) candidates

  -- The state of the loop, without what is left.
  record Holds (limit budget : ℕ) (packed : List Candidate) (used : ℕ) : Type 0 where
    few : length packed ≤ limit
    counted : used ≡ total_tokens packed
    within : used ≤ budget
    spread : Spread [] packed

  Goal : ℕ → ℕ → List Candidate → List Candidate × (ℕ × ℕ) → Type 0
  Goal limit budget candidates (packed, (used, suppressed)) =
      Packs limit budget candidates packed used

  skips :
      (limit budget : ℕ) (packed rest : List Candidate) (c : Candidate)
      (x : List Candidate × (ℕ × ℕ))
      → Goal limit budget (packed ++ rest) x
      → Goal limit budget (packed ++ (c ∷ rest)) x
  unfolding Goal
  skips limit budget packed rest c (out, (used, suppressed)) g = record {
    few = g.few;
    counted = g.counted;
    within = g.within;
    spread = g.spread;
    left = c ∷ g.left;
    part =
        Perm.trans (perm_middle out g.left)
          (Perm.trans (Perm.cons c g.part) (Perm.symm (perm_middle packed rest)));
  }

  pack_loop-Packs :
      (limit budget : ℕ) (packed : List Candidate) (used suppressed : ℕ) (rest : List Candidate)
      → Holds limit budget packed used
      → Goal limit budget
          (packed ++ rest)
          (pack_loop m policy keys limit budget packed used suppressed rest)
  unfolding pack_loop Goal
  pack_loop-Packs limit budget packed used suppressed [] h = record {
    few = h.few;
    counted = h.counted;
    within = h.within;
    spread = h.spread;
    left = [];
    part = Perm.refl _;
  }
  pack_loop-Packs limit budget packed used suppressed (c ∷ rest) h =
      if_elim G (leb limit (length packed)) _ _
        (λ _. record {
          few = h.few;
          counted = h.counted;
          within = h.within;
          spread = h.spread;
          left = c ∷ rest;
          part = Perm.refl _;
        })
        (λ room.
          if_elim G (ltb budget (used + c.estimated_tokens)) _ _
            (λ _.
              skips limit budget packed rest c
                (pack_loop m policy keys limit budget packed used suppressed rest)
                (pack_loop-Packs limit budget packed used suppressed rest h))
            (λ fits.
              if_elim G
                (ltb 0 policy.evidence_occupancy_limit
                  && leb policy.evidence_occupancy_limit (count_correlated m policy keys c packed))
                _ _
                (λ _.
                  skips limit budget packed rest c
                    (pack_loop m policy keys limit budget packed used (suc suppressed) rest)
                    (pack_loop-Packs limit budget packed used (suc suppressed) rest h))
                (λ fresh.
                  subst
                    (λ l. Goal limit budget l (
                      pack_loop m policy keys limit budget (packed ++ (c ∷ []))
                        (used + c.estimated_tokens) suppressed rest))
                    (append_assoc packed (c ∷ []) rest)
                    (pack_loop-Packs limit budget (packed ++ (c ∷ [])) (used + c.estimated_tokens)
                      suppressed rest
                      (record {
                        few = omega (arith, length-append packed (c ∷ []), roomy room);
                        counted = omega (arith, h.counted, total_tokens-append packed (c ∷ []));
                        within = fitting fits;
                        spread = Spread-append [] packed c h.spread (freshly fresh);
                      })))))
    where
      G : List Candidate × (ℕ × ℕ) → Type 0
      G x = Goal limit budget (packed ++ (c ∷ rest)) x

      roomy : leb limit (length packed) ≡ false → length packed < limit
      roomy e = ground arith

      fitting : ltb budget (used + c.estimated_tokens) ≡ false → used + c.estimated_tokens ≤ budget
      fitting e = ground arith

      freshly :
          (ltb 0 policy.evidence_occupancy_limit
              && leb policy.evidence_occupancy_limit (count_correlated m policy keys c packed))
            ≡ false
          → Fresh packed c
      freshly e positive = ground arith

  -- A packet, and the number of places that it had.
  pub record Chosen (candidates : List Candidate) (pack_k recall_k budget : ℕ) (packet : Packet)
      : Type 0 where
    pub limit : ℕ
    pub packs : Packs limit budget candidates packet.candidates packet.used_tokens
    pub narrow : packet.expanded ≡ false → limit ≤ pack_k
    pub wide :
        packet.expanded ≡ true
        → (limit ≤ 2 * pack_k) × (limit ≤ recall_k) × (limit ≤ policy.max_pack)

  Reaches : ℕ → ℕ → ℕ × Bool → Type 0
  Reaches pack_k recall_k (limit, expanded) =
      (expanded ≡ false → limit ≤ pack_k)
      × (expanded ≡ true → (limit ≤ 2 * pack_k) × (limit ≤ recall_k) × (limit ≤ policy.max_pack))

  places_of-Reaches :
      (candidates : List Candidate) (pack_k recall_k : ℕ)
      → Reaches pack_k recall_k (places_of m policy keys candidates pack_k recall_k)
  unfolding places_of Reaches
  places_of-Reaches candidates pack_k recall_k =
      if_elim (Reaches pack_k recall_k)
        (policy.adaptive_enabled && should_expand m policy keys candidates pack_k) _ _
        (λ _. ((λ e. ground arith), (λ e. (omega arith, omega arith, omega arith))))
        (λ _. ((λ e. omega arith), (λ e. absurd (ground arith))))

  packet_of-Chosen :
      (candidates ordered : List Candidate) (pack_k recall_k budget : ℕ) (places : ℕ × Bool)
      → Reaches pack_k recall_k places
      → Perm ordered candidates
      → (packet : Packet) × (packet_of m policy keys budget places (some ordered) ≡ some packet)
        × Chosen candidates pack_k recall_k budget packet
  unfolding packet_of Reaches Goal
  packet_of-Chosen candidates ordered pack_k recall_k budget (limit, expanded) reaches same =
      let packs =
        pack_loop-Packs limit budget [] 0 0 ordered
          (record { few = omega arith; counted = refl; within = omega arith; spread = tt }) in
      (
        _,
        refl,
        record {
          limit = limit;
          packs = record {
            few = packs.few;
            counted = packs.counted;
            within = packs.within;
            spread = packs.spread;
            left = packs.left;
            part = Perm.trans packs.part same;
          };
          narrow = reaches.0;
          wide = reaches.1;
        },
      )

  -- `Select` always gives a packet. Its candidates are a part of the given ones, as many as the asked
  -- number at most, or, in an expanded packet, twice that number, the recall's and the policy's; their
  -- tokens are counted and within the budget; and with a positive occupancy limit, before each of them
  -- stand fewer that rest on the same evidence than the limit.
  pub select-Chosen :
      (candidates : List Candidate) (pack_k recall_k budget : ℕ)
      → (packet : Packet) × (select m policy keys candidates pack_k recall_k budget ≡ some packet)
        × Chosen candidates pack_k recall_k budget packet
  unfolding select
  select-Chosen candidates pack_k recall_k budget =
      if_elim
        (λ (o : Option (List Candidate)).
          (packet : Packet) × (packet_of m policy keys budget places o ≡ some packet)
          × Chosen candidates pack_k recall_k budget packet)
        policy.diversity_enabled _ _
        (λ _.
          let (ys, e, p) = diversify-Perm m policy keys candidates places.0 in
          let (packet, f, chosen) =
            packet_of-Chosen candidates ys pack_k recall_k budget places reaches p in
          (packet, rw e f, chosen))
        (λ _.
          packet_of-Chosen candidates candidates pack_k recall_k budget places reaches
            (Perm.refl candidates))
    where
      places : ℕ × Bool
      places = places_of m policy keys candidates pack_k recall_k

      reaches : Reaches pack_k recall_k places
      reaches = places_of-Reaches candidates pack_k recall_k
