-- ===== src/Service/Snaps/Certified.antt =====
-- What `validateSnapCertificates` lets through.
use eventframed.Prelude.{
  ℕ, zero, suc, String, Bool, true, false, not, ◌||◌, none, some, List, [], ◌∷◌, ◌≡◌, ◌⊎◌, inl, inr,
  refl, arith, ◌==◌, str_eq, eq_refl, str_mem, length, get_elem?, all, all-str_mem, Bool-cases,
  Option-cases,
}
use eventframed.Prelude.Dict.{Dict, get, put, get-put}
use eventframed.Prelude.Distinct.{distinct}
use eventframed.Prelude.Float64.{lt_f}
use eventframed.Model.PredictiveGraph.{CompatibilityNode, CompatibilityEdge, DependencyClosure}
use eventframed.Graph.{node_map, edge_map}
use eventframed.Graph.Candidate.{GraphPolicy, node_ids}
use eventframed.Graph.Sound.{edge_ids, SoundGraph}
use eventframed.Service.{finite_nonnegative}
use eventframed.Service.Snaps.{
  SnapBucketCertificate, SnapEdgeCertificate, PredictiveSnapRequest, bucket_map,
  edge_certificate_map, active_bucket, retained, bucket_passes, edge_passes, check_buckets,
  check_edge_certificates, validate_snap_certificates,
}

-- One of the certificates is about the node, bounds its diameter and has the support.
pub record BucketCertified (policy : GraphPolicy) (cs : List SnapBucketCertificate) (id : String)
    : Type 0 where
  pub certificate : SnapBucketCertificate
  pub place : ℕ
  pub found : get_elem? cs place ≡ some certificate
  pub about : str_eq certificate.node_id id ≡ true
  pub diameter : finite_nonnegative certificate.future_diameter_ucb ≡ true
  pub limit : finite_nonnegative certificate.diameter_limit ≡ true
  pub within : lt_f certificate.diameter_limit certificate.future_diameter_ucb ≡ false
  pub support : finite_nonnegative certificate.effective_support ≡ true
  pub enough : lt_f certificate.effective_support policy.min_bucket_support ≡ false

pub record EdgeCertified (cs : List SnapEdgeCertificate) (id : String) : Type 0 where
  pub certificate : SnapEdgeCertificate
  pub place : ℕ
  pub found : get_elem? cs place ≡ some certificate
  pub about : str_eq certificate.edge_id id ≡ true
  pub defect : finite_nonnegative certificate.defect_ucb ≡ true
  pub limit : finite_nonnegative certificate.defect_limit ≡ true
  pub within : lt_f certificate.defect_limit certificate.defect_ucb ≡ false

get-bucket_map :
    (id : String) (cs : List SnapBucketCertificate) (out : Dict SnapBucketCertificate)
    {c : SnapBucketCertificate}
    → get id (bucket_map cs out) ≡ some c
    → (get id out ≡ some c) ⊎ ((i : ℕ) × (get_elem? cs i ≡ some c) × (str_eq c.node_id id ≡ true))
unfolding bucket_map
get-bucket_map id [] out h = inl h
get-bucket_map id (d ∷ cs) out {c} h = elim (get-bucket_map id cs (put d.node_id d out) h) [
  | inr (i, e, about) ↦ inr (suc i, e, about)
  | inl e ↦ elim (Bool-cases (str_eq d.node_id id)) [
    | inl same ↦
        let here : d ≡ c = ground (arith, get-put d.node_id id d out) in
        inr (0, rw here refl, rw (← here) same)
    | inr differs ↦ inl (ground (arith, get-put d.node_id id d out))
  ]
]

get-edge_certificate_map :
    (id : String) (cs : List SnapEdgeCertificate) (out : Dict SnapEdgeCertificate)
    {c : SnapEdgeCertificate}
    → get id (edge_certificate_map cs out) ≡ some c
    → (get id out ≡ some c) ⊎ ((i : ℕ) × (get_elem? cs i ≡ some c) × (str_eq c.edge_id id ≡ true))
unfolding edge_certificate_map
get-edge_certificate_map id [] out h = inl h
get-edge_certificate_map id (d ∷ cs) out {c} h =
    elim (get-edge_certificate_map id cs (put d.edge_id d out) h) [
      | inr (i, e, about) ↦ inr (suc i, e, about)
      | inl e ↦ elim (Bool-cases (str_eq d.edge_id id)) [
        | inl same ↦
            let here : d ≡ c = ground (arith, get-put d.edge_id id d out) in
            inr (0, rw here refl, rw (← here) same)
        | inr differs ↦ inl (ground (arith, get-put d.edge_id id d out))
      ]
    ]

get-node_map-absent :
    (id : String) (nodes : List CompatibilityNode) (out : Dict CompatibilityNode)
    → str_mem id (node_ids nodes) ≡ false
    → get id (node_map nodes out) ≡ get id out
unfolding node_map node_ids
get-node_map-absent id [] out h = refl
get-node_map-absent id (n ∷ nodes) out h =
    ground (arith, get-node_map-absent id nodes (put n.id n out), get-put n.id id n out)

-- Among nodes with different ids, each is found under its own.
get-node_map :
    (nodes : List CompatibilityNode) (out : Dict CompatibilityNode) (i : ℕ) {n : CompatibilityNode}
    → distinct (node_ids nodes) ≡ true
    → get_elem? nodes i ≡ some n
    → get n.id (node_map nodes out) ≡ some n
unfolding node_map node_ids
get-node_map [] out i d h = absurd (ground arith)
get-node_map (m ∷ nodes) out zero {n} d h =
    let here : m ≡ n = ground arith in
    rw (← here) (
      ground (
        arith,
        get-node_map-absent m.id nodes (put m.id m out),
        get-put m.id m.id m out,
        eq_refl m.id,
      ))
get-node_map (m ∷ nodes) out (suc i) d h = get-node_map nodes (put m.id m out) i (ground arith) h

get-edge_map-absent :
    (id : String) (edges : List CompatibilityEdge) (out : Dict CompatibilityEdge)
    → str_mem id (edge_ids edges) ≡ false
    → get id (edge_map edges out) ≡ get id out
unfolding edge_map
get-edge_map-absent id [] out h = refl
get-edge_map-absent id (e ∷ edges) out h =
    ground (arith, get-edge_map-absent id edges (put e.id e out), get-put e.id id e out)

get-edge_map :
    (edges : List CompatibilityEdge) (out : Dict CompatibilityEdge) (i : ℕ) {e : CompatibilityEdge}
    → distinct (edge_ids edges) ≡ true
    → get_elem? edges i ≡ some e
    → get e.id (edge_map edges out) ≡ some e
unfolding edge_map
get-edge_map [] out i d h = absurd (ground arith)
get-edge_map (m ∷ edges) out zero {e} d h =
    let here : m ≡ e = ground arith in
    rw (← here) (
      ground (
        arith,
        get-edge_map-absent m.id edges (put m.id m out),
        get-put m.id m.id m out,
        eq_refl m.id,
      ))
get-edge_map (m ∷ edges) out (suc i) d h = get-edge_map edges (put m.id m out) i (ground arith) h

bucket-Certified :
    (policy : GraphPolicy) (cs : List SnapBucketCertificate) (id : String)
    → bucket_passes policy (get id (bucket_map cs [])) ≡ true
    → BucketCertified policy cs id
unfolding bucket_passes get
bucket-Certified policy cs id h = elim (Option-cases (get id (bucket_map cs []))) [
  | inl e ↦ absurd (ground arith)
  | inr (c, e) ↦ elim (get-bucket_map id cs [] e) [
    | inl none_there ↦ absurd (ground arith)
    | inr (i, found, about) ↦ record {
      certificate = c;
      place = i;
      found = found;
      about = about;
      diameter = ground arith;
      limit = ground arith;
      within = ground arith;
      support = ground arith;
      enough = ground arith;
    }
  ]
]

edge-Certified :
    (cs : List SnapEdgeCertificate) (id : String)
    → edge_passes (get id (edge_certificate_map cs [])) ≡ true
    → EdgeCertified cs id
unfolding edge_passes get
edge-Certified cs id h = elim (Option-cases (get id (edge_certificate_map cs []))) [
  | inl e ↦ absurd (ground arith)
  | inr (c, e) ↦ elim (get-edge_certificate_map id cs [] e) [
    | inl none_there ↦ absurd (ground arith)
    | inr (i, found, about) ↦ record {
      certificate = c;
      place = i;
      found = found;
      about = about;
      defect = ground arith;
      limit = ground arith;
      within = ground arith;
    }
  ]
]

bucket_due : GraphPolicy → Dict CompatibilityNode → Dict SnapBucketCertificate → String → Bool
bucket_due policy nodes buckets id =
    not (active_bucket (get id nodes)) || bucket_passes policy (get id buckets)

check_buckets-all :
    (policy : GraphPolicy) (nodes : Dict CompatibilityNode) (buckets : Dict SnapBucketCertificate)
    (ids : List String)
    → check_buckets policy nodes buckets ids ≡ all (bucket_due policy nodes buckets) ids
unfolding check_buckets bucket_due
check_buckets-all policy nodes buckets [] = refl
check_buckets-all policy nodes buckets (id ∷ ids) =
    rw (check_buckets-all policy nodes buckets ids) refl

check_buckets-passes :
    (policy : GraphPolicy) (nodes : Dict CompatibilityNode) (buckets : Dict SnapBucketCertificate)
    (ids : List String) (id : String) {n : CompatibilityNode}
    → check_buckets policy nodes buckets ids ≡ true
    → str_mem id ids ≡ true
    → get id nodes ≡ some n
    → (length n.member_event_ids == 0) ≡ false
    → bucket_passes policy (get id buckets) ≡ true
unfolding bucket_due
check_buckets-passes policy nodes buckets ids id h k e active =
    let due : bucket_due policy nodes buckets id ≡ true =
      all-str_mem (bucket_due policy nodes buckets) id ids
        (rw (check_buckets-all policy nodes buckets ids) at h) k in
    ground (arith, due, e, active)

edge_due : Dict CompatibilityEdge → Dict SnapEdgeCertificate → String → Bool
edge_due edges certificates id = not (retained (get id edges)) || edge_passes (get id certificates)

check_edge_certificates-all :
    (edges : Dict CompatibilityEdge) (certificates : Dict SnapEdgeCertificate) (ids : List String)
    → check_edge_certificates edges certificates ids ≡ all (edge_due edges certificates) ids
unfolding check_edge_certificates edge_due
check_edge_certificates-all edges certificates [] = refl
check_edge_certificates-all edges certificates (id ∷ ids) =
    rw (check_edge_certificates-all edges certificates ids) refl

check_edge_certificates-passes :
    (edges : Dict CompatibilityEdge) (certificates : Dict SnapEdgeCertificate) (ids : List String)
    (id : String) {e : CompatibilityEdge}
    → check_edge_certificates edges certificates ids ≡ true
    → str_mem id ids ≡ true
    → get id edges ≡ some e
    → edge_passes (get id certificates) ≡ true
unfolding edge_due
check_edge_certificates-passes edges certificates ids id h k e =
    let due : edge_due edges certificates id ≡ true =
      all-str_mem (edge_due edges certificates) id ids
        (rw (check_edge_certificates-all edges certificates ids) at h) k in
    ground (arith, due, e)

-- Each node of the candidate that has members and each edge of it is certified, where the closure
-- names it.
pub record Certified (policy : GraphPolicy) (r : PredictiveSnapRequest)
    (closure : DependencyClosure) : Type 0 where
  pub buckets :
      (i : ℕ) {n : CompatibilityNode}
      → get_elem? r.candidate.nodes i ≡ some n
      → (length n.member_event_ids == 0) ≡ false
      → str_mem n.id closure.node_ids ≡ true
      → BucketCertified policy r.bucket_certificates n.id
  pub edges :
      (i : ℕ) {e : CompatibilityEdge}
      → get_elem? r.candidate.edges i ≡ some e
      → str_mem e.id closure.edge_ids ≡ true
      → EdgeCertified r.edge_certificates e.id

pub validate_snap_certificates-Certified :
    (policy : GraphPolicy) (r : PredictiveSnapRequest) (closure : DependencyClosure)
    → SoundGraph r.candidate policy
    → validate_snap_certificates r closure policy ≡ none
    → Certified policy r closure
unfolding validate_snap_certificates
validate_snap_certificates-Certified policy r closure sound h = record {
  buckets = λ i {n} at active member. bucket-Certified policy r.bucket_certificates n.id (
      check_buckets-passes policy _ _ closure.node_ids n.id (ground arith) member
        (get-node_map r.candidate.nodes [] i sound.nodes_once at) active);
  edges = λ i {e} at member. edge-Certified r.edge_certificates e.id (
      check_edge_certificates-passes _ _ closure.edge_ids e.id (ground arith) member
        (get-edge_map r.candidate.edges [] i sound.edges_once at));
}
