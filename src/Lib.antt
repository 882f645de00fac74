-- ===== src/Lib.antt =====
-- The event memory of eventframed: the stores' contract and the in-memory store.
--
-- The daemon keeps events per tenant, derives statistics, certificates and predictive graphs from
-- them, records the recalls it answers in a journal, and queues proposals for agents. Every write
-- advances version counters, and two tests over those counters decide whether work that began
-- earlier may still be committed: the journal test of internal/store/store.go and the forecast test
-- of internal/store/tau.go.
--
-- Model: the data of internal/model. Snapshot is the counters of api.go; Event, event.go, with
--   Validate in Event.Validate, and Event.Members about what it lets through; Proposal, agency.go and
--   the bindings of tau.go; Certificate, Posterior and Journal, bayesian.go, residual.go, forecast.go
--   and the report of api.go; PredictiveGraph, graph.go.
-- Store: internal/store/store.go with the journal test (JournalSnapshotCompatible); Store.Tau is
--   internal/store/tau.go, with uncertain executions, cancellations and forecast bases.
--   Store.Compatible is about what the journal test decides, Store.Handles about the handles of
--   uncertain executions.
-- Agency: internal/agency/agency.go. Agency.Build is BuildProposal, test by test, and Agency.Bounds
--   is about what it builds.
-- Graph: internal/graph/graph.go. Graph.Closure is DependencyClosure; Graph.Seeds and Graph.Covers
--   are about what it names. Graph.Search is reachable and UnresolvedBurden, with Graph.Reach and
--   Graph.Burden about them; Graph.Candidate is ValidateCandidate, with Graph.Sound about it.
-- Config: internal/config/config.go. Flags is the defaults, Check the tests of Parse, Paths the path
--   functions they use, and Background the settings that cmd/eventframed/main.go hands to the
--   background audits.
-- Memory: internal/store/memorystore/store.go. The state is the record Store; a method is a
--   function from it to a state and an answer. Memory.Events is Put and PutComposition;
--   Memory.Retrieval is Search, GetEvents and Stats; Memory.Deletion is Delete, DeleteBefore and
--   DeleteComposition; Memory.Certificates, Memory.Journals and Memory.Graphs are those tables;
--   Memory.Agency, with its children Claim and Resolve, is the queue of proposals, and its children
--   Filed, Cited, Settled, Approval, Grants, Served and Admission are about the calls of the queue.
--   Memory.Events.Replay is about repeated puts, Memory.Events.Authority about compositions,
--   Memory.Certificates.Groups about group certificates, and Memory.Graphs.Fence and Rollback about
--   snaps.
--   Memory.History runs sequences of the calls that write, ApplyBayesianOutcome excepted. Its child
--   Moves is the abstract view of a call and Refine, with Tables and Queue, relates the two;
--   Counters, Motion, Frozen, View and Recall are about whole histories, and Evidence about the queue
--   along one.
-- Service: internal/service/service.go, handler by handler, over the methods of the store.
--   Service.Agency is the proposals (Issued is about them), Service.Snaps the publication of
--   predictive graphs (Decide and Confirm are about the gates and the whole handler, Certified about
--   the certificates), Service.Certificates the certificates (Active, Group), and Service.Fuzz the
--   background audits, in their own file of the same package. Service.Correlated is the marks of
--   correlated decisions, with Reference about them.
-- Packing: internal/packing/packing.go. Select chooses the packet; Packing.Diverse and Packing.Packed
--   are about it.
-- RankDelta: internal/rankdelta/store.go. Row is the rows of its table and the conversion of the
--   times. Cache is the least recently used cache, whose elements are places of a heap; its children
--   Shape, Linked, Entries, Refine and Calls relate it to an association list. Batch is GetBatch and
--   PutBatch over the cache and a database that is a parameter; Coherent, Tables, Read, Write, Kept
--   and Stored are about what is cached, read and written. A batch is one caller's; what other callers
--   do to the cache before the writers' lock is taken is the cache that commit_batch is given.
-- Tests: concrete runs.
--
-- Every method of the store holds its lock from end to end, so a history is a sequence of whole
-- calls. A Go map is an association list whose order stands for the map's iteration order; an
-- absent key gives the zero value where the source reads it so. Where an answer shows that order,
-- as Search's does, the order of each call is an argument, and so is what sort.Slice makes of
-- ties. Times are nanoseconds since Go's zero time, a uint64 counter wraps at 2^64 (theorems that
-- need it bound the calls), and a float64 is its place in the order of the IEEE values; the
-- arithmetic of the cosine is a parameter. The loop of the journal test runs on fuel for each
-- version up to the current one and one more, and the search of a graph on fuel for each entry of
-- its adjacency lists, which enter its queue at most once, and one more. A copy that the source
-- makes of a slice is the list itself, and a nil slice is the empty list. A digest is an
-- argument, as in the source, whose callers compute it.
--
-- Not modelled: ApplyBayesianOutcome, which needs the float computations of internal/bayes and
-- internal/residual; the tau plans of internal/agency/tau.go; the durable store of
-- internal/store/libravdbstore; of the service, the recall, the observation of events and
-- outcomes and the scoring inside an audit; the HTTP interface, the experiments and the plugin.
-- The reading of flags and files, hashes, signatures, Unicode tables and embeddings are outside
-- and, where used, parameters.
pub mod Agency
pub mod Config
pub mod Graph
pub mod Memory
pub mod Model
pub mod Packing
pub mod Prelude
pub mod RankDelta
pub mod Service
pub mod Store
pub mod Tests
