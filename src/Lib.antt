-- ===== src/Lib.antt =====
-- The live system intelligence graph, a Python program in six layers over one Neo4j graph: layer 1
-- ingests code, layer 2 joins runtime calls, layer 3 decides which vulnerabilities are reachable,
-- layer 4 annotates data and owners, layer 5 serves queries, and layer 6 certifies the impact of a
-- pull request and reports it to GitHub. This library models the retries, the runtime join, the
-- reachability engine, the ingesters of layer 3, the annotators of layer 4, the translation of
-- questions of layer 5, and layer 6, which reads the graph that they fill.
--
-- Conventions. Code that calls the outside is an `Exec`: it takes the world, and gives a result or an
-- exception beside the world that it leaves (Exec.antt); `do` blocks are its statements in order,
-- `try_except` its handlers. What is not code of the repository is a parameter: the Cypher queries
-- and their answers, HTTP, the clocks, the random numbers, JSON texts, HMAC, the language model,
-- Flink's and Temporal's run time. A hypothesis on a parameter is a record of its laws. Logging is
-- left out. Numbers are natural numbers: delays are milliseconds, times and scores are whole.
--
-- Prelude.antt: shared names, tests, lists, Python's dicts (Prelude/Dict.antt), equality, and
--   the members of lists, sets and `sorted` (Prelude/Members.antt).
-- Exec.antt, Exec/Laws.antt, Exec/Keeps.antt: exceptions and loops, what is known of blocks that
--   return, and what blocks leave true of the world.
-- Retry.antt: `with_retry` of layer1/retry_client.py. Its `while True` runs on fuel,
--   `max_attempts + 1`: each attempt uses one, and attempt `max(1, max_attempts)` ends the loop.
--   Retry/Calls.antt, Retry/Backoff.antt, Retry/Recovery.antt and Retry/Quiet.antt are about its calls,
--   its sleeps, failures that pass, and the world.
-- RuntimeJoin.antt: `CallAccumulator` of layer2/runtime_join.py (`record` is `record_event`);
--   RuntimeJoin/Accumulator.antt sums what it holds, RuntimeJoin/Consumer.antt interleaves the polling
--   and the flush thread of `StandaloneConsumer` as steps: the lock makes `record` and `drain` atomic,
--   and the write of a batch is a step of its own; RuntimeJoin/Stream.antt is the process function of
--   the Flink job.
-- Reachability.antt: layer3/reachability.py, with the labels' meaning in Reachability/Labels.antt,
--   Reachability/View.antt and Reachability/Decision.antt, the batch run in Reachability/Batch.antt, and
--   `compute_pr_security_delta` in Reachability/Delta.antt and Reachability/Exposure.antt. `set` is a
--   function that keeps members, since Python leaves the order open.
-- Certificate.antt: layer6/certificate_engine.py: its data and risk levels; Certificate/Signing.antt the
--   signatures, Certificate/Encode.antt `asdict`, Certificate/Narrative.antt the texts,
--   Certificate/Engine.antt the queries and `generate_certificate`. Certificate/Risk.antt,
--   Certificate/Issued.antt and Certificate/Total.antt hold the proofs.
-- Webhook.antt: layer6/github_webhook.py, its client of the GitHub API; Webhook/Job.antt the reports and
--   the background job, Webhook/Handler.antt the endpoint, Text.antt the operations on text,
--   Webhook/Reports.antt and Webhook/Accepted.antt the proofs. A delivery's JSON is decoded to the
--   types that GitHub documents.
-- CertificateApi.antt, CertificateApi/Retrieved.antt: layer6/certificate_api.py; the texts of JSON are a
--   type of their own, since the program looks into none.
-- Neo4j.antt: `upsert_node` and `upsert_relationship` of layer1/neo4j_client.py.
-- CodeIngester.antt: layer1/code_ingester.py; CodeIngester/Parse.antt `_parse_file_regex`, over the
--   matches of the patterns, CodeIngester/Ingest.antt the ingestion; CodeIngester/Enclosing.antt and
--   CodeIngester/Unversioned.antt the proofs.
-- Workflow.antt, Workflow/Issued.antt: layer6/workflows/change_impact_workflow.py. `execute_activity` and
--   `gather` are parameters; the dict of a dataclass that passes between activities is that record.
-- Cve.antt: layer3/cve_ingester.py: its data; Cve/Version.antt the ranges, Cve/Events.antt the pairing of
--   their events, Cve/Enrich.antt EPSS, KEV and severities with the module's two caches as state,
--   Cve/Ingest.antt the records and the ingestion, Cve/Ingested.antt its proof.
-- Ownership.antt: layer4/ownership_ingester.py: CODEOWNERS and the ingestion; Ownership/Contributor.antt
--   the counts of `git blame`; Ownership/Match.antt, Ownership/Dominant.antt and
--   Ownership/Winner.antt the proofs.
-- Regulatory.antt, Regulatory/Combined.antt: layer4/regulatory_annotator.py.
-- Pattern.antt: the lists of words that two modules look for by `re`; Pattern/Identifier.antt that search
--   on an identifier. Process.antt: `subprocess`, with the tests whether a command is installed.
-- Pii.antt: layer4/pii_detector.py: the classification of a field; Pii/Extract.antt the fields of a
--   source, of the matches that the patterns give, Pii/Scan.antt the nodes and the scan, which takes the
--   listing of the repository at its start; Pii/Names.antt and Pii/Marked.antt the proofs.
-- NlQuery.antt: layer5/nl_to_cypher.py; NlQuery/Validator.antt the validator, NlQuery/Translate.antt
--   the four steps of `translate_and_execute`; NlQuery/Guarded.antt, NlQuery/Answered.antt the proofs.
-- GraphApi.antt: layer5/graph_api.py; GraphApi/Query.antt the queries, GraphApi/Search.antt the searches
--   and the metrics, GraphApi/Admitted.antt the proofs.
-- CodeApi.antt: layer1/code_api.py; CodeApi/Graph.antt the call graph, CodeApi/Security.antt the
--   vulnerabilities, CodeApi/Breakdown.antt the proof.
-- Taint.antt: layer4/taint_tracker.py; Taint/Codeql.antt CodeQL's run, Taint/Flows.antt the edges and
--   `analyse`; Taint/Calm.antt and Taint/Within.antt the proofs.
-- Sbom.antt: layer3/sbom_ingester.py; Sbom/Components.antt the CycloneDX parser, Sbom/Ingest.antt the
--   ingestion; Sbom/Ecosystem.antt and Sbom/Skipped.antt the proofs.
-- Nuclei.antt: layer3/nuclei_runner.py; Nuclei/Paths.antt the paths, Nuclei/Scan.antt the scan;
--   Nuclei/Discovered.antt and Nuclei/Counted.antt the proofs.
-- Tests.antt: runs at concrete inputs, and each theorem at one.
--
-- Not modelled: the Cypher texts, the endpoints of layers 1 and 5 that only pass on the rows of
-- queries, command lines, the daemon loops, the parser by Tree-sitter of layer 1, whose result is empty,
-- the expressions that find things in a source, the Kafka schema of layer 2, a declaration to Pydantic
-- that no consumer uses, and the metrics client and the vector index of layer 5.
pub mod Prelude
pub mod Exec
pub mod Retry
pub mod RuntimeJoin
pub mod Reachability
pub mod Certificate
pub mod Webhook
pub mod Workflow
pub mod Tests
pub mod Text
pub mod Process
pub mod Pattern
pub mod Cve
pub mod Ownership
pub mod Neo4j
pub mod CertificateApi
pub mod Regulatory
pub mod Pii
pub mod NlQuery
pub mod GraphApi
pub mod Taint
pub mod Sbom
pub mod Nuclei
pub mod CodeIngester
pub mod CodeApi
