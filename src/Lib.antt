-- ===== src/Lib.antt =====
-- Verification of pc_builder, a price tracker and compatibility checker for PC parts.
--
-- The program's core has two halves. The server plans page fetches, queues them as jobs, hands them to
-- browser-extension agents under leases and saves what the agents upload. The builder checks whether
-- the parts of a build fit together, and narrows the list of candidates for an empty slot.
--
-- Files, and the code each is about (paths from the repository's root):
--   Shared, Shared/*        tests, lists, texts, numerals and tables used by all parts
--   Regex, Regex/*          the regular expressions of Python's re that the code uses
--   Url, Url/Quoting        urlsplit, hostname, quote_plus and str.format of Python
--   Db, Db/Job, Db/Tables   src/db/models: stores, agents, scrape jobs, the catalog, the database
--   JobQueue/Config         src/pipeline/job_queue.py: constants, _clear_lease, _requeue
--   JobQueue/Insert         insert_job, enqueue, with the foreign keys of scrape_jobs; proofs in
--                           JobQueue/Hosts, Requests and Admission
--   JobQueue/Lease          lease; proofs in JobQueue/Lease/*
--   JobQueue/Complete       complete; proofs in JobQueue/Uploads
--   JobQueue/Reap           reap, status_counts; proofs in JobQueue/Expiry
--   JobQueue/Invariant      what every call keeps; Rows has the single writes, Lifecycle all calls
--   Planner                 src/scrapers/request_planner.py; proofs in Planner/Headers, Planner/Expected
--   ScrapeResults           src/pipeline/scrape_results.py: check_upload; proofs in ScrapeResults/Gate
--   ScrapeResults/Prices    _outcome, _usable
--   ScrapeResults/Listing   _process_listing; ScrapeResults/Single: _process_product
--   ScrapeResults/Processing  process_upload; proofs in NextPage, Steps, Processor, Saved, Usable, Seen,
--                           Fresh and Counts of ScrapeResults
--   SearchService           src/services/search_service.py with src/db/repositories/
--                           product_repository.py; proofs in SearchService/Rounding, Prices
--   Matching/Condition      src/matching/condition_policy.py
--   Matching/Category/*     src/matching/category_classifier.py; proofs in Matching/Vocabulary
--   Matching/Keys           src/matching/canonical_key_builder.py: the keys; proofs in
--                           Matching/Unresolved; TitleKeys and BuildKey have build_canonical_key
--   Matching/Board          the boards of canonical_key_builder.py, src/matching/
--                           motherboard_identity.py; proofs in Matching/Board/*
--   Matching/Cpu, Gpu       src/matching/cpu_identity.py, gpu_identity.py
--   Matching/PsuTrims       src/matching/psu_identity.py
--   Matching/LegacyParts    src/matching/legacy_policy.py; proofs in Matching/CoolerAge
--   Matching/Clearance      src/matching/cabinet_clearance.py; proofs in Matching/Clearance/*
--   Matching/Rekey          src/matching/rekey.py; Matching/RekeyParts: rekey_cpus, gpu_rekey.py
--   Matching/Brands         src/matching/brand_registry.py
--   Matching/Audit          src/pipeline/identity_audit.py
--   Matching/Sizes          src/matching/size_from_title.py
--   Matching/FormFactors    src/matching/form_factor.py
--   AgentApi                src/api/routes/agent.py; proofs in AgentApi/Refusals
--   Health                  src/pipeline/health.py, schedule.py; proofs in Health/LastRun, Quiet
--   Health/Freshness        src/pipeline/checks.py
--   ScrapePlanning          src/pipeline/scrape_planning.py; proofs in ScrapePlanning/Queued, Schedule
--   SpecValues/*            src/matching/spec_value_normalizer.py; proofs in SpecValues/Canonical
--   Worker                  src/pipeline/worker.py: run_step, run_due; proofs in Worker/Passes
--   AgentTokens             src/pipeline/agent_tokens.py; proofs in AgentTokens/Revoking
--   Compat/Fields, Rules    src/services/compatibility_rules.py: slots, fields, the rule table
--   Compat/FormFactor       form_factor_index; proofs in Compat/Scale
--   Compat/Sockets          src/matching/cooler_sockets.py
--   Compat/CpuPower         src/matching/cpu_power.py; proofs in Compat/Power
--   Compat/View             src/services/compatibility_engine.py: _merge, _resolve_slot, _group_selections
--   Compat/Check            rule_applies, _unknown, _unverified, _eval_rule, one pair of validate_build
--   Compat/Wattage          the power part of validate_build; proofs in Compat/Supply
--   Compat/Validate         validate_build, filter_candidates; the verdict of src/domain/builder.py;
--                           proofs in Compat/Report, Blocking, Filtering, Known, Silent
--
-- How the parts interact: ScrapePlanning asks Planner for a request and inserts it with
-- JobQueue/Insert; JobQueue/Complete runs a result processor, which IsProcessor in JobQueue/Uploads
-- describes and which ScrapeResults/Processing is: it checks the upload, saves what the page parser
-- read through SearchService, and inserts the job of the next page. The page parser and the two
-- classifiers of titles are its arguments; the classifiers are in Matching/Category and
-- Matching/Condition. AgentApi authenticates an agent with AgentTokens and calls lease and
-- complete. Compat/Validate reads the views that Compat/View merges, and those use Compat/Sockets,
-- Compat/FormFactor, Compat/CpuPower and Matching/Clearance.
--
-- Bounds: times are natural numbers of microseconds, and a session is one call whose writes are
-- kept or dropped as a whole. The loop of lease has fuel for twice the batch and one more pass,
-- which JobQueue/Lease/Fuel shows to be enough; the walk along the parents of a job has fuel for
-- every id of the table, which ScrapeResults/Seen shows to be enough; str.format has the length of
-- its text; a search for a regular expression has fuel for every place of the text; prices are
-- finite decimals; sizes with a decimal point are in hundredths; a price that is saved is rounded
-- to the two places of its column, whose ten digits before the point are taken to be enough; the
-- rounding in Compat/CpuPower covers INTEGER columns.
--
-- Not modelled: the parsing of pages, which is an argument; the matching of a new listing with the
-- known parts, which compares strings by similarity; the calls of language models, the other HTTP
-- routes, the endless loop of the worker, the migrations, the scripts, the browser extension and
-- the pages of the site.
pub mod Shared
pub mod Url
pub mod Regex
pub mod Db
pub mod JobQueue
pub mod Compat
pub mod Matching
pub mod Planner
pub mod SearchService
pub mod ScrapeResults
pub mod ScrapePlanning
pub mod SpecValues
pub mod AgentTokens
pub mod Worker
pub mod Health
pub mod AgentApi
