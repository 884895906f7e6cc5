-- ===== src/Lib.antt =====
-- pcomirror: a mirror of Planning Center's People data in a local store.
--
-- The program keeps a copy of an organization's people, and of what belongs to them, in SQLite. It
-- fills the copy by sweeps and by webhooks, and it serves the copy under Planning Center's own API.
-- Every payload goes through one writer, whatever brought it, so that late, repeated and reordered
-- payloads settle on the newest one. The files here follow the program's parts:
--
-- Registry (pcomirror/registry.py): the table of mirrored resources, one declaration each, in the
--   files People, Children, Groups and Lite, with every field of the source; the lookups `by_type`,
--   `by_table`, `by_name` and `by_event_resource`; and `owned_children`, which derives from the
--   declarations which tables a deletion cascades to. Columns has the projections of a payload.
-- Store (pcomirror/db.py): a row with its bookkeeping columns, and the statements that the writer
--   issues, as functions on the list of the rows of all tables.
-- Writer (pcomirror/writer.py): Ops has the cascade to and from owned records, Upsert the methods
--   `upsert`, `upsert_untimed` and `confirm_live`, Tombstone `tombstone`, Project the projections of
--   `field_datum`, Route `route` and `route_page`. Steps has any run of these operations. The other
--   files have what is proved: Convergence, Poorer, Merges, Ownership and
--   Overwrites, and their lemmas in Cascade, Owned, Look, Burials, Merged and Routing.
-- Webhooks (pcomirror/webhooks.py, and of pcomirror/ingest.py `enqueue_hydration`, `_merger_is_new`
--   and `_record_merger`): State has the tables, Token and Subscriptions the list of subscriptions,
--   Sender, Capture and Receive the method `receive`, Inbox, Hydration, Merger and Process the method
--   `process_event`, Drain `drain` and `retry_dead_letters`. The processor calls the writer's
--   `route` and `tombstone` on the same rows that Writer is about. Authentic, Captures,
--   Captured, Untouched, Verdict, Readable, Attempts, Tokens, Replays and Revivals have what is
--   proved.
-- Client (pcomirror/pcoclient.py): Request has the retries of `PcoClient.request`, as the list of
--   what it does to the limiter, the transport and the recorder, and what it returns.
-- Cors (pcomirror/cors.py): Origin, Policy, Build and Attach, after the module's functions; Credentials
--   and Diagnostic have what is proved.
-- ApiKeys (pcomirror/apikeys.py): Keys has the module's functions, Access what is proved. The scopes are
--   read as Text's `clean_items` splits them.
-- Events (pcomirror/pcoevents.py): Handling has `handling`, which the console shows for an event name, and
--   Promise compares it with the processor of Webhooks.
-- Ingest (pcomirror/ingest.py): Requests has `request_audit`, `audit_request` and `request_sweep`; Remote
--   how an answer of the API is read, page by page; Walk `_walk_one`, `walk_parent`,
--   `ensure_parent_walked` and `_tombstone_if_absent`; Refresh `reference_refresh`; Diff `_include_diff`
--   and `_related_ids`; Hydrate `hydrate`, `drain_hydration` and `_restore_one`; Queue
--   `enqueue_hydration` beside a plan, which keeps one task for each record; Mergers `merger_poll`;
--   Backfill the part of `backfill` that pages by `updated_at`; Descend `_descending_sweep`;
--   Sweep `incremental_sweep` by `updated_at`.
--   Each method goes through the writer of Writer, on the tables of Webhooks. Escalation, Authority,
--   Ends, Replaced, Confirmed, Exact, Spares, Compared, Verdict, Drained, Replayed, Resumed and
--   Descended have what is proved, with lemmas of Fetched, Buried and Latest.
-- Audit (pcomirror/ingest.py, `delete_audit_step`): Round has the state of a round, Enumerate the phase
--   that reads the list of what exists, Settle the phases that confirm and restore, Step the method
--   and `delete_audit`. Alive, Spares, Bury and Progress have what is
--   proved, with lemmas of Ended.
-- Scheduler (pcomirror/scheduler.py): Lane is the interface of the calls that a tick makes, Due the
--   audit's cadence, Hot `run_once`, Cold the back-off, `_rotated`, `run_cold_once` and `drain_cold`.
--   Ring, Backoff and Fair have what is proved.
-- Limiter (pcomirror/ratelimit.py): Bucket has the token bucket over an interface of ordered numbers,
--   in place of floats, and Grants what is proved.
-- Prelude, Result, Json and Text: tests on numbers and texts, Python's exceptions as values, the
--   values of `json` and the methods of `str`, with the operations that the program makes on them.
--
-- Conventions. An exception is a value of `Result`; where statements before it stay, the state is
-- returned beside it (`Run`, `Page`). SQL's NULL is `none`, and a comparison with it is not true.
-- Timestamps are texts in one format, compared by code points as SQLite does. A writer's call reads
-- the clock once. A projection of an array or an object is NULL. Texts are folded to lower and upper
-- case over ASCII. An ORDER BY keeps the order of insertion between equals.
-- Each statement of the writer is committed as it is made, so that no exception takes one back. A row's
-- key is a text: a resource whose id is null, which SQLite would store under a NULL key, is refused.
--
-- Parameters, since they are not code of the repository: the clock, the API version, `float`, `int`,
-- `repr` and `str` of Python, the reading and printing of JSON texts, HMAC-SHA256, minted tokens, the
-- transport, for the client the limiter, for the scheduler the ingestor's calls, and for the limiter the
-- numbers and the readings of its clock. What a theorem supposes of them is named in its comment.
--
-- Termination. A loop over a list is by recursion on the list, and `request` counts down from its own
-- `max_attempts`. A loop over the pages of an answer, which ends when a page is short, is by recursion
-- on fuel, and so are the rounds of the limiter's `acquire`; Ingest.Ends shows how much is enough. A
-- step of the audit counts down the page budget and the restore limit of the source.
--
-- Not modelled: the offset backfill, the drift probe, the rounds of nested walks and the repairs of
-- pcomirror/ingest.py, the threads of the scheduler, the serving of reads and writes,
-- links, divergence, pseudonyms, diagnostics, the search collations and migrations of
-- pcomirror/db.py; and, as input and output, the admin pages, the command line and the WSGI server.
pub mod Prelude
pub mod Result
pub mod Json
pub mod Registry
pub mod Store
pub mod Writer
pub mod Webhooks
pub mod Client
pub mod Text
pub mod Cors
pub mod ApiKeys
pub mod Events
pub mod Ingest
pub mod Audit
pub mod Scheduler
pub mod Limiter
