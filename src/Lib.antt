-- ===== src/Lib.antt =====
-- A model of Python programs of this repository: three stores for artifacts, and the simulated services,
-- graders and generator of four tasks, with theorems on what makes them correct.
--
-- The repository holds evaluations of language models: for each task its specification, the
-- graders and simulated services that are Python programs, and submitted programs. Modelled
-- is:
--
-- * vaultdrop/gpt-5-6-sol/src/vaultdrop.py (VaultSol): a multi-tenant artifact store that takes
--   chunked uploads, publishes them as content-addressed blobs with refcounts, and repairs itself
--   after a crash. Its children are named for its parts:
--   Types: the tables of SCHEMA and the directories uploads/, blobs/ and gc-trash/ as one `Store`.
--   Action: a method of the class `Store` is an effect whose errors are `ApiError`s.
--   Uploads: `create_upload`, `upload_status`, `put_chunk`.
--   Finalize: `_freeze_upload`, `_unfreeze`, `finalize`, `cleanup_chunk_files`.
--   Artifacts: `artifact_row`, `open_verified_artifact`, `list_artifacts`, `delete_artifact`.
--   Gc: `gc`, `list_blobs`, `validate`. Recover: `recover`. Auth: `load_auth`, `tenant`, `admin`.
--   Http: `Handler.json_body`, `dispatch` and `_handle`, which call all of the above.
--   Invariant: what holds of a store between requests, and the methods under it.
--   Samples and Tests: concrete stores, runs, and the theorems applied to them.
--
-- * vaultdrop/qwen-v3/src (VaultQwen): another program for the same specification, in which threads
--   share the store without a lock of their own.
--   Types: the tables of migrations/0001_initial.sql and the directories, as one `Store`.
--   Uploads: `start_upload`, `get_upload` and `store_chunk` of uploads.py. Claims: `finalize` up to its
--   conditional UPDATE, and `_assembly`. Blobs: the transactions and moves of files of blobs.py.
--   Workers: a thread stands at a point between two statements on what is shared, and `advance`
--   runs it to the next: `_finalize_winner`, `_finalize_loser`, `gc_pass`, `delete_artifact`.
--   Artifacts: lists, downloads and `validate_pass`. Recover: `recover` of db.py.
--   Http, Routes: `load_tenant_registry`, `_authenticate`, `_dispatch` and the handlers of httpd.py.
--   System: any number of threads, and `Step`: a thread takes a request or goes on, an upload call is
--   answered, or the program restarts. `CurrentStep` says of the two points at which a thread acts on
--   what it read before that it still holds. Valid and its children are about runs of such steps.
-- * mini-publisher (Publisher): Receiver is the simulated delivery endpoint of receiver.py, Receiver/Audit
--   what /audit says of it; Grader is the judgement of grader.py over the receiver's dump and the
--   submission's status, Grader/Judgement what the verdict and the score say.
-- * mini-inbox (Inbox): Provider is provider.py, its two threads as steps that may interleave in any
--   order, and its rate-limited endpoint; Grader is `diff_states` and `finish` of grader.py.
-- * mini-recur (Recur): Evaluate is `resolve` and `evaluate` of make_goldens.py, over what zoneinfo says
--   of a zone; Evaluate/Once and Evaluate/Window are about the occurrences of a rule on a date and
--   about the instants.
-- * mini-ledger (Ledger): Replay is `replay_verify` of grader.py; Replay/Counted is about its counters, and
--   Replay/Available about what is available on an account, Replay/Rising about sequence numbers.
--   Verdict is `run_once` over what the submission answers, and `finish`; Verdict/Clean says which runs pass.
-- * vaultdrop/qwen-3-8-27b-v2/src/vaultdrop (Vault27b): a third program for the same specification, in
--   which finalizations claim a blob optimistically and retry.
--   Types: the tables of SCHEMA in db.py and the files. Uploads: `create_upload`, `describe_upload` and
--   `put_chunk` of store.py. Claims: `finalize` up to `_claim`. Transactions: the statements of `_claim`,
--   `gc_pass` and `delete_artifact`. Threads: `_claim` and `gc_pass` between these statements; its
--   children are about how long a thread takes and what it answers.
--   Artifacts: lists, `_download` and `validate_pass`. Recover: `recover` of db.py. Http, Routes:
--   `_load_auth` of main.py, and `Auth` and `_route` of httpd.py.
--   System: `Step` and `Run`, as for VaultQwen; `CurrentStep` names the points at which the code relies on
--   what it does not check. Counts is about the tables in any run, Bytes about the files.
--
-- Prelude holds what the parts share: Boolean tests on the native numbers, lists, rows of a table
-- (SELECT, UPDATE, DELETE) and of tables with keys, dictionaries and sorting. Json is what
-- `json.loads` gives, Text texts as lists of characters. Effect is a function from a state to a result
-- (a value, an error that the program raises on purpose, or another exception) and the state that it
-- leaves, with do blocks; Effect/Keeps has the rules for invariants.
--
-- Correspondence. Ids and digests are lowercase hexadecimal texts of one width, so they are the
-- numbers that they spell. A file is the list of its bytes. An SQLite transaction is one function;
-- where the code works between two of them, each is a function of its own, and `Interrupted` of
-- Invariant/Recovery lists the points between them at which a crash may come; the threads of VaultQwen
-- and Vault27b stop between any two. The hash function, `json.loads`, `int()`, random ids and tags, the
-- clock, and whether a file was replaced while it was read, a deadline is over, or the directory of a
-- blob could be made and synced are arguments.
-- `same_length` is the one assumption on the hash: contents of different lengths have different
-- digests, as holds of any two files that do not collide.
--
-- Loops. `put_chunk` and `store_chunk` read a body by a loop that is given as many rounds as the body
-- has bytes, and `gc` works in batches by as many rounds as there are candidates; a round takes at
-- least one byte or one candidate. A wait of VaultQwen is one step of a thread for each round; a
-- finalization of Vault27b has the five attempts of the code.
--
-- Not modelled: requests to vaultdrop between two batches of one `gc`, fsync, file modes, sockets,
-- logging, signals and the command line; the graders' control of processes; tests, and the documents
-- of the other tasks; the other submissions to vaultdrop, which are further programs for the same
-- specification; the grader of mini-recur; what other requests to VaultQwen
-- do inside one `store_chunk`, and to Vault27b inside one `put_chunk`, one download or one validation;
-- staging files; and digits outside Latin-1 in a digest.
pub mod Effect
pub mod Inbox
pub mod Json
pub mod Ledger
pub mod Prelude
pub mod Publisher
pub mod Recur
pub mod Text
pub mod Vault27b
pub mod VaultQwen
pub mod VaultSol
