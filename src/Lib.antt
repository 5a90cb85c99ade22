-- ===== src/Lib.antt =====
-- A model of the bookkeeping core of a multi-tenant accounting service, and what is proved of
-- it.
--
-- The program. A request of a firm's staff or of a client's portal user runs in one transaction,
-- whose settings name the tenant (app/db/tenant.py, app/db/session.py); a row-level policy
-- (migrations/versions/0001_initial.py) hides and refuses the rows of other tenants. The ledger
-- (app/domain/ledger.py) is the only writer of journal entries. The statements
-- (app/domain/statements.py) and the reconciliation (app/domain/reconciliation.py) read the
-- posted lines. The tax module (app/domain/tax_service.py) maps accounts to lines of tax forms
-- (app/domain/tax_catalog.py), with proposals by keyword (app/domain/tax_automap.py), and
-- computes worksheets. Reviewed drafts of the classifier enter the ledger through the promotion
-- (app/domain/promotion.py), which also learns rules for the categorizer
-- (app/integrations/account_categorizer.py). The registry of form templates
-- (app/domain/form_template.py) says which file of a tax form may be final. Every write adds an
-- audit event (app/domain/audit.py). Documents are stored encrypted under keys of their firm
-- (app/security, app/integrations/keys.py), and a worker takes the jobs of a queue
-- (app/workers/consumer.py).
--
-- Files and code:
-- - Base and its children: lists, integers, sums of the rows that pass a test, texts as code
--   points.
-- - Model (Enums, Rows): app/models/enums.py and the tables of app/models/accounting.py.
-- - Tenant: TenantContext, the settings, and `visible`, the policy's predicate;
--   Tenant/Isolation.
-- - Session: the tables with the settings, the monad of the services and `write_audit`;
--   Session/Binds.
-- - Ledger: LineInput, _validate_lines, LedgerService.post and reverse. The proofs are in
--   Ledger/Validation, Admission, Accounts, Rows, Posting, Books, Refusal and Reversal.
-- - Statements: _balance_query, _accounts, _signed, _balances_for and the methods of
--   StatementsService; Statements/Totals, Identity, Flow.
-- - Reconciliation: reconcile_account; Reconciliation/Outcome.
-- - Tax/Mapping: propose_mapping, approve_mapping, reject_mapping and the unique key of
--   tax_account_mapping; Constraint, Review.
-- - Tax/Worksheet: _period_activity and the figures of a worksheet; Activity. Tax/Generate:
--   generate_worksheet, approve_worksheet, reject_worksheet; Rows, Stages, Declared and Mapped
--   (what the mappings declare, apart from the computation), Gates, Current, Review.
-- - Tax/Bulk: auto_propose_for_form, approve_all_drafts_for_form, auto_fill_worksheet; Runs.
-- - Tax/Catalog, Tax/Rules: the tables of tax_catalog.py and tax_automap.py. Tax/Automap:
--   auto_propose_mappings; Proposals.
-- - Promotion: promote_draft and reject_draft; Promotion/Descriptions and Learning: the rules
--   learnt; Plans and Statement: promote_statement_draft; the proofs are in Settled, Drafts,
--   Loop, Proposed and Statements. Categorizer: the form of the rules.
-- - Forms/Template: the operations of form_template.py; Writes, Current, Refinement,
--   Publication. Registry and Registry/Switch: tables of versions of which one per key is in
--   force. Forms/Ruleset: entity_form_ruleset.py; Activation, Writes, Filing, Drafted, Ensured.
-- - Security/Primitives: what the code takes from libraries, with its laws; Keys, Envelope,
--   Storage: keys.py, envelope.py, storage.py with files, encrypted_storage.py over it;
--   RoundTrip.
-- - Worker: _process and run of consumer.py; Worker/Draining.
-- - Tests: example books, on which each theorem is applied.
--
-- How the code is read. An operation is a function from the session to a result and the session
-- after it; an exception keeps what was flushed; the transaction of tenant_session, which undoes
-- it, is the database's and is not modelled. Identifiers and clock times are arguments, as the
-- code takes them from outside. An amount is an integer of a smallest unit and a date is its
-- ordinal, so that there is no bound on either; the rounding and the range of Numeric(20, 4) is
-- the parameter `numeric`, where no result is the database's error. A row returned by a service
-- is the row as stored. The digest of a worksheet is a parameter, and so are the tables of
-- Unicode that the mapper uses through lower, isdigit and the word characters of a pattern. A
-- query returns rows in the order of the table, which the code does not rely on where it gives
-- none. The identifiers of entries are keys, so that a join with the entries is a lookup. The
-- loops are structural, but that of the worker, which runs on fuel: five tries for each waiting
-- message are enough. The texts of a payload that Python reads as numbers or dates are read by
-- parameters; an amount that is infinite is left out. The file of learnt rules is outside the
-- database, so that an operation returns it beside its result. The reads of a worker in batches
-- are reads of one message each.
--
-- Left out: the texts of exceptions; `created_at`, and the keys of lines and audit events;
-- concurrency between transactions; foreign keys. Not modelled: the templates of charts, writing
-- the profiles of clients, the reports and their files, the artifacts, the parsers, and the keys
-- in Azure. HTTP routes, user interfaces and calls of outside services are not modelled either.
pub mod Base
pub mod Model
pub mod Tenant
pub mod Session
pub mod Ledger
pub mod Statements
pub mod Reconciliation
pub mod Tax
pub mod Categorizer
pub mod Promotion
pub mod Registry
pub mod Forms
pub mod Security
pub mod Worker
pub mod Tests
