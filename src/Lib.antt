-- ===== src/Lib.antt =====
-- EXBanka 3: the money-moving core of a bank's Go services, and what holds of it.
--
-- The program is a set of services over one database. This library models the parts of them that
-- move money or give out numbers:
--
-- - Saga: the orchestrator of exchange-service (exchange-service/internal/service/
--   saga_orchestrator.go, saga_retry.go, saga_faults.go, internal/repository/saga_repository.go,
--   internal/models/saga.go). Saga/Types has the rows and the state of a run, Saga/Repository the
--   writes, Saga/Orchestrator the forward loop and the compensations, Saga/Run `Run` and
--   `RunWithFaults`, Saga/Retry `RetryCompensations` and the cron. The business tables are a type `W`,
--   and a step's transaction is a parameter that commits new tables or fails and writes nothing. It
--   is given the number of transactions run before it, so that a retry may come out otherwise.
--   The forced faults are modelled; the injected delays and the time stamps of steps are not.
--   Each write whose error the code drops may fail (`write_fails`).
--   Proofs: Saga/Writes, Saga/Undo, Saga/Unrecovered, Saga/Endings, Saga/Atomicity, Saga/AtomicRun,
--   Saga/Recovery, Saga/RetryKeeps, Saga/RetryLaws.
-- - Payment: payment-service (payment-service/internal/service/payment_service.go with
--   internal/repository and internal/models). Payment/Service has the settlement in a database
--   transaction, Payment/Requests the requests. Notifications write no table and are left out, and
--   so are `settlePaymentNonTx`, which runs without a database, `ApprovePaymentMobile` and the
--   listings. Proofs: Payment/Accounts, Payment/Settlement, Payment/Transfer, Payment/Once,
--   Payment/Success, Payment/Verification.
-- - Interbank: the buyer's bank in the acceptance of an OTC option between banks (exchange-service/
--   internal/interbank/tx_processor.go and messages.go, with internal/models/interbank.go and
--   internal/repository/interbank_wallet_repository.go, interbank_otc_repository.go,
--   interbank_tx_repository.go). Interbank/Acceptance and Interbank/Terms check the postings,
--   Interbank/Wallet reserves, debits and releases the cash, Interbank/Processor has `OnNewTx`,
--   `OnCommitTx` and `OnRollbackTx`. The HTTP server with its idempotence cache, the client, the
--   exercise processor and the dispatcher are not modelled. Proofs: Interbank/Totals, Interbank/Steps,
--   Interbank/Bodies, Interbank/Backing, Interbank/Sequences, Interbank/Agreement, Interbank/Answers,
--   Interbank/Ready, Interbank/Restores, Interbank/Commits, Interbank/Finality, Interbank/Balance.
-- - InterbankPayment: direct payments between banks (exchange-service/internal/interbank/
--   payment_tx_processor.go and registry.go, internal/handler/interbank_payment_http_handler.go,
--   internal/service/interbank_reconcile.go, internal/repository/interbank_payment_repository.go).
--   InterbankPayment/Models and InterbankPayment/Wallet have the rows and their updates,
--   InterbankPayment/Shape builds and parses the transaction, InterbankPayment/Receiver has `OnNewTx`,
--   `OnCommitTx` and `OnRollbackTx`, InterbankPayment/Sender the checks and the transactions of
--   `createPayment`, InterbankPayment/Initiator `createPayment` itself and the reconciliation of one
--   row over a client that is a parameter, and InterbankPayment/Network a client that reaches the
--   other bank's processor over messages that may be lost. InterbankPayment/Protocol is the abstract
--   state machine. Which rows the reconciliation picks by their age, the listings and the JSON are not
--   modelled. Proofs: InterbankPayment/Books, InterbankPayment/Keeps, InterbankPayment/Created,
--   InterbankPayment/Operations, InterbankPayment/Finalised, InterbankPayment/Recorded,
--   InterbankPayment/Ledger, InterbankPayment/Sequences, InterbankPayment/Views,
--   InterbankPayment/Follows, InterbankPayment/Refinement, InterbankPayment/RoundTrip,
--   InterbankPayment/Requests, InterbankPayment/Settles, InterbankPayment/Paid, InterbankPayment/Pending,
--   InterbankPayment/Agreement.
-- - Transfer: transfer-service (transfer-service/internal/service/transfer_service.go with
--   internal/repository and internal/models). Transfer/Settlement has the settlement in a database
--   transaction, Transfer/Service the pricing and the requests. The rates of the exchange service and
--   the row that gorm's `Pluck` finds are parameters. Amounts in RSD that are not rounded are in
--   units of 1e-8 and rates in millionths, and `math.Round` is exact on them. `settleTransferNonTx`,
--   which runs without a database, the preview's rate, the listings and the transfers with a
--   verification code are not modelled. Proofs: Transfer/Totals, Transfer/Writes,
--   Transfer/Conserved, Transfer/Settled, Transfer/Conservation, Transfer/Pricing, Transfer/Whole,
--   Transfer/Refused.
-- - Cards: cards of account-service (account-service/internal/service/card_service.go,
--   internal/repository/card_repo.go, internal/models/card.go). Cards/Types has the table, Cards/Service
--   issuing, blocking, unblocking and deactivation; what a card reads of its account is a lookup, and
--   the digits of the number and of the CVV and `AddDate` are arguments. Card requests with a
--   verification code, notifications and listings are not modelled. Proofs: Cards/Counts,
--   Cards/Limits, Cards/Sequences, Cards/Deactivated.
-- - Numbers: account and card numbers of account-service (account-service/internal/util/
--   account_number.go, card_number.go). Random draws are arguments; a list of draws bounds the
--   rounds of the account number's generation. Proofs: Numbers/Luhn, Numbers/Checksum.
--
-- The services share the accounts table, whose row is Payment/Types.Account. Prelude holds what all
-- parts use: integers, texts as lists of code points, errors as values, and the database handle.
--
-- Conventions. Amounts, which are float64 in the source, are integers in hundredths, and comparisons
-- within 1e-9 are equalities; rounding of floats is not modelled. Ids are natural numbers, times are
-- seconds. `gorm`'s transactions are a parameter, Prelude/Db.Transactions: a body that reports an
-- error leaves nothing behind, and one that does not is committed or, when the commit fails, leaves
-- nothing. Which statements the database refuses is an argument of every request. Row locks make the
-- bodies of transactions run one after another; a handler's body takes the row that the handler read
-- earlier as an argument. Go's `time.Parse` is a parameter. The retries of compensators are bounded
-- by the source's own constants, so no fuel is needed; the length of the printed routing numbers is
-- bounded by the number itself. Logs are left out.
--
-- Not modelled: loans, orders, funds, cards, employees, clients and authentication, the
-- HTTP layers, and the configuration.
pub mod Prelude
pub mod Saga
pub mod Payment
pub mod Interbank
pub mod InterbankPayment
pub mod Transfer
pub mod Cards
pub mod Numbers
