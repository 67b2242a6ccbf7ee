-- ===== src/Lib.antt =====
-- Verification of the boteco12 API: the game of football predictions with its virtual coins
-- (tampinhas), as implemented under src/ of this repository.
--
-- A round has twelve matches. Users send a ticket for it: twelve choices (1, X, 2) and twelve
-- multipliers, of which 2 (a double) and 4 (a super double) use up benefits. Benefits are granted free
-- for a round, or bought with coins from a wallet. When the round is closed and its result is set,
-- every ticket is scored and the users' totals rise; rankings order users by score and tie-breaks.
-- Mesas are pools of users with an access fee and prizes.
--
-- The parts and the files:
--   Prelude: shared names; Prelude/Lists and Prelude/Int the lists and integers over the native
--       numbers; Prelude/Text texts as lists of UTF-16 code units with trim, split and join.
--   Errors: src/errors/AppError.ts and the plain errors. Transaction: an interactive transaction of
--       Prisma, state passing in which a throw discards the state. Db: the tables of
--       prisma/schema.prisma that the services use, with the CHECK constraints of
--       prisma/constraints and the unique indexes.
--   Wallet: src/services/wallet (credit, debit, getOrCreateWallet, GetWalletService) and
--       src/services/bolao/bolao-entry-payment.service.ts. Wallet/Ledger has the books, Wallet/Debit
--       the debits, Wallet/Interleaving any sequence of commits.
--   Prediction: src/services/ticket/normalize-ticket-prediction.ts.
--   Benefit: Config (src/services/benefits/benefits.config.ts, src/domain/subscription.ts), Consume
--       (consume-benefits.service.ts), Grant (grant-round-benefits, round-benefit,
--       grant-paid-benefit, reward-benefit and get-benefit-balance), Purchase
--       (purchase-benefits.service.ts).
--   Ticket: src/services/ticket/create-ticket.service.ts, on Prediction and Benefit.
--   Score: src/services/score/calculate-ticket-score.service.ts; Score/RoundScore:
--       score-round.service.ts, on Score and the tickets of a round.
--   Round: open-round, close-round and set-round-result of src/services/round, with
--       normalizeRoundResult of round-match.types.ts.
--       Round/Process: process-round.service.ts, on the scoring of a round.
--   Ranking/Tiebreak: src/services/ranking/ranking-tiebreak.service.ts. Ranking/Window: buildRows of
--       ranking-window-score.service.ts, on the order of Tiebreak.
--   Mesa: of src/services/bolao, Terms (mesa-category-rules.ts), Schedule (mesa-schedule-rules.ts),
--       Registration (bolao-registration-window.service.ts, bolao-invite-reservation.ts), Prize and
--       Payout (bolao-prize.service.ts), Entry (the rows of a Mesa, with Join for
--       join-bolao.service.ts, Review for review-bolao-request.service.ts and Invited for
--       use-bolao-invite.service.ts), Baseline (mesa-initial-score.service.ts), Settlement
--       (settle-bolao.service.ts) and Integrity (mesa-integrity.service.ts).
--   Subscription: of src/services/subscription, renewal, cancellation and the PRO guard; Calendar has
--       the calendar months of renew-subscription-from-payment.service.ts, Provider the events
--       process-mp-subscription-*.service.ts and the job revalidate-active-subscriptions.service.ts.
--   Payment: of src/services/payment, create-payment.service.ts; Payment/Webhook:
--       process-mercado-pago-webhook.service.ts with its helpers, on Wallet and Subscription.
--
-- How the program is read:
--   A function of the model stands for a static method and keeps its name in antt's spelling; a method
--   that is always called `execute` is named after its service. A service that runs in a transaction
--   is a function on the database that returns a value and a new database, or an error. A wallet
--   debit, an access fee, a consumption of benefits, a submission, the scoring of a round, the result of
--   a round, a join and a webhook have a parameter between what they read and what they write, any
--   function on the database: what other transactions commit meanwhile. In the result of a round it does
--   not change the matches. The other services are one step. A theorem that says
--   "nobody else at work" or "nobody interrupts" takes the identity there. Identifiers and keys are numbers, since they are
--   only compared; dates are milliseconds. Numbers are unbounded; the amounts of the program are
--   32-bit columns that PostgreSQL refuses to overflow. `toUpperCase` acts on the ASCII letters.
--   Sorting is by insertion, which is stable as `Array.prototype.sort` is.
--
-- Every loop of the modelled code runs over a list or counts down a number (the cents and the months
-- that are left), so it is structural recursion and no fuel is used: each function is total.
--
-- Mercado Pago is outside of this repository: its answers are an argument, for a call that throws the
-- argument is `none`. calculatePayouts computes with floating point numbers: these are an interface
-- (Number of Mesa/Payout.antt), and exact fractions are one instance of it. That the shares rounded
-- down do not exceed the pool is a hypothesis where a theorem needs it: with doubles it rests on their
-- rounding.
--
-- Not modelled: the runs of the recalculation, snapshots and closing of rankings around the modelled
-- rows, the recomputation of scored rounds, the creation and editing of Mesas and of rounds, the
-- checkout of a subscription, jobs and queues, sessions, controllers, validators and administration;
-- texts for people, time stamps and generated ids. Two openings of rounds at the same moment are kept
-- apart by the index rounds_single_open_idx, which the model does not need since it runs openings one
-- after the other.
pub mod Prelude
pub mod Errors
pub mod Transaction
pub mod Db
pub mod Wallet
pub mod Prediction
pub mod Score
pub mod Benefit
pub mod Ticket
pub mod Round
pub mod Subscription
pub mod Payment
pub mod Ranking
pub mod Mesa
