-- ===== src/Lib.antt =====
-- A verification library for the testnet test suite: the prices of its oracle and the actions of its
-- Raydium client, as definitions that follow the Rust code, with theorems about them.
--
-- The program. A market-maker test suite for a Solana cluster. The oracle service takes prices of
-- underlying symbols from public feeds, and its pricing engine makes of them the prices of the
-- instruments that are configured: bases (a copy, a cross, a basket, a peg, a random walk) and
-- transforms (scale, invert, beta, lag, noise). The Raydium client reads one concentrated-liquidity
-- pool from the chain, checks what it has read, computes a quote, and submits one transaction; the
-- chain client signs it, simulates it, sends it and waits for its confirmation. The orchestrator gives a
-- user tokens and puts it through the actions of the client, one after the other; its service does
-- so with one user for each pair of mints, gives each of them lamports first, and takes back what is
-- left.
--
-- Files, and the code that they are about:
--   Prelude     shared types, tests, results, integers and dictionaries
--   Decimal     rust_decimal, as a parameter
--   Math        crates/mtm-math/src/lib.rs: Math/Price the prices, Math/Text their
--     text form, and what is shown of them (Scale, Digits, Printing)
--   Oracle      crates/oracle-client/src/types.rs (Types), services/oracle/src/pricing/spec.rs
--     (Spec), floating point and random numbers as a parameter (Floats), and
--     services/oracle/src/pricing/mod.rs (Pricing): the state (State), the construction (Build and
--     Engine), the evaluation (Eval), the two entry points on_underlying and on_tick (Engine), and
--     what is shown of them (Registry, Times, Construction, Shape, Underlying, Clock, Window);
--     services/oracle/src/state.rs and api.rs (Store), and the engine's task over both (Run);
--     services/oracle/src/config.rs (Config) and lib.rs (Startup, Serving); services/oracle/src/binance.rs
--     (Binance), and what is shown of it (Coalescing); services/oracle/src/hermes.rs and feed_task.rs
--     (Hermes), and what is shown of it (Polling)
--   Raydium     crates/raydium-clmm-client/src: the types (Types), the interface crate and the
--     SPL programs as parameters (External, Programs), the chain as a parameter (Monad), amounts
--     (Amounts), quote.rs (Quote), accounts and addresses (Accounts, Addresses), what an action
--     loads (Load, Position, Arrays), position quotes (Liquidity), the actions (Actions, Pools,
--     Swap), and what is shown of them (Slippage, Walk, Once, Reading, Sent, Bounds, Limits,
--     Deposits, Outcomes); the construction of a client and its submission over a chain client
--     (Setup, Failures)
--   Chain       crates/mtm-chain/src/lib.rs: the submission of a transaction (Submit), and what is
--     shown of it (Sending, Once); crates/mtm-chain/src/tx.rs: send_instructions (Instructions), and
--     what is shown of it (Attempts)
--   Flow        crates/raydium-clmm-orchestrator/src/lib.rs: errors, parameters and outcomes (Types),
--     bytes (Bytes), the checks (Checks), mints and instructions (Mints), the operations (Steps), over
--     actions with any error (Task); and what is shown of them (Counting, Sent, Minting, Validity,
--     Funding)
--   Service     services/raydium-clmm-orchestrator/src/main.rs: arguments and errors (Types), mints
--     and pairs (Mints), instructions (Transfers), the recovery of funds (Reclaim), the two loops over
--     the users (Users), the commands (Commands); and what is shown of them (Returns, Counts, Totals,
--     Whole, Pairs, Balances)
--   Tests       concrete instances of the parameters, and runs
--
-- State and errors. The engine is a record that each operation takes and returns; an index out of
-- range or an overflow is a panic and gives `none`. An action of the client is a function of the
-- world, which stands for the chain, into a result or a fault and the new world; a fault is one of
-- the client's errors or a panic. A machine integer is a natural number or an integer, with the
-- range check of each checked operation written out. A hash map is an association list. The chain
-- client is a parameter of the Raydium client, whose laws (Raydium.Once.IsLogged) say that only a
-- submission sends; Chain models the submission itself. Setup makes such a chain of a chain client
-- (Node), and Flow and Service run on that; Service.Types.Host adds the environment and the files.
--
-- Fuel. The loop of quote_swap has at most 64 rounds in the source, and so has its model; running
-- out of them is the source's own error.
--
-- The loop of the confirmation in Chain has no bound in the source but the clock; it runs on fuel, and
-- a fuel of one more than the timeout over the pause is enough. The digits of a number are
-- printed on fuel above the number, and the prefix of a feed id is trimmed on fuel as long as the id, of
-- which each round takes two bytes. All other loops are recursions on lists or on a number of attempts.
--
-- The attempts of send_instructions are a recursion on their number.
--
-- Not modelled: sockets, HTTP, JSON, the CoinGecko feed (floating point over HTTP), logging, metrics
-- and command lines; the contents of the recovery files of the orchestrator's service, and what it
-- prints.
pub mod Prelude
pub mod Decimal
pub mod Math
pub mod Oracle
pub mod Raydium
pub mod Tests
pub mod Chain
pub mod Flow
pub mod Service
