-- ===== src/Lib.antt =====
-- The LMAX multisig program: a Solana program with which the owners of a multisig propose, approve
-- and execute transactions that are signed by an address of the program's own.
--
-- A multisig account holds the owners, the threshold, the nonce of its signer's address, a sequence
-- number that grows with every change of owners, and padding. A transaction account holds the
-- multisig it is for, the instructions, one vote for each owner, and the sequence number that the
-- multisig had. One instruction makes a multisig, one a transaction with the proposer's vote;
-- approving adds a vote, executing counts the votes, invokes the stored instructions with the
-- signature of the multisig's derived address and closes the account, cancelling only closes it. The
-- owners and the threshold are changed by three instructions that this derived address has to sign,
-- so they are called by executing a transaction.
--
-- The files, with the code that they are about:
--   Base         the names that are shared: lists, options, Boolean tests, their lemmas.
--   Errors       program/src/errors.rs. `Errors.Outcome` has the results with their monad.
--   Sdk          what is used of solana_program and borsh, as two records of operations and laws:
--                `Runtime` and `Borsh`. `Sdk.Bytes` has the lemmas on numbers in little endian.
--   State        program/src/state/multisig.rs (`State.MultisigAccount`),
--                program/src/state/transaction.rs (`State.TransactionAccount`), the stored
--                instructions of program/src/instructions/propose_transaction.rs
--                (`State.InstructionData`), how both accounts are read and written
--                (`State.Stored`, `State.Save`, `State.Saved`, `State.Reads`), and their data byte by
--                byte (`State.Layout`); `State.Confusion` is about data that is read as both.
--   Common       program/src/instructions/common.rs; its children are about its parts.
--   Instructions one module for each file of program/src/instructions, with the same names; the
--                child modules are about what a call has done, and about every result that it can
--                have (`Refused`). `Instructions.Accounts` takes the accounts from the list,
--                `Instructions.Authority` is the check that the three changes of a multisig have in
--                common.
--   Processor    program/src/processor.rs: the instructions, their encoding, the dispatch, and the
--                accounts that they declare (`Processor.Declared`).
--   Lifecycle    several instructions together: who can change a multisig, whether it stays well
--                formed, what a change of owners does to the transactions that are under way and to
--                the threshold. `Lifecycle.Runs` is the step relation of all that can happen,
--                `Votes`, `Provenance`, `Owners`, `Voters`, `Quorum` and `Signatories` follow the
--                votes through it, `Persistence` and `Outdated` the multisigs, and `History` has
--                the calls of the program on raw data. `Lifecycle.Ballot` is the abstract view of a
--                multisig and its transaction: a threshold, owners and voters, keys in no order
--                (lists up to permutation), with the steps of a vote; `Ballot.Refined` relates it to
--                the instructions.
--   Client       the TypeScript client: the functions of ts/instructions (`Client.Instructions`) and
--                the schemas of ts/state (`Client.State`), over the packages that they use
--                (`Client.Packages`) and the values of JavaScript (`Client.Js`, with
--                ts/assignable.ts). `Client.Requests` names the calls, `Client.Written` is about
--                their data and `Client.Processed` about what the program does with them.
--                `Client.Dsl` has the accounts of an execution, of ts/multisigDsl.ts.
--   Tests        a working borsh, a working runtime and working packages, with which the program
--                and the client are run.
--
-- How the code corresponds:
--   - A call goes from a store to a result with a store. The store maps a key to the account's
--     lamports, data and owner. The same key may be given for several accounts: they are one
--     account of the store, as in the runtime. On an error the runtime drops all changes, so an error
--     carries no store.
--   - A key is a number below 2^256, a byte a number below 2^8; that numbers are in the range of
--     their types is a hypothesis (`IsMultisig`, `IsKey`) or follows from what was read.
--   - Arithmetic on u8, u32 and usize wraps around where the code does arithmetic on stored values,
--     as in a build without overflow checks. Lengths of data in memory are not wrapped.
--   - An index out of bounds is the result `panicked`.
--   - Derived encodings are built from the format's parts in the order of the fields and variants,
--     through the operations of `Encoding`.
--   - All loops are recursions on a list; there is no fuel.
--
-- Runs: a step is a call of an instruction, a step of other programs, or an execution in three
-- parts: the checks, a run of whatever the stored instructions do, calls of this program among it,
-- and the closing. That a call made by `invoke_signed` is such a run is a hypothesis where it is
-- needed (`InvokesRun`). Other programs keep the runtime's rules: they do not change the data or
-- owner of this program's accounts, and what they hand to it is zeroed (`Outside`). Neither kind of
-- account is marked, so the theorems on runs ask that a multisig's key does not begin with a
-- number of owners (`IsClear`), or that nothing stored under it is used as a transaction
-- (`StaysAside`); without that a multisig can be made to pass for a transaction
-- (`Lifecycle.Forged`).
--
-- Parameters, with laws that their documentation states: the format's numbers, truth values, keys and
-- vectors (numbers in little endian, a vector its length as a u32 and its items), reading a whole
-- slice, serialising over a slice; the iterator over the accounts; the derived address; the rent;
-- resizing and assigning an account; invoking another program. Of `invoke` only the system program's
-- `create_account` has a law. `Tests.Machine` shows that the laws can be met. For the client, the
-- packages borsh and @solana/web3.js are parameters in the same way: the format of a schema, that
-- reading takes back what was written, and the bytes of a key (`Tests.Packages` meets the laws).
-- `JSON.stringify` gives different objects different texts. A JavaScript number is a natural number.
-- The theorems on a change of owners assume that an account's data is at most 10 MiB, which is the
-- runtime's limit.
--
-- Not modelled: the log; the runtime's own checks after a call (balances, writability); the error
-- of borsh on a vector of more than 2^32 items; what the invoked programs do; program/src/lib.rs,
-- which only hands its arguments on; of ts/multisigDsl.ts all that drives a test validator; the tests
-- and the scripts.
pub mod Base
pub mod Client
pub mod Errors
pub mod Sdk
pub mod State
pub mod Common
pub mod Instructions
pub mod Processor
pub mod Lifecycle
mod Tests
