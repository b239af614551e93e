-- ===== src/Lib.antt =====
-- Shuttermint: the application that keypers drive through tendermint to agree on batch configs and to
-- run distributed key generations (shuttermint/app of the repository, with the parts of
-- shuttermint/shmsg, shuttermint/medley and shuttermint/keyper/shutterevents that it calls), and the
-- keyper: its part in a key generation (shuttermint/keyper/puredkg, shuttermint/keyper/epochkg and
-- shuttermint/shcrypto), what it observes of both chains (shuttermint/keyper/observe and
-- shuttermint/contract), and what it decides and runs (shuttermint/keyper and shuttermint/keyper/fx).
--
-- Parts, files and code:
--   Shmsg         the messages (shuttermint/shmsg/shmsg.proto)
--   Medley        FindAddressIndex, EnsureUniqueAddresses, DedupAddresses (shuttermint/medley/medley.go);
--                 Medley/Unique has their laws
--   Config        BatchConfig and its checks (shuttermint/keyper/shutterevents/batchconfig.go)
--   Events        the structs of shuttermint/keyper/shutterevents/events.go; Marshal has the values as text
--                 (marshal.go), Abci and Make the events as attributes (events.go, helpers.go), and Text what
--                 of Go's strconv, strings and encoding/hex they use
--   Encoding      Go's base64.RawURLEncoding
--   Panic         why the program stops
--   External      libraries: the curve, Ethereum's crypto package, sha3, the protocol buffers, JSON, and
--                 the order of Go's iteration over a map
--   App           shuttermint/app: Nonces (noncetracker.go), CheckTx (checktx.go), Voting (voting.go,
--                 configvoting.go, eonvoting.go), Dkg (dkg.go), Messages (messages.go), Powermap
--                 (powermap.go), State (types.go, batch_state.go and the lookups of app.go), Deliver and
--                 Transactions (the handlers, DeliverTx and CheckTx of app.go), Blocks (InitChain,
--                 EndBlock and Commit), Chain (any sequence of these)
--   Curve         the groups of the curve library, and the laws that the theorems assume of them
--   Shcrypto      polynomials, gammas and keys (shuttermint/shcrypto/feldman.go and keys.go); Epochs has
--                 the part of keys.go about epochs, Padding and Encryption have encryption.go
--   PureDkg       the key generation of one keyper (shuttermint/keyper/puredkg/puredkg.go): the state and
--                 the handlers of messages; Phases has the phases, isCorrupt and polyEval, and Outcome
--                 has ComputeResult
--   EpochKg       the keys of epochs (shuttermint/keyper/epochkg/epochkg.go)
--   Contract      the main chain's configs (shuttermint/contract/config.go and signatures.go); Blocks has
--                 the laws of batches and blocks
--   MainChain     the view of the main chain (shuttermint/keyper/observe/mainchain.go); Sync syncs it
--   Observe       the lookups of configs in shuttermint/keyper/observe/shutter.go; Shielder has the view of
--                 the chain with the events applied to it, Signatures the sorted signatures, and Fetch how
--                 events are fetched page by page
--   Fx            actions, and the pending ones (shuttermint/keyper/fx/actions.go and pending.go); Run has
--                 the channels and workers (runenv.go), and Send how a message is signed and sent
--                 (messagesender.go)
--   Decide        the decider's state and shared parts (shuttermint/keyper/decide.go): Dkgs has its key
--                 generations, Epochs the keys of epochs and the signatures, Execution the half steps and
--                 accusations, Appeals the appeals, and All the whole step
--   Keyper        the loop of decisions and actions, with what is saved (shuttermint/keyper/keyper.go)
--   Base          shared helpers: Go's maps as association lists, lists, words, results, and in Search
--                 Go's sort.Search
--   Tests         runs at concrete inputs
--
-- How they interact: DeliverTx decodes a transaction, checks the chain's name and the nonce, uses the
-- nonce up, and hands the message to one of the handlers of Deliver and Transactions, which read and
-- change the state through State, Voting and Dkg. EndBlock starts configs and tells tendermint the
-- change of the validators. A keyper applies the events that the app emits to its view (Observe), and syncs
-- its view of the main chain; the decider reads both views and its own state, feeds the events to PureDkg and
-- EpochKg, and adds actions; the loop in Keyper saves the state with these actions and hands them to
-- Fx.Pending, which runs each of them once. Each child module Laws, Valid, Steps and so on has the theorems about the
-- module above it.
--
-- The model: a Go struct is a record, a pointer receiver is an argument and a result, an error is a
-- value of Result or Option, and a panic is the error of a Result whose error type is Panic. Addresses
-- are numbers; byte strings are lists of numbers. A uint64 is a natural number whose additions are taken
-- modulo 2^64, and int(x) keeps the bits of x; an int64 is the number with the same bits. A loop over a slice
-- or a map is a recursion on the list, so no fuel is needed. The varint of a block's number has a fuel of 10
-- bytes, which hold 70 bits; sort.Search has that of the length of the slice, of which each round uses one up
-- at least; the fetching of events takes how many pages a range of 500 heights may have, and how many ranges
-- there may be, and its theorem says how many are enough. The order of Go's iteration matters only where the code picks the first
-- candidate with enough votes; there it is the parameter `iteration` of External, of which the theorems assume that
-- it finds each pair of the map once (IterationLaw). The file on disk, logging, the texts of errors, and
-- the queries that answer with a constant are left out.
--
-- A keyper's key generation is driven by messages: the handlers of PureDkg store what they accept, a
-- phase begins with the messages that it returns, and after the last phase ComputeResult gives the
-- shares from which EpochKg makes the keys of epochs. The curve is a parameter (Curve); theorems about
-- keys assume that the multiples of the generator form a cyclic group of the curve's order and that
-- points marshal to distinct bytes (CurveLaw), those about encryption that a factor may change places
-- in a pairing (PairingLaw). Keccak256 is a parameter, and so is the random sigma. A big.Int is a
-- natural number, as the code reaches no negative one, and the index of a keyper is below 2^63. The polynomial that RandomPolynomial draws is
-- an argument.
--
-- The decider's step takes the two views as they are and a state; drawing a polynomial, encrypting, signing
-- and the shuffle are parameters (Libraries). What the contracts and the node answer are parameters too
-- (ConfigContract, Client); a call that fails is none. The loop of the keyper is a relation of steps between
-- which the program may stop, and start again from what it has saved; so is the work on the channels of
-- RunEnv, where a worker's step is taken whole: what it sends is sent once it has noted so.
--
-- Not modelled: the goroutines of the keyper, what the network does with messages and transactions,
-- the loops that wait for blocks, the gob files, the commands, the
-- sandbox, the generated contract bindings and the contracts.
pub mod Base
pub mod Shmsg
pub mod Medley
pub mod External
pub mod Config
pub mod Contract
pub mod MainChain
pub mod Observe
pub mod Fx
pub mod Decide
pub mod Keyper
pub mod Curve
pub mod Shcrypto
pub mod PureDkg
pub mod EpochKg
pub mod Encoding
pub mod Panic
pub mod Events
pub mod App
pub mod Tests
