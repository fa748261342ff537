-- ===== src/Lib.antt =====
-- microtensor-subnet: the parts of the program that decide, by integers, who is paid what and when.
--
-- The program is a network in which operators serve models and miners submit them. Its parts here:
--   chain/    an epoch is a span of blocks: commitments first, then a window of evaluation, then
--             settling. A round is a span in which submissions are open and then sealed; some rounds
--             together make a release cycle.
--             A miner commits to an artifact by a short text on chain, in the open or sealed.
--   serving/  the gateway reports, for an epoch, a row of counts for each operator, model and gpu.
--             `settle_epoch` turns the rows into scores, `divide` splits the emission of the epoch
--             by the scores, and `weights` turns the shares into weights of uids.
--             `serving/wire` is the session of an operator with the gateway: places on each gpu,
--             requests that are refused or started, and gpus that drain.
--             `serving/plan.py` plans which of the models that are offered go on which gpu of a host,
--             and `serving/host` carries the plan out.
--   artifact/ what is read of the files that a miner submits: the header of a model.
--   validator/  reads the commitments on chain into the candidates of an arena,
--             tells which entry is a copy of an earlier one,
--             reports its progress through a queue and a thread, and hands out opaque tickets.
--   rigs/     watches over the rigs of the owners: probes each of them often, counts its uptime, and
--             splits the weights among them.
--   core/     a transcript of each hotkey is a leaf of a Merkle tree, whose root is published, so that
--             anyone can check that a transcript was counted.
--
-- The files and the code (paths in microtensor_subnet/ of the repository):
--   Base            lists, results, integers, fractions, sorting, and dicts as association lists;
--                   `Floats` is an interface of floating-point numbers
--   Chain.Clock     errors and integer division of chain/epochs.py and chain/rounds.py
--   Chain.Epochs    chain/epochs.py: `Epoch`, `epoch_at`, `epoch_for_block`
--   Chain.Rounds    chain/rounds.py: `Round`, `round_for_block`, `release_*`
--   Chain.Weights   chain/weights.py: `WeightVector`, `quantise_weights`, `restrict_to_metagraph`
--   Base.Text       texts by characters: stripping, splitting, regular expressions, and `Builtins`, an
--                   interface of `str.lower`, `str(n)` and `int(s)` with an instance for ASCII
--   Chain.Commitments  chain/commitment.py: `Commitment` (Manifest), `Reveal` (Reveals),
--                   `SubmissionCommitment` (Submissions), `SealedCommitment` (Sealed), with their checks
--                   and texts; errors and short digests are in Digests
--   Core.Hashing    what the program uses of sha256 and hexadecimal text, an interface
--   Core.Merkle     core/transcript.py: `_levels`, `merkle_root`, `merkle_proof`, `check_proof`
--   Serving.Settle  serving/settle.py: `score_of`, `billing_of`, `settle_epoch`
--   Serving.Pools   serving/pools.py: `Dials`, `cap_for`, `excluded_of`, `bounties_of`, `_shares`,
--                   `_floors`, `floors_for`, `divide`, `weights`
--   Serving.Wire.Offered   serving/wire/session.py: `Served`, `Settings`
--   Serving.Wire.Capacity  the same file: `Inflight`, `Capacity`
--   Serving.Wire.Link      the same file: `Link`, `backoff`
--   Serving.Wire.Refusals  the same file: `refusal`
--   Serving.Wire.Reports   the same file: `_report` and the frames that are sent
--   Serving.Wire.Session   the same file: `_finish_drains`, and `session` as a step function on a
--                          state, with an event for each frame and each task that ends
--   Serving.Hardware       serving/hardware.py: `class_of`, `satisfies`
--   Serving.Plan           serving/plan.py: `Offer`, `Capacity`, `Policy`, `unrunnable`; `assign` (Assign);
--                          `pin_matches`, `build`, `wanted_of`, `changed` (Build)
--   Serving.Host           serving/host/__init__.py: `holding`, `plan_now`, `release`, `take_up`, `apply`,
--                          over `Workshop`, an interface of what is fetched and opened
--   Rigs.Ledger            rigs/validator/scoring/reliability.py: `UptimeLedger`
--   Rigs.Express           rigs/validator/schedule/express.py: `ExpressLane`, where a probe is told by how it
--                          ends
--   Rigs.Weights           rigs/validator/scoring/weights.py: `build` and what it calls (the dicts in Uids)
--   Artifact.Gguf          artifact/gguf.py: `read` (tables in Tables), `parameters` (Counts)
--   Validator.Tally        validator/progress.py: `Tally`
--   Validator.Progress     validator/progress.py: `Reporter`, with a move for each operation under its lock
--   Validator.Tickets      validator/relay.py: `TicketDesk`
--   Validator.Collect      validator/collect.py: `candidates`, and `fee_ok` (Fees)
--   Validator.Duplicates   validator/duplicates.py: `compare` and what it calls, where sums and roots are parameters
-- A function has the name it has in the source, less a leading underscore (`_shares` is `shares_of`,
-- `_floors` is `grant_floors`). Each loop is a function by recursion on the list that is looped over,
-- with the variables of the loop as arguments. `raise` is a value of `Result`.
--
-- Representation. A `Fraction` is a numerator over a denominator above zero that need not be in lowest
-- terms; it is only compared and multiplied. A number that may be negative is an ℤ, others are ℕ, since
-- integers of the program have no bound. A dict is an association list in the order of insertion.
-- Text is compared by its characters. A floating-point number that is computed with is of a type with
-- operators of which no law is assumed, so what is proved holds of rounded results, too. An instant that is
-- only compared, or of which an age is taken, is a number of ticks of a clock, as its file says.
-- A JSON value is given as what the code reads from it: a count, or a number, or something that is neither.
--
-- Fuel. `levels` runs on as many rounds as there are leaves; each level is at most half as long as the
-- one below it, so the last level is a single root. The values of a header are read on as much fuel as
-- the file has bytes, since each nested array takes twelve of them.
--
-- Not modelled: processes, sockets, containers and storage; the chain behind chain/client.py;
-- the epoch of a validator and its scores (validator/epoch.py, validator/score.py, scoring/); sandboxes;
-- the deep pass over a rig and the checks that it runs there; the sketches of tensors; the command line;
-- the seeds of epochs, which hash text; the figures and partial answers of a session, and how it dials
-- again.
pub mod Artifact
pub mod Base
pub mod Chain
pub mod Core
pub mod Rigs
pub mod Serving
pub mod Validator
