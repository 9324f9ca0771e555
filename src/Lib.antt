-- ===== src/Lib.antt =====
-- Verification of apex (src/apex/): the tool that builds an installation image, runs checks against it in
-- virtual machines and on the laptop, records what it saw, and decides whether the candidate may be
-- installed.
--
-- The parts and how they interact. The kernel (src/apex/kernel) holds the values that all else is written
-- in: verdicts, environments, refusals, errors. The registry (src/apex/registry) collects declarations and
-- seals them, and derives an order from what units read and write. The pipeline (src/apex/pipeline) makes
-- a plan of stages in that order, asks every stage for its preflight against ports that refuse every
-- call (src/apex/ports), and then applies the stages and unwinds what they acquired. The attestation
-- (src/apex/attestation) reads the records that runs left behind and decides over the whole catalogue.
-- The model (src/apex/model) holds the codecs in which a guest and the host exchange what was observed,
-- and the verification (src/apex/verification) reduces observations to events and verdicts.
--
-- The files. Base passes on the library names and the helpers on lists, dictionaries, sorting and
-- names. Each other file models the file of the repository that its first comment names:
--   Kernel/Refusals, Kernel/Refusals/Codes   src/apex/kernel/refusals.py
--   Kernel/Errors                            src/apex/kernel/errors.py
--   Kernel/Verdicts                          src/apex/kernel/verdicts.py
--   Kernel/Claims                            src/apex/kernel/claims.py
--   Kernel/Bounded                           src/apex/kernel/bounded.py
--   Registry/Sealing                         src/apex/registry/registry.py, provenance.py
--   Registry/Graph                           src/apex/registry/graph.py
--   Pipeline/Facts, Stages, Plans, Runner    src/apex/pipeline/facts.py, stages.py, plans.py, runner.py
--   Pipeline/Ports                           src/apex/ports/portset.py, planning.py
--   Attestation/Readiness                    src/apex/attestation/readiness.py
--   Attestation/Attesting, Retracting        src/apex/attestation/attesting.py, retracting.py
--   Attestation/Columns                      src/apex/attestation/columns.py, readerspecs.py
--   Attestation/Ledger                       src/apex/attestation/ledger.py
--   Attestation/Proofs, Minting              src/apex/attestation/proofs.py, minting.py
--   Kernel/Documents                         src/apex/kernel/encoding.py
--   Kernel/Identifiers                       src/apex/kernel/identifiers.py
--   Model/Marks, Runtime                     src/apex/model/storemark.py, runtimestate.py
--   Attestation/Electing                     src/apex/attestation/markclaims.py, readerspecs.py, electing.py
--   Attestation/Selecting                    src/apex/attestation/selecting.py
--   Attestation/Stores                       src/apex/attestation/storereaders/, proofhashing.py
--   Model/Frames                             src/apex/model/serialframe.py
--   Model/Extents                            src/apex/model/extents.py
--   Provisioning/Backing                     src/apex/provisioning/backingchain.py
--   Provisioning/Compacting                  src/apex/provisioning/compacting.py, compactledger.py
--   Verification/Tracing                     src/apex/verification/fingerprinttrace.py
-- The files below these prove their theorems, and a Tests file beside them applies the theorems to
-- concrete values.
--
-- How code is modelled. Code that may raise returns a Result: `ok`, or `raise` with the class of the
-- exception and, for a refusal, its reason. Subjects, remedies and details are text for the operator
-- and are left out. A dictionary is an association list that keeps the order of insertion, a set is a
-- list of names, an enumeration is a data type. Code of a stage is a tree of the calls that it makes of
-- its ports; running it against a bundle threads a world, and every theorem holds for every world and
-- for every answer of the ports, exceptions included. Functions of the code become functions of the
-- same name, without the leading underscore; a loop of the code becomes a recursive function.
--
-- The store of the attestation is explicit: the lines of the chain with their head record, and the
-- objects of the proofs by digest. Hashing, keyed codes, JSON and the patterns of the identifiers are
-- parameters (the record Library), and what a theorem needs of them is a condition of it. The
-- functions of the ledger and of the proofs by themselves are given for writes that are done; reading a
-- chain, its key and its head raises what the code does not catch; minting,
-- selecting and compacting take what their ports answer to each write, and may raise behind any of them.
--
-- Bounds and fuel. The walk along the layers of a disk is given a number of turns, for which one more
-- than there are regular files below the root serves. No other function runs on fuel that may run
-- out. The rounds of the topological order recur on a bound for the number of units that remain, which comes with a proof that it is enough, so
-- that the model has no outcome that the code lacks. Numbers are natural numbers without a bound, as
-- the integers of Python are, and the sequences of the chain are integers; the limits of the bounded
-- buffers are the positive ones of the code.
--
-- Not modelled. The adapters and the guest agent are effects behind the ports; the command line, the
-- wiring and the generators build and print values. The digest of a plan and the rendering of its
-- documents are left out. The workspace, targeting, trust and configuration
-- parts have no file here; of the model, the verification and the provisioning, what the table of
-- files names. Code that never returns is not modelled: a stage's code is a tree of finite depth.
pub mod Base
pub mod Kernel
pub mod Registry
pub mod Pipeline
pub mod Attestation
pub mod Model
pub mod Verification
pub mod Provisioning
