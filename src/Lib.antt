-- ===== src/Lib.antt =====
-- hpcore: a model of the consensus node, with the theorems that make its parts
-- correct.
--
-- The node agrees with the other members of its unique node list (UNL) on user
-- inputs, on time and on the ledger. A round has four stages. At the start of
-- each, src/consensus.cpp waits for the time the clock window of the stage gives
-- (wait_and_proceed_stage), moves the proposals that peers sent into its table of
-- candidates (revise_candidate_proposals), votes on their content and broadcasts
-- a proposal of its own; at the start of the next round it counts the proposals of
-- stage 3 and closes the ledger (attempt_ledger_close). Sessions of users and
-- peers bring the messages in (src/comm/comm_session.cpp): they meter their traffic
-- and report hosts that exceed it to the tracker of violations
-- (src/corebill/tracker.cpp), which keeps bans in a ttl_set. src/usr/usr.cpp admits users
-- by a challenge and collects their inputs, which pass the nonce map
-- (src/usr/input_nonce_map.cpp), are exchanged in non-unl proposals, and become
-- candidates of the next round. Closing a ledger appends it to the chain and its shards
-- (src/ledger/ledger.cpp), runs the contract, and tells
-- users and src/status.cpp. src/p2p/p2p.cpp keeps one connection to each peer
-- and the list of known peers, src/unl.cpp the list of the UNL. A node that finds itself
-- out of sync gives targets to the sync workers (src/hpfs/hpfs_sync.cpp), which fetch
-- directories, files and blocks from peers until the file system has the hashes. The containers of src/util/ serve all of these.
--
-- Files, by part of the program (paths from the repository's root):
--   Base                    maps as association lists (std::unordered_map) and as
--                           lists in the order of the keys (std::map), sets, byte
--                           strings, machine words: what the parts share.
--   Util/TtlSet             src/util/ttl_set.cpp: a set of keys that expire.
--   Util/RolloverHashset    src/util/rollover_hashset.cpp: the last n accepted hashes.
--   Util/SequenceHash       src/util/h32.cpp and src/util/sequence_hash.cpp: hashes,
--                           shard ids, and their comparisons as keys of std::map.
--   Util/MerkleHashTree     src/util/merkle_hash_tree.cpp: building and collapsing the
--                           tree.
--   Util/Integers           src/util/util.cpp: integers as bytes.
--   Util/Text               src/util/util.cpp: split_string, the file extensions.
--   Util/BufferStore        src/util/buffer_store.cpp: where buffers are written.
--   Corebill/Tracker        src/corebill/tracker.cpp: violations and bans.
--   Comm/Session            src/comm/comm_session.cpp: thresholds, activity, closure.
--   P2p/Types               the data of src/p2p/p2p.hpp, peer_comm_session.hpp and
--                           src/conf.hpp that the peer to peer layer works on.
--   P2p/Connections         src/p2p/p2p.cpp: resolve_peer_challenge.
--   P2p/KnownPeers          src/p2p/p2p.cpp: update_peer_list, sort_known_remotes,
--                           capacities and suppression of known peers.
--   P2p/Messages            src/p2p/p2p.cpp: the recipients of messages, the collected
--                           proposals, the capacity, the members among connections.
--   Unl                     src/unl.cpp: the list of the UNL and its statistics.
--   Hpfs/Items              src/hpfs/hpfs_sync.hpp: targets and requests, in order.
--   Hpfs/Sync               src/hpfs/hpfs_sync.cpp: the targets, and the requests that
--                           are submitted, watched and given up.
--   Hpfs/Responses          src/hpfs/hpfs_sync.cpp: checking and handling the responses
--                           of peers, and the steps of the worker.
--   Usr/NonceMap            src/usr/input_nonce_map.cpp: replay protection.
--   Usr/Submission          src/usr/usr.cpp: validate_user_input_submission.
--   Usr/Inputs              src/usr/user_input.hpp and src/usr/usr.cpp: submitted inputs,
--                           extract_submitted_input, their order and their status.
--   Usr/Users               src/usr/usr.cpp and src/usr/user_comm_session.cpp: the
--                           connected users and the handshake of their sessions.
--   Usr/Users/Requests      src/usr/usr.cpp: handle_authed_user_message.
--   Usr/Users/Notifications src/usr/usr.cpp: send_input_status_responses and
--                           dispatch_change_events.
--   Status                  src/status.cpp: what the node tells of itself.
--   Ledger/Records          src/ledger/ledger_common.hpp: a ledger and its raw data.
--   Ledger/Chain            src/ledger/ledger.cpp: insert_ledger_record, the chain of
--                           ledger ids; get_list_hash of src/crypto.cpp.
--   Ledger/Shards           src/ledger/ledger.cpp: update_ledger with its two parts,
--                           prepare_shard, remove_old_shards.
--   Consensus/Types         the data of src/consensus.hpp, src/p2p/p2p.hpp and
--                           src/conf.hpp.
--   Consensus/Votes         src/consensus.cpp, as all below: increment, and the
--                           election of the most voted entry of a table.
--   Consensus/Timing        wait_and_proceed_stage, refresh_time_config.
--   Consensus/Candidates    revise_candidate_proposals.
--   Consensus/VoteStatus    check_vote_status and the four vote checks.
--   Consensus/Proposing     create_stage0_proposal, create_stage123_proposal.
--   Consensus/Closing       the decision of attempt_ledger_close.
--   Consensus/Inputs        prepare_consensed_users, expire_candidate_inputs, cleanups.
--   Consensus/Round         stages 1, 2 and 3 of consensus, over the modules above and
--                           Unl, and dispatch_synced_ledger_input_statuses.
--   Consensus/Populate      verify_and_populate_candidate_user_inputs.
--   Consensus/Execution     execute_contract: what the contract is fed, and its signed
--                           outputs.
--   Consensus/Dispatch      what users are sent when a ledger is closed.
--   Consensus/Commit        commit_consensus_results, the patch file, and
--                           attempt_ledger_close as a whole.
--   Consensus/Nonunl        broadcast_nonunl_proposal and stage 0 of consensus.
--
-- Correspondence. A class is a record of its fields; a member function that
-- changes the object takes it and returns the new one, with its result when it has
-- one. std::unordered_map is an association list under the Boolean equality of the
-- keys (find, put), walked in the order in which the keys were put in, since the
-- source's order is unspecified; std::map is a list in ascending order under operator< of the
-- keys (map_find, map_put, map_emplace), with two keys the same when neither is
-- before the other, which is how std::map compares them. Strings are lists of
-- bytes. The clock (util::get_epoch_milliseconds) is an argument `now`; a function
-- that reads it twice is given one reading. Logging is left out. Unsigned sums that
-- may pass the width are written with their wrap-around (wrap64, sub64).
--
-- Fuel. merkle_hash_tree::create_groups calls itself until the nodes fit in one
-- block: here it takes fuel. As many rounds as there are nodes are enough when a
-- block holds two nodes or more, since each round leaves fewer nodes. Numbers are printed
-- with as many digits as fuel: five are enough for a port, twenty for a 64-bit
-- number. All other loops are structural recursion on the container that the source loops over.
--
-- The numbers of votes that a stage and the check of the last shard ask for are
-- computed in floating point and are arguments here; the number that closes a ledger
-- is an exact product and is written out.
--
-- The contract's execution, the rows and blob files of raw data, the answers of the
-- ledger's file system and of SQLite, and the parsers of user messages are arguments: records
-- of functions or of results (Executor, ShardCalls, Parser, Formats, Handshake).
--
-- Not modelled: the threads that drive the parts, hpfs_serve, the recovery of the
-- ledger after a sync (src/ledger/ledger_sync.cpp), read requests, the configuration file
-- and the server of peer connections.
--
-- Outside the model: sockets, threads and mutexes, processes and pipes, the file
-- system hpfs, SQLite, the JSON, BSON and flatbuffer libraries, libsodium and
-- BLAKE3 (the hash functions of src/crypto.cpp are parameters), logging and the
-- command line: they are input and output or code of other projects.
pub mod Base
pub mod Util
pub mod Corebill
pub mod Comm
pub mod Usr
pub mod Consensus
pub mod P2p
pub mod Unl
pub mod Hpfs
mod Tests
pub mod Ledger
pub mod Status
