-- ===== src/Lib.antt =====
-- Verification of the Python programs of the repository (cli/ and tools/).
--
-- The command-line client talks to television players through a control server. This library
-- models the parts of it that decide something: the document of a player's own favorites, in scopes,
-- and a document of favorites that is shared by all players, with the plans that merge such documents
-- or replace one by others; the list of a receiver's favorites, page by page, with the playing of one
-- of them, which validates its pages as documents of the second kind; the ledger of favorites
-- operations whose outcome is unknown, with the acknowledgement of one of them; the named groups of
-- players, with the selectors that say which devices receive a command; the registration of devices
-- by an administrator, which changes the registry of the controller through a checkpoint on disk and
-- binds the devices to names; the transfer of a document in chunks; the files that are staged for a
-- device in the shared container of the USB manager; and what of a player's report is shown. The
-- parts work on JSON values (Json.Value), Python dictionaries (Dict) and Unicode texts (Text), a text
-- being its list of code points.
--
-- cli/global_favorites_document.py is modelled in GlobalFavorites:
--   Fields      the error codes, _require, _shape, _text, _pattern and the regular expressions,
--               which are functions on texts
--   Entry       _origin, _locator, _entry, _identity; Entry/Normal says what a normal form is,
--               Entry/AsValue that it is parsed back, Entry/Identity when identities are equal
--   Document    validate_document and canonical_bytes; Document/Size relates the running size of the
--               loop to the canonical bytes, Document/Valid and Document/RoundTrip follow from it
--   Plan        plan_documents: plan_valid is its part behind the validation of its arguments, a
--               Selection holds the variables of the merge loop. Plan/Find, Merging, Steps and
--               Outcome are the invariant of the loop; Merge, Errors, Repeat, Counts, Summaries
--               and Arguments hold what follows from it
--   Kinds       required_locator_kinds and supports; Supports says what the latter answers
--   Scan        the scan of the nesting depth in load_document; Nesting describes what it accepts by
--               the tokens of a text
-- _json is Json/Dumps: json.dumps with sorted keys, on the values that the documents are made of;
-- Json/Dumps/Injective shows that different values have different texts.
--
-- cli/favorites_document.py is modelled in LocalFavorites:
--   Bounds      the error codes, _shape, _text, and the traversal of _bounded
--   References  _uuid, _locator and _reference; what identifies a reference is kept with it
--   Scopes      _scope_document, validate_scope_document and validate_document. A valid document is
--               the list of its scopes, a Scope the fields with what was read from them
--   Plan        _inventory, _counts, plan_documents and clear_scope. A set or a Counter is a list of
--               tuples, a tuple its texts and at most one number
--   Sorted      the order of the keys and what is found under them; Valid says what validation
--               establishes, Selected and Merge follow for plans
--
-- cli/global_favorites_items.py is modelled in GlobalItems:
--   Page        _page, _portable and _cursor, behind the reading of the fields of a reply
--   Listing     ItemsPeer.list; Listing/Complete is the invariant of its loop over rows,
--               Listing/Pages that of its loop over pages
--   Peer        list, current and play as calls on the peer's listing and its flag
--
-- cli/global_favorites_recovery.py is modelled in GlobalRecovery, with the parts of
-- cli/global_favorites_protocol.py and cli/favorites_remote.py that it calls:
--   Objects     _object and _encoded of the protocol
--   Records     the patterns, _ack_digest, recovery_digests, _revisions and _record
--   Requests    the dictionaries of the requests, _cursor and validate_request
--   Replies     _page, and the equality of records; Inspections has _inspection and _acknowledged
--   Results     validate_result, with and without its context, _checked_inspection and
--               recovery_ack_request
--   Peer        RecoveryPeer: list, inspect, _save and acknowledge, with what _rpc makes of a response
--   Steps       the invariant of the log of events; Reading, and then Once follows for calls in any
--               order. Restored relates a repeated _checked_inspection to the first one; Confirmed and
--               Evidence say what acknowledge returns
-- Peer is in the monad of Effects (below); the two rounds of list are counted down.
--
-- cli/player_groups.py is modelled in PlayerGroups:
--   Names       group_map, group_name, members, check_alias
--   Targets     targets, with the loops that expand the names and resolve the devices
--   Devices     the theorems about targets
--   Management  saved_members and management: command is its reading of the words, manage its work on
--               a configuration; the second reading of the file is a Boolean, whether it is equal
--   Writes      the theorem about what is written
--
-- cli/device_registry.py is modelled in DeviceRegistry:
--   Fields      the patterns and the exceptions; the reading of a field of a JSON object is Json/Fields
--   Inventory   inventory and receipt; Inventory/Valid is the invariant of its loop
--   Alias       alias_name, alias_key, and the mapping that update_alias changes
--   Request     valid_request, the checkpoint and the tests of Session.resume on it; Request/Saved
--               reads a saved one back
--   World       the files, the requests and their replies, Session.call, remove_checkpoint
--   Profile     binding
--   Session     the methods of Session and update_alias. Frame holds what each part leaves alone,
--               Guarded the order of checkpoint and change in the log of events, Rules the rules of
--               send and resume for any property that the single events establish
--   Prepare     option, pending_pairing, prepare; Prepare/Valid and Prepare/Approval say that what it
--               makes is valid
--   Dispatch    dispatch from the reading of the inventory on, for the commands that change the
--               registry; Rules, Safety and Recovery follow from the modules above
-- Its code is written in the monad of Effects: a state, here the files, the client and the log of
-- events, that an exception keeps as it is. try and except are a function of the same module.
--
-- cli/favorites_transfer.py is modelled in FavoritesTransfer:
--   Strict      the limits and validate_document_bytes: json.loads is a parameter that keeps every pair,
--               and the tests of its hooks are a test of its value
--   Encoding    encode_bytes, decode_bytes and the same with strict JSON; Encoding/Inverse relates them
--   Envelopes   request_envelopes
--   Pack        pack_document; Pack/Pieces says what a plan is and that its chunks are the bytes,
--               Pack/Returns when there is one
--
-- tools/android_usb_transaction.py is modelled in UsbTransaction, with the lock of
-- tools/android_usb_manager.py:
--   World       the container and its commands, _container, _aux and _reserve_temporary; locked,
--               _require_lock and _operate of the manager
--   Operations  pull, staged_adb, and their choice in main
--   Files       the temporary files that may be there behind a log of events, where a creation that
--               reached the time limit may have made its file and only a removal that succeeded counts;
--               Rules says what the parts do to them, Cleanup follows for whole transactions,
--               Returned for those that return
-- Its code is in the monad of Effects too, where try and finally run the cleanup behind every outcome.
--
-- cli/playback_status.py is modelled in PlaybackStatus:
--   Labels      text, private_label and the regular expressions, which are functions on texts
--   Playback    validate_playback and public_playback
--   Live        live_status
--
-- An exception is a value: Result of Prelude/Results, with the error code or the message. A Python
-- set or dict is a list or a Dict with its lookups; where the code enumerates one, the order is kept.
-- Every loop of the code runs over a list and is structural recursion, except that of ItemsPeer.list,
-- which the code itself bounds by 1000 rounds: collect counts these down, and running out of them is
-- the error that the code raises, and that of pack_document over a range, whose number of elements is
-- computed first. The numbers are natural numbers, as Python's integers do not overflow; the scan's
-- depth, which may fall below zero, is kept as two counters.
--
-- Parameters: str.casefold, str.strip, str.isprintable and api.TOP_LEVEL_COMMANDS in player_groups
-- are the fields of the record Api, on which no theorem assumes anything; Client.device of
-- cli/ott.py is a field of the record Client. The replies to the requests of ItemsPeer are a function
-- of the request's number and cursor, on which no theorem assumes anything, and its lock is not
-- modelled: the calls are a sequence. The record Host of DeviceRegistry/World holds the clock, the next
-- random identity, SHA-256, the constructor of a client, the replies of the controller and the outcomes
-- of the writes; replies and outcomes may depend on all events before. No theorem assumes anything on
-- them, but that the random identity has the form of secrets.token_hex(16) where it says so. A write
-- does nothing, or all of it, or all of it and raises, as save_private writes another file and then
-- renames it.
--
-- The record Codec of FavoritesTransfer/Strict holds json.loads, SHA-256 and Base64; theorems that need
-- it assume of them what IsCodec says. The builder of the envelopes is a field of
-- Packing; the theorem on when a document is packed assumes that it makes fitting envelopes of the
-- chunks of that document.
-- The record Libraries of LocalFavorites/Bounds holds json.dumps with sorted keys, on values whose
-- numbers it can print, and the codec of channels; no theorem assumes anything on them.
-- The record Printer of FavoritesTransfer/Envelopes holds the calls of json.dumps and str.encode.
-- The record Hashes of GlobalRecovery/Records holds SHA-256 of a JSON list and of null; the record Host
-- of GlobalRecovery/Peer the clock, the callback that saves an intent, and what the transport delivers,
-- which may depend on all events before. No theorem assumes anything on them, but the one on the
-- evidence of acknowledge: what json.loads has returned is loaded again from what json.dumps prints of
-- it (Restores of GlobalRecovery/Restored). A response is the three members that validate_response
-- takes from its bytes; the data are bytes again. A request counts as posted when it is handed to the
-- transport, and the lock of acknowledge is a flag, as the calls are a sequence.
-- The record Manager of UsbTransaction/World holds the outcomes of docker, ADB, flock and of the manager's
-- preparation of a device, and the next UUID; they may depend on all events before, and no theorem
-- assumes anything on them. The record Unicode of PlaybackStatus/Labels holds the categories of
-- characters and str.strip, on which no theorem assumes anything.
--
-- Not modelled: the decoding of UTF-8 and JSON in load_document (favorites_transfer) and in the replies
-- to ItemsPeer (validate_result and validate_response, which read the fields of a Page), the requests
-- and their envelopes, the help and the printed lines of management; in device_registry the commands
-- list, credential, pair, forget and unalias, the locks of Guard and what is printed; in
-- favorites_transfer the budgets, which compute with floats; in global_favorites_recovery the
-- tokenizing of a response, recovery_audit, and the pacing and polling of the transport; in
-- playback_status the retained reports of the controller; in android_usb_transaction cdp with its list
-- of processes and the decoding of a request; network and file access, the other modules of cli/ and
-- tools/, and the control server, which is written in Go.
pub mod Prelude
pub mod Text
pub mod Dict
pub mod Json
pub mod GlobalFavorites
pub mod GlobalItems
pub mod GlobalRecovery
pub mod PlayerGroups
pub mod Effects
pub mod DeviceRegistry
pub mod FavoritesTransfer
pub mod UsbTransaction
pub mod LocalFavorites
pub mod PlaybackStatus
