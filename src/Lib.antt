-- ===== src/Lib.antt =====
-- A model of the wire protocol, the session manager, the commit manager and the client of
-- aeron-cluster-client-cpp, a C++ client for an Aeron cluster.
--
-- The parts and how they interact. The client (src/cluster_client.cpp) polls fragments from the
-- cluster, puts them together and gives each message to the message parser (MessageParser of
-- src/sbe_encoder.cpp); session events go on to the session manager, whose callbacks tell the client
-- of a lost session; commits go to the commit manager. The session manager (src/session_manager.cpp)
-- connects to the members of the cluster over Aeron, sends session messages that the encoder
-- (src/sbe_encoder.cpp, SBEEncoder) writes, and puts a session message header before each business
-- message. Orders (src/order_types.cpp) are checked and written as JSON before the client publishes
-- them, and the settings (src/config.cpp) are checked when they are built. The commit manager
-- (src/commit_manager.cpp) keeps the last commits and writes the messages
-- that report them. The parser stands on the decoder (SBEDecoder) and on the generated flyweight of
-- TopicMessage (include/model/TopicMessage.h).
--
-- Files:
--   Prelude, Prelude/*: library names, Boolean tests, lists, signed integers, bytes and words; Dict is
--     std::unordered_map and std::unordered_set with texts as keys
--   Sbe/Header: MessageHeader (include/aeron_cluster/sbe_messages.hpp), SBEConstants
--     (include/aeron_cluster/config.hpp)
--   Sbe/Exception: the flyweights' exceptions as values; Sbe/Read: what a getter comes to, a read past
--     the end included
--   Sbe/TopicMessage: class TopicMessage: wrapAndApplyHeader, wrapForDecode, put..., get...AsString,
--     computeLength; Getters has the getters that the parser calls, Skipping and Accessors the
--     other ways to read a field, skip and decodeLength; Extent says where a message is cut, and
--     Fields, Room and Prefix hold the lemmas
--   Sbe/CommitOffsetLite: class CommitOffsetLite (include/model/CommitOffsetLite.h)
--   Encoder: encode_session_connect_request, encode_session_keep_alive,
--     encode_session_close_request, encode_topic_message; Layout and Cut hold what they write
--   Decoder: decode_session_event, decode_acknowledgment, extract_variable_string; Strings,
--     Events and Overreads hold the lemmas
--   Json: the calls of JsonCpp and std::stoull, a parameter
--   Text, Text/Runs: extract_readable_strings and string operations
--   Parser: parse_message and what it calls, extract_correlation_id; Outcome is ParseResult, Sequence
--     the search for `_sequence_number`, Opened, Truncation, Skipping, Messages and
--     Dispatch hold
--     the lemmas
--   Session/State: the fields of SessionManager::Impl, its constructor and prepared buffers
--   Session/Offer: classify_offer_failure, handle_offer_failure, handle_connection_loss
--   Session/Send: is_connected, send_raw_message, send_combined_message, send_keepalive
--   Session/Publish: create_topic_message, publish_message, wait_before_publish_retry,
--     apply_publish_rate_limit; Waits and Delivery hold the theorems
--   Session/Events: handle_session_event and the handlers it calls
--   Session/Close: disconnect
--   Session/Endpoint: resolve_endpoint_for_member, SessionUtils
--   Session/Connect: connect, try_connect_to_member, send_session_connect_request
--   Session/Sync, Steps, Reach, History: the prepared buffers against the state, step by step
--   Session/Sent, Retry, Loss, Ending, Stuck: what sends deliver and when they succeed, how sessions
--     and connects end
--   Commit: CommitManager's map of commits; Keys and Refinement hold its theorems
--   Commit/Wire: build_commit_message, build_commit_offset_message, serialize_commit_offset,
--     parse_commit_offset, and build_subscription_message, build_unsubscription_message
--     (include/aeron_cluster/subscription.hpp); Control, Lengths, Received, Offsets and OffsetFields
--     hold what they write and that it is read back
--   Client/Reassembler: LocalFragmentReassembler; Streams holds its theorems
--   Client/Link: the connection state of ClusterClient::Impl, its callbacks and notify_connection_loss;
--     Connecting is connect and disconnect, Reconnecting the thread of schedule_auto_reconnect;
--     Invariant, Loss, Restart, Endings, Runs and Watch hold the theorems
--   Client/SessionEvents: handle_session_event with the client's callbacks
--   Client/Topics: extract_topic_from_message, should_skip_auto_commit
--   Client/Duplicates: is_message_processed, mark_message_processed
--   Client/State: the members of ClusterClient::Impl, track_subscription, untrack_subscription,
--     is_connected; Sending is send_commit_request, send_commit_offset, commit_message,
--     send_subscription_request, send_unsubscription_request, resume_from_last_commit and
--     resume_subscribed_topics; Incoming is handle_incoming_message; Resuming, Spares, Committed,
--     Repeats and CommitsSent hold the theorems
--   Client/Publishing: publish_order, publish_order_to_topic, publish_message and
--     publish_message_to_topic of ClusterClient::Impl; Steps and Published hold the theorems
--   Client/Ingress: publish_topic, offer_ingress and on_ack_default of ClusterClient; Inflight holds
--     the theorems
--   Client/Polling: polling_worker, perform_connection_health_check; Grace holds the theorem
--   Orders: class Order, its checks and calculate_notional_value (include/aeron_cluster/order_types.hpp,
--     src/order_types.cpp); Validity holds which orders are valid; Portfolio is class Portfolio, and
--     Portfolio/Refinement its abstract view; Exchange is to_json and from_json, and Exchange/Loss
--     what is left of an order after both; Factory is OrderFactory and the sample orders, and
--     Factory/Made their validity
--   Settings: ClusterClientConfig::validate, resolve_egress_endpoint (src/config.cpp) and the builder
--     at the end of src/cluster_client.cpp; Checks holds which settings pass; Ports is
--     find_available_port, and Ports/Found what it finds
--   Signals: the registry of SignalHandlerManager (src/signal_handler.cpp); Due holds the theorem
--   Tests/*: the theorems at concrete messages, sessions, commits, clients, orders and settings
--
-- How the code is modelled. Memory and vectors are lists of bytes, machine integers are natural
-- numbers or signed integers with their two's complement patterns, and an operation of the session
-- manager, the commit manager or the client takes its state and returns the new one. Exceptions and
-- reads past the end of memory are values, and so is the end of the process by std::terminate. What
-- Aeron answers to `isConnected` and `offer`, what the clock says, what JsonCpp and std::stoi return,
-- and which session events the polling thread handles between two steps are arguments, so that the
-- theorems hold for all of them. Each handled event is one step, and so is each call of a public
-- operation: their interleaving inside a step, which the code guards by atomic fields and mutexes, is
-- not modelled, except that events are handled at the waits of `connect`. The texts that callbacks and
-- logs get are values of a data type each. The iteration order of an unordered container is that of
-- a list. Doubles are values of any type with the operations that the code uses.
--
-- Fuel. `std::to_string` has 20 digits, enough for 64 bits. The retry loops recurse on the number of
-- attempts that the code allows, the reconnecting thread on its ten attempts, and the waits of
-- `connect` on the list of the rounds they take. The search for a port recurses on the list of the
-- random draws; it ends within the list once every port has been drawn. The polling thread recurses on
-- the list of its rounds.
--
-- Not modelled: of the client, its statistics,
-- extract_message_identifier_from_headers, which nothing calls, create_order_message and the members
-- of ClusterClient that only call those of Impl; the acknowledgment decoder of src/ack_decoder.cpp,
-- which is not part of the build and uses a generated header that the repository does not have; the
-- topic router; the flyweights' JSON printing and meta data; logging, hex dumps, the installing of
-- signal handlers, tools and examples, which are input and output;
-- the other generated flyweights, which have the shape of the two modelled ones.
pub mod Prelude
pub mod Sbe
pub mod Encoder
pub mod Decoder
pub mod Json
pub mod Text
pub mod Parser
pub mod Session
pub mod Commit
pub mod Client
pub mod Orders
pub mod Settings
pub mod Signals
pub mod Tests
