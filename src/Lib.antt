-- ===== src/Lib.antt =====
-- The OpenDXL broker: its MQTT core (src/mqtt-core), the part that keeps subscriptions and queues of
-- messages and decides which client gets what, and of its DXL library (src/brokerlib) the fabric of
-- connected brokers, the authorization of topics and the services that answer requests.
--
-- A client is a `struct mosquitto`, a context. A subscription is a leaf of a tree of topic levels
-- (subs.c); a message that arrives is stored once (database.c), the tree is searched for its topic,
-- and every leaf that is found puts an entry with a reference to the stored message into the
-- context's queue. The queue's entries go through the states of the three qualities of service as
-- packets are sent and acknowledged; entries are removed, sent again after a time or a reconnection,
-- and the stored messages without references are freed. Packets have a length and fields on the wire.
--
-- In the DXL library a topic is covered by the wildcards above it (CoreUtil.cpp). The policy of topics
-- (topicauthorization) and the topics of a broker (brokerregistry) are looked up for a topic and its
-- wildcards. The registry of brokers finds the next broker on the way to another one and keeps the
-- route in a cache. A request goes to a service of its topic (serviceregistry): services are in zones,
-- and take turns in a zone; a service must be reachable, not expired, authorized and available.
--
-- The files, with the code they model:
--   Prelude             sets and maps with strings for keys, C strings, Boolean tests and lists
--                       over the native numbers
--   Topic/Tokens        _sub_topic_tokenise, src/mqtt-core/src/subs.c
--   Topic/Wildcards     the two checks of wildcards, src/mqtt-core/lib/util_mosq.c
--   Topic/Split, Topic/Filters      what tokens and checks mean for the levels of a topic
--   Topic/Iterate       iterateWildcardNext and isWildcard, src/brokerlib/core/src/CoreUtil.cpp
--   Topic/Covers, Topic/Covers/Loop     the wildcards that cover a topic
--   Broker/Message, Broker/Context  the structures of src/mqtt-core/src/mosquitto_broker.h and
--                       src/mqtt-core/lib/mosquitto_internal.h, and the parameters `Env`
--   Broker/Store        mqtt3_db_message_store, mqtt3_db_store_clean, src/mqtt-core/src/database.c
--   Broker/Clients      the canonical client ids of database.c
--   Broker/Slots        mqtt3_db_add_new_context of database.c
--   Queue/Insert        mqtt3_db_message_insert of database.c, _mosquitto_mid_generate of util_mosq.c
--   Queue/Delete        _message_remove and the deletions and updates of database.c
--   Queue/Reset         mqtt3_db_message_reconnect_reset and mqtt3_db_message_timeout_check
--   Queue/Write         mqtt3_db_message_write
--   Queue/Balance, Queue/Limits, Queue/Progress   counters and references, limits, termination
--   Queue/Shared        sequences of the calls of database.c on several queues and the store;
--                       Queue/Balance/Safety, what they keep
--   Subs/Tree           the tree; Subs/Path, the announced paths; Subs/Add, Subs/Remove, Subs/Deliver,
--                       Subs/Clean and Subs/Count, the operations of subs.c
--   Subs/Counters, Subs/Ends, Subs/Matching, Subs/Filters, Subs/Lookup, Subs/Announced   the
--                       counters and the places of wildcards, the search, the leaves of a filter,
--                       and the announced paths
--   Wire/Packet         _mosquitto_packet_alloc of util_mosq.c, and of src/mqtt-core/lib/net_mosq.c
--                       the fields of packets and the decoder of the remaining length
--   Wire/Length, Wire/Fields        the decoders against the encoders
--   Wire/Send           _mosquitto_packet_queue and _mosquitto_packet_write of net_mosq.c;
--                       Wire/Send/Stream, Wire/Send/Calls, the bytes that they send
--   Auth/State          src/brokerlib/topicauthorization/src; Auth/Rows, Auth/Permits, what a
--                       policy allows
--   Fabric/State        src/brokerlib/brokerregistry/src/brokerstate.cpp and broker.cpp
--   Fabric/Registry     the topics and connections of brokerregistry.cpp
--   Fabric/Path         findPathToBroker and getNextBroker of brokerregistry.cpp, and cache.cpp
--   Fabric/Changes      addBroker, removeBroker and the other changes of brokerregistry.cpp
--   Fabric/Hierarchy    depthFirstTraversal and isSubscriberInHierarchy of brokerregistry.cpp
--   Fabric/Hierarchy/Route, Fabric/Hierarchy/Search     the walk down the hierarchy
--   Fabric/Bridge       topiccache/src/BrokerBridgeTopicCache.cpp, the topics behind one bridge; below it
--       when such a cache is right, its building, its changes and its answers
--   Fabric/TopicCache   topiccache/src/BrokerTopicCache.cpp and TopicCacheService.cpp; below it when the
--       service is trusted, its answers, its changes, and what it misses
--   Fabric/Counted, Fabric/Subscriber, Fabric/Path/Walks, Fabric/Path/Loop,
--   Fabric/Path/Search, Fabric/Path/Next, Fabric/Changes/Routed    the counts of wildcards, the
--       subscribers of a broker, paths and routes
--   Services/Registration, Services/Zone, Services/Topic   ServiceRegistration.cpp,
--                       ZoneServices.cpp and TopicServices.cpp of src/brokerlib/serviceregistry/src
--   Services/Registry, Services/Registry/Update, Services/Events   ServiceRegistry.cpp, its tables,
--                       its operations, and the events that services map to requests
--   Services/Metrics    the counts of src/brokerlib/metrics/src/TenantMetricsService.cpp
--   Services/Zone/Turns, Services/Zone/Fair, Services/Topic/Cover, Services/Topic/Order,
--   Services/Topic/Answer, Services/Topic/Next   the turns of services, the zones of a topic, and
--                       the next service
--   Services/Registry/Topics, Services/Registry/Consistent, Services/Registry/Steps,
--   Services/Registry/Operations, Services/Registry/Recount   the tables of the registry, and the count of a tenant
--   Examples            concrete inputs
--
-- Memory. Contexts and stored messages are shared by pointers: they are heaps, functions of an
-- address. The tree and the queues are owned by one pointer each, and are data. Allocations succeed.
-- `last_msg` is the last entry of `msgs`; where a reset leaves it at a freed entry, the model of the
-- reset has no result. A hash table of a node of the tree (uthash) has the
-- children of the node as its items; subs.c changes the list and the table together, and a lookup in
-- the table is a search of the list. The table of canonical ids is an interface with its laws. The
-- payload of a packet is a function of the position, with arbitrary bytes where nothing is written.
-- A counter of type `int` is an integer without overflow; sixteen and thirty-two bit unsigned numbers
-- and the 64 bits of message ids of the store wrap around.
--
-- Of the DXL library, sets and maps without order (std::unordered_set, std::unordered_map) are lists
-- in the order in which they are walked. A pointer to a registration of a service is its address, and
-- a std::set of such pointers is a list of addresses in their order. Locks and logging are left out.
--
-- Parameters. The decisions of the DXL core (src/mqtt-core/src/dxl, which calls src/brokerlib), the
-- configuration, the limits and the time of a call are fields of `Env`; the answers of the network
-- layer to the packets of a write are a function `Network`; the new payload of a stored message is a
-- function `on_store`. The limits are not negative, as src/mqtt-core/src/conf.c makes them.
--
-- Settings and times are arguments of the operations of the DXL library, and so are, for the choice
-- of a service, whether a broker can be reached and who may subscribe.
--
-- Loops are recursion on the list, the tree or the bytes that they go through. The loop of
-- mqtt3_db_message_write may visit an entry twice, and runs on fuel, twice the entries and one more.
-- It is stated for queues where a queued incoming entry has quality of service 2: the code visits
-- another one within the window again and again, and no caller makes one.
--
-- The loop of _mosquitto_packet_write over a packet runs on fuel, the bytes that are left of it: the
-- network takes at least one in each round. What the network takes is a function of the bytes that
-- it is offered and of the number of the call.
--
-- The loop over the wildcards of a topic runs on fuel, the length of the topic and two more: a round
-- takes away a slash. The search of a path and
-- the walk down the hierarchy run on fuel for their depth, the number of the registered
-- brokers and one more: they go down only from a registered broker that was not visited.
--
-- Not modelled: the retained messages of mqtt3_retain_queue and mqtt3_db_message_release; sockets,
-- TLS, websockets, the event loop, the configuration and logging, which are input and output; the
-- handlers of packets; of src/brokerlib, the events that its registries send,
-- the format of messages with their payloads and handlers, certificates, JSON and settings.
pub mod Prelude
pub mod Topic
pub mod Broker
pub mod Queue
pub mod Subs
pub mod Wire
pub mod Examples
pub mod Auth
pub mod Fabric
pub mod Services
