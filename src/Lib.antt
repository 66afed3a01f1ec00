-- ===== src/Lib.antt =====
-- A verification of uMQTTBroker, an MQTT broker for the ESP8266.
--
-- The broker (src/mqtt_server.cpp) keeps a list of clients. A packet that comes in is read by the
-- functions of src/mqtt_msg.c; a published message is looked up in the table of subscriptions
-- (src/mqtt_topiclist.cpp), whose filters src/mqtt_topics.c matches to the topic, and for each
-- match a packet is built in a shared buffer and put into the queue of the client (src/queue.c).
-- The queue frames its messages (src/proto.c) in a ring of bytes (src/ringbuf_mqtt.c). A task takes
-- them out and sends them. Messages with RETAIN are kept in a list (src/mqtt_retainedlist.c), which
-- can be saved as an image.
--
--   Base      shared names, lists over the native numbers, Boolean tests, lists of bytes
--   Ring      src/ringbuf_mqtt.c: RINGBUF_Init, _Put and _Get are `init`, `put` and `get`;
--             Ring.Inv has the invariant, Ring.Refine the sequence of bytes behind the ring
--   Proto     src/proto.c: PROTO_Init, _ParseByte, _Parse, _ParseRb, _Add and _AddRb are `init`,
--             `parse_byte`, `parse`, `parse_rb`, `add` and `add_rb`; Proto.Frame describes a frame,
--             Proto.Sender what is sent, Proto.Flat and Proto.Receiver what is read
--   Queue     src/queue.c: QUEUE_Init, _Puts, _Gets and _IsEmpty; Queue.Fifo has the messages
--             that a queue carries, Queue.History sequences of calls
--   Msg       src/mqtt_msg.c and src/mqtt/mqtt_msg.h: the buffer, Msg.Build the functions
--             mqtt_msg_…, Msg.Read the functions mqtt_get_…, each under its name without
--             mqtt_; Msg.Packet describes packets
--   Topics    src/mqtt_topics.c: Topics_isValidName, _hasWildcards and _matches are
--             `is_valid_name`, `has_wildcards` and `matches`; Topics.Names, Topics.Tokens and
--             Topics.Matching describe names, levels and matches
--   Retained  src/mqtt_retainedlist.c: create_, update_, find_, iterate_ and clear_retainedtopics
--             are `create`, `update`, `find`, `iterate` and `clear`; Retained.Image has
--             serialize_ and deserialize_retainedtopics; Retained.Lookup the map behind the list
--   TopicList src/mqtt_topiclist.cpp: create_topiclist, add_, delete_, find_ and iterate_topics
--   Utils     src/utils.c: UTILS_IsIPV4, UTILS_StrToIP and UTILS_Atoh
--   Server    src/mqtt_server.cpp: the clients; Server.Publish publishing and the local client,
--             Server.Close removal, timer and lost connections, Server.Task the task, the end of
--             a send and new connections; Server.Receive the handler MQTT_ClientCon_recv_cb, with
--             the parser of CONNECT in Server.Receive.Connect and the other messages in
--             Server.Receive.Session; Server.Run the start and the steps of the whole broker,
--             Server.Network the table of connections and the loop over them, with its parts in
--             Server.Network.Accepting and Server.Network.Visits, Server.Wrapper the
--             class of src/uMQTTBroker.cpp. The further modules describe queues, tables, what is
--             parsed, and the rounds of the handler
--   Mqtt      src/mqtt.c: the client as a state machine, its timer and the callbacks of its
--             connection; Mqtt.Receive what arrives, Mqtt.Queueing MQTT_Publish, _Subscribe,
--             _UnSubscribe and _Ping, Mqtt.Task its task; Mqtt.Wrapper is the class of src/MQTT.cpp
--
-- Numbers are natural numbers, with the wrap-around of the C types written out where it can occur;
-- a string is the list of its characters before the final 0, and a pointer that may be NULL an
-- `Option`. What an allocation gives is an argument, and so is the order of two reads that C leaves
-- open (`deserialize`). The network, its connections and the callbacks of the application are
-- arguments too, or events that the broker logs.
--
-- The loops that are not structural run on fuel. PROTO_ParseRb has the number of bytes in the
-- ring, each round takes one; the loops of src/mqtt_topics.c have one round more than the string
-- has characters; mqtt_get_… read at most the bytes that they are given; an UNSUBSCRIBE has the
-- length of its message, each topic takes two bytes. The handler of received bytes has 513 rounds,
-- one more than its buffer has bytes, which is enough unless a length is stored as 0, and that of
-- the client one round more than there are bytes; the loop that makes room in the queue of the
-- client needs one round more than there are messages. The reader of an image can run for ever, on
-- bytes that are no image: its fuel is an argument, and one round more than there are entries is
-- enough for an image.
--
-- Not modelled: the calls that configure the TLS library; the functions that print; the flash
-- access of src/config_flash.c and the debug output, which call the SDK only; the examples and the
-- test script. The setters of callbacks that the model has as arguments have no place in it, and
-- callbacks of the application do not change the state. The length of a last will is kept with its
-- data alone, so that a length beside data that could not be allocated has no place in the model.
-- The allocations of src/mqtt.c are taken to succeed, and in the steps of the broker that of the
-- receive buffer of a client. The handler of received bytes writes its buffer back at its end, and
-- gets fewer than 2 ^ 16 bytes, so that `len` is their number.
pub mod Base
pub mod Ring
pub mod Proto
pub mod Queue
pub mod Msg
pub mod Topics
pub mod Retained
pub mod TopicList
pub mod Utils
pub mod Server
pub mod Mqtt
