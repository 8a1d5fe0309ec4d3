-- ===== src/Lib.antt =====
-- The DingTalk channel SDK for Go, modelled from the source: its inbound safety layer, its long
-- connection, its access token, replies, streaming cards and proactive messages.
--
-- A message from the gateway enters at PushMessage of internal/safety/pipeline.go and passes, in this
-- order, a stale filter, a duplicate cache, the filter of the robot's own messages, the policy gate
-- and a processing lock. Then it goes to the queue of its conversation, to a bucket of media messages
-- or straight to the user's handler, and afterwards its lock is released and, in one mode, its id
-- marked as seen. The handler answers over a reply: texts go over the session webhook, cut into
-- chunks and retried, or as a proactive message where the webhook is gone; streams go over a card.
--
-- The files and the code that they model, with the operations under the names of the Go functions in
-- snake_case:
--   Types.antt, Types/Config.antt    types/types.go and types/safety_config.go: messages, policy,
--                                    batching, rejections, defaults
--   Types/Errors.antt                types/errors.go: classification of errors
--   Safety/Stale.antt                internal/safety/stale_detector.go
--   Safety/Lock.antt                 internal/safety/processing_lock.go
--   Safety/Policy.antt               internal/safety/policy_gate.go
--   Safety/Seen.antt                 internal/safety/seen_cache.go: the map and the linked list, as
--                                    they are; Safety/Seen/Recency.antt is its specification, a list
--                                    of keys in the order of their use
--   Safety/Queue.antt                internal/safety/chat_queue.go, ChatQueue
--   Safety/Manager.antt              internal/safety/chat_queue.go, ChatQueueManager
--   Safety/Media.antt                internal/safety/media_pipeline.go
--   Safety/Pipeline.antt             internal/safety/pipeline.go: state, flushes, disposal
--   Safety/Pipeline/Push.antt        internal/safety/pipeline.go: the three ways of pushing
--   Safety/Dedup.antt                internal/safety/dedup.go
--   Safety/Batching.antt             internal/safety/batching.go
--   Token.antt                       token.go
--   Outbound/Split.antt              internal/outbound/splitter.go
--   Outbound/Retry.antt              internal/outbound/retry.go
--   Frame.antt, Stream.antt          frame.go and stream.go: frames, read loop, reconnection
--   Reply/Chunks.antt                reply.go: chunkText
--   Reply/Webhook.antt               reply.go and outbound_retry.go: delivery of a reply
--   Card/Streamer.antt               card.go: what a streamer does under its lock
--   Card/Requests.antt               card.go: the requests of each operation
--   Card/Steps.antt                  card.go: operations, timers and requests in any order
--   Safety/Ssrf.antt                 internal/safety/ssrf_guard.go
--   Normalize/Json.antt              decoded JSON
--   Normalize/Converters.antt        internal/normalize, the files converters_*.go
--   Normalize/Incoming.antt          internal/normalize/message.go
--   Http.antt                        http_mode.go
--   Send.antt                        send.go
--   Channel.antt                     channel.go: the replies that handlers get
--   Channel/Dispatch.antt            channel.go and config.go: dispatch of frames, start
--   Card/Client.antt                 card.go: the calls of the client, creation of a card
--   Reply/Cooldown.antt              reply.go: the cooldown of error texts
--   Identity.antt, Lifecycle.antt    bot_identity.go and lifecycle.go
-- The files below each of these prove what is stated of it. Witnesses.antt and the files below it
-- apply the theorems at concrete inputs. Prelude.antt and the files below it have what all share.
--
-- A struct is a record, and an operation is a function from the state before to the state after. An
-- operation that holds the mutex of its component from start to end is one step; goroutines, timers and
-- sweepers are steps that a run may contain at any place. Run and FlushNow of the chat queue, and a flush
-- of the older batching, release the mutex before they send or call the handler: their runs have the two
-- parts as steps of their own, and the operations in one step are those where nothing comes in between.
-- CheckAndMark, which takes the mutex twice, is modelled without another goroutine in between. A reading of the clock is an
-- argument, in nanoseconds. Strings are sequences of bytes. Go's panics are `none`.
--
-- The eviction loop of the cache has one unit of fuel more than the list has entries; each round
-- removes one, so it ends by its own test. The digits of a time stamp have 20 units of fuel, and an
-- int64 has at most 19 digits. The term of a token, the wait of a reconnection and
-- the times of the HTTP mode wrap around as an int64 does; sums of other times and of lengths are not
-- bounded in the model; those of the
-- source stay far below 2 ^ 63.
--
-- Parameters stand for SHA-256 (`digest`), for what the second layer of the cache answers (`redis`),
-- for the operation that is retried (`op`), for the end of its context (`cancelled`, `ctx_err`) and for
-- what the request of a token comes to (`exchange`). The user's callbacks are recorded with what they
-- are given; whether they fail is an argument. So is what the exchanges of a connection, a reply, a card
-- and a proactive message come to, and the normalization of markdown (`norm`). The loop that cuts a
-- text takes at least one character a turn, so its length is fuel enough. Not modelled are contexts
-- elsewhere, logging, HTTP calls and the rate limit. The HMAC of the HTTP mode is `mac`.
pub mod Prelude
pub mod Types
pub mod Safety
pub mod Outbound
pub mod Token
pub mod Frame
pub mod Stream
pub mod Reply
pub mod Card
pub mod Normalize
pub mod Http
pub mod Identity
pub mod Lifecycle
pub mod Send
pub mod Channel
pub mod Witnesses
