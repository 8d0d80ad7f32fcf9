-- ===== src/Lib.antt =====
-- Tea Desktop: a verification library of the conversation core.
--
-- Tea Desktop is an Electron program in which people and agents talk. The main process runs
-- agents behind the Agent Client Protocol (electron/conversation). Their events go to the
-- renderer, which folds them into turns (src/features/conversation). An agent that asks for
-- permission, or that calls a tool of the host, is answered through a coordinator and a broker
-- in the main process. This library models these parts:
--
-- Base             Lists, texts, insertion-ordered maps and sets, results of fallible code.
-- Conversation     src/features/conversation/contracts.ts: events, turns, blocks, approvals.
-- Conversation.Values: JSON values, and the other values that a caller may pass.
-- Timeline         src/features/conversation/timelineReducer.ts. Timeline.Blocks has the helpers on
--                  a turn's blocks, Timeline.Reducer `reduceConversationTurn` with a function for
--                  each event, Timeline.Approvals the updates that the client itself makes.
-- Permissions      electron/conversation/acp/permissions.ts. Permissions.Presentation checks a
--                  request of either protocol version, Permissions.Coordinator keeps what is
--                  pending (`request`, `resolve`, `cancelAll`).
-- ToolBroker       electron/conversation/toolBroker.ts. ToolBroker.Inspection is `inspectJson`,
--                  ToolBroker.Definitions the checks of definitions and results,
--                  ToolBroker.Broker the class, a function for each method, and `Operation` for
--                  all that can happen to it, the callbacks of timers and signals included.
-- AgentDrawer      src/features/collaboration/agentDrawerStore.ts with its contracts, and `sameSource`
--                  of channelPrompt.ts. AgentDrawer.Store has a function for each of the store's, and
--                  `Action` for a call of one of them.
-- Channels         src/features/channels/projection.ts. Channels.Projection has a function for each of
--                  its own, `reduceChannelEvent` as one function for all events.
--
-- Acp              electron/conversation/acp. Acp.Updates has the notifications and their texts.
--                  Acp.Projector is projector.ts, which makes conversation events of them;
--                  Acp.Replay the collector of replay.ts, which makes turns of an old session's
--                  notifications with that projector and with the reducer of Timeline.
--                  Acp.Options reads the models and modes that an agent advertises, and
--                  Acp.Configuration is the class of sessionConfiguration.ts, whose `apply` and
--                  `applyMode` are split at their requests: `apply` gives what it waits for, and
--                  `continue_apply` is what follows the agent's answer.
--
-- The other modules hold proofs and are named for what they prove, those of a file of Acp below the
-- module that models it; a module Examples applies the theorems to concrete input.
--
-- How the code is translated. A text is its list of UTF-16 code units. A `Map` is an association
-- list in insertion order, a `Set` a list without repetition. A method takes the object's state and
-- gives the new one with its result; a thrown error is the `err` of a `Result`, by its kind and not
-- by its message. Numbers are natural numbers, which the program's counters, sizes and limits are.
-- What lies outside is an argument: `path.isAbsolute` and the id generators of permissions and
-- calls; in a `Platform` the JSON schema validator, which is taken to answer by the schema alone, and the
-- URL parser; for the drawer `JSON.stringify` of a binding and the results of `crypto.randomUUID`,
-- which one theorem takes to be distinct; `localeCompare` for the
-- order of messages; `JSON.stringify` of a tool call's update and the size of a notification's JSON
-- text for the agent's updates. What the broker does to the outside (timers, promises, aborts, calls) is
-- appended to its log. A call's timer, promise and abort controller are known by the call's id.
--
-- Bounds and fuel. Functions recurse on their lists. Only `show`, the decimal digits of a number,
-- takes fuel: the number plus one, which is enough since each digit divides the number by ten.
-- The broker's limits are any positive integers, 256 settled calls are remembered; the limit of
-- messages is any number.
--
-- A program that waits. Between a request of `apply` and its answer other calls may come, so an
-- option that `apply` holds may have been replaced meanwhile; a write to it is then lost, as in the
-- source. In the other files every call runs to its end before the next.
--
-- Not modelled: the answers that reject a request, beyond that nothing follows them; cyclic and otherwise irregular objects given to `inspectJson`; listeners that call
-- back into the broker while it emits a call; copies (`structuredClone`), as values here have no
-- identity; the messages of errors; and the parts of the program outside of these files, which are
-- the agents' processes, the other stores and the views of the renderer, storage, and the network.

pub mod Base
pub mod Conversation
pub mod Timeline
pub mod Permissions
pub mod ToolBroker
pub mod AgentDrawer
pub mod Channels
pub mod Acp
