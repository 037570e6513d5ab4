-- ===== src/Lib.antt =====
-- A model of the distributed simulation kernel PDES-MAS (image/cluster/project), and what holds of it.
--
-- Agents live in agent logical processes (ALPs); the variables that they share live in communication
-- logical processes (CLPs), which form a binary tree. Agents run ahead optimistically: a CLP keeps the
-- history of every variable, and where a write comes after reads that it should have come before, the
-- readers are told to roll back. The global virtual time (GVT) says which history may be forgotten.
-- All paths below are under image/cluster/project.
--
-- What models what:
--   Base          tests, lists, maps under numbers, and signed integers that all files share
--   Types         include/types, src/types, include/state/Value.h: directions, points, ranges, values
--   Messages      include/messages: all classes of messages, as records
--   Routing       src/routing: the forwarding table, the route table and the router of a CLP
--   Lp/LpId, Lp/RollbackList, Lp/RollbackTag
--                 src/lp/{LpId,RollbackList,RollbackTag}.cpp
--   Lp/MessageQueue
--                 src/lp/MessageQueue.cpp, the queues between the threads of a logical process
--   Lp/AccessCostCalculator
--                 src/lp/AccessCostCalculator.cpp, which variables should move to a neighbour
--   Lp/GvtCalculator
--                 src/lp/GvtCalculator.cpp and PreProcessSendMessage and PreProcessReceiveMessage of
--                 src/lp/Lp.cpp
--   Lp/LogicalProcess
--                 src/lp/Lp.cpp and the three SendToLp of src/messages, what ALP and CLP share
--   Lp/Alp        src/lp/Alp.cpp: Start the constructor, Rollback ProcessRollback, Traffic Send,
--                 Receive and the responses; Events what can happen to an ALP in between
--   Lp/Clp        src/lp/Clp.cpp: Start the constructor and InitialisePortRanges, Handlers the single
--                 reads and writes with their anti-messages, RangeQueries, RangeUpdates, EndMessages
--                 and Migration the messages of these names, Traffic Send and Receive
--   State/WritePeriod, State/StateVariable
--                 src/state/{WritePeriod,StateVariable}.cpp, the history of one variable
--   State/SharedState
--                 src/state/SharedState.cpp, all variables of a CLP with their ranges and costs
--   State/PrivateVariableStorage
--                 src/state/PrivateVariableStorage.cpp, the private variables of an agent
--   RangeQuery    src/rangequery and src/lp/RQPortScanStatus.cpp
--   Interface     src/interface/{HasSendList,HasIDLVTMap,HasRollbackTagList,IdentifierHandler}.cpp
--
-- A class is a record of its fields, a method a function from the state before to the state after; its
-- name is the method's in lower case. The messages that a handler sends and the calls that it makes on
-- its logical process are part of its result. A pointer that may be NULL is an Option, exit(1), a
-- failed assertion and undefined behaviour are none, and a deep copy is the value itself. A list under
-- an iterator is a list split at a place. The walk from the back of a list is a recursion that looks at
-- the rest first. Two functions run on fuel, which they give none without: WalkTree, where one more
-- than the number of CLPs is enough, and the constructor of the route table, which passes it on, and
-- which counts the ranks of CLPs and ALPs. All other loops are over a list or a count.
--
-- A message travels in this way. An agent calls its ALP (Lp/Alp), whose Send keeps each request on the
-- send list and hands it to the CLP above. A CLP (Lp/Clp) receives it, asks the router (Routing) for the
-- neighbour it goes to, and handles it on the shared state (State) and the range tables (RangeQuery) if
-- it is for itself. Its answer goes back by way of the router; a write that others have read past makes
-- rollback messages, on which the ALP takes back what its agent has done since (Lp/Alp/Rollback).
-- What Send gives to MPI, and what Receive takes from its queue, are values, so that a run is a
-- sequence of these steps. The calls that an ALP makes on an agent are kept as a list.
--
-- Numbers are natural numbers. Where the source computes with unsigned 64-bit or 32-bit numbers the
-- wrap-around is written out; a count of messages wraps at the conversion to int. The flags of the
-- build, RANGE_QUERIES and SSV_LOCALISATION, are on.
--
-- Not modelled: MPI, threads and semaphores with the agents that run in them, logging, the text format
-- of messages, the parser of the configuration, whose maps are arguments, the clock of the rollback
-- tags, and the thresholds that AccessCostCalculator finds in floating point, which are arguments too.
pub mod Base
pub mod Interface
pub mod Lp
pub mod Messages
pub mod RangeQuery
pub mod Routing
pub mod State
pub mod Types
