-- ===== src/Lib.antt =====
-- ThunderChat is the server of a chat application: HTTP controllers and socket gateways of NestJS
-- over a PostgreSQL database that is reached through Prisma. This library models the services that
-- decide what users may do and what state they leave, and proves what makes them correct. The
-- services keep their state in two places: in memory, in objects of one process (the calls that are
-- going on, the sockets of users, the tokens of messages), and in tables of the database.
--
-- The files, and the code that each is about:
--   Base: shared names, tests and lists over the native numbers (Base/Tests, Base/Lists), the `Map`
--     of JavaScript as an association list in the order of insertion (Base/JsMap), the results and
--     exceptions of service calls (Base/Action), predicates that actions keep and sizes that they
--     let grow (Base/Keeps, Base/Adds), the sort of JavaScript (Base/Sort), and the Prisma client
--     of one table (Base/Prisma).
--   Call: src/call/call.service.ts. Call/Gateway: src/call/call.gateway.ts and
--     src/connection/voice-call-connection.service.ts. Call/Invariant, Call/Lifecycle and
--     Call/Events hold their theorems. The gateway calls the service, and sends to the sockets of
--     Connection.
--   Connection: src/connection/user-connection.service.ts, with theorems in Connection/Sockets,
--     Connection/History and Connection/Chatting.
--   Messaging/Tokens: src/messaging/helpers/message-tokens.helper.ts, with theorems in its children.
--     Messaging/Typing: src/messaging/helpers/conversation-typing.helper.ts and `handleTyping` of
--     src/messaging/messaging.gateway.ts, with theorems in Messaging/Typing/Laws.
--   Messaging/Presence: connections, disconnections and the tests of messages to group chats of
--     src/messaging/messaging.gateway.ts, with theorems in Messaging/Presence/Laws.
--   Messaging/Drafts and Messaging/Sending: sending a message to a user or a group chat, of
--     src/messaging/messaging.gateway.ts, with `createNewMessage` of src/message/message.service.ts;
--     its theorems are in Messaging/Sending/Laws, Messaging/Sending/Direct and
--     Messaging/Sending/Groups. It calls Friend/MaySend, Messaging/Tokens, Messages/DirectChats and
--     Group/Members.
--   Messages: the tables of messages and pins. Messages/DirectChats:
--     src/direct-chat/direct-chat.service.ts. Messages/Pages: the pages of messages of
--     src/message/message.service.ts, with theorems in Messages/Pages/Laws. Messages/Pin:
--     src/message/pin/pin.service.ts, with
--     theorems in Messages/PinBounds. Messages/PinConversation:
--     src/pin-conversation/pin-conversation.service.ts. Messages/Recall:
--     src/message/delete-message/delete-message.service.ts, with theorems in Messages/RecallLaws.
--   Group: the tables of group chats. Group/Members: src/group-member/group-member.service.ts.
--     Group/Chats: src/group-chat/group-chat.service.ts. Group/Joining:
--     src/group-chat/join-requests.service.ts and src/group-chat/invite-code.service.ts.
--     Group/RoleGuard: src/auth/role/group-chat/group-chat-role.guard.ts. The theorems are in
--     Group/Bounds, Group/Creator, Group/Overflow and Group/RoleGuard. Joining calls Members, and
--     Pin calls Members and Chats.
--   Friend: the tables of friends. Friend/Requests: src/friend-request/friend-request.service.ts and
--     src/friend/friend.service.ts. Friend/Blocks: src/user/block-user.service.ts. Friend/MaySend:
--     `checkCanSendMessageInDirectChat` of src/messaging/messaging.gateway.ts and
--     src/message/can-send-message.helper.ts. The theorems are in Friend/SendLaws,
--     Friend/RequestLaws and Friend/Removal.
--   Security/Utf16: strings of JavaScript as lists of UTF-16 units. Security/Encryptor:
--     src/message/security/es-message-encryptor.ts, with theorems in Security/Encryptor/Laws,
--     Security/Encryptor/RoundTrip and Security/Encryptor/Reload.
--   Account: the table of users. Account/Store and Account/Passwords: src/user/user.service.ts, with
--     theorems in Account/Passwords/Laws, Account/Passwords/Tries and Account/Passwords/Tokens.
--   Moderation: the tables of reports. Moderation/Bans: src/auth/auth.service.ts, with theorems in
--     Moderation/Bans/Laws. Moderation/Reports and Moderation/Violations:
--     src/admin/admin.service.ts, with theorems in Moderation/Reports/Laws and
--     Moderation/Reports/Sent. A log-in asks Bans, which reads what Reports writes.
--     Moderation/UserReports and Moderation/Filing: src/user/user-report/user-report.service.ts,
--     with theorems in Moderation/Filing/Filed, Moderation/Filing/Failed and
--     Moderation/Filing/Evidence, over the lemmas of the other children (Rollback, Outcomes, Leaks,
--     Rows, Steps). Filing calls Uploads and writes the reports that Reports acts on.
--   Uploads: the object store and the rows of media. Uploads/Names: the functions of strings and
--     paths. Uploads/Tables and Uploads/Types: the types of files of src/upload/upload.service.ts
--     and `detectFileType` of src/utils/helpers.ts, with theorems in Uploads/Types/Laws.
--     Uploads/Thumbnails: src/upload/thumbnail.service.ts. Uploads/Files:
--     src/upload/upload.service.ts, with theorems in Uploads/Files/Outcomes and Uploads/Addresses.
--   Retry: `retryAsyncRequest` of src/utils/helpers.ts. SearchSync:
--     src/configs/elasticsearch/sync-data-to-ES/sync-data-to-ES.worker.ts, which calls it, with
--     theorems in SearchSync/Laws.
--   Tests: runs and instances of the theorems on concrete states.
--
-- How the code becomes definitions:
--   A function keeps its name in snake case. A service that throws is an action: from a state to a
--   result and a state, where what was written before an exception stays written. A table is the
--   list of its rows, the newest first. The Prisma client of a table is a parameter, a record of
--   queries with the laws that Prisma documents (Base/Prisma); Base/Prisma/InMemory meets these
--   laws with rows in memory. A query that writes or deletes may be rejected; one that reads is
--   not. The columns that no modelled code reads, times and the profiles that queries join are left
--   out. Ids are natural numbers. A handler runs as one step: interleavings at its `await`s are not
--   modelled. A timer is an event that the environment may choose at any time. What is sent is a
--   list of events, or of sockets with what each gets; rooms are kept by the socket server and are
--   named by the chat. Times are natural numbers of milliseconds, and the present time is an
--   argument; so are what `crypto` draws, and the salts. `bcryptjs`, the mailer and the digest
--   SHA-256 are parameters with what the code relies on: a password matches its own hash, a digest
--   has eight characters or more. In a store of strings a number stands for its decimal string, and
--   a key with a prefix is a constructor. The digits of a number run on fuel one more than the
--   number, which has no more digits. The object store is a parameter with the laws that an object
--   that is put is there and one that is deleted is not (`ObjectStore`); it may reject. What else
--   an upload takes from the machine is the record `Machine`: the environment, the reading of a
--   name as UTF-8, the parser of addresses, the tools for videos and the files. An upload of a
--   report that loses the race against its timer is a choice of the environment (`times_out`); it
--   is taken to end before what follows. Numbers are written by the digits of their decimal string.
--   The search engine is a parameter with the laws of indexing and updating a document; it may
--   answer each request differently, and what hides HTML tags in its documents is a parameter.
--   A transaction gives its tables back where it throws; what was sent to sockets or deleted from
--   the file store is outside of it and is not undone. The commit of the transaction of
--   `banReportedUser` may be rejected after all of it was carried out (`commits`). The rows of
--   media that an upload writes stand outside the transaction of a report too, and stay where the
--   report is rolled back. A query with an order is a parameter too (`Latest`, `Pages`), which
--   Base/Prisma/Ordered meets. `uuid` is a function from the number of a draw to the id drawn. The
--   loop of `initActiveCallSession` runs on fuel 3, the number of its retries: each turn uses one
--   unit and the last one gives up, so that the fuel never runs out; `retryAsyncRequest` runs on
--   one more than `maxRetries` in the same way. All other loops are recursion on lists.
--
-- Not modelled: tokens and guards of authentication, `uploadReportMessageFromUrl`, which nothing
-- calls, the temporary files of a thumbnail, the codes that the answer to a failed report carries,
-- search, push notifications, the lists and statistics of the administration, profiles, stickers,
-- media and their statistics (calls of other services, or single queries), the deletion of direct
-- chats, and the remaining handlers of the messaging gateway.
pub mod Account
pub mod Base
pub mod Call
pub mod Connection
pub mod Friend
pub mod Group
pub mod Messages
pub mod Messaging
pub mod Moderation
pub mod Retry
pub mod SearchSync
pub mod Security
pub mod Tests
pub mod Uploads
