-- ===== src/Lib.antt =====
-- AstianGO Hub, a platform that manages web crawlers: its MCP server and the stores of its web
-- interface. The two meet at the HTTP API of the hub only.
--
-- The MCP server (mcp/src) offers the HTTP API as tools to a language model. From the bottom up:
--
-- - mcp/src/security.ts: Mcp/Security.antt (`isReadOnlyMethod` is `is_read_only_method`,
--   `requireDestructiveConfirmation` is `require_destructive_confirmation`, which returns the message
--   that the source throws), with Mcp/Security/Laws.antt.
-- - mcp/src/client.ts: Mcp/Session.antt has the axios instance with its two interceptors (`send`), and
--   the actions over it. The state of the world is the log of the requests that left the process; an
--   action takes the client and the log, and returns a value or an error with the longer log.
--   Mcp/Client.antt has the constructor; Mcp/Client/{Crawling,Assets,Ai}.antt have one function for
--   each method of `AstianGoHubClient`, with its name in snake_case.
-- - mcp/src/tools/*.ts: Mcp/Tools.antt has the `try` that every handler is and the confirmation;
--   Mcp/Tools/*.antt have one function for each `server.tool(...)`, with the key of the tool. The
--   text of a result is kept as the way it is computed (`Content`), `JSON.stringify` unevaluated.
-- - mcp/src/tools.ts: Mcp/Calls.antt has a constructor for each registered tool and the dispatch.
-- - mcp/src/config.ts: Mcp/Config.antt, with the platform (`statSync`, `readFileSync`) a parameter.
--
-- Mcp/Json.antt has the values of requests and replies. Numbers are natural numbers, since no tool
-- computes with others; `undefined` is a value, because the source tests for it.
--
-- Mcp/Emits.antt is a judgement on what an action adds to the log, with a rule for each way to
-- build an action; its child modules apply the rules to every handler, and Mcp/Safety.antt,
-- Mcp/Deletes.antt and Mcp/Confirmation.antt draw the conclusions. Mcp/Paths.antt and
-- Mcp/Updates.antt are about identifiers in paths and about updates. Mcp/Tests.antt has examples.
--
-- The web interface (frontend/astiango-hub-ui/src):
--
-- - store/modules/layout.ts: Ui/Layout.antt has the state, `localStorage` and the getters of tabs,
--   Ui/Layout/Mutations.antt a function for each mutation, Ui/Layout/Session.antt sequences of
--   mutations, Ui/Layout/Reload.antt, Ui/Layout/Tabs.antt and Ui/Layout/Invariant.antt proofs.
--   `localStorage` holds texts. Ui/Layout/Numbers.antt has `toString` and `parseInt` on the numbers
--   that are written without an exponent; a text that begins with a space, a plus sign or 0x, which
--   no code writes, is not read as `parseInt` does. `JSON.stringify` and `JSON.parse` of the tabs are
--   parameters. Where `JSON.parse` throws or a number is `NaN` a page has no state here.
--   Ui/Layout/Codec.antt has texts of tabs for the tests.
--   Ui/Menu.antt has the getter of the sidebar with `isAllowedRoutePath` of utils/auth.ts, and
--   Ui/Menu/Laws.antt what it shows.
-- - services/request.ts: Ui/Request.antt is the response interceptor with the refresh of the access
--   token, as a state machine whose events are what the browser does next; Ui/Request/Flight.antt,
--   Ui/Request/Retries.antt and Ui/Request/Refreshes.antt have the proofs, over sums of
--   Ui/Request/Totals.antt.
-- - services/request.ts and services/index.ts: Ui/Services.antt has the requests and the service of an
--   endpoint, with `axios` behind the interceptor as an argument, and Ui/Services/Lists.antt what a
--   store makes of the lists.
-- - store/utils/file.ts: Ui/FileStore.antt has the state that the stores with files share, and
--   Ui/FileStore/Laws.antt which text the editor shows.
-- - utils/route.ts: Ui/Routes.antt has the map from the paths of the sidebar to their parents, with
--   url-join a parameter; Ui/Routes/Laws.antt and Ui/Routes/Keys.antt have the proofs.
-- - utils/tree.ts: Ui/Tree.antt, for the items of the menu, and Ui/Tree/Laws.antt.
-- - components/core/ai/useAssistantConsole.ts with AssistantConsole.vue: the assistant. Ui/Chat.antt has
--   the state, Ui/Chat/Chunks.antt what a chunk does to a message (`handleStreamChunk`),
--   Ui/Chat/Stream.antt the reading of a reply (`processStreamData`), Ui/Chat/Messages.antt the request,
--   `sendMessage` and `cancelMessage`, Ui/Chat/ErrorTexts.antt `extractErrorMessage`, and
--   Ui/Chat/Conversations.antt conversations, providers and settings. Ui/Chat/{Pieces,Errors}.antt are
--   about replies in pieces, Ui/Chat/{Contents,Keys}.antt about the contents of a message, and
--   Ui/Chat/{Answers,Cancel,Endings}.antt about what a message leaves in the state.
-- - services/llm/index.ts: Ui/LlmStream.antt has `sendStreamingChatRequest`; Ui/LlmStream/Messages.antt
--   the loop that takes the messages off the buffer, and Ui/LlmStream/Laws.antt the callbacks.
-- - utils/debounce.ts: Ui/Debounce.antt is the closure with its timer as a state machine, and
--   Ui/Debounce/Laws.antt what becomes of its promises. The components import that of lodash instead.
-- - utils/database.ts, with components/core/database/DatabaseTableDetail.vue and
--   tables/DatabaseTableDetailColumns.vue: Ui/Database.antt has the types of a table,
--   Ui/Database/Schema.antt the editor of its columns, Ui/Database/DataTypes.antt the types of data, and
--   Ui/Database/Schema/Laws.antt the proofs.
-- - layouts/content/list/useList.ts: Ui/List.antt has what a list does with its store, and
--   Ui/List/Header.antt the header of a column with its dialog (components/ui/table/TableHeader.vue,
--   TableHeaderDialog.vue). Ui/List/Views.antt has maps from keys to filters and sorts,
--   Ui/List/Refinement.antt compares the store to them, Ui/List/Agreement.antt the header to the store,
--   and Ui/List/Defaults.antt is about the sort that the dialog fills in.
-- - components/ui/checkbox/CheckboxTree.vue: Ui/CheckboxTree.antt is the tree of checkboxes,
--   Ui/CheckboxTree/Paths.antt is about the depth of options, Ui/CheckboxTree/Loop.antt about the loop
--   over the ancestors, and Ui/CheckboxTree/{Parents,Partial}.antt about what parents show.
-- - store/modules/dependency.ts: Ui/Dependency.antt has the state, Ui/Dependency/Mutations.antt and
--   Ui/Dependency/Actions.antt one function for each mutation, and two for each action, and
--   Ui/Dependency/Laws.antt what the actions ask for and leave.
-- - components/ui/form/useForm.ts: Ui/Form.antt is the confirmation of a dialog as a state machine, and
--   Ui/Form/Laws.antt what it shows and sends.
-- - utils/store.ts: Ui/BaseStore.antt has the state that the stores of lists share,
--   Ui/BaseStore/Mutations.antt and Ui/BaseStore/Actions.antt its mutations and actions, and
--   Ui/BaseStore/{Filters,Sorts,Lists,Pagination}.antt the proofs. The modules
--   named Tests have examples.
--
-- Common.antt passes on the names that all share; Common/Arrays.antt has the methods of arrays,
-- Common/Texts.antt those of texts as lists of code units, and Common/Options.antt chains of
-- results that may be missing.
--
-- Parameters: `transport`, a field of the client, is the network, axios and the server behind it,
-- and may answer by all the requests that were sent before; nothing is assumed of it. The time that
-- a handler reads is an argument. In the stores the service that answers a request, the digest
-- `md5` and what other code commits while an action waits are arguments; where a theorem needs the
-- digest to tell two tables apart, that is the hypothesis `Tells`. Of a stream the reads are given,
-- with the texts that the decoder makes of them, and `JSON.parse`, as a function that may fail, is
-- an argument, as are the conversions of values (`Conversions`), the texts of JSON values
-- (`JsonTexts`) and of tabs (`TabsJson`), and the test of a form (`is_set`).
--
-- The loop that takes messages off a buffer (`take_messages`) has fuel, one more than the length of
-- the buffer, which is enough, since each round drops at least the two characters of the delimiter.
-- The loop over the ancestors of an option (`update_ancestors`) has one more than the number of
-- options, which is enough for a tree with identifiers of its own, since each round goes up by one
-- level. The digits of a number (`digits_before`) have one more than the number, which is enough,
-- since there are no more of them. All other loops of the source are over lists, trees and texts.
-- The requests of one `Promise.all` are sent in the order of the list. Mutations work on values:
-- that an object which is committed is shared with its sender is not modelled.
--
-- Not modelled: the SDK of the protocol and the validation of arguments by zod, which both run
-- before a handler; the prompts (mcp/src/prompts.ts), which are texts; the start of the process;
-- the views and the other components of the web interface, its other stores, its router and the
-- services of single entities; the Go services (core, backend).
pub mod Common
pub mod Mcp
pub mod Ui
