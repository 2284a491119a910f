-- ===== src/Lib.antt =====
-- ProSlides: the web client's live sessions and its presentation editor.
--
-- ProSlides (README.md) lets a presenter show slides and ask questions to an audience. Its client,
-- apps/web, has two parts with logic of their own, and this library models them:
--
-- Live sessions, in apps/web/src/modules/live. A `LiveRuntime` holds what a client knows of one
-- session. It hears events, loads snapshots and roster pages, and sends the presenter's actions; its
-- public state is what the views show. The actions of a command come from plans, and the server,
-- apps/api/internal/live, accepts or refuses each of them.
--   Live/Types      api/types.ts: sessions, snapshots, events, roster pages
--   Live/Protocol   runtime/protocol.ts: the event cursor, and the plans of "start", "next" and "end";
--                   Protocol/Cursor and Protocol/Plan are about them
--   Live/Projection projectLiveSnapshot of the same file: what the pages show, with the types of
--                   model/serverData.ts in Views and the slides in Slides; Timing and Showing are
--                   about it
--   Live/Server     CanApplyAction of state.go and the change of a row in ApplyAction of
--                   postgres_store.go, for the plans to be checked against
--   Live/Result     normalizeActivityResult of runtime/LiveRuntime.ts, over payloads of any shape
--   Live/Runtime    runtime/LiveRuntime.ts: State (the fields, publish, selectSession, storeSnapshot,
--                   disconnect, destroy), Roster (loadRoster), Refresh (refreshAuthoritative), Events
--                   (handleEvent), Actions (runAction, sendNavigation, sendManagerAction, sendEnd),
--                   Answer (submitAnswer) and Steps, the runs of all but the last
--   Live/Participant  participant/answerAttempt.ts in Attempt, pendingAnswerStorage.ts in Storage, and
--                   useParticipantAnswerController.ts, as a state machine, in Controller
--
-- The editor, in apps/web/src/modules/presentations. Panels edit drafts of slides; validators say
-- what keeps a draft from being saved; slides are created, converted, moved and deleted.
--   Editor/Model       the types of model/editor.ts
--   Editor/Validation  its validators, one child module for each, and their meanings
--   Editor/Slides      editor/model/slideMutations.ts: the creation and conversion of slides
--   Editor/Deck        the list of slides: the rest of that file, and editor/model/slideListModel.ts
--   Editor/Drafts      editor/model/contentDraft.ts, wordCloudDraft.ts and questionDraft.ts, with the
--                      numbers of shared/forms/numbers.ts in Drafts/Integer; audioDraft.ts, and
--                      designDraft.ts with the foreground of shared/styles/presentationTheme.ts,
--                      whose contrast of two colours is in Drafts/Contrast
--   Editor/Registry    model/itemRegistry.ts: the kinds of slides, and what may be run
--   Editor/Wording     the Persian texts, by their code points
--
-- Base has the names shared by all, Js the parts of JavaScript that the source uses: numbers, texts,
-- values of unknown shape, and maps.
--
-- How the code is modelled.
--   A number of the source is NaN, an infinity or a whole number of thousandths, which hold its
--   points, seconds and counters exactly; revisions and orders are counters. A text is a sequence of
--   code points. A value of type unknown is a tree of JSON, and what the engine's conversions do to
--   texts and objects is a parameter. A field that may be missing or null is an Option.
--   An async method is split where it awaits. The part before gives a ticket with what the method
--   remembers, the part after takes the ticket and the answer. Steps puts these parts in any order,
--   with any tickets and any answers, so a statement about its runs covers every interleaving.
--   Promises and abort controllers are known by numbers. In Actions the commands run against a
--   transport that is a function on a state of the world, and the refresh that ends them is a
--   parameter.
--   The clock, Date.parse, JSON, the URL parser, Intl.NumberFormat and the floating-point operations
--   behind the contrast of two colours are parameters. The storage of a browser is a map of texts that
--   may be out of reach.
--   The server's refusals of an action are its transitions and what present_item asks of its item: an
--   id, a slide of that id, a kind that is known, and for an activity that its content decodes. What
--   the store answers about a slide, its deadline included, comes with the slide.
--   The source of new identifiers is a function with a state of its own. A conversion that throws
--   gives the message on the left of a sum.
--   The loop that pads a question's options has fuel for two turns, which is enough since it stops at
--   two options; the digits of a counter have fuel for more digits than the counter can have.
--
-- What is not modelled. Of the runtime: connect, the event stream and its backoff, joinParticipant,
-- and the listeners. Of the participant: the recovery of a session, and the countdown's start, which
-- is an argument. Of the editor: the queue of saves. Of the server: the database and its errors, the
-- rights, and the replay of a repeated request. The other React hooks and the views, the HTTP client,
-- identity, reports and the rest of the Go API are left out.
pub mod Base
pub mod Js
pub mod Live
pub mod Editor
