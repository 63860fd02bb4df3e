-- ===== src/Lib.antt =====
-- The repository's file server in C with its storage and the calls of its client, and the scripts
-- of the football association's page that it keeps as test data, in
-- SupportTestDirectory/yo/FIGC_files: the page's own scripts FIGC_Script.js and FIGC_ads.js, and
-- the plugins that the page adapts or drives, jquery.cookiesdirective.js and
-- horizontal_timeline.2.0.js.
--
-- The parts, and the files that model them:
--
-- - Prelude and its children: the names of the library that all parts share, Boolean tests, lists
--   and whole numbers over the native numbers, and texts as lists of character codes.
-- - Cookie: `getCookie` and `setCookie` of FIGC_ads.js, the same text as in
--   jquery.cookiesdirective.js. Cookie/Jar is the browser's `document.cookie`.
-- - Directive: jquery.cookiesdirective.js, which shows a notice until a limit or until it is
--   accepted. It counts its views in a cookie.
-- - Ads/Countdown: `startCountdown` of FIGC_ads.js. Its interval is a function of the time at which
--   it runs, and a run is the list of these times, any list. Ads/Modal: the ready handler, which
--   reads a cookie and opens the dialog or installs the player's callbacks; the callbacks start the
--   countdowns and set the cookie.
-- - Timeline: the state of horizontal_timeline.2.0.js. Timeline/Scroll is `_translateTimeline` with
--   `_buttonDisable` and its callers; Timeline/Layout is `_setDateIntervals`, `_setDatePosition`
--   and `_setTimelineWidth`; Timeline/Cycle and Timeline/Advance are `autoplay`; Timeline/Select is
--   the choice of an event: `_showNewContent`, the click on a date and `translate_gotoTimeline`.
--   Timeline/Frame makes the buttons and Timeline/Labels the links, `_create`; Timeline/Life is
--   `init`, `refresh`, `addEvent` and `removeEvent`; Timeline/Handlers the buttons, the wheel, the
--   keys and the swipes; Timeline/Debounce is `debounce`; Timeline/Files is `_addFile` and
--   Timeline/Plugin the call of the plugin and `destroy`; Timeline/Goto is `gotoTimeline`. They
--   meet in `_updateVisibleContent`, which calls `moved` of the cycle, which measures the width and
--   scrolls. Timeline/Session is a visit: what the visitor and the page do, one after the other.
-- - Nav: `updateNav` of FIGC_Script.js, which folds the links of the menu that do not fit, and the
--   click on the button of the others. Nav/Visit is a sequence of resizes and clicks.
-- - Lazy: `loadLazyImages` and the social wall of FIGC_Script.js, which load what comes into sight.
-- - Poll, Carousel and MobileMenu: the cards of the poll, the handlers of Bootstrap's carousels,
--   and `loadMenuMobileHtml` of FIGC_Script.js.
-- - Sliders: the settings that FIGC_Script.js passes to lightSlider. Which entry of `responsive`
--   lightSlider uses is a parameter.
-- - Gallery: the handlers of FIGC_Script.js that load and clear the videos of the lightbox. slick
--   calls them; when, and for which slide, is any sequence of changes.
-- - Counter: `countTo` of FIGC_Script.js, and the formatter of `.count-number`.
-- - Storage: the storage of the server in C, includes/file_storage.c, as a list linked both ways in
--   a heap; Storage/Chain says when it is sound, and Storage/Memory is UpdateFile.
-- - Server: the server in C, and how its client talks to it. Server/Cstring holds the C library's
--   functions on text. Server/Conn is includes/conn.c, Server/Wire the messages of includes/util.c,
--   Server/Request the requests that includes/API.c writes and server.c reads, and Server/Client
--   what the calls return. The manager of server.c, Server/Manager, watches the descriptors and
--   puts requests into Server/Queue, the list in a heap of includes/util_server.c, from which the
--   worker there, Server/Worker, takes them: a handler for each operation, on the storage.
--   Server/Config is includes/configuration.c.
-- - Tests: the theorems at concrete inputs, and runs.
--
-- Choices of the model. The server handles one request at a time, so that a wait for another thread
-- is one test; what `read` and `write` answer is a list, and a `size_t` is eight bytes with the
-- lowest first; the address that `malloc` returns is an argument. A set of elements is a list, an
-- element stands for its place, and a class is a Boolean field. A call that throws gives `none`.
-- Lengths are whole pixels, and translations whole half pixels, so that half of a width is exact.
-- The width that an element has once it is laid out is a field that the state carries or, in the
-- menu, a parameter `Measures`, any function of the visible links. The time of the cycle is
-- `percentTime` times the speed, so that it is a whole number where the source divides. The numbers
-- of a counter, with their sums and quotients, are a parameter, and so is `Date.toGMTString`. A
-- size that `readn` returns is an `int` of 32 bits, in two's complement. A change of the window's
-- width comes with its debounced handler, and a swipe of the wrapper as long as the width that a
-- handler measured last is that of the timeline.
--
-- `update_nav` recurs on fuel, a bound on its passes: three more than the visible links are enough,
-- since a pass over a list that overflows hides a link, and at most one pass shows one. `digits_of`
-- takes one more than the number as fuel, which each digit divides by ten. `make_room` takes one
-- more than the number of files, and `room_rounds` the 30 of `TIMER`. `make_memory` and
-- `memory_rounds` take the same: a step of `make_memory` frees a node, ends the loop or repeats
-- itself for ever, and where the fuel is used up there is no result. The loop of READ N FILES takes
-- the number of files in the worker, and one more in the client, which reads a message for each
-- file and the last one. All other loops are by structural recursion on the list that they go
-- through.
--
-- Not modelled: jQuery, Bootstrap, slick, slick-lightbox, lightSlider, moment and the Vimeo player,
-- which are libraries of others; the calls that only pass settings to a library other than
-- lightSlider; animations and the height of the contents; the styles of the notice; the choice of a
-- page size, which submits a form; of the server and the client in C the start, which makes
-- sockets, pipes and threads, the client's program with its options, `openConnection`, the writing
-- of received files, and what only prints or frees at the end.
pub mod Prelude
pub mod Cookie
pub mod Ads
pub mod Timeline
pub mod Nav
pub mod Counter
pub mod Poll
pub mod Carousel
pub mod MobileMenu
pub mod Directive
pub mod Lazy
pub mod Sliders
pub mod Gallery
pub mod Storage
pub mod Server
pub mod Tests
