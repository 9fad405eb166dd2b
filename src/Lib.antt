-- ===== src/Lib.antt =====
-- A verification library for the web program of sigopt-server (web/js): the JavaScript that
-- serves the pages and runs in the browser. The API behind it is written in Python and is not
-- modelled.
--
-- The parts, with their sources, and how they interact:
-- - Base: shared names, Boolean tests on native numbers, lists and integers, and their lemmas.
-- - Pagination. PagingBlock is web/js/pagination/paging-block.js (`PagingBlock`,
--   `calculateEllipsisFlags`): the control that shows the pages. Pageable is
--   web/js/pagination/make-pageable.js: the component that loads them, one definition for each
--   method, and `block_props` hands its state to the control. Pageable.World sets the component
--   among its callers, where responses may be late, lost and out of order.
-- - Net. ArrayPager is web/js/net/list.js (`arrayPager`), ExhaustivelyPage web/js/net/paging.js
--   (`exhaustivelyPage`), which pages through any fetcher, StreamingPager
--   web/js/net/streaming_pager.js, which hands the pages on one by one, DataSource
--   web/js/net/source.js and Poller web/js/net/poller.js. A method returns the new state and the
--   calls that it makes. History is web/js/net/history.js (`HistoryTracker`), and History.World
--   sets it among the components of a page and the browser's steps.
-- - Session. LoginState is web/js/session/login_state.js, set.js and pop.js; CurrentUser is
--   web/js/server/express/current_user.js and token.js, Permissions check_login_state.js beside
--   them, and Csrf web/js/server/csrf.js with web/js/server/express/csrf.js. They run one after
--   another on the login state of a request, which the cookie jar reads and writes in the form
--   that LoginState.Stored gives it (`toJson`).
-- - Server. Stack is web/js/server/express/always.js, Handlers headers.js, response.js,
--   redirect.js and error.js beside it, and App app.js: how the middleware of a request leads to
--   its answer. Documented has the rules by which Express runs it.
-- - Api. Requestor is web/js/api/api-requestor.js (`request`): the options of a request, its
--   callbacks and its retry.
-- - Component. Editable is web/js/component/make-submittable.js and make-editable.js, and
--   Editable.World sets them among submissions that call back late.
-- - Cookie. CookieId is web/js/server/cookie/utils.js and constants.js; Jar is
--   web/js/server/express/cookie.js and web/js/server/user_prefs.js. The text of a stored object
--   stands by the object, without the keys whose value is undefined.
-- - Project. Dimensions, with its child Create, is web/js/pages/project/data/dimensions.js
--   (`createDimensionsFromRuns`), and Slice is web/js/pages/project/state/dimensions_slice.js,
--   whose reducers call it. Dashboards is
--   web/js/pages/project/analysis/state/dashboards_slice.js, and Gradients and Colors,
--   with its child Legend, are web/js/pages/project/analysis/lib/color_dimension.js.
-- - Utils. Json is web/js/utils.js (`recursivelyOmitKeys`, `recursivelyCondenseObject`) over
--   values as JSON has them, and Color its `colorHexToRGB`.
-- - Experiment. Model has what the editor of web/js/experiment/editor.js holds. Editor is its
--   handlers for parameters, metrics, conditionals and the fields of
--   web/js/experiment/properties.js, with conditionals/input.js beside it in Editor.Selection,
--   and Editor.Edits sets them as steps from one input to the next. Submission is
--   `sanitizeExperiment`: Submission.Sent makes the object that goes to the API. State is the
--   rest of the editor's state, ParameterTable parameter.js. Ui is web/js/experiment/ui.js:
--   enabled parameters, assignments, their validation, strategies and thresholds. Bulk is the
--   download and the upload of observations: Csv is web/js/pages/experiment/csvutils.js, Download
--   core/bulkdownload/endpoint.js beside it, and Columns, Observations, Upload and Form are
--   core/bulkupload/page.js; Calls are sequences of calls to the API that stop at an error. Copy
--   is core/copy/endpoint.js, which creates a copy of an experiment with its observations.
-- - Organization. Users is web/js/pages/organization/users/page.js, the state of the page of an
--   organization's users; PermissionsEditor is permissions_editor/editor.js, new_row.js and
--   modal/edit_teams.js beside it, the rows of one user. Edits sets the two side by side.
-- - Alert is web/js/alert/broker.js, the stack of handlers. Net.Errors is web/js/net/errors.js
--   and Session.UrlMatch web/js/server/express/match.js.
-- - Chart. BestSeen is web/js/chart/best_seen_trace.js, Range web/js/chart/range.js, Thresholds
--   and Values web/js/chart/thresholds.js and values.js; Sides and Shaded are about the boxes
--   that mark what is worse than a threshold.
--
-- A method that changes its object is a function from state to state. A `setState` with its
-- callback is one step. What is not code of the repository is a parameter: the API, `_.isEqual`
-- of underscore, `get` of lodash, how Express runs its middleware, the checks of url-safe-base64,
-- the order of the built-in sorts. The collection functions of underscore (`map`, `filter`,
-- `find`, `any`, `partition`, `invert`) are written out as documented. Tokens, ids and nonces are
-- numbers used for equality only, and are truthy where the source tests them.
--
-- A number in JSON stands by an identity, and what a text means as a number is a parameter; the
-- values of a chart are integers. Edit keys are texts that the handlers are given, and nothing
-- but equality is asked of them.
--
-- Fuel: `exhaustively_page` and the streaming pager have it, since a fetcher may offer next
-- markers for ever. One round more than the array has items is enough for `arrayPager` with a
-- positive limit; with the limit 0 no fuel is enough. `retry_on_504` recurses on the retries, of
-- which there is one. A bulk upload has the number of observations, and the copying of
-- observations too, which is enough for a positive size of the batches. Everything else is
-- structural recursion: `get_user_info` on the saved sessions, the loops of Project on the lists.
--
-- Not modelled: objects with a number under `length`, over which underscore runs as over arrays;
-- an experiment to copy without a name; markup and React's life cycle beyond mounting, timers (a
-- delayed call may come at any time), writes to the bucket that fail, the thunks of the slice,
-- `createDefaultDashboards`, the rendering of tasks, URLs and orders of names in ui.js, what
-- charts draw beside the boxes of thresholds, requests that the server answers before it reaches
-- the endpoints, the other pages and middleware of web/js, the Python service, and vendored code.
pub mod Alert
pub mod Api
pub mod Base
pub mod Chart
pub mod Component
pub mod Cookie
pub mod Experiment
pub mod Net
pub mod Organization
pub mod Pagination
pub mod Project
pub mod Server
pub mod Session
pub mod Utils
