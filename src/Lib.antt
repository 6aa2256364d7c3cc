-- ===== src/Lib.antt =====
-- The browser client of ZeroCode: web/app of the repository. It edits a program, submits it to the
-- REST API, follows its run over server-sent events, and runs batches of test cases.
--
-- The parts and how they interact. `Api` is web/app/src/shared/api.ts: the client of the REST API,
-- which the other parts call for every request. `Panel` is web/app/src/playground/TestsPanel.tsx: the
-- list of test cases, their import and export, and the batch runs, which go through `Api.Poll` and
-- read statuses with `Api.Status`. `App` is web/app/src/playground/App.tsx: one run of the playground,
-- whose callbacks consume the events of `Api.Stream` and whose fallback is `Api.Poll`.
-- `Catalog` is the catalogue of languages, web/app/src/playground/data.ts, from which the session takes
-- its first language. `Theme` is web/app/src/shared/theme.ts, which stands alone. `Editor` is
-- web/app/src/playground/Editor.tsx and monaco-theme.ts beside it: the formatter, the grammars given to
-- Monaco, one for each mode of the catalogue, and the colours of their tokens. `Landing` is
-- web/app/src/landing, the landing page, whose tables repeat the catalogue's.
--
-- Files. Base: the shared names; Base.Text: strings as lists of UTF-16 code units, with the built-in
-- methods the client calls. Names are the source's in snake_case: `parseCSV` is `parse_csv`.
-- Api.Stream: `stream`, the SSE reader. Api.Status: `statusKind`, `statusLabel`, `statusDetail`;
-- Api.Status.Contract: the tags of crates/zerocode-core/src/status.rs. Api.Poll: `poll`, `pollBatch`.
-- Panel.Csv: `parseCSV`, `exportCSV`. Panel.Diff: `lineDiff`. Panel.Compare: `compare`.
-- Panel.Store: `sourceHash`, `loadBucket`, `saveBucket`. Panel.Cases: the operations on the list.
-- Panel.Run: `applyView`, `runAll`. App.Lines: `flushLines`. App.Run.State: `clearResults`, `cancelRun`, `recordHistory`. App.Run: `runOnApi` and its callbacks.
-- Api.Connection: the whole of `stream`, with its failures and its abort. Api.Key: `idemKey`.
-- App.Draft: what the playground stores and opens with. App.Drawer: the drawer of the languages.
-- App.Handlers: the handlers that are kept between renders. App.Link: the links that are shared.
-- App.Rail: what the list of languages, the history and the bar of errors show. App.Controls: the
-- buttons of the tabs and of the modes, and the popover of limits.
-- Api.Config: `readConfig`, `setBase`, `setKey`, `headers`, `probe`. Api.Request: `encode`, `decode`,
-- `jsonFetch`, `submit`, `submitBatch`. App.Tabs: `OutputPane`, its effects as functions of the
-- properties, one `render` for all that one change of them brings about. App.Session: `selectLang`,
-- `reset`, `run`, `runSimulated`, `probeApi`. Catalog.Core and Catalog.Batch:
-- `LANG_CATALOG`; Catalog: `LANGS`, `pickInitialLang`, `langKeyFromId`, the tables of verdicts; Catalog.Icons: `LangIcon`.
-- App.Layout: `clamp`, `loadLayout`, the splitters. Panel.Reload: the effects that save and load a
-- source's cases. Panel.Import: `exportJSON`, `doExport`, `onImportFile`. Panel.Row: what `TestCaseRow`
-- and the toolbar show. App.Output: what `OutputPane` and `StatusStrip` show. App.Bar: `WorkspaceBar`,
-- `LanguagePicker`, `Splitter`, `formatMem`. Editor: `tidyDocument`; Editor.Monarch:
-- `withCallHighlighting`; Editor.Words and Editor.Shell: the shell grammar as data, a regular expression
-- as the text of its source; Editor.Stack: the stacks of its states; Editor.Register: `registerExtraGrammars`, as the list of its calls of
-- Monaco; Editor.Palette, Editor.ThemeRules and Editor.ThemeColors: `makeTheme`; Editor.Widget: the component
-- `Editor` over a record of what it calls of Monaco. Landing.Teaser:
-- `colorize` and `PlaygroundTeaser`; Landing.Languages: the tables of languages.tsx; Landing.Hero: the
-- timers of hero.tsx; Landing.Layers: the cycle of layer-diagram.tsx, in milliseconds; Landing.Links:
-- shared/flags.ts and the links of every page; Landing.Nav: the menu of nav.tsx; Landing.Sections:
-- the layers, the steps, the cases and the budget of sections.tsx; Landing.Packet: the packet of
-- layer-diagram.tsx, its numbers as exact fractions.
-- Theme: every function of theme.ts; Theme.Mirror: the buttons and the status strip that follow it. Children with other names hold the proofs; the files called
-- Tests run the definitions and apply the theorems at concrete inputs.
--
-- State. A component's `useState` variables are the fields of a record; a callback is a function
-- from that record to itself. What a callback awaits is an argument: the answer of a request
-- (`Answer`), the rounds of a polling loop (`Round`), the reads of a connection (`Read`). Ids drawn
-- with Math.random are arguments. Loops over a list are structural; `cut_all` runs on fuel, the length
-- of the buffer, which is enough since every frame takes at least two characters off it; a polling
-- loop runs on the list of its rounds and is `waiting` where the list ends.
--
-- What a component renders is a value: a record or a list of the texts, fields and controls that are
-- shown, without their styles.
--
-- Parameters. Monaco is a state, a function that performs a call on it, and `getLanguages`; its stock
-- grammars are the fields of `StockModules`. The base64 codec, URLSearchParams, JSON.parse, JSON.stringify, String and
-- toLowerCase are functions that the definitions take. Decimal numbers of the API (seconds, KiB) are kept as the text that writes
-- them; they are passed on and never computed with, but for the division that is a parameter.
--
-- Not modelled: styles, SVG and the order of the markup; the DOM and how React schedules effects, which
-- are run in the order of the source (when it runs the two updaters that read a variable is a parameter,
-- `Updaters` of App.Run.State); the Monaco editor, how it matches regular expressions and picks
-- the rule of a token; the rounding of floating-point numbers, and the animation library of the landing
-- page and most of its texts; the documentation site; the server (crates) but for the tags of its statuses.
pub mod Base
pub mod Api
pub mod Panel
pub mod App
pub mod Catalog
pub mod Theme
pub mod Editor
pub mod Landing
