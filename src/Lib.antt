-- ===== src/Lib.antt =====
-- The dashboard of FastShare (frontend/), a file transfer over UDP whose packets are drawn on a
-- canvas.
--
-- The backend sends a snapshot of the transfer, a topology and a stream of packet events. The
-- canvas model (frontend/lib/canvas.ts) makes a graph of nodes, links and lanes from the
-- topology, and a state for each lane from the scheduler. The animation layer
-- (frontend/components/PacketLayer.tsx) turns packet events into dots that travel the lanes of
-- that graph, with the timing of frontend/lib/anim.ts.
--
-- The files and the code they model:
--
-- - Common: lists, dictionaries, strings as UTF-16 code units, and numbers.
-- - Types: frontend/lib/types.ts. The time-like and percentage fields have the type of the
--   numbers.
-- - Topology: frontend/lib/topology.ts.
-- - Canvas/Lanes: schedulerLaneStates of frontend/lib/canvas.ts. Canvas/Shapes: the types of the
--   graph. Canvas/Graph: buildCanvasGraph. Canvas/Graph/Paths: pathOf, laneIds and lanePath.
--   Canvas/Graph/Edges: edgeKey and the map from edges to lanes. Canvas/Graph/States:
--   laneStates.
-- - Anim: frontend/lib/anim.ts.
-- - PacketLayer: the references of the component as a record, spawnAck, and in
--   PacketLayer/Ingest and PacketLayer/Frame the two effects, each a function on that record.
--   PacketLayer/Runs: the effects in any order. The other files of the folder hold proofs.
-- - Json: the values that the hook compares, and its deepEqual. Polling:
--   frontend/hooks/useStatusPolling.ts, the asynchronous tick as the calls that wait and what an
--   answer does to them; the requests of frontend/lib/api.ts are the answers.
-- - Settings: the form of frontend/components/TransferConfigCard.tsx, from the server's
--   configuration to what save passes on.
-- - LogLines: frontend/lib/logClassify.ts.
-- - PanelLayout: frontend/hooks/usePanelLayout.ts; Number, String and JSON.parse are a
--   parameter.
-- - Switching: the markers of frontend/components/PathSwitchHud.tsx and the notice of
--   frontend/components/TopologyCanvas.tsx, both from the flags of two snapshots of the
--   scheduler; in Switching/Strip the strip of picks, its carets and the rows of the lanes.
-- - Requests: frontend/lib/api.ts, and in Requests/Actions the hook
--   frontend/hooks/useTransferActions.ts; fetch is an argument.
-- - Resume: frontend/hooks/useResume.ts, with the checks that wait for their answers.
-- - Dashboard: frontend/hooks/useTransfer.ts, the polling, the banner and the actions put
--   together with the error and the refresh that they share. In Dashboard/Ends the steps of an
--   action stand between those of polls.
-- - Canvas/Drawing: the states of the routers and the look of links and nodes in
--   frontend/components/TopologyCanvas.tsx. Viewport: its view, its gestures as functions on the
--   view and the held press, with Math.exp and Math.hypot as arguments; in Viewport/Drop the
--   file drop.
-- - RoutePicker: the hop count of frontend/components/RoutePicker.tsx, and in RoutePicker/Badges
--   its badges; RoutePicker/Walks, Levels and Shortest hold the proof about the search.
--   Selection: frontend/hooks/useFileSelection.ts, useNodeSelection.ts and useStickToBottom.ts.
-- - Dock: frontend/components/TransferDock.tsx, with its chips in Dock/Chips, and the progress
--   of frontend/components/tabs/StatsTab.tsx. Telemetry: the rest of that tab,
--   frontend/components/NetworkingStats.tsx and PacketMonitor.tsx. Formats:
--   frontend/lib/format.ts.
-- - Inspector: frontend/components/NodeInspector.tsx, its form; in Inspector/Console the log of
--   a node, whose polls are calls that wait, and in Inspector/Placement the place of the
--   floating card.
-- - ConfigPanel: frontend/components/tabs/ConfigTab.tsx, the draft of the window and the locks,
--   and in ConfigPanel/Policy what the controls send. Options: the choices of the selects in
--   both. FaultPanel: frontend/components/TestingPanel.tsx with
--   frontend/lib/testingScenarios.ts.
-- - Shell: the state and the handlers of frontend/app/page.tsx, which joins the panels, the
--   layout and the selection; in Shell/Actions what it makes of an action's answer, in
--   Shell/Panes which panes it shows and the heading of frontend/components/SidePanel.tsx.
--   PanelLayout/Resize: frontend/components/PanelResizeHandle.tsx with what the page passes to
--   it.
-- - PacketLayer/Render: where the dots, trails and blasts are drawn.
--
-- Numbers that need not be whole are the elements of a type with the operations of
-- Common/Number, for which the laws that a theorem needs are hypotheses; hundredths of whole
-- numbers are the instance of the tests. Sequence numbers, counts, ids and lane numbers are
-- natural numbers. performance.now() and the properties of a component are arguments. The loops
-- are recursions on lists or on the loop counter, so no fuel is needed for them. The search of
-- RoutePicker runs on fuel, two rounds more than twice the links, which RoutePicker/Shortest
-- proves enough, as a node enters the queue once at most; the digits of a number are computed
-- with fuel one above it, which always suffices, since the number falls in every round.
--
-- Not modelled: markup and styling (frontend/components/ui.tsx, TopBar.tsx and
-- EventTraceConsole.tsx hold nothing else but the digits that NumberInput keeps, which are part
-- of the forms), React's scheduling of effects (any order of effects is considered), the fetch
-- calls, and the Python backend, which is seen through the data that it sends.
pub mod Common
pub mod Topology
pub mod Types
pub mod Samples
pub mod Json
pub mod Polling
pub mod Settings
pub mod LogLines
pub mod PanelLayout
pub mod Switching
pub mod Requests
pub mod Resume
pub mod Viewport
pub mod Telemetry
pub mod Formats
pub mod RoutePicker
pub mod Selection
pub mod Canvas
pub mod Dock
pub mod Options
pub mod Dashboard
pub mod ConfigPanel
pub mod FaultPanel
pub mod Inspector
pub mod Shell
pub mod Anim
pub mod PacketLayer
