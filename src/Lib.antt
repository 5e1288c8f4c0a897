-- ===== src/Lib.antt =====
-- tmuxcc-driver: the driver between tmux's control mode and its clients.
--
-- The program speaks control mode (`tmux -CC`) on its south side. tmux's byte stream is cut into
-- tokens, reply blocks are matched to the commands that were sent, %output payloads are unescaped
-- and stored per pane, and the bytes go to the attached clients in binary frames. A flow controller
-- pauses a pane at its source while a client falls behind. The modules here follow that path:
--
--   Parser.Tokenizer (packages/driver/src/parser/tokenizer.ts): `ControlTokenizer`, its chunked line
--     buffer, the DCS envelope and the block state. A cursor into a chunk is the list of the bytes
--     from there on. `push`, `process_chunk`, `process_inside`, `match_dcs_intro`, `flush_line` and
--     the guard-line readers stand for the methods of the same names; `materialise` and `strip_cr`
--     are the two halves of `_collectLine`. Tokenizer.Machine is a description byte by byte, which
--     View, Intro, LineEnd and Refines relate to the chunked loops; Lines, Blocks and Session read
--     whole sessions.
--   Parser.Correlator (packages/driver/src/parser/correlator.ts): `CommandCorrelator`, with each
--     promise as a numbered slot and each callback, write and settling as an effect in order.
--   Parser.Exchange composes the two.
--   Parser.OutputCodec (packages/driver/src/parser/output-codec.ts): the octal escapes and the
--     %output and %extended-output lines.
--   Parser.LayoutString (packages/driver/src/parser/layout-string.ts): tmux's layout strings, read by
--     `parseLayout` and written by `dumpLayout`. Parser.Geometry is the write direction of the same
--     file: `distributeSizes`, `geometryToCell` and `serializeGeometry` on the trees of
--     packages/protocol/src/session-template.ts. Geometry.Exact is the same on whole numbers, Rounding
--     relates the two, Tiling and Shape are about the cells of a whole tree.
--   Parser.NotifyScanner (packages/driver/src/parser/notify-scanner.ts): `PaneNotifyScanner`, the
--     scanner of a pane's output; `TextDecoder` is a parameter. NotifyScanner.Machine reads byte by
--     byte, Loop relates the scanner to it, Streams is about whole outputs. Parser.OscContent is
--     `parseOscContent` of the same file.
--   Parser.TitleSniffer (packages/driver/src/parser/osc-title-sniffer.ts): `OscTitleSniffer`, which takes
--     titles out of a pane's output. Fits is about its writes, Lost about the bytes it loses.
--   State.Scrollback (packages/driver/src/state/scrollback.ts): the capped store of pane bytes.
--   State.Coalescer (packages/driver/src/state/coalescer.ts): `CoalescerImpl` with the clock as an
--     argument and its timers as due times; Pace is about each operation, Runs about the states
--     that a new coalescer reaches by enabled events.
--   Runtime.FlowControl (packages/driver/src/runtime/flow-control.ts): `FlowControllerImpl`, with the
--     sub-ledgers as a map of maps; Ledger and Accounts are about the counts, Books and Calls about
--     well-formedness, Held, NoWedge and History about held back panes, Gates about the demux.
--   Runtime.OutputDemux (packages/driver/src/runtime/output-demux.ts): `createOutputDemux`, the fan-out
--     of pane bytes to the transports behind the gates of pausing, staging and hydration. A transport
--     is a number, and the flush that `notifyPaneBound` defers is a task in a queue that the event
--     loop runs. The scrollback it taps is State.Scrollback.
--   Runtime.RateLimiter (packages/driver/src/runtime/notify-rate-limiter.ts): a pane's token buckets,
--     one for each kind of Runtime.NotifyKind, counted in thousandths of a token.
--   Metrics.StormAlarm (packages/driver/src/metrics/storm-alarm.ts): `StormAlarmImpl`, the ring of
--     buckets that counts topology events. Window describes it as a sliding window; Trips, Kinds and
--     Spaced are about its trips and counts.
--   Protocol.Framing (packages/protocol/src/framing.ts): `encodeFrame`, `FrameDecoder` with its list
--     of chunks, `decodeFrame`. Protocol.Utf8 is the part of the Encoding Standard that they use.
--   Prelude: numbers, signed integers, decimal digits, lists, arrays, maps and sets as the source uses them.
--
-- Numbers are natural numbers; the source's are doubles, exact up to 2^53, and 32-bit fields are
-- written with their wrap-around. Mutable objects are states that operations return; an array slice
-- is the list of its bytes, and no operation of these parts writes to an array it shares. A write
-- past the end of an array is a `none` where the source throws, and is lost where it is by index.
-- Fuel is used by four loops: the tokenizer's loop over a chunk
-- has two rounds for each byte and one more (a round that consumes no byte is followed by one that
-- does), and the frame decoder's loop has one round for each buffered byte and one more (a round
-- consumes a header at least). The layout parser has two rounds for each character and one more (a
-- cell and a list of children each read one at least), and the notification scanner two for each byte
-- (a round that sets the index back leaves an idle scanner). All four are shown to end within it.
--
-- The doubles that `distributeSizes` computes with are the parameter `Doubles` of Parser.Geometry. The
-- theorems take from IEEE 754 (`IsIeee`) that a sum, a product and the floor of a quotient of whole
-- multiples of a common power of two are exact below 2^53 of them, and they are about weights and
-- windows in that range; beyond it the source can round, or overflow to Infinity and NaN.
--
-- Not modelled: the asynchronous wiring of processes and sockets, the topology model and its
-- requery engine, the parsing of notifications, the client library, the metrics registry, the
-- compilation of templates and the text of commands. A clock is an argument.
pub mod Prelude
pub mod Parser
pub mod Protocol
pub mod State
pub mod Runtime
pub mod Metrics
