-- ===== src/Lib.antt =====
-- infinid listens on the RS-485 bus of an Infinity heating and cooling system, keeps the state
-- that the frames of the bus report, and polls the wall control as a system access module (SAM)
-- would. This library models its core.
--
-- The parts and how they interact. bus/frame.go defines the frame, its checksum, `Encode` and
-- `Decode`; bus/decoder.go cuts the stream of the serial port into frames. The frame loop of
-- cmd/infinid/main.go hands each frame to protocol/ (`Decode`, `DecodeFaults`), applies the
-- readings to state/state.go, and tells the scheduler of sam/scheduler.go of it, which writes
-- read requests to the port. capture/recorder.go keeps the last frames, and state/journal.go logs
-- which devices are lost, which faults come and go, and what a gap in the record was. Once a second
-- the publish loop of cmd/infinid/main.go takes a snapshot and the daemon's counters, and the
-- exporter of mqtt/exporter.go publishes what has changed, over the client of mqtt/client.go.
-- cmd/businspect/main.go reads a capture back with inspect/inspect.go: which registers there are,
-- how a register changed, and what differs around an instant.
--
-- Which file models what.
--   Prelude: shared names; Bits, laws of the bit operations; Assoc, Go's maps; Run, a computation
--     that may panic, and checked indexing; Time, instants and durations in nanoseconds; Float,
--     float64 as an interface; Bytes, byte strings and hexadecimal digits; Keys, a map's keys.
--   Bus: Crc is crc16ARC; Frame is Frame with Encode (`encode`) and Decode (`decode`); Decoder is
--     the Decoder with Next (`next`). The decoder's state is the bytes that are pending and the
--     count of resyncs.
--   Reading: the Reading of protocol/protocol.go, which decoders make and the state takes in.
--   Protocol: Values is u16 and f32; Zone, Idu, Odu and Sam are the decoders of the files of these
--     names; Decode is Decode (`decode`), its switch (`dispatch`) and tlvTemps; Faults is
--     DecodeFaults.
--   State: State with New, Apply (`apply`), applyActiveZonesMask and Snapshot. Its state is the
--     fields of the system, those of each zone, and the zones that a mask alone established.
--   Sam: Scheduler with New, Tick (`tick`) and NoteFrame (`note_frame`). Its state is the targets,
--     the pending one as an index, the times of the last request and write, and the failures.
--   Journal: Journal with NoteDevice, CheckLiveness, NotePowerCounters, ClassifyGap and NoteFaults.
--     Its state is when each device was last heard, which are lost, the counters and faults that
--     are known, and the events that were logged. Counters that JSON refuses, since one is NaN or
--     infinite, log no event: the source then writes an empty line. Replay is OpenJournal on a
--     log, Active is ActiveFaults, and Writes is append on the file's bytes, with Err and Close.
--   Capture: the ring of Recorder; Lines is the line that Add writes.
--   Inspect: inspect/inspect.go, Rec and Key; Parse is ParseAll, Groups is Group, Timeline is
--     Changes, Window is DiffAt, and Diff is diffOffsets with changedOffsetsAcross.
--   Mqtt: the client's Publish and Reconnected, and the Exporter with New and Reassert; Entities is
--     mqtt/entities.go, Publish is PublishState (`publish_state`), Health is PublishHealth and
--     PublishAvailability, Discovery is PublishDiscovery. A session is an exporter and the broker's
--     retained messages.
--   Daemon: what the frame loop does to the state; Frames is a round of the frame loop and of the
--     ticker over the whole daemon, Connection is `run` from the start of a connection to the
--     decoder's error, over what the port's reads bring, Counters is trackCounter, PublishLoop is
--     a round of the publish loop, Capped is cappedWriter and ZoneNames is parseZoneNames.
--   Businspect: what the subcommands of cmd/businspect/main.go compute.
--   Tests: float64 as terms, and runs at concrete inputs; Bus/Tests and Sam/Tests are such runs.
--
-- Conventions. A byte, a uint16 or a uint32 is a number, with its wrap written out where the
-- source wraps; `Bytes` says that a list holds bytes. A panic is `panic`; a false result is
-- `none`. An instant is its nanoseconds since Go's zero time. Maps are association lists;
-- Go's order of iteration is unspecified, and where the journal logs an event for each entry of a
-- map, the order of the list is one of those that Go may take. Loops are structural
-- recursion: on the payload, on the rounds left (8 bits, 8 zones), or on the reads to come, so
-- that no fuel is needed. `next` on a list of reads that is used up is `waiting`, which stands for
-- a call that has not returned.
--
-- What stands outside. The reader's answers and the fate of a write are arguments. float64 is a
-- parameter, the record Float64, whose laws are what IEEE 754 says of integers of up to 53 bits,
-- of quotients by an integer, and of the bits of a float32; Tests has an instance. A fault's time
-- is kept as the date, counted in days since 2013-01-01, and the time of day that the source
-- passes to time.Date; the time zone is left out.
--
-- The broker is the retained messages that MQTT keeps; what an attempt to publish meets is an
-- argument, a function of the number of the attempt. How a float is printed, what the marshalled
-- text of a record or a configuration is, and how RFC 3339 writes a time are records of functions
-- (Format, Printing, Text), with the laws that are relied on as fields or as hypotheses.
--
-- Not modelled: the serial port, the connection to the broker, the HTTP server and the command
-- lines, which are I/O; the text of log lines, and `String` of a frame, which they show; the JSON
-- of an event in the journal's file, and its scanner's limit on the length of a line.
pub mod Prelude
pub mod Bus
pub mod Reading
pub mod Protocol
pub mod State
pub mod Sam
pub mod Journal
pub mod Capture
pub mod Inspect
pub mod Mqtt
pub mod Daemon
pub mod Businspect
pub mod Tests
