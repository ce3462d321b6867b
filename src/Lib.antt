-- ===== src/Lib.antt =====
-- A model of tryxctl, the tool that drives TRYX displays: a module per part of the program.
--
-- The program talks to two families of devices. A display on current firmware speaks KANALI, framed
-- protobuf messages over USB; one on the original firmware speaks the cm01 protocol over a serial
-- port, and takes its media through adb. Media are prepared for either before they are sent.
--
-- * Proto is crates/tryx-proto/src/frame.rs: encode, take_frame, and the functions that drop bytes
--   in front of a frame. A buffer is a list of bytes, and what a function does to a buffer that it
--   borrows is the second part of its result.
-- * Kanali.Wire is the messages of crates/tryx-proto/proto/wire-v1 with prost's encoder and decoder as
--   a parameter, Codec. Kanali.Transport is the trait Pipe of crates/tryx-kanali/src/transport.rs with
--   a clock in nanoseconds, Kanali.Errors is KanaliError.
-- * Kanali.Session and Kanali.Session.Exchange are crates/tryx-kanali/src/session.rs, on a state of the
--   world, the pending bytes and the track state. A method gives an Outcome and the next session.
-- * Kanali.Device and Kanali.Device.Calls are Device of crates/tryx-kanali/src/lib.rs. The session is the
--   interface Link there, which Kanali.Device.Calls.Linked fills with the session of the model.
-- * Kanali.Overlay is crates/tryx-kanali/src/overlay.rs, and Kanali.Overlay.Clock the date and the time
--   in it; what the clock gives is a Moment, an argument.
-- * Legacy.Frame and Legacy.Adb are src/frame.rs and src/adb.rs of crates/tryx-legacy, with the runs of
--   the adb program in Legacy.Adb.Files, over the interface Host. Legacy.Serial is src/serial.rs over
--   the interface Port, with a clock; Legacy.Commands is src/commands.rs, and Legacy.Client the client
--   of src/lib.rs over the interface Channel, which Legacy.Client.Link fills with the serial link.
-- * Media.Mxhd, Media.Transform, Media.Target and Media.Check are the files of these names in
--   crates/tryx-media/src; of check.rs, the names that files get.
-- * Device.Product is crates/tryx-device/src/product.rs, and Device.Discovery the identities, the
--   printer interface and the device trees of src/discovery.rs.
-- * Tool is the data of crates/tryxctl that the daemon shares with its clients: src/ipc.rs,
--   src/state.rs, src/legacy.rs. Tool.Platform lists the calls that the daemon makes, with the world
--   that answers them; its laws are a monotonic clock, and a wait that lasts as long as it was told.
-- * Tool.Ipc is the frames of the socket in src/ipc.rs, and Tool.Showing is src/kanali.rs: the saved
--   state mapped on the overlay and the configuration of a KANALI display, over Kanali.Device.Calls.
--   Tool.Apply is apply_screen of src/legacy.rs, over Legacy.Client.
-- * Tool.Daemon, Tool.Daemon.Handle and Tool.Daemon.Loop are crates/tryxctl/src/daemon.rs: opening,
--   restoring and pushing; the requests; and one iteration of the loop of run, a function of the
--   variables of run and the world. Tool.Daemon.Loop.Reach has the states that iterations reach.
-- * Prelude has what the parts share: bytes, texts, digits, results, lists measured by native numbers.
--
-- Loops that are not structural take fuel. A loop of the session against a deadline has a unit for
-- each nanosecond that is left, since every call of the pipe moves the clock; the loop over replies
-- has 258, one more than the frames it may skip; a loop over bytes has their number. The loops of the
-- serial link have a unit for each nanosecond of their window, as a read takes some time. Out of fuel is
-- the outcome stuck, which also stands for a panic; a drain has no such outcome and ends, with its
-- deadline passed.
--
-- Left out: USB, serial and file access, running adb and ffmpeg, hashing, floating point, tracing,
-- the text of JSON values with the order of their keys, and that of formatted errors; of the crates, the checks of a probe report and the planning of
-- encodings, the enumeration through libusb, the monitor, the command line, the user interface, and
-- of the daemon its socket and its service file.
pub mod Prelude
pub mod Proto
pub mod Legacy
pub mod Device
pub mod Media
pub mod Kanali
pub mod Tool
