-- ===== src/Lib.antt =====
-- ak1-driver: a Windows driver for the Audio Kontrol 1 sound card. The host's audio engine and ASIO
-- hosts play and record through a kernel driver (driver/ak1-acx), which exchanges USB packets with
-- the card; crates/ak1-proto holds what the kernel driver and the ASIO driver (asio) share.
--
-- Proto is crates/ak1-proto/src. Proto/Wire models lib.rs: rates, device spec, requests and replies.
-- Proto/Mode2 models mode2.rs: the samples of capture and playback packets. Proto/Fifo and Proto/Buffers
-- model asio.rs, the frames of an ASIO session; Buffers/Spec says over lists what they promise.
-- Proto/Resample models resample.rs. Kernel is driver/ak1-acx/src. Kernel/Rt models rt.rs: the packets of
-- a stream and the frame loops around a resampler; Rt/Packets allocation and the audio engine's calls.
-- Kernel/Session models the Session of asio.rs around Proto/Buffers, Kernel/Handlers the property requests
-- of ASIO hosts. Kernel/Audio models audio.rs: the rate, the USB engine and the session under the control
-- lock (Steps/Sections has their sections as they interleave, Steps/Kept, Steps/Calls and Steps/Sound what
-- these keep), and what Frames mixes (Audio/Mix). Kernel/Stream models the loop of stream.rs that answers
-- a capture transfer packet by packet, over the operations of Frames as parameters. Stream/Transfer and
-- Stream/Transfers model its transfers, the start and the stop of the engine and the completion routines;
-- Transfers/Flight has these as steps in any order. Kernel/Usb models usb.rs, the commands to the card and
-- its pipes, Kernel/Device the events of lib.rs. Host is asio/src, which an ASIO host loads. Host/Abi
-- models abi.rs, Host/Settings the sizes and defaults of settings.rs, Host/Duplex and Duplex/Worker the
-- session and the streaming thread of duplex.rs (Duplex/Search the search for the device, Worker/Input and
-- Worker/Output a period on its way from the kernel driver and back), Host/Driver the methods of driver.rs
-- (Driver/Streams those on a session, Driver/Create create_buffers, Driver/Object the COM side with
-- lib.rs). Driver/Valid has the calls as steps of the driver's state; Driver/Requests joins its start
-- requests to Kernel/Handlers. Kernel/Circuits models circuit.rs with the formats of ks.rs
-- (Circuits/Streams a circuit's streams). Setup is setup/src/main.rs: Setup/Signing test signing, packages
-- and certificates, Setup/Install, Setup/Uninstall and Setup/Main the rest; Setup/Plan lists what they ask
-- Windows for, Setup/Leaves the files that stay. Panel is panel/src: Panel/Template models template.rs,
-- Panel/Dialog the window of main.rs, Panel/Device device.rs; Panel/Device/Counters follows the counters
-- of a stream from Kernel/Device to the window. Functions keep their source's names; a method returns the
-- new state beside its result.
--
-- Numbers: usize and counters are ℕ; where a value is narrowed the remainder is written out. The sums of
-- the resampler and of the mixer are integers without bound. Bytes are numbers below 256. Answers of the
-- allocator, of the kernel's memory functions and of the start of the USB engine are arguments. The
-- resampler's kernel table, which the build makes, is a parameter; its rates are at most 7 to 1 (those of
-- the card are) and fewer than 2 ^ 62 frames are pushed between resets. What the ASIO driver asks of the
-- host, the system and the kernel driver is a list of effects. What `pnputil` does to the folder where it
-- keeps drivers is a parameter of Setup/Leaves. Fuel: `fill` takes one turn more than the ring has room;
-- the loops of `RtStream::render` and `RtStream::capture` run on fuel, and Rt/Loops says how much is
-- enough. A `u32` reaches its next power of two in 31 doublings.
--
-- Not modelled: identifiers and callbacks that the audio framework only stores, the fields of the URBs,
-- the driver's entry points and its registry values; the registration of the ASIO driver; the sound of the
-- panel, and the tools; the locks as such and the interrupt level; calls of the Windows frameworks but for
-- their answers. What a streaming thread and its host write at once to shared memory is taken as one
-- order.
pub mod Prelude
pub mod Proto
pub mod Kernel
pub mod Host
pub mod Setup
pub mod Panel
pub mod Tests
