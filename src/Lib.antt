-- ===== src/Lib.antt =====
-- A model of Furikup, a SIP telephone for the PSP: the engine (SIPEngine/) and its text interface
-- (SIPTextGUI/).
--
-- The engine reads its settings (config_file.c, config.c) and its contacts (addressbook.c), registers
-- with a SIP server, and then runs one thread (call_api.c) that serves the events of the SIP library
-- and the requests of the interface. For a call it describes its media (codec.c), and it publishes and
-- reads presence (presence.c). In a call, one thread of audio.c records, compresses (sound_conv.c) and
-- sends the voice, and another receives, expands and plays it; video.c sends the pictures of a camera.
-- sound_resample.c, with the filters of FirAlgs.c, converts rates. The interface (text_gui.c) handles
-- the events that the engine raises, and turns the buttons into requests.
--
-- Which module models what:
--   Prelude      shared names, lists, integers, Boolean tests
--   CString      the functions of the C library that the code calls: strncpy and strcpy with the sizes
--                of their arrays, strtok, fgets, atoi, the %d of printf
--                (Copy, Tokens, Numbers), and their laws (Laws, Arrays)
--   Config       SIPEngine/config.c (Config.Defs, Config.Uris), SIPEngine/config_file.c (Config.File,
--                Config.Line, Config.Roundtrip)
--   AddressBook  SIPEngine/addressbook.c
--   Codec        SIPEngine/codec.c: the ports, createLocalSdp
--   Presence     SIPEngine/presence.c: update_presence, parse_presence
--   Engine       SIPEngine/call_api.c: the types (Types), what the interface can ask (Control), the
--                events of the SIP library (Events), the loop of CallThread (Thread), SIPEngineDoEvent beside
--                it (Request), and UpdateFirewallAddr (Firewall)
--   Gui          SIPTextGUI/text_gui.c: the status box (Status), CallbackEventHandler (Handler), the
--                buttons (Buttons), the menu and the lines of state (Screen), main up to its loop (Boot)
--                and the loop (Loop); a press cut where it calls SIPEngineDoEvent (Requests); the exit
--                callback's thread and the connection to an access point (Network)
--   SoundConv    SIPEngine/sound_conv.c
--   Audio        SIPEngine/audio.c: checkWavFormat (Wav), initAudio (Init), rtpAudioSetup and
--                rtpAudioStop (Session), rtpAudioSend (Send), rtpAudioRecv (Receive)
--   Player       the threads that play the ring-back tone (SIPEngine/audio.c) and the ringer
--                (SIPTextGUI/text_gui.c), which have the same code
--   AudioFreq    AudioFreq/main.c
--   Filter       SIPEngine/FirAlgs.c and SIPEngine/sound_resample.c
--   Video        SIPEngine/video.c
--   Media        SIPEngine/call_api.c with audio.c (Voice) and with video.c (Picture): the calls in the
--                engine's trace, carried out one after the other
--   Phone        SIPTextGUI/text_gui.c and SIPEngine/call_api.c together: the thread of main beside that of
--                the engine (System)
--   Startup      SIPEngine/sipengine.c: SIPEngineInitialize, the modules and the USB drivers (Defs), and
--                osip_trace_func (Trace)
--   Tests        runs on concrete inputs, and the theorems at inputs that meet their conditions
-- A function of the source keeps its name in the spelling of this library: makeCall is make_call. The
-- globals of a file are the fields of a record, and a function that writes them returns the new record.
--
-- A write or a read past the end of an array, which in C has no defined result, gives `none`, or the
-- outcome `fault` of the engine; behind it nothing is claimed. There is one exception:
-- clearStatusBox writes to the byte behind gStatusLines whenever it is called, and that byte is a
-- field of the interface, behind_status_lines. What is claimed of the interface takes it to be none
-- of its other variables. What an uninitialised variable holds is a parameter.
--
-- The start of the engine is the list of the calls it makes; its endless wait for the USB connection
-- runs over a list of what each poll finds, and is still waiting where that list ends.
--
-- The engine and its surroundings: every call that leaves call_api.c (the SIP library's, those into
-- audio.c and video.c, the events for the interface) is an effect, and the engine keeps the list of
-- them, the latest first. Whatever the libraries answer is a parameter: an event, or a field of
-- Answers. eXosip_lock and eXosip_unlock are effects too, and the trace says what the thread calls
-- if each lock is got. On the PSP the lock is a semaphore that counts to one, waited for without a
-- timeout (libosip2-3.0.3-2/src/osip2/port_sema.c), as which Engine.Semaphore and Engine.Blocked
-- read the trace. What stands in a trace behind a lock that is not got is not reached on the PSP;
-- what the other files say of such a run is said for a lock that the thread may take again. The
-- thread runs on a schedule of turns, one for each round of its loop, with the request that the
-- interface has made and the event that has come in; a round with neither is a turn too. A request
-- is served where the source lets callbacks run, at the start of a round. The interface is the
-- function that handles the events in the engine's trace.
--
-- Text is a list of bytes. The messages of the status box are given to printf as its format; one
-- with a percent sign gives `none`, as a write past the end of an array does. The number of a %d has
-- at most ten digits, as an int has. The lines of a file are read on the fuel of its length, one
-- byte of which every line takes.
--
-- The floating-point numbers of the source are parameters. In Audio.Receive they are a record of a type
-- and the operations that the code uses; the samples of Filter are a type with an addition and a
-- multiplication. Two expressions that are cut to an int are written over the natural numbers, with the
-- same value in their range: i*5.5 is i * 11 / 2, and curpos/6.04 is curpos * 100 / 604. An
-- int of the loops is a natural number; in Audio.Send `none` stands where it would pass 2^31.
--
-- A loop that another thread ends, as those of audio.c, video.c and the interface, runs over a list of
-- what each round meets. The threads of Player make steps from one access of the shared flag to the
-- next; the data types Step and Reach say in which order, so that every interleaving is covered.
--
-- Phone has its own: main makes a step from one call of SIPEngineDoEvent, or one look at the
-- buttons, to the next; the engine makes a turn, and the events that it raises in it are handled by
-- the interface at the end of the turn, in their order. That the two threads write the globals of
-- text_gui.c at the same time is not seen. A step in which the interface would leave an array is not
-- there. In Phone, what the engine does before main comes to its loop is that it starts; the events
-- that SIPEngineInitialize raises, the address book among them, are in Gui.Boot.
--
-- The two threads that SIPEngineDoEvent joins make steps of their own, in any order: the interface
-- notifies a callback, and leaves its wait; the engine makes a turn, or leaves its loop. A turn is one
-- step: of what the interface sees, callback_done, it writes in the callback at its head only.
--
-- The loop of main reads the buttons at one place, and while it waits for their release at another. What
-- happens in between, events of the engine and the exit callback, is put in front of the look at the
-- buttons that follows.
--
-- Of the code that nothing calls, fir_circular and fir_shuffle are in Filter, connect_to_apctl and
-- UnloadModules of the interface in Gui.Network, and UpdateFirewallAddr in Engine.Firewall.
--
-- Not modelled: setupGu and the drawing of the network dialog; how the start of the threads of video.c
-- races with stopVideo; the libraries oRTP, eXosip2 and oSIP, which are copies of other projects, and the
-- PSP's own; declarations and import tables.
pub mod Prelude
pub mod CString
pub mod Config
pub mod AddressBook
pub mod Codec
pub mod Presence
pub mod Engine
pub mod Gui
pub mod SoundConv
pub mod Audio
pub mod AudioFreq
pub mod Filter
pub mod Video
pub mod Media
pub mod Player
pub mod Phone
pub mod Startup
mod Tests
