-- ===== src/Lib.antt =====
-- Sicsophone, a real-time audio tool over RTP: the receiver and the sender, the playout, the codings,
-- the event loop, the control protocol, the exit handlers, audio files and devices, and the server and the client of a
-- tool that measures calls.
--
-- A packet's way: `eventloop` (src/sphone_eventloop.c) calls `receive_and_playout` (src/sphone_rcv.c)
-- when the RTP socket is ready. It decodes the RTP header (src/sphone_rtp.c), classifies the sequence
-- number, decodes the audio (coding/sphone_coding.c) and hands it to the playout (src/sphone_playout.c,
-- src/sphone_playout_shbuf.c), which puts it in the audio device's buffer. The other way,
-- `record_and_send` (src/sphone_send.c) drops silence (src/sphone_silence.c), encodes the recorded
-- samples and sends them. RTCP reports (src/sphone_rtcp.c, src/sphone_rtcp_send.c,
-- src/sphone_rtcp_rcv.c) go beside both. A tool measures calls: its server (utils/sps.c) knows clients
-- (utils/spc.c) and starts calls between two of them, of which one sends (utils/spc_send.c), the other
-- echoes (utils/spc_rcv.c), and both report. Times and lengths are those of src/sphone_lib.c and include/sphone.h.
--
-- Which file models what:
--   Prelude     numbers, words, bits, memory: shared, and no code of the program
--   Wire        the integers in network order that the encoders and decoders of RTP and RTCP use
--   TimeVal     timevalfix, timevaladd, timevalsub; timeradd, timersub, timercmp
--   Units       ms2bytes, bytes2ms, bytes2samples
--   Rtp         the header's encoding (Header, RoundTrip), its flag word (Flags), the timestamp (Time),
--               rtp_set_hdr, rtp_check_hdr and rtp_init (Session)
--   Playout     the audio device as a parameter (Device), playout_play (Dispatch), and the shared buffer
--               (Shbuf): a `struct playout_shbuf` is a record `Shbuf`, and each static function is one of
--               the same name
--   Coding      payload types (Payload), coding_init and what it calls (Setup), the functions that the matrix
--               holds (Convert), coding_reduce and coding_expand (Channels), and the buffer as cells of a
--               sample (Cells, Frames)
--   Rcv         update_seq (Sequence, Classify), receive_and_playout cut at its switch and its labels
--               (Receive), and what it does on each way (Outcomes, Counters, Refusals)
--   Silence     silence8, silence16 and silence (src/sphone_silence.c), and when they say so (Detect)
--   Send        record_and_send, cut at the length check, the silence check and the encoding, and what
--               it puts on the wire (Packets)
--   Exit        exit_register, exit_handler, sphone_verror and sphone_signal_exit (src/sphone_error.c),
--               and the order of the calls (Order)
--   EventLoop   the two lists of events and their registration, the loop's turn (Turn), and what holds of
--               them (Timers, Registry, Dispatch, Steps, Run, Due)
--   Rtcp        packets (Packets, RoundTrip), rtcp_set_hdr (Header), conversions (Time), the reports that
--               are sent (Send) and received (Receive), both together (Taken, Exchange), and the timers (Timers)
--   AudioFile   files in the place of audio devices (audio/sphone_audio_file_record.c, _play.c): what is read
--               (Fill, Short) and when (Pace)
--   DevAudio    the devices that are open (audio/sphone_audio_devaudio.c), a pointer to one being its address, as a
--               table (Table), with the ways through audio_devaudio_init (Outcomes, Refusals), the counts of
--               holders (Holders), the steps of the sessions (Sessions), the mixer (Mixer) and names (Strcmp); recording
--               (audio/sphone_audio_devaudio_record.c: Record, Polls) and playing (_play.c: Play, Playing)
--   DirectSound recording from a circular buffer (audio/sphone_audio_directsound_record.c: Record), how much
--               (Capture), which bytes (Packets), and a whole poll (Polls); playing (_play.c: Play) and what it
--               leaves in the buffer (Regions, Written)
--   Sp          the protocol of the measurement (utils/sp.h): addresses as bytes (Address), a message and
--               the loop that reads it (Message), and that it is read whole (Assembly)
--   Sps         the server: the list of clients as a list of `CfEntry`, a pointer to one as its address,
--               and one function for each callback, cut at its switches and labels (Report, Input, Calls,
--               Timeouts, Kill); the callbacks as the steps of a system (System), and what the steps keep
--               (Table, Watch, Tracked, Tracking, Arrivals, Expiry, Pairing, Returns) or break (Faults)
--   Spc         the client: `struct spc_info` is a record `Spc` and `sp_data` a sum of the two sessions;
--               its callbacks are cut the same way (Send, Receive, Control), against the state machine
--               (Diagram, Refinement), the packets' numbers (Sending) and a lost server (Stale)
-- A module Tests runs the definitions on examples.
--
-- How C is modelled: an unsigned word is a number with its wrap written out; a signed one is its bit
-- pattern, or an integer where it cannot overflow. State that a function changes is an argument and a
-- result. An `int` that only says success or failure is a Bool or an Option. A division by 0, a read past a
-- buffer and a freed pointer that is followed are values of their own. Allocations succeed.
--
-- Bounds and fuel: the loop of background audio has as many rounds as bytes to fill, which is enough
-- since every round fills a byte at least. The loop over the descriptors has as many rounds as there are
-- events, which is enough since each round leaves fewer events behind it, whatever its callback does. The
-- loop that reads a message has as many rounds as the message has bytes, and the one that copies a report
-- as many as the report has, which is enough since each `recv` takes one at least or ends the loop. The
-- second client of a call is drawn with a bound on the tries, out of which the model runs where the random
-- numbers never give another client. A packet of n bytes is read from a file in n + 2 rounds at most, as
-- each gives a byte, or is the one that starts the file again, or the last. The packets that are due from a
-- file take a given number of rounds, which is enough where it bounds the microseconds that have passed, for
-- packets of a millisecond at least. The loop over a mixer's controls has more rounds than there are controls, and the one that restores a
-- buffer a hundred and one. The main loop runs for a given number of turns, as it need not end.
--
-- Parameters: the audio device of the playout, the system calls on devices, DirectSound, the network, the
-- clock, select, the callbacks, the encoder and decoder, the G.711 functions, and what C computes with a
-- `double`. Not modelled: sockets, printing, SIP, Windows support, the command lines, the tables of function
-- pointers, and the copies of other projects' code (G.711, iLBC, getopt, queue macros). The allocation of
-- sessions is not modelled either.
pub mod Sp
pub mod Sps
pub mod Spc
pub mod Prelude
pub mod Wire
pub mod TimeVal
pub mod Units
pub mod Rtp
pub mod Playout
pub mod AudioFile
pub mod Coding
pub mod DevAudio
pub mod DirectSound
pub mod Rcv
pub mod EventLoop
pub mod Rtcp
pub mod Silence
pub mod Send
pub mod Exit
