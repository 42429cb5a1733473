-- ===== src/Lib.antt =====
-- The DVBAPI plugin of VDR (vdr-plugin-dvbapi), modelled and verified.
--
-- The plugin is a software CAM. VDR gives it TS packets and CA_PMT objects; it tells OSCam over a
-- TCP socket which services are wanted (CAPMT.cpp), sends OSCam the sections that OSCam's filters
-- ask for (Filter.cpp), and descrambles with the control words that come back (DeCSA.cpp).
--
-- Prelude: what the modules share. Native numbers with Boolean tests, lists (a C array or a vector
-- is a list of its elements), `&` and `|` at variables, and `std::map` as an association list.
-- Filter: Filter.cpp. `PidFilters` and `DmxFilter` are its structs, `PidMap` is `pidmap`. Deliver,
-- Collect and SetECM are `deliver`, `collect` and `set_ecm` in Filter.antt, Analyze is `analyze` in
-- Filter/Packets.antt, SetFilter, StopAllFilters and GetECM are `set_filter`, `stop_all_filters`
-- and `get_ecm` in Filter/Control.antt. The calls of SendFilterData are a list of results.
-- Capmt: CAPMT.cpp. `PmtObj` is `pmtobj`, the vector `pmt` is a list of these. ProcessSIDRequest,
-- SendAll, send, GetCAIDFromPid, GetCAIDFromSid, UpdateEcmInfo and FillEcmInfo are
-- `process_sid_request`, `send_all`, `send`, `get_caid_from_pid`, `get_caid_from_sid`,
-- `update_ecm_info` and `fill_ecm_info`. The bytes given to SocketHandler::Write are results.
-- Slot: SCCAMSlot.cpp. Process is `process` in Slot.antt, and its two answers `ca_info` and
-- `pmt_reply`; what it does is a list of `Action`, which the frame, `DeCSA::Init_Parity` and
-- `CAPMT::ProcessSIDRequest` receive. Status, Check, ResetSlot and Decrypt are in Slot/Module.antt,
-- and the class DeCSAFillControl, with CanProcess as `can_process`, in Slot/Fill.antt.
-- Socket: SocketHandler.cpp. Write and Receive are `write` and `receive` in Socket.antt, over a
-- script of what `send` and `recv` do; HandleMessage is `handle_message` and a round of Action,
-- from the request on, `read_message` in Socket/Messages.antt. The calls of `DeCSA`,
-- `cDvbapiFilter` and `CAPMT` are results. OpenConnection, CloseConnection and a round of Action
-- are in Socket/Connection.antt, where the calls change the tables of filters and services; the
-- other threads are the other steps of the relation `Step` in Socket/Connection/Filters.antt, where
-- a round is one step, and of `CloseStep` in Socket/Connection/Closing.antt, where the end of the
-- socket and the end of the filters are two. The request numbers of the kernel's headers are a parameter.
-- Descrambler: DeCSA.cpp. SetCaPid and SearchPIDinMAP are `set_ca_pid` and `search_pid`,
-- Init_Parity is `init_parity` over a key store that stands for FFdecsa, StopDecrypt and
-- SetDVBAPIPid are in Descrambler/Stop.antt; ts_packet_get_payload_offset has its name. `DeCSAKey`
-- (here `DeCsaKey`) and the array of keys with its setters SetDescr, SetDescrAes, SetData, SetAlgo,
-- SetAes and SetCipherMode are in Descrambler/Keys.antt, over a record `Crypto` that stands for
-- FFdecsa, OpenSSL and cscrypt. The loop of Decrypt over the packets is `packets` in
-- Descrambler/Batch.antt; it takes the pid map and the keys as functions; what stands behind the
-- loop, with the wait for a control word, is `finish_batch` in Descrambler/Batch/Finish.antt, and
-- `decrypt_buffer` is both. These are those of the build with FFdecsa and OpenSSL;
-- Descrambler/Batch/Dvbcsa.antt has the loop of the build with libdvbcsa, `batches`.
-- Descrambler/Decsa.antt puts the pid maps and the keys together: `perform_calls` are the calls
-- that HandleMessage makes, and `decrypt_loop` is the loop of Decrypt over what they leave.
-- Descrambler/Cancel.antt has the threads of CancelWait and StopDecrypt beside the wait of Decrypt,
-- as the steps of a relation on `bCW_Waiting`, `bAbort`, `mutexStopDecrypt` and the threads. The
-- mutex `mutexAdapter` is left out there, which allows more runs.
-- Descrambler/FastEcm: the FastECM part of FFdecsa/FFdecsa.c. set_FastECM_CW_Parity, Init_FastECM
-- and getActiveParity are `set_fast_ecm_cw_parity`, `init_fast_ecm` and `get_active_parity`;
-- Ops.antt has the key of `Decrypt` over them.
-- Frame: Frame.cpp, over a record `RingBuffer` that stands for cRingBufferLinear of VDR.
-- CiAdapter: SCCIAdapter.cpp. Write and Read are `write_tpdu` and `read_tpdu`; a slot is what
-- Slot/Module.antt keeps of it and the frame of its answers, which Process fills.
-- Plugin: DVBAPI.cpp and DVBAPISetup.cpp. The options are `process_args`, `setup_parse`,
-- `open_menu` and `store_menu`, and Service is `service`.
--
-- A byte is a number below 256, and an `int` that the code keeps nonnegative is a number; where the
-- code narrows a value to a byte the remainder is written out. The methods of a class run under its
-- mutex, so each is one step from a state to a state, but for the wait of Decrypt, whose steps are
-- those of Descrambler/Cancel.antt. A lookup that the code makes in another component is an
-- argument: Analyze takes GetCAIDFromPid.
--
-- Bounds and fuel: the loop over the sections of a packet takes as many rounds as the packet has
-- bytes left, and each round takes three bytes or more. The outer loop of Init_Parity takes as many
-- rounds as there are pids and one more, since each round but the last deletes a pid. The wait for
-- a control word takes 51 rounds at most, the first number of sleeps above imaxSleep. All other
-- loops are recursions on a list or on the number of bytes.
--
-- Where C++ leaves a run undefined (a byte behind the buffer, an `int` that overflows), `process`
-- and the setters of the keys return `none`.
--
-- Not modelled: the devices of VDR; the key structs of the build with libdvbcsa; the cipher of
-- FFdecsa and cscrypt, which are copies of libraries of other projects; VDR, OpenSSL and the
-- operating system; logging, translation, and the start and stop of the plugin.
pub mod Prelude
pub mod Filter
pub mod Frame
pub mod Capmt
pub mod Slot
pub mod CiAdapter
pub mod Socket
pub mod Descrambler
pub mod Plugin
