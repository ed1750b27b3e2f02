-- ===== src/Lib.antt =====
-- The driver of inferno_driver/ is a virtual audio device. The engine's samples go through
-- CSaveData::WriteData into a buffer of frames, whose full frames a work item appends to a wave
-- file, and from there to a ring in shared memory that a program in user space reads. A capture
-- stream gets its samples from ToneGenerator. The registers of the mixer are in CSYSVADHW, behind
-- CAdapterCommon.
--
-- Parts and files:
--
-- * Prelude holds lists, bytes, 32-bit words and tests on native numbers. Status is NTSTATUS with
--   NT_SUCCESS. Kernel is the record of the services that savedata.cpp calls, as functions on a world
--   outside the driver, and IsReliable is what they are documented to do on a volume that takes every
--   request.
-- * Shm is inferno_driver/shm.cpp: init, write and cleanup are InfernoShmInit, InfernoShmWrite and
--   InfernoShmCleanup on the globals. Loops and Chunks are about its loops, Ring about the reader's
--   side, Life about the mapping. The view is memory that the kernel gives, a parameter.
-- * SaveData is inferno_driver/savedata.cpp. State has the members of CSaveData, where offsets stand
--   for pointers into the buffer. Frames has write_data (WriteData), save_frame (SaveFrame) and
--   get_new_work_item (GetNewWorkItem). Files has file_open, file_close, file_write,
--   file_write_header and save_frame_worker (SaveFrameWorkerCallback), and flush, the first part of
--   WaitAllWorkItems. Setup has create_data_file and initialize (Initialize), set_data_format,
--   set_max_write_size, initialize_work_items, destroy_work_items and destroy (the destructor).
--   Serve is the system's run of a queued item, and Playback a stream of writes with such runs.
--   Cases, Stream, Framing and Items are about WriteData; Recording, Headers, Wave, Session, Closing
--   and Resize about the file and the calls of the stream's owner, and Lifetime about a whole stream.
-- * Hw is inferno_driver/hw.cpp, with the accessors of inferno_driver/common.cpp that reach it;
--   Hw/Recall has sequences of accesses.
-- * Objects has the reference counts and the comparison of names that the parts of
--   inferno_driver/common.cpp share.
-- * Sideband is the sideband devices of CAdapterCommon in inferno_driver/common.cpp. The functions for
--   Bluetooth HFP, USB and A2DP headsets are one text with other names; Sideband has them once, and
--   Sideband/Kinds has each of them on the members of its kind. Calls has sequences of notifications
--   and rounds of the work item, References is about the counts, Drain about the work item and the
--   clean-up, Places, Order and Endings about the order of Start and Stop.
-- * Headset is the streams of the sideband devices, inferno_driver/UsbHsDevice.cpp, A2dpHpDevice.cpp
--   and BthhfpDevice.cpp: stream_open, stream_close, stream_start and stream_suspend for one
--   direction, which Kinds puts together for each class. What the device answers is an argument, and
--   what it was told is a list. Gate is the interface of a count of users, Counts and Users fill it
--   for open and for started streams, Restart is about a failure of the A2DP class. Formats is
--   VerifyEndpointFormatCompatibility. Notices is the notifications of volume and mute of the USB
--   class, and Updates is about its work item. Alternation has the lists that Gate and Endpoints
--   compare with.
-- * Remote is the requests of the three classes to the driver below them. Io has the adapter, whose
--   counts also stand for blocks of memory and objects of the framework, and the accesses to buffers
--   with their sizes. fetch is the text that GetUsbHsDescriptor and its siblings share, a request for
--   a size and one for the bytes; get_values_into is that for property values. Remote/Pairs is the
--   pair of miniports that a class makes for a device, and Remote/Levels the memory of the
--   requests for the volume and the mute.
--   Categories is about the pins of a pair, Owned and OwnedPairs about what is freed, Inside about the
--   sizes.
-- * Usb is the life of a UsbHsDevice: start_side is Start for the speaker or the microphone, Usb/Start
--   the whole of it, Usb/Ends has init (Init) and stop (Stop), and Usb/Destroy the destructor. Owned
--   and the modules named after it are about what the members hold in each stage, Life about Init,
--   Start, Stop and the destructor in turn, Leaks about a device with two speakers. Usb/Resources has
--   GetTransportResources, FreeTransportResources and SetTransportResources. Usb/Controls has GetVolume,
--   SetVolume, GetMute and SetMute with what their requests say, for a driver below that is an argument;
--   Calls is about the volume that this driver keeps, Recall about a SetVolume and a later GetVolume.
--   Samples is data for runs.
-- * A2dp is the life of an A2dpHpDevice, of the steps of Usb where the text is the same: a2dp_start is Start, and A2dp/Ends has a2dp_init, a2dp_stop, a2dp_destroy, and configure_codec for
--   a notification that the codec was configured (GetA2dpHpCodecCaps and UpdateA2dpHpCodecCaps). Owned
--   and the modules named after it are about what the members hold, Unused about a member that no step
--   sets, and Life about all of them in turn.
-- * Bth is the life of a BthHfpDevice, with bth_start (Start), bth_init, bth_stop and bth_destroy. Owned
--   and OwnedStart are about what its members hold, Life about all of them in turn.
-- * Connections is ConnectTopologies and DisconnectTopologies, with the connections that are
--   registered as a list; Undo is about that list, Statuses about what is returned.
-- * Endpoints has install_subdevice (InstallSubdevice, for a caller that asks for the IUnknown of the
--   port and of the miniport, as both of its callers do) and unregister_subdevice. Endpoints/Install
--   has install_endpoint_filters and remove_endpoint_filters, Endpoints/Idle has get_filters and
--   set_idle_power_management. What the kernel and the objects answer is an argument. References is
--   about the counts, Outcomes about what is returned, Requests about idle requests.
-- * Power has power_change_state, query_power_change_state and notify_endpoint_pair, States is about
--   the first two. Power/Relations has AddDeviceAsPowerDependency, RemoveDeviceAsPowerDependency and
--   UpdatePowerRelations, where the request that the PnP manager sends carries its relations.
-- * Properties is inferno_driver/kshelper.cpp with the macros of inferno_driver/sysvad.h: the checks of
--   sizes and the handlers of basic support, and in Properties/Requests those of volume, mute and peak
--   meter over the registers of Hw, with SysvadPropertyDispatch. Levels, Support and Guards are about
--   the levels, the sizes of replies and the dispatch. The sizes of the kernel's structures and its
--   constants are arguments.
-- * Topology is the property requests of inferno_driver/basetopo.cpp, by the handlers of Properties and
--   two of its own; ReadOnly is about the registers.
-- * Adapter has cleanup_adapter (Cleanup), which calls Sideband, Shm and Subdevices; Helpers has
--   SetEtwHelper and SetWaveServiceGroup.
-- * Subdevices is the cache of subdevices of inferno_driver/common.cpp: get_cached_subdevice,
--   cache_subdevice, remove_cached_subdevice and empty_subdevice_cache, on a list and on the reference
--   counts of all objects. What QueryInterface finds is an argument. References is about the counts,
--   Lookup about the names.
-- * Tone is inferno_driver/ToneGenerator.cpp. The arithmetic of doubles is a parameter. A
--   store past the end of a memory makes it longer there. Frames is about a new frame, Buffers about
--   GenerateSine, Setup about Init.
--
-- WriteData calls Shm.write. Endpoints works on the cache of Subdevices and on the connections. Usb,
-- A2dp and Bth make their requests by Remote and install their filters by Endpoints. Power walks the
-- cache, Properties and Topology reach the registers, and Adapter takes down what the others set up.
--
-- Numbers are natural numbers; a ULONG wraps at 2 ^ 32 in each of its operations. Every function is a
-- structural recursion, on a list or on the number of rounds that a loop has left, so none has fuel.
--
-- Not modelled: that threads run at once. The spin lock and the mutex have no state of their own, a
-- work item runs between two calls, and a wait for one is a turn of the system. Memory is had or not,
-- by the kernel's answer; a block is the number of its uses, so that one that is freed too often is not
-- seen, nor the tag that it is freed with. The names of files are the numbers that are printed into them. The rest of the miniports, the
-- notifications of the Bluetooth classes, the registry, the driver's tables of descriptors, and the
-- programs in other languages are not modelled.
pub mod Prelude
pub mod Status
pub mod Remote
pub mod Shm
pub mod Kernel
pub mod SaveData
pub mod Hw
pub mod Tone
pub mod Topology
pub mod Usb
pub mod A2dp
pub mod Bth
pub mod Objects
pub mod Subdevices
pub mod Sideband
pub mod Properties
pub mod Headset
pub mod Alternation
pub mod Adapter
pub mod Power
pub mod Endpoints
pub mod Connections
