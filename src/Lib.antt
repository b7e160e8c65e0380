-- ===== src/Lib.antt =====
-- stmm-input-bt: a keyboard program sends key events over Bluetooth to programs that use a library.
--
-- The program's parts. `stmm-input-btkb` is the client: a window with a keyboard, whose key presses
-- go through `BtKeyClient` as packets to the server. `libstmm-input-gtk-bt` is the server library:
-- `BlueServerReceiveSource` reads the packets of a client, `GtkBackend` gives the clients their ids and
-- tells the device manager what happened, which sends key events to the listeners of the window that is
-- selected.
--
-- Files, and the code that they model:
--   Base: tests on numbers, lists, signed integers, and computations that may stop the program.
--   CircularBuffer (stmm-input-btkb/src/circularbuffer.h): CircularBuffer; Window and Refine compare it
--     with a list.
--   KeyPacket (stmm-input-btkb/src/keypacket.h, libstmm-input-gtk-bt/src/keypacket.h): the packet and its
--     bytes. BdAddr: Bluetooth addresses.
--   KeyClient (stmm-input-btkb/src/btkeyclient.cc, btkeyclient.h, btclientsources.cc): State has the
--     members, Packets the packet loop, Connect connectToServer, doPendingConnect and
--     disconnectFromServer, Send sendKeyToServer, sendRemoveToServer, sendPacketsFromBufferedKeys,
--     doPendingSend and doIntervalTimeout; Drain, Batch, Invariant, SendSafety, Stops,
--     Delivery and Pending have the proofs. Steps has the events that a client meets, OnWire what it
--     sends over all of them, Signals how it signals its changes of state.
--   ReceiveSource (libstmm-input-gtk-bt/src/bluetoothsources.cc): BlueServerReceiveSource's dispatch;
--     RoundTrip goes from the client's keys to the server's slot.
--   AcceptSource (libstmm-input-gtk-bt/src/bluetoothsources.cc, btgtkbackend.cc): the listening socket and
--     initServer; Sockets has the theorems.
--   Backend (libstmm-input-gtk-bt/src/btgtkbackend.cc): getBackendId, doServerAcceptClient and
--     doServerReceive; Ids and Slots have lemmas, Accept and Receive the theorems.
--   DeviceManager (libstmm-input-gtk-bt/src/btgtkdevicemanager.cc, btgtkkeysdevice.cc, btgtkwindowdata.h,
--     btgtklistenerextradata.h): State has the members, Keys what a device does with a key, Devices
--     the manager's devices and Accessors its windows. Views says what a listener has heard of a key;
--     Cancel, Leave, Deselect and Remove follow the canceling, Hear, Press and OnKey a key.
--   Server: the backend with the device manager as its owner. Backend/Link says what the backend promises
--     to an owner and asks of it, Backend/Accept and Receive that it does, DeviceManager/Alike, Slots,
--     Sound and Owner what the manager keeps, and Server/Linked puts them together for sequences of
--     events.
--   KeyServers (stmm-input-btkb/src/btkeyservers.cc): the list of servers, its refresh and the checks of
--     addresses and ports; Addresses and Refresh have the theorems.
--   Screens (stmm-input-btkb/src/keyscreen.cc, weightscreen.cc, addrscreen.cc, btkbwindow.cc): Key, Weight and
--     Staging have the handlers of the screens and the choice of the server, Buttons those of the window's
--     buttons; KeyLaws, WeightLaws, StagingLaws, Showing and ButtonsLaws have the theorems.
--   CommandLine (stmm-input-btkb/src/main.cc): the options of the program; Bounds and RoundTrip have the
--     theorems.
--   Util (stmm-input-btkb/src/util.cc): the texts of vectors of numbers; Bounds, RoundTrip and
--     Truncation.
--   InputStrings (stmm-input-btkb/src/inputstrings.cc, inputstrings.h, hardwarekey.h): the names of the
--     keys; Codes and Names have the tables, RoundTrip the theorems.
--   PressedKeys (stmm-input-btkb/src/btkbwindow.cc): pressKey, releaseKey and finalizeKeys; Laws,
--     Counts and Balance have the proofs.
--   Grid (stmm-input-btkb/src/btkbwindow.cc): the grid of keys. State has the members and the rows of the
--     lists, Edit the handlers of the user's edits, Config the settings, which are stored and loaded;
--     Cells, Wellformed, Resize, EditCell, Load and RoundTrip have the proofs.
--   KeyboardScreen (stmm-input-btkb/src/keyboardscreen.cc): Cells has the places of the cells and the key at
--     a point, Events the handlers of the events; Places, Search, HitTest, Balance and Stopped have the
--     proofs.
--
-- Conventions. A method is a function from the state before to the state after. A failed assertion, a
-- null dereference and an access out of range are `none`. The results of system calls are arguments.
-- The packet loop runs on fuel, the number of buffered keys, which is enough since each round takes one
-- key; the loops of Util run on fuel that the theorems show to be enough. The byte order of a machine is
-- a parameter, and `btohl` of the bluetooth headers one with the hypothesis that it reads little-endian
-- numbers; what `istringstream` reads and `std::to_string` writes are parameters too, as are `str2ba`
-- and `ba2str`, the product of floating point numbers that is the size of a cell, the numbers that
-- `strtod` reads, and the library's `resetExtraDataOfAllListeners`. Times and indices are natural
-- numbers; where the options of the command line let a product of type `int32_t` overflow, which is
-- undefined, the result is `none`.
--
-- Not modelled: the size of the window in the settings, the progress of a refresh, and the log's lines
-- of the client's errors; GTK widgets and drawing, the GLib main loop and its sources' polling, which are
-- calls of libraries.
pub mod AcceptSource
pub mod Backend
pub mod Base
pub mod BdAddr
pub mod CircularBuffer
pub mod CommandLine
pub mod DeviceManager
pub mod Grid
pub mod InputStrings
pub mod KeyClient
pub mod KeyPacket
pub mod KeyServers
pub mod KeyboardScreen
pub mod PressedKeys
pub mod ReceiveSource
pub mod Screens
pub mod Server
pub mod Util
