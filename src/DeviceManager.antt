-- ===== src/DeviceManager.antt =====
-- libstmm-input-gtk-bt/src/btgtkdevicemanager.cc, btgtkkeysdevice.cc and btgtkwindowdata.h: the
-- server's devices, the windows that their keys go to, and the listeners that hear of them. A callback
-- of a listener gets the manager and gives it back, so it may call it; a call that stops the program,
-- at an assertion or a null pointer, is `none`.
-- A callback that removes the very device whose keys are being sent stops the model, while the source goes
-- on with the device that it still points to.
pub mod State
pub mod Keys
pub mod Devices
pub mod Accessors
pub mod Views
pub mod Cancel
pub mod Leave
pub mod Hear
pub mod Press
pub mod OnKey
pub mod Deselect
pub mod Remove
pub mod Alike
pub mod Slots
pub mod Sound
pub mod Owner
pub mod Tests
