-- ===== src/InputStrings/Names/Second.antt =====
-- stmm-input-btkb/src/inputstrings.cc: lines 183 to 327.
use Prim.Native.String.{String}
use stmm_input_bt.Base.{List, [], ◌∷◌}

abbrev pub second_added_keys : List (String × String)
second_added_keys =
    ("SLEEP", "SLEEP")
    ∷ ("WAKEUP", "WAKEUP")
    ∷ ("FILE", "FILE")
    ∷ ("SENDFILE", "SENDFILE")
    ∷ ("DELETEFILE", "DELETEFILE")
    ∷ ("XFER", "XFER")
    ∷ ("PROG1", "PROG1")
    ∷ ("PROG2", "PROG2")
    ∷ ("WWW", "WWW")
    ∷ ("MSDOS", "MSDOS")
    ∷ ("SCREENLOCK", "SCREENLOCK")
    ∷ ("DIRECTION", "DIRECTION")
    ∷ ("CYCLEWINDOWS", "CYCLEWINDOWS")
    ∷ ("MAIL", "MAIL")
    ∷ ("BOOKMARKS", "BOOKMARKS")
    ∷ ("COMPUTER", "COMPUTER")
    ∷ ("BACK", "BACK")
    ∷ ("FORWARD", "FORWARD")
    ∷ ("CLOSECD", "CLOSECD")
    ∷ ("EJECTCD", "EJECTCD")
    ∷ ("EJECTCLOSECD", "EJECTCLOSECD")
    ∷ ("NEXTSONG", "NEXTSONG")
    ∷ ("PLAYPAUSE", "PLAYPAUSE")
    ∷ ("PREVIOUSSONG", "PREVIOUSSONG")
    ∷ ("STOPCD", "STOPCD")
    ∷ ("RECORD", "RECORD")
    ∷ ("REWIND", "REWIND")
    ∷ ("PHONE", "PHONE")
    ∷ ("ISO", "ISO")
    ∷ ("CONFIG", "CONFIG")
    ∷ ("HOMEPAGE", "HOMEPAGE")
    ∷ ("REFRESH", "REFRESH")
    ∷ ("EXIT", "EXIT")
    ∷ ("MOVE", "MOVE")
    ∷ ("EDIT", "EDIT")
    ∷ ("SCROLLUP", "SCROLLUP")
    ∷ ("SCROLLDOWN", "SCROLLDOWN")
    ∷ ("KPLEFTPAREN", "KPLEFTPAREN")
    ∷ ("KPRIGHTPAREN", "KPRIGHTPAREN")
    ∷ ("NEW", "NEW")
    ∷ ("REDO", "REDO")
    ∷ ("F13", "F13")
    ∷ ("F14", "F14")
    ∷ ("F15", "F15")
    ∷ ("F16", "F16")
    ∷ ("F17", "F17")
    ∷ ("F18", "F18")
    ∷ ("F19", "F19")
    ∷ ("F20", "F20")
    ∷ ("F21", "F21")
    ∷ ("F22", "F22")
    ∷ ("F23", "F23")
    ∷ ("F24", "F24")
    ∷ ("PLAYCD", "PLAYCD")
    ∷ ("PAUSECD", "PAUSECD")
    ∷ ("PROG3", "PROG3")
    ∷ ("PROG4", "PROG4")
    ∷ ("DASHBOARD", "DASHBOARD")
    ∷ ("SUSPEND", "SUSPEND")
    ∷ ("CLOSE", "CLOSE")
    ∷ ("PLAY", "PLAY")
    ∷ ("FASTFORWARD", "FASTFORWARD")
    ∷ ("BASSBOOST", "BASSBOOST")
    ∷ ("PRINT", "PRINT")
    ∷ ("HP", "HP")
    ∷ ("CAMERA", "CAMERA")
    ∷ ("SOUND", "SOUND")
    ∷ ("QUESTION", "QUESTION")
    ∷ ("EMAIL", "EMAIL")
    ∷ ("CHAT", "CHAT")
    ∷ ("SEARCH", "SEARCH")
    ∷ ("CONNECT", "CONNECT")
    ∷ ("FINANCE", "FINANCE")
    ∷ ("SPORT", "SPORT")
    ∷ ("SHOP", "SHOP")
    ∷ ("ALTERASE", "ALTERASE")
    ∷ ("CANCEL", "CANCEL")
    ∷ ("BRIGHTNESSDOWN", "BRIGHTNESSDOWN")
    ∷ ("BRIGHTNESSUP", "BRIGHTNESSUP")
    ∷ ("MEDIA", "MEDIA")
    ∷ ("SWITCHVIDEOMODE", "SWITCHVIDEOMODE")
    ∷ ("KBDILLUMTOGGLE", "KBDILLUMTOGGLE")
    ∷ ("KBDILLUMDOWN", "KBDILLUMDOWN")
    ∷ ("KBDILLUMUP", "KBDILLUMUP")
    ∷ ("SEND", "SEND")
    ∷ ("REPLY", "REPLY")
    ∷ ("FORWARDMAIL", "FORWARDMAIL")
    ∷ ("SAVE", "SAVE")
    ∷ ("DOCUMENTS", "DOCUMENTS")
    ∷ ("BATTERY", "BATTERY")
    ∷ ("BLUETOOTH", "BLUETOOTH")
    ∷ ("WLAN", "WLAN")
    ∷ ("UWB", "UWB")
    ∷ ("UNKNOWN", "UNKNOWN")
    ∷ ("VIDEO_NEXT", "VIDEO_NEXT")
    ∷ ("VIDEO_PREV", "VIDEO_PREV")
    ∷ ("BRIGHTNESS_CYCLE", "BRIGHTNESS_CYCLE")
    ∷ ("BRIGHTNESS_ZERO", "BRIGHTNESS_ZERO")
    ∷ ("DISPLAY_OFF", "DISPLAY_OFF")
    ∷ ("WIMAX", "WIMAX")
    ∷ ("RFKILL", "RFKILL")
    ∷ ("MICMUTE", "MICMUTE")
    ∷ ("BTN_0", "BTN_0")
    ∷ ("BTN_1", "BTN_1")
    ∷ ("BTN_2", "BTN_2")
    ∷ ("BTN_3", "BTN_3")
    ∷ ("BTN_4", "BTN_4")
    ∷ ("BTN_5", "BTN_5")
    ∷ ("BTN_6", "BTN_6")
    ∷ ("BTN_7", "BTN_7")
    ∷ ("BTN_8", "BTN_8")
    ∷ ("BTN_9", "BTN_9")
    ∷ ("BTN_LEFT", "BTN_LEFT")
    ∷ ("BTN_RIGHT", "BTN_RIGHT")
    ∷ ("BTN_MIDDLE", "BTN_MIDDLE")
    ∷ ("BTN_SIDE", "BTN_SIDE")
    ∷ ("BTN_EXTRA", "BTN_EXTRA")
    ∷ ("BTN_FORWARD", "BTN_FORWARD")
    ∷ ("BTN_BACK", "BTN_BACK")
    ∷ ("BTN_TASK", "BTN_TASK")
    ∷ ("BTN_TRIGGER", "BTN_TRIGGER")
    ∷ ("BTN_THUMB", "BTN_THUMB")
    ∷ ("BTN_THUMB2", "BTN_THUMB2")
    ∷ ("BTN_TOP", "BTN_TOP")
    ∷ ("BTN_TOP2", "BTN_TOP2")
    ∷ ("BTN_PINKIE", "BTN_PINKIE")
    ∷ []
