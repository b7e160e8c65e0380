-- ===== src/InputStrings/Names/Fourth.antt =====
-- stmm-input-btkb/src/inputstrings.cc: lines 473 to 611.
use Prim.Native.String.{String}
use stmm_input_bt.Base.{List, [], ◌∷◌}

abbrev pub fourth_added_keys : List (String × String)
fourth_added_keys =
    ("DEL_EOL", "DEL_EOL")
    ∷ ("DEL_EOS", "DEL_EOS")
    ∷ ("INS_LINE", "INS_LINE")
    ∷ ("DEL_LINE", "DEL_LINE")
    ∷ ("FN", "FN")
    ∷ ("FN_ESC", "FN_ESC")
    ∷ ("FN_F1", "FN_F1")
    ∷ ("FN_F2", "FN_F2")
    ∷ ("FN_F3", "FN_F3")
    ∷ ("FN_F4", "FN_F4")
    ∷ ("FN_F5", "FN_F5")
    ∷ ("FN_F6", "FN_F6")
    ∷ ("FN_F7", "FN_F7")
    ∷ ("FN_F8", "FN_F8")
    ∷ ("FN_F9", "FN_F9")
    ∷ ("FN_F10", "FN_F10")
    ∷ ("FN_F11", "FN_F11")
    ∷ ("FN_F12", "FN_F12")
    ∷ ("FN_1", "FN_1")
    ∷ ("FN_2", "FN_2")
    ∷ ("FN_D", "FN_D")
    ∷ ("FN_E", "FN_E")
    ∷ ("FN_F", "FN_F")
    ∷ ("FN_S", "FN_S")
    ∷ ("FN_B", "FN_B")
    ∷ ("BRL_DOT1", "BRL_DOT1")
    ∷ ("BRL_DOT2", "BRL_DOT2")
    ∷ ("BRL_DOT3", "BRL_DOT3")
    ∷ ("BRL_DOT4", "BRL_DOT4")
    ∷ ("BRL_DOT5", "BRL_DOT5")
    ∷ ("BRL_DOT6", "BRL_DOT6")
    ∷ ("BRL_DOT7", "BRL_DOT7")
    ∷ ("BRL_DOT8", "BRL_DOT8")
    ∷ ("BRL_DOT9", "BRL_DOT9")
    ∷ ("BRL_DOT10", "BRL_DOT10")
    ∷ ("NUMERIC_0", "NUMERIC_0")
    ∷ ("NUMERIC_1", "NUMERIC_1")
    ∷ ("NUMERIC_2", "NUMERIC_2")
    ∷ ("NUMERIC_3", "NUMERIC_3")
    ∷ ("NUMERIC_4", "NUMERIC_4")
    ∷ ("NUMERIC_5", "NUMERIC_5")
    ∷ ("NUMERIC_6", "NUMERIC_6")
    ∷ ("NUMERIC_7", "NUMERIC_7")
    ∷ ("NUMERIC_8", "NUMERIC_8")
    ∷ ("NUMERIC_9", "NUMERIC_9")
    ∷ ("NUMERIC_STAR", "NUMERIC_STAR")
    ∷ ("NUMERIC_POUND", "NUMERIC_POUND")
    ∷ ("CAMERA_FOCUS", "CAMERA_FOCUS")
    ∷ ("WPS_BUTTON", "WPS_BUTTON")
    ∷ ("TOUCHPAD_TOGGLE", "TOUCHPAD_TOGGLE")
    ∷ ("TOUCHPAD_ON", "TOUCHPAD_ON")
    ∷ ("TOUCHPAD_OFF", "TOUCHPAD_OFF")
    ∷ ("CAMERA_ZOOMIN", "CAMERA_ZOOMIN")
    ∷ ("CAMERA_ZOOMOUT", "CAMERA_ZOOMOUT")
    ∷ ("CAMERA_UP", "CAMERA_UP")
    ∷ ("CAMERA_DOWN", "CAMERA_DOWN")
    ∷ ("CAMERA_LEFT", "CAMERA_LEFT")
    ∷ ("CAMERA_RIGHT", "CAMERA_RIGHT")
    ∷ ("ATTENDANT_ON", "ATTENDANT_ON")
    ∷ ("ATTENDANT_OFF", "ATTENDANT_OFF")
    ∷ ("ATTENDANT_TOGGLE", "ATTENDANT_TOGGLE")
    ∷ ("LIGHTS_TOGGLE", "LIGHTS_TOGGLE")
    ∷ ("BTN_DPAD_UP", "BTN_DPAD_UP")
    ∷ ("BTN_DPAD_DOWN", "BTN_DPAD_DOWN")
    ∷ ("BTN_DPAD_LEFT", "BTN_DPAD_LEFT")
    ∷ ("BTN_DPAD_RIGHT", "BTN_DPAD_RIGHT")
    ∷ ("ALS_TOGGLE", "ALS_TOGGLE")
    ∷ ("BUTTONCONFIG", "BUTTONCONFIG")
    ∷ ("TASKMANAGER", "TASKMANAGER")
    ∷ ("JOURNAL", "JOURNAL")
    ∷ ("CONTROLPANEL", "CONTROLPANEL")
    ∷ ("APPSELECT", "APPSELECT")
    ∷ ("SCREENSAVER", "SCREENSAVER")
    ∷ ("VOICECOMMAND", "VOICECOMMAND")
    ∷ ("BRIGHTNESS_MIN", "BRIGHTNESS_MIN")
    ∷ ("BRIGHTNESS_MAX", "BRIGHTNESS_MAX")
    ∷ ("KBDINPUTASSIST_PREV", "KBDINPUTASSIST_PREV")
    ∷ ("KBDINPUTASSIST_NEXT", "KBDINPUTASSIST_NEXT")
    ∷ ("KBDINPUTASSIST_PREVGROUP", "KBDINPUTASSIST_PREVGROUP")
    ∷ ("KBDINPUTASSIST_NEXTGROUP", "KBDINPUTASSIST_NEXTGROUP")
    ∷ ("KBDINPUTASSIST_ACCEPT", "KBDINPUTASSIST_ACCEPT")
    ∷ ("KBDINPUTASSIST_CANCEL", "KBDINPUTASSIST_CANCEL")
    ∷ ("BTN_TRIGGER_HAPPY1", "BTN_TRIGGER_HAPPY1")
    ∷ ("BTN_TRIGGER_HAPPY2", "BTN_TRIGGER_HAPPY2")
    ∷ ("BTN_TRIGGER_HAPPY3", "BTN_TRIGGER_HAPPY3")
    ∷ ("BTN_TRIGGER_HAPPY4", "BTN_TRIGGER_HAPPY4")
    ∷ ("BTN_TRIGGER_HAPPY5", "BTN_TRIGGER_HAPPY5")
    ∷ ("BTN_TRIGGER_HAPPY6", "BTN_TRIGGER_HAPPY6")
    ∷ ("BTN_TRIGGER_HAPPY7", "BTN_TRIGGER_HAPPY7")
    ∷ ("BTN_TRIGGER_HAPPY8", "BTN_TRIGGER_HAPPY8")
    ∷ ("BTN_TRIGGER_HAPPY9", "BTN_TRIGGER_HAPPY9")
    ∷ ("BTN_TRIGGER_HAPPY10", "BTN_TRIGGER_HAPPY10")
    ∷ ("BTN_TRIGGER_HAPPY11", "BTN_TRIGGER_HAPPY11")
    ∷ ("BTN_TRIGGER_HAPPY12", "BTN_TRIGGER_HAPPY12")
    ∷ ("BTN_TRIGGER_HAPPY13", "BTN_TRIGGER_HAPPY13")
    ∷ ("BTN_TRIGGER_HAPPY14", "BTN_TRIGGER_HAPPY14")
    ∷ ("BTN_TRIGGER_HAPPY15", "BTN_TRIGGER_HAPPY15")
    ∷ ("BTN_TRIGGER_HAPPY16", "BTN_TRIGGER_HAPPY16")
    ∷ ("BTN_TRIGGER_HAPPY17", "BTN_TRIGGER_HAPPY17")
    ∷ ("BTN_TRIGGER_HAPPY18", "BTN_TRIGGER_HAPPY18")
    ∷ ("BTN_TRIGGER_HAPPY19", "BTN_TRIGGER_HAPPY19")
    ∷ ("BTN_TRIGGER_HAPPY20", "BTN_TRIGGER_HAPPY20")
    ∷ ("BTN_TRIGGER_HAPPY21", "BTN_TRIGGER_HAPPY21")
    ∷ ("BTN_TRIGGER_HAPPY22", "BTN_TRIGGER_HAPPY22")
    ∷ ("BTN_TRIGGER_HAPPY23", "BTN_TRIGGER_HAPPY23")
    ∷ ("BTN_TRIGGER_HAPPY24", "BTN_TRIGGER_HAPPY24")
    ∷ ("BTN_TRIGGER_HAPPY25", "BTN_TRIGGER_HAPPY25")
    ∷ ("BTN_TRIGGER_HAPPY26", "BTN_TRIGGER_HAPPY26")
    ∷ ("BTN_TRIGGER_HAPPY27", "BTN_TRIGGER_HAPPY27")
    ∷ ("BTN_TRIGGER_HAPPY28", "BTN_TRIGGER_HAPPY28")
    ∷ ("BTN_TRIGGER_HAPPY29", "BTN_TRIGGER_HAPPY29")
    ∷ ("BTN_TRIGGER_HAPPY30", "BTN_TRIGGER_HAPPY30")
    ∷ ("BTN_TRIGGER_HAPPY31", "BTN_TRIGGER_HAPPY31")
    ∷ ("BTN_TRIGGER_HAPPY32", "BTN_TRIGGER_HAPPY32")
    ∷ ("BTN_TRIGGER_HAPPY33", "BTN_TRIGGER_HAPPY33")
    ∷ ("BTN_TRIGGER_HAPPY34", "BTN_TRIGGER_HAPPY34")
    ∷ ("BTN_TRIGGER_HAPPY35", "BTN_TRIGGER_HAPPY35")
    ∷ ("BTN_TRIGGER_HAPPY36", "BTN_TRIGGER_HAPPY36")
    ∷ ("BTN_TRIGGER_HAPPY37", "BTN_TRIGGER_HAPPY37")
    ∷ ("BTN_TRIGGER_HAPPY38", "BTN_TRIGGER_HAPPY38")
    ∷ ("BTN_TRIGGER_HAPPY39", "BTN_TRIGGER_HAPPY39")
    ∷ ("BTN_TRIGGER_HAPPY40", "BTN_TRIGGER_HAPPY40")
    ∷ ("X_SCROLL_LEFT", "X_SCROLL_LEFT")
    ∷ ("X_SCROLL_RIGHT", "X_SCROLL_RIGHT")
    ∷ []
