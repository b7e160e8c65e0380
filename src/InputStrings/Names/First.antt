-- ===== src/InputStrings/Names/First.antt =====
-- stmm-input-btkb/src/inputstrings.cc: lines 38 to 182.
use Prim.Native.String.{String}
use stmm_input_bt.Base.{List, [], ◌∷◌}

abbrev pub first_added_keys : List (String × String)
first_added_keys =
    ("NULL", "NULL")
    ∷ ("ESC", "ESC")
    ∷ ("1", "1")
    ∷ ("2", "2")
    ∷ ("3", "3")
    ∷ ("4", "4")
    ∷ ("5", "5")
    ∷ ("6", "6")
    ∷ ("7", "7")
    ∷ ("8", "8")
    ∷ ("9", "9")
    ∷ ("0", "0")
    ∷ ("MINUS", "MINUS")
    ∷ ("EQUAL", "EQUAL")
    ∷ ("BACKSPACE", "BACKSPACE")
    ∷ ("TAB", "TAB")
    ∷ ("Q", "Q")
    ∷ ("W", "W")
    ∷ ("E", "E")
    ∷ ("R", "R")
    ∷ ("T", "T")
    ∷ ("Y", "Y")
    ∷ ("U", "U")
    ∷ ("I", "I")
    ∷ ("O", "O")
    ∷ ("P", "P")
    ∷ ("LEFTBRACE", "LEFTBRACE")
    ∷ ("RIGHTBRACE", "RIGHTBRACE")
    ∷ ("ENTER", "ENTER")
    ∷ ("LEFTCTRL", "LEFTCTRL")
    ∷ ("A", "A")
    ∷ ("S", "S")
    ∷ ("D", "D")
    ∷ ("F", "F")
    ∷ ("G", "G")
    ∷ ("H", "H")
    ∷ ("J", "J")
    ∷ ("K", "K")
    ∷ ("L", "L")
    ∷ ("SEMICOLON", "SEMICOLON")
    ∷ ("APOSTROPHE", "APOSTROPHE")
    ∷ ("GRAVE", "GRAVE")
    ∷ ("LEFTSHIFT", "LEFTSHIFT")
    ∷ ("BACKSLASH", "BACKSLASH")
    ∷ ("Z", "Z")
    ∷ ("X", "X")
    ∷ ("C", "C")
    ∷ ("V", "V")
    ∷ ("B", "B")
    ∷ ("N", "N")
    ∷ ("M", "M")
    ∷ ("COMMA", "COMMA")
    ∷ ("DOT", "DOT")
    ∷ ("SLASH", "SLASH")
    ∷ ("RIGHTSHIFT", "RIGHTSHIFT")
    ∷ ("KPASTERISK", "KPASTERISK")
    ∷ ("LEFTALT", "LEFTALT")
    ∷ ("SPACE", "SPACE")
    ∷ ("CAPSLOCK", "CAPSLOCK")
    ∷ ("F1", "F1")
    ∷ ("F2", "F2")
    ∷ ("F3", "F3")
    ∷ ("F4", "F4")
    ∷ ("F5", "F5")
    ∷ ("F6", "F6")
    ∷ ("F7", "F7")
    ∷ ("F8", "F8")
    ∷ ("F9", "F9")
    ∷ ("F10", "F10")
    ∷ ("NUMLOCK", "NUMLOCK")
    ∷ ("SCROLLLOCK", "SCROLLLOCK")
    ∷ ("KP7", "KP7")
    ∷ ("KP8", "KP8")
    ∷ ("KP9", "KP9")
    ∷ ("KPMINUS", "KPMINUS")
    ∷ ("KP4", "KP4")
    ∷ ("KP5", "KP5")
    ∷ ("KP6", "KP6")
    ∷ ("KPPLUS", "KPPLUS")
    ∷ ("KP1", "KP1")
    ∷ ("KP2", "KP2")
    ∷ ("KP3", "KP3")
    ∷ ("KP0", "KP0")
    ∷ ("KPDOT", "KPDOT")
    ∷ ("ZENKAKUHANKAKU", "ZENKAKUHANKAKU")
    ∷ ("102ND", "102ND")
    ∷ ("F11", "F11")
    ∷ ("F12", "F12")
    ∷ ("RO", "RO")
    ∷ ("KATAKANA", "KATAKANA")
    ∷ ("HIRAGANA", "HIRAGANA")
    ∷ ("HENKAN", "HENKAN")
    ∷ ("KATAKANAHIRAGANA", "KATAKANAHIRAGANA")
    ∷ ("MUHENKAN", "MUHENKAN")
    ∷ ("KPJPCOMMA", "KPJPCOMMA")
    ∷ ("KPENTER", "KPENTER")
    ∷ ("RIGHTCTRL", "RIGHTCTRL")
    ∷ ("KPSLASH", "KPSLASH")
    ∷ ("SYSRQ", "SYSRQ")
    ∷ ("RIGHTALT", "RIGHTALT")
    ∷ ("LINEFEED", "LINEFEED")
    ∷ ("HOME", "HOME")
    ∷ ("UP", "UP")
    ∷ ("PAGEUP", "PAGEUP")
    ∷ ("LEFT", "LEFT")
    ∷ ("RIGHT", "RIGHT")
    ∷ ("END", "END")
    ∷ ("DOWN", "DOWN")
    ∷ ("PAGEDOWN", "PAGEDOWN")
    ∷ ("INSERT", "INSERT")
    ∷ ("DELETE", "DELETE")
    ∷ ("MACRO", "MACRO")
    ∷ ("MUTE", "MUTE")
    ∷ ("VOLUMEDOWN", "VOLUMEDOWN")
    ∷ ("VOLUMEUP", "VOLUMEUP")
    ∷ ("POWER", "POWER")
    ∷ ("KPEQUAL", "KPEQUAL")
    ∷ ("KPPLUSMINUS", "KPPLUSMINUS")
    ∷ ("PAUSE", "PAUSE")
    ∷ ("SCALE", "SCALE")
    ∷ ("KPCOMMA", "KPCOMMA")
    ∷ ("HANGEUL", "HANGEUL")
    ∷ ("HANJA", "HANJA")
    ∷ ("YEN", "YEN")
    ∷ ("LEFTMETA", "LEFTMETA")
    ∷ ("RIGHTMETA", "RIGHTMETA")
    ∷ ("COMPOSE", "COMPOSE")
    ∷ ("STOP", "STOP")
    ∷ ("AGAIN", "AGAIN")
    ∷ ("PROPS", "PROPS")
    ∷ ("UNDO", "UNDO")
    ∷ ("FRONT", "FRONT")
    ∷ ("COPY", "COPY")
    ∷ ("OPEN", "OPEN")
    ∷ ("PASTE", "PASTE")
    ∷ ("FIND", "FIND")
    ∷ ("CUT", "CUT")
    ∷ ("HELP", "HELP")
    ∷ ("MENU", "MENU")
    ∷ ("CALC", "CALC")
    ∷ ("SETUP", "SETUP")
    ∷ []
