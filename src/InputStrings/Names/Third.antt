-- ===== src/InputStrings/Names/Third.antt =====
-- stmm-input-btkb/src/inputstrings.cc: lines 328 to 471.
use Prim.Native.String.{String}
use stmm_input_bt.Base.{List, [], ◌∷◌}

abbrev pub third_added_keys : List (String × String)
third_added_keys =
    ("BTN_BASE", "BTN_BASE")
    ∷ ("BTN_BASE2", "BTN_BASE2")
    ∷ ("BTN_BASE3", "BTN_BASE3")
    ∷ ("BTN_BASE4", "BTN_BASE4")
    ∷ ("BTN_BASE5", "BTN_BASE5")
    ∷ ("BTN_BASE6", "BTN_BASE6")
    ∷ ("BTN_DEAD", "BTN_DEAD")
    ∷ ("BTN_A", "BTN_A")
    ∷ ("BTN_B", "BTN_B")
    ∷ ("BTN_C", "BTN_C")
    ∷ ("BTN_X", "BTN_X")
    ∷ ("BTN_Y", "BTN_Y")
    ∷ ("BTN_Z", "BTN_Z")
    ∷ ("BTN_TL", "BTN_TL")
    ∷ ("BTN_TR", "BTN_TR")
    ∷ ("BTN_TL2", "BTN_TL2")
    ∷ ("BTN_TR2", "BTN_TR2")
    ∷ ("BTN_SELECT", "BTN_SELECT")
    ∷ ("BTN_START", "BTN_START")
    ∷ ("BTN_MODE", "BTN_MODE")
    ∷ ("BTN_THUMBL", "BTN_THUMBL")
    ∷ ("BTN_THUMBR", "BTN_THUMBR")
    ∷ ("BTN_TOOL_PEN", "BTN_TOOL_PEN")
    ∷ ("BTN_TOOL_RUBBER", "BTN_TOOL_RUBBER")
    ∷ ("BTN_TOOL_BRUSH", "BTN_TOOL_BRUSH")
    ∷ ("BTN_TOOL_PENCIL", "BTN_TOOL_PENCIL")
    ∷ ("BTN_TOOL_AIRBRUSH", "BTN_TOOL_AIRBRUSH")
    ∷ ("BTN_TOOL_FINGER", "BTN_TOOL_FINGER")
    ∷ ("BTN_TOOL_MOUSE", "BTN_TOOL_MOUSE")
    ∷ ("BTN_TOOL_LENS", "BTN_TOOL_LENS")
    ∷ ("BTN_TOOL_QUINTTAP", "BTN_TOOL_QUINTTAP")
    ∷ ("BTN_TOUCH", "BTN_TOUCH")
    ∷ ("BTN_STYLUS", "BTN_STYLUS")
    ∷ ("BTN_STYLUS2", "BTN_STYLUS2")
    ∷ ("BTN_TOOL_DOUBLETAP", "BTN_TOOL_DOUBLETAP")
    ∷ ("BTN_TOOL_TRIPLETAP", "BTN_TOOL_TRIPLETAP")
    ∷ ("BTN_TOOL_QUADTAP", "BTN_TOOL_QUADTAP")
    ∷ ("BTN_GEAR_DOWN", "BTN_GEAR_DOWN")
    ∷ ("BTN_GEAR_UP", "BTN_GEAR_UP")
    ∷ ("OK", "OK")
    ∷ ("SELECT", "SELECT")
    ∷ ("GOTO", "GOTO")
    ∷ ("CLEAR", "CLEAR")
    ∷ ("POWER2", "POWER2")
    ∷ ("OPTION", "OPTION")
    ∷ ("INFO", "INFO")
    ∷ ("TIME", "TIME")
    ∷ ("VENDOR", "VENDOR")
    ∷ ("ARCHIVE", "ARCHIVE")
    ∷ ("PROGRAM", "PROGRAM")
    ∷ ("CHANNEL", "CHANNEL")
    ∷ ("FAVORITES", "FAVORITES")
    ∷ ("EPG", "EPG")
    ∷ ("PVR", "PVR")
    ∷ ("MHP", "MHP")
    ∷ ("LANGUAGE", "LANGUAGE")
    ∷ ("TITLE", "TITLE")
    ∷ ("SUBTITLE", "SUBTITLE")
    ∷ ("ANGLE", "ANGLE")
    ∷ ("ZOOM", "ZOOM")
    ∷ ("MODE", "MODE")
    ∷ ("KEYBOARD", "KEYBOARD")
    ∷ ("SCREEN", "SCREEN")
    ∷ ("PC", "PC")
    ∷ ("TV", "TV")
    ∷ ("TV2", "TV2")
    ∷ ("VCR", "VCR")
    ∷ ("VCR2", "VCR2")
    ∷ ("SAT", "SAT")
    ∷ ("SAT2", "SAT2")
    ∷ ("CD", "CD")
    ∷ ("TAPE", "TAPE")
    ∷ ("RADIO", "RADIO")
    ∷ ("TUNER", "TUNER")
    ∷ ("PLAYER", "PLAYER")
    ∷ ("TEXT", "TEXT")
    ∷ ("DVD", "DVD")
    ∷ ("AUX", "AUX")
    ∷ ("MP3", "MP3")
    ∷ ("AUDIO", "AUDIO")
    ∷ ("VIDEO", "VIDEO")
    ∷ ("DIRECTORY", "DIRECTORY")
    ∷ ("LIST", "LIST")
    ∷ ("MEMO", "MEMO")
    ∷ ("CALENDAR", "CALENDAR")
    ∷ ("RED", "RED")
    ∷ ("GREEN", "GREEN")
    ∷ ("YELLOW", "YELLOW")
    ∷ ("BLUE", "BLUE")
    ∷ ("CHANNELUP", "CHANNELUP")
    ∷ ("CHANNELDOWN", "CHANNELDOWN")
    ∷ ("FIRST", "FIRST")
    ∷ ("LAST", "LAST")
    ∷ ("AB", "AB")
    ∷ ("NEXT", "NEXT")
    ∷ ("RESTART", "RESTART")
    ∷ ("SLOW", "SLOW")
    ∷ ("SHUFFLE", "SHUFFLE")
    ∷ ("BREAK", "BREAK")
    ∷ ("PREVIOUS", "PREVIOUS")
    ∷ ("DIGITS", "DIGITS")
    ∷ ("TEEN", "TEEN")
    ∷ ("TWEN", "TWEN")
    ∷ ("VIDEOPHONE", "VIDEOPHONE")
    ∷ ("GAMES", "GAMES")
    ∷ ("ZOOMIN", "ZOOMIN")
    ∷ ("ZOOMOUT", "ZOOMOUT")
    ∷ ("ZOOMRESET", "ZOOMRESET")
    ∷ ("WORDPROCESSOR", "WORDPROCESSOR")
    ∷ ("EDITOR", "EDITOR")
    ∷ ("SPREADSHEET", "SPREADSHEET")
    ∷ ("GRAPHICSEDITOR", "GRAPHICSEDITOR")
    ∷ ("PRESENTATION", "PRESENTATION")
    ∷ ("DATABASE", "DATABASE")
    ∷ ("NEWS", "NEWS")
    ∷ ("VOICEMAIL", "VOICEMAIL")
    ∷ ("ADDRESSBOOK", "ADDRESSBOOK")
    ∷ ("MESSENGER", "MESSENGER")
    ∷ ("BRIGHTNESS_TOGGLE", "BRIGHTNESS_TOGGLE")
    ∷ ("SPELLCHECK", "SPELLCHECK")
    ∷ ("LOGOFF", "LOGOFF")
    ∷ ("DOLLAR", "DOLLAR")
    ∷ ("EURO", "EURO")
    ∷ ("FRAMEBACK", "FRAMEBACK")
    ∷ ("FRAMEFORWARD", "FRAMEFORWARD")
    ∷ ("CONTEXT_MENU", "CONTEXT_MENU")
    ∷ ("MEDIA_REPEAT", "MEDIA_REPEAT")
    ∷ ("10CHANNELSUP", "10CHANNELSUP")
    ∷ ("10CHANNELSDOWN", "10CHANNELSDOWN")
    ∷ ("IMAGES", "IMAGES")
    ∷ []
