-- ===== src/InputStrings/Codes/Second.antt =====
-- stmm-input-btkb/src/hardwarekey.h: lines 191 to 335.
use Prim.Native.String.{String}
use stmm_input_bt.Base.{ℕ, List, [], ◌∷◌}

abbrev pub second_hardware_keys : List (String × ℕ)
second_hardware_keys =
    ("SLEEP", 142)
    ∷ ("WAKEUP", 143)
    ∷ ("FILE", 144)
    ∷ ("SENDFILE", 145)
    ∷ ("DELETEFILE", 146)
    ∷ ("XFER", 147)
    ∷ ("PROG1", 148)
    ∷ ("PROG2", 149)
    ∷ ("WWW", 150)
    ∷ ("MSDOS", 151)
    ∷ ("SCREENLOCK", 152)
    ∷ ("DIRECTION", 153)
    ∷ ("CYCLEWINDOWS", 154)
    ∷ ("MAIL", 155)
    ∷ ("BOOKMARKS", 156)
    ∷ ("COMPUTER", 157)
    ∷ ("BACK", 158)
    ∷ ("FORWARD", 159)
    ∷ ("CLOSECD", 160)
    ∷ ("EJECTCD", 161)
    ∷ ("EJECTCLOSECD", 162)
    ∷ ("NEXTSONG", 163)
    ∷ ("PLAYPAUSE", 164)
    ∷ ("PREVIOUSSONG", 165)
    ∷ ("STOPCD", 166)
    ∷ ("RECORD", 167)
    ∷ ("REWIND", 168)
    ∷ ("PHONE", 169)
    ∷ ("ISO", 170)
    ∷ ("CONFIG", 171)
    ∷ ("HOMEPAGE", 172)
    ∷ ("REFRESH", 173)
    ∷ ("EXIT", 174)
    ∷ ("MOVE", 175)
    ∷ ("EDIT", 176)
    ∷ ("SCROLLUP", 177)
    ∷ ("SCROLLDOWN", 178)
    ∷ ("KPLEFTPAREN", 179)
    ∷ ("KPRIGHTPAREN", 180)
    ∷ ("NEW", 181)
    ∷ ("REDO", 182)
    ∷ ("F13", 183)
    ∷ ("F14", 184)
    ∷ ("F15", 185)
    ∷ ("F16", 186)
    ∷ ("F17", 187)
    ∷ ("F18", 188)
    ∷ ("F19", 189)
    ∷ ("F20", 190)
    ∷ ("F21", 191)
    ∷ ("F22", 192)
    ∷ ("F23", 193)
    ∷ ("F24", 194)
    ∷ ("PLAYCD", 200)
    ∷ ("PAUSECD", 201)
    ∷ ("PROG3", 202)
    ∷ ("PROG4", 203)
    ∷ ("DASHBOARD", 204)
    ∷ ("SUSPEND", 205)
    ∷ ("CLOSE", 206)
    ∷ ("PLAY", 207)
    ∷ ("FASTFORWARD", 208)
    ∷ ("BASSBOOST", 209)
    ∷ ("PRINT", 210)
    ∷ ("HP", 211)
    ∷ ("CAMERA", 212)
    ∷ ("SOUND", 213)
    ∷ ("QUESTION", 214)
    ∷ ("EMAIL", 215)
    ∷ ("CHAT", 216)
    ∷ ("SEARCH", 217)
    ∷ ("CONNECT", 218)
    ∷ ("FINANCE", 219)
    ∷ ("SPORT", 220)
    ∷ ("SHOP", 221)
    ∷ ("ALTERASE", 222)
    ∷ ("CANCEL", 223)
    ∷ ("BRIGHTNESSDOWN", 224)
    ∷ ("BRIGHTNESSUP", 225)
    ∷ ("MEDIA", 226)
    ∷ ("SWITCHVIDEOMODE", 227)
    ∷ ("KBDILLUMTOGGLE", 228)
    ∷ ("KBDILLUMDOWN", 229)
    ∷ ("KBDILLUMUP", 230)
    ∷ ("SEND", 231)
    ∷ ("REPLY", 232)
    ∷ ("FORWARDMAIL", 233)
    ∷ ("SAVE", 234)
    ∷ ("DOCUMENTS", 235)
    ∷ ("BATTERY", 236)
    ∷ ("BLUETOOTH", 237)
    ∷ ("WLAN", 238)
    ∷ ("UWB", 239)
    ∷ ("UNKNOWN", 240)
    ∷ ("VIDEO_NEXT", 241)
    ∷ ("VIDEO_PREV", 242)
    ∷ ("BRIGHTNESS_CYCLE", 243)
    ∷ ("BRIGHTNESS_ZERO", 244)
    ∷ ("DISPLAY_OFF", 245)
    ∷ ("WIMAX", 246)
    ∷ ("RFKILL", 247)
    ∷ ("MICMUTE", 248)
    ∷ ("BTN_0", 256)
    ∷ ("BTN_1", 257)
    ∷ ("BTN_2", 258)
    ∷ ("BTN_3", 259)
    ∷ ("BTN_4", 260)
    ∷ ("BTN_5", 261)
    ∷ ("BTN_6", 262)
    ∷ ("BTN_7", 263)
    ∷ ("BTN_8", 264)
    ∷ ("BTN_9", 265)
    ∷ ("BTN_LEFT", 272)
    ∷ ("BTN_RIGHT", 273)
    ∷ ("BTN_MIDDLE", 274)
    ∷ ("BTN_SIDE", 275)
    ∷ ("BTN_EXTRA", 276)
    ∷ ("BTN_FORWARD", 277)
    ∷ ("BTN_BACK", 278)
    ∷ ("BTN_TASK", 279)
    ∷ ("BTN_TRIGGER", 288)
    ∷ ("BTN_THUMB", 289)
    ∷ ("BTN_THUMB2", 290)
    ∷ ("BTN_TOP", 291)
    ∷ ("BTN_TOP2", 292)
    ∷ ("BTN_PINKIE", 293)
    ∷ []
