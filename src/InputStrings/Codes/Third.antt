-- ===== src/InputStrings/Codes/Third.antt =====
-- stmm-input-btkb/src/hardwarekey.h: lines 336 to 479.
use Prim.Native.String.{String}
use stmm_input_bt.Base.{ℕ, List, [], ◌∷◌}

abbrev pub third_hardware_keys : List (String × ℕ)
third_hardware_keys =
    ("BTN_BASE", 294)
    ∷ ("BTN_BASE2", 295)
    ∷ ("BTN_BASE3", 296)
    ∷ ("BTN_BASE4", 297)
    ∷ ("BTN_BASE5", 298)
    ∷ ("BTN_BASE6", 299)
    ∷ ("BTN_DEAD", 303)
    ∷ ("BTN_A", 304)
    ∷ ("BTN_B", 305)
    ∷ ("BTN_C", 306)
    ∷ ("BTN_X", 307)
    ∷ ("BTN_Y", 308)
    ∷ ("BTN_Z", 309)
    ∷ ("BTN_TL", 310)
    ∷ ("BTN_TR", 311)
    ∷ ("BTN_TL2", 312)
    ∷ ("BTN_TR2", 313)
    ∷ ("BTN_SELECT", 314)
    ∷ ("BTN_START", 315)
    ∷ ("BTN_MODE", 316)
    ∷ ("BTN_THUMBL", 317)
    ∷ ("BTN_THUMBR", 318)
    ∷ ("BTN_TOOL_PEN", 320)
    ∷ ("BTN_TOOL_RUBBER", 321)
    ∷ ("BTN_TOOL_BRUSH", 322)
    ∷ ("BTN_TOOL_PENCIL", 323)
    ∷ ("BTN_TOOL_AIRBRUSH", 324)
    ∷ ("BTN_TOOL_FINGER", 325)
    ∷ ("BTN_TOOL_MOUSE", 326)
    ∷ ("BTN_TOOL_LENS", 327)
    ∷ ("BTN_TOOL_QUINTTAP", 328)
    ∷ ("BTN_TOUCH", 330)
    ∷ ("BTN_STYLUS", 331)
    ∷ ("BTN_STYLUS2", 332)
    ∷ ("BTN_TOOL_DOUBLETAP", 333)
    ∷ ("BTN_TOOL_TRIPLETAP", 334)
    ∷ ("BTN_TOOL_QUADTAP", 335)
    ∷ ("BTN_GEAR_DOWN", 336)
    ∷ ("BTN_GEAR_UP", 337)
    ∷ ("OK", 352)
    ∷ ("SELECT", 353)
    ∷ ("GOTO", 354)
    ∷ ("CLEAR", 355)
    ∷ ("POWER2", 356)
    ∷ ("OPTION", 357)
    ∷ ("INFO", 358)
    ∷ ("TIME", 359)
    ∷ ("VENDOR", 360)
    ∷ ("ARCHIVE", 361)
    ∷ ("PROGRAM", 362)
    ∷ ("CHANNEL", 363)
    ∷ ("FAVORITES", 364)
    ∷ ("EPG", 365)
    ∷ ("PVR", 366)
    ∷ ("MHP", 367)
    ∷ ("LANGUAGE", 368)
    ∷ ("TITLE", 369)
    ∷ ("SUBTITLE", 370)
    ∷ ("ANGLE", 371)
    ∷ ("ZOOM", 372)
    ∷ ("MODE", 373)
    ∷ ("KEYBOARD", 374)
    ∷ ("SCREEN", 375)
    ∷ ("PC", 376)
    ∷ ("TV", 377)
    ∷ ("TV2", 378)
    ∷ ("VCR", 379)
    ∷ ("VCR2", 380)
    ∷ ("SAT", 381)
    ∷ ("SAT2", 382)
    ∷ ("CD", 383)
    ∷ ("TAPE", 384)
    ∷ ("RADIO", 385)
    ∷ ("TUNER", 386)
    ∷ ("PLAYER", 387)
    ∷ ("TEXT", 388)
    ∷ ("DVD", 389)
    ∷ ("AUX", 390)
    ∷ ("MP3", 391)
    ∷ ("AUDIO", 392)
    ∷ ("VIDEO", 393)
    ∷ ("DIRECTORY", 394)
    ∷ ("LIST", 395)
    ∷ ("MEMO", 396)
    ∷ ("CALENDAR", 397)
    ∷ ("RED", 398)
    ∷ ("GREEN", 399)
    ∷ ("YELLOW", 400)
    ∷ ("BLUE", 401)
    ∷ ("CHANNELUP", 402)
    ∷ ("CHANNELDOWN", 403)
    ∷ ("FIRST", 404)
    ∷ ("LAST", 405)
    ∷ ("AB", 406)
    ∷ ("NEXT", 407)
    ∷ ("RESTART", 408)
    ∷ ("SLOW", 409)
    ∷ ("SHUFFLE", 410)
    ∷ ("BREAK", 411)
    ∷ ("PREVIOUS", 412)
    ∷ ("DIGITS", 413)
    ∷ ("TEEN", 414)
    ∷ ("TWEN", 415)
    ∷ ("VIDEOPHONE", 416)
    ∷ ("GAMES", 417)
    ∷ ("ZOOMIN", 418)
    ∷ ("ZOOMOUT", 419)
    ∷ ("ZOOMRESET", 420)
    ∷ ("WORDPROCESSOR", 421)
    ∷ ("EDITOR", 422)
    ∷ ("SPREADSHEET", 423)
    ∷ ("GRAPHICSEDITOR", 424)
    ∷ ("PRESENTATION", 425)
    ∷ ("DATABASE", 426)
    ∷ ("NEWS", 427)
    ∷ ("VOICEMAIL", 428)
    ∷ ("ADDRESSBOOK", 429)
    ∷ ("MESSENGER", 430)
    ∷ ("BRIGHTNESS_TOGGLE", 431)
    ∷ ("SPELLCHECK", 432)
    ∷ ("LOGOFF", 433)
    ∷ ("DOLLAR", 434)
    ∷ ("EURO", 435)
    ∷ ("FRAMEBACK", 436)
    ∷ ("FRAMEFORWARD", 437)
    ∷ ("CONTEXT_MENU", 438)
    ∷ ("MEDIA_REPEAT", 439)
    ∷ ("10CHANNELSUP", 440)
    ∷ ("10CHANNELSDOWN", 441)
    ∷ ("IMAGES", 442)
    ∷ []
