-- ===== src/InputStrings/Codes/Fourth.antt =====
-- stmm-input-btkb/src/hardwarekey.h: lines 481 to 619.
use Prim.Native.String.{String}
use stmm_input_bt.Base.{ℕ, List, [], ◌∷◌}

abbrev pub fourth_hardware_keys : List (String × ℕ)
fourth_hardware_keys =
    ("DEL_EOL", 448)
    ∷ ("DEL_EOS", 449)
    ∷ ("INS_LINE", 450)
    ∷ ("DEL_LINE", 451)
    ∷ ("FN", 464)
    ∷ ("FN_ESC", 465)
    ∷ ("FN_F1", 466)
    ∷ ("FN_F2", 467)
    ∷ ("FN_F3", 468)
    ∷ ("FN_F4", 469)
    ∷ ("FN_F5", 470)
    ∷ ("FN_F6", 471)
    ∷ ("FN_F7", 472)
    ∷ ("FN_F8", 473)
    ∷ ("FN_F9", 474)
    ∷ ("FN_F10", 475)
    ∷ ("FN_F11", 476)
    ∷ ("FN_F12", 477)
    ∷ ("FN_1", 478)
    ∷ ("FN_2", 479)
    ∷ ("FN_D", 480)
    ∷ ("FN_E", 481)
    ∷ ("FN_F", 482)
    ∷ ("FN_S", 483)
    ∷ ("FN_B", 484)
    ∷ ("BRL_DOT1", 497)
    ∷ ("BRL_DOT2", 498)
    ∷ ("BRL_DOT3", 499)
    ∷ ("BRL_DOT4", 500)
    ∷ ("BRL_DOT5", 501)
    ∷ ("BRL_DOT6", 502)
    ∷ ("BRL_DOT7", 503)
    ∷ ("BRL_DOT8", 504)
    ∷ ("BRL_DOT9", 505)
    ∷ ("BRL_DOT10", 506)
    ∷ ("NUMERIC_0", 512)
    ∷ ("NUMERIC_1", 513)
    ∷ ("NUMERIC_2", 514)
    ∷ ("NUMERIC_3", 515)
    ∷ ("NUMERIC_4", 516)
    ∷ ("NUMERIC_5", 517)
    ∷ ("NUMERIC_6", 518)
    ∷ ("NUMERIC_7", 519)
    ∷ ("NUMERIC_8", 520)
    ∷ ("NUMERIC_9", 521)
    ∷ ("NUMERIC_STAR", 522)
    ∷ ("NUMERIC_POUND", 523)
    ∷ ("CAMERA_FOCUS", 528)
    ∷ ("WPS_BUTTON", 529)
    ∷ ("TOUCHPAD_TOGGLE", 530)
    ∷ ("TOUCHPAD_ON", 531)
    ∷ ("TOUCHPAD_OFF", 532)
    ∷ ("CAMERA_ZOOMIN", 533)
    ∷ ("CAMERA_ZOOMOUT", 534)
    ∷ ("CAMERA_UP", 535)
    ∷ ("CAMERA_DOWN", 536)
    ∷ ("CAMERA_LEFT", 537)
    ∷ ("CAMERA_RIGHT", 538)
    ∷ ("ATTENDANT_ON", 539)
    ∷ ("ATTENDANT_OFF", 540)
    ∷ ("ATTENDANT_TOGGLE", 541)
    ∷ ("LIGHTS_TOGGLE", 542)
    ∷ ("BTN_DPAD_UP", 544)
    ∷ ("BTN_DPAD_DOWN", 545)
    ∷ ("BTN_DPAD_LEFT", 546)
    ∷ ("BTN_DPAD_RIGHT", 547)
    ∷ ("ALS_TOGGLE", 560)
    ∷ ("BUTTONCONFIG", 576)
    ∷ ("TASKMANAGER", 577)
    ∷ ("JOURNAL", 578)
    ∷ ("CONTROLPANEL", 579)
    ∷ ("APPSELECT", 580)
    ∷ ("SCREENSAVER", 581)
    ∷ ("VOICECOMMAND", 582)
    ∷ ("BRIGHTNESS_MIN", 592)
    ∷ ("BRIGHTNESS_MAX", 593)
    ∷ ("KBDINPUTASSIST_PREV", 608)
    ∷ ("KBDINPUTASSIST_NEXT", 609)
    ∷ ("KBDINPUTASSIST_PREVGROUP", 610)
    ∷ ("KBDINPUTASSIST_NEXTGROUP", 611)
    ∷ ("KBDINPUTASSIST_ACCEPT", 612)
    ∷ ("KBDINPUTASSIST_CANCEL", 613)
    ∷ ("BTN_TRIGGER_HAPPY1", 704)
    ∷ ("BTN_TRIGGER_HAPPY2", 705)
    ∷ ("BTN_TRIGGER_HAPPY3", 706)
    ∷ ("BTN_TRIGGER_HAPPY4", 707)
    ∷ ("BTN_TRIGGER_HAPPY5", 708)
    ∷ ("BTN_TRIGGER_HAPPY6", 709)
    ∷ ("BTN_TRIGGER_HAPPY7", 710)
    ∷ ("BTN_TRIGGER_HAPPY8", 711)
    ∷ ("BTN_TRIGGER_HAPPY9", 712)
    ∷ ("BTN_TRIGGER_HAPPY10", 713)
    ∷ ("BTN_TRIGGER_HAPPY11", 714)
    ∷ ("BTN_TRIGGER_HAPPY12", 715)
    ∷ ("BTN_TRIGGER_HAPPY13", 716)
    ∷ ("BTN_TRIGGER_HAPPY14", 717)
    ∷ ("BTN_TRIGGER_HAPPY15", 718)
    ∷ ("BTN_TRIGGER_HAPPY16", 719)
    ∷ ("BTN_TRIGGER_HAPPY17", 720)
    ∷ ("BTN_TRIGGER_HAPPY18", 721)
    ∷ ("BTN_TRIGGER_HAPPY19", 722)
    ∷ ("BTN_TRIGGER_HAPPY20", 723)
    ∷ ("BTN_TRIGGER_HAPPY21", 724)
    ∷ ("BTN_TRIGGER_HAPPY22", 725)
    ∷ ("BTN_TRIGGER_HAPPY23", 726)
    ∷ ("BTN_TRIGGER_HAPPY24", 727)
    ∷ ("BTN_TRIGGER_HAPPY25", 728)
    ∷ ("BTN_TRIGGER_HAPPY26", 729)
    ∷ ("BTN_TRIGGER_HAPPY27", 730)
    ∷ ("BTN_TRIGGER_HAPPY28", 731)
    ∷ ("BTN_TRIGGER_HAPPY29", 732)
    ∷ ("BTN_TRIGGER_HAPPY30", 733)
    ∷ ("BTN_TRIGGER_HAPPY31", 734)
    ∷ ("BTN_TRIGGER_HAPPY32", 735)
    ∷ ("BTN_TRIGGER_HAPPY33", 736)
    ∷ ("BTN_TRIGGER_HAPPY34", 737)
    ∷ ("BTN_TRIGGER_HAPPY35", 738)
    ∷ ("BTN_TRIGGER_HAPPY36", 739)
    ∷ ("BTN_TRIGGER_HAPPY37", 740)
    ∷ ("BTN_TRIGGER_HAPPY38", 741)
    ∷ ("BTN_TRIGGER_HAPPY39", 742)
    ∷ ("BTN_TRIGGER_HAPPY40", 743)
    ∷ ("X_SCROLL_LEFT", 768)
    ∷ ("X_SCROLL_RIGHT", 769)
    ∷ []
