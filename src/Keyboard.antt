-- ===== src/Keyboard.antt =====
-- drivers/device/keyboard.c: the scan codes, and the keys that reach the installed handler.
pub mod Modifiers
use master_os.Base.{
  ℕ, zero, suc, ◌+◌, ◌-◌, ◌*◌, ◌^◌, Bool, true, false, ◌&&◌, ◌||◌, not, Option, none, some, List,
  [], ◌∷◌, ◌++◌, get_or, bit_and, ltb, leb, ◌==◌, if◌then◌else◌,
}

-- The keys that are no character are the numbers from 0xFFFFFFFF down.
abbrev pub special : ℕ → ℕ
special n = 0xFFFFFFFF - n

abbrev pub unknown : ℕ
unknown = special 0

-- The keys by their scan codes; behind the end of the list both tables hold `UNKNOWN`.
abbrev pub lowercase : List ℕ
lowercase =
    unknown
    ∷ special 1
    ∷ 49
    ∷ 50
    ∷ 51
    ∷ 52
    ∷ 53
    ∷ 54
    ∷ 55
    ∷ 56
    ∷ 57
    ∷ 48
    ∷ 45
    ∷ 61
    ∷ 8
    ∷ 9
    ∷ 113
    ∷ 119
    ∷ 101
    ∷ 114
    ∷ 116
    ∷ 121
    ∷ 117
    ∷ 105
    ∷ 111
    ∷ 112
    ∷ 91
    ∷ 93
    ∷ 10
    ∷ special 2
    ∷ 97
    ∷ 115
    ∷ 100
    ∷ 102
    ∷ 103
    ∷ 104
    ∷ 106
    ∷ 107
    ∷ 108
    ∷ 59
    ∷ 39
    ∷ 96
    ∷ special 3
    ∷ 92
    ∷ 122
    ∷ 120
    ∷ 99
    ∷ 118
    ∷ 98
    ∷ 110
    ∷ 109
    ∷ 44
    ∷ 46
    ∷ 47
    ∷ special 4
    ∷ 42
    ∷ special 5
    ∷ 32
    ∷ special 29
    ∷ special 6
    ∷ special 7
    ∷ special 8
    ∷ special 9
    ∷ special 10
    ∷ special 11
    ∷ special 12
    ∷ special 13
    ∷ special 14
    ∷ special 15
    ∷ special 32
    ∷ special 18
    ∷ special 19
    ∷ special 20
    ∷ special 24
    ∷ 45
    ∷ special 21
    ∷ unknown
    ∷ special 22
    ∷ 43
    ∷ special 26
    ∷ special 23
    ∷ special 25
    ∷ special 27
    ∷ special 28
    ∷ unknown
    ∷ unknown
    ∷ unknown
    ∷ special 16
    ∷ special 17
    ∷ []

abbrev pub uppercase : List ℕ
uppercase =
    unknown
    ∷ special 1
    ∷ 33
    ∷ 64
    ∷ 35
    ∷ 36
    ∷ 37
    ∷ 94
    ∷ 38
    ∷ 42
    ∷ 40
    ∷ 41
    ∷ 95
    ∷ 43
    ∷ 8
    ∷ 9
    ∷ 81
    ∷ 87
    ∷ 69
    ∷ 82
    ∷ 84
    ∷ 89
    ∷ 85
    ∷ 73
    ∷ 79
    ∷ 80
    ∷ 123
    ∷ 125
    ∷ 10
    ∷ special 2
    ∷ 65
    ∷ 83
    ∷ 68
    ∷ 70
    ∷ 71
    ∷ 72
    ∷ 74
    ∷ 75
    ∷ 76
    ∷ 58
    ∷ 34
    ∷ 126
    ∷ special 3
    ∷ 124
    ∷ 90
    ∷ 88
    ∷ 67
    ∷ 86
    ∷ 66
    ∷ 78
    ∷ 77
    ∷ 60
    ∷ 62
    ∷ 63
    ∷ special 4
    ∷ 42
    ∷ special 5
    ∷ 32
    ∷ special 29
    ∷ special 6
    ∷ special 7
    ∷ special 8
    ∷ special 9
    ∷ special 10
    ∷ special 11
    ∷ special 12
    ∷ special 13
    ∷ special 14
    ∷ special 15
    ∷ special 32
    ∷ special 18
    ∷ special 19
    ∷ special 20
    ∷ special 24
    ∷ 45
    ∷ special 21
    ∷ unknown
    ∷ special 22
    ∷ 43
    ∷ special 26
    ∷ special 23
    ∷ special 25
    ∷ special 27
    ∷ special 28
    ∷ unknown
    ∷ unknown
    ∷ unknown
    ∷ special 16
    ∷ special 17
    ∷ []

-- `capsOn` and `capsLock`.
pub record Keyboard : Type 0 where
  pub caps_on : Bool
  pub caps_lock : Bool

abbrev pub init_keyb : Keyboard
init_keyb = record { caps_on = false; caps_lock = false }

-- The scan codes that the switch passes over.
abbrev pub is_ignored : ℕ → Bool
is_ignored code =
    code == 1
    || code == 29
    || code == 56
    || (leb 59 code && leb code 68)
    || code == 87
    || code == 88

abbrev pub key_of : Keyboard → ℕ → ℕ
key_of k code = get_or (if k.caps_on || k.caps_lock then uppercase else lowercase) code unknown

-- The character that is handed to the handler, if any.
abbrev pub forwarded : ℕ → Option ℕ
forwarded key = if ltb key 0x80 || key == 8 || key == 0x0A then some key else none

-- An interrupt: port 0x60 is read twice, `first` for the scan code and `second` for whether the
-- key was released.
unfoldable pub keyb_handler : (first second : ℕ) → Keyboard → Keyboard × Option ℕ
keyb_handler first second k =
    let code = bit_and first 0x7F in
    let pressed = bit_and second 0x80 == 0 in
    if is_ignored code
    then (k, none)
    else if code == 42
    then (record k { caps_on = pressed }, none)
    else if code == 58
    then (record k { caps_lock = if pressed then not k.caps_lock else k.caps_lock }, none)
    else if pressed
    then (k, forwarded (key_of k code))
    else (k, none)

-- Interrupts one after the other: the state, and the characters that were forwarded.
unfoldable pub keyb_run : List ℕ → Keyboard → Keyboard × List ℕ
unfolding keyb_handler
keyb_run [] k = (k, [])
keyb_run (byte ∷ bytes) k =
    let (k', sent) = keyb_handler byte byte k in
    let (k'', rest) = keyb_run bytes k' in (k'', elim sent [ none ↦ rest | some c ↦ c ∷ rest ])
