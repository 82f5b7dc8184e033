-- ===== src/Io/Keys.antt =====
-- io/tty.c, lines 7 to 90: the codes of the keys that are no characters.
use create_an_os.Prelude.{ℕ}

abbrev pub esc : ℕ
esc = 0x101

abbrev pub tab : ℕ
tab = 0x102

abbrev pub enter : ℕ
enter = 0x103

abbrev pub backspace : ℕ
backspace = 0x104

abbrev pub gui_l : ℕ
gui_l = 0x105

abbrev pub gui_r : ℕ
gui_r = 0x106

abbrev pub apps : ℕ
apps = 0x107

abbrev pub shift_l : ℕ
shift_l = 0x108

abbrev pub shift_r : ℕ
shift_r = 0x109

abbrev pub ctrl_l : ℕ
ctrl_l = 0x10A

abbrev pub ctrl_r : ℕ
ctrl_r = 0x10B

abbrev pub alt_l : ℕ
alt_l = 0x10C

abbrev pub alt_r : ℕ
alt_r = 0x10D

abbrev pub caps_lock : ℕ
caps_lock = 0x10E

abbrev pub num_lock : ℕ
num_lock = 0x10F

abbrev pub scroll_lock : ℕ
scroll_lock = 0x110

abbrev pub f1 : ℕ
f1 = 0x111

abbrev pub f2 : ℕ
f2 = 0x112

abbrev pub f3 : ℕ
f3 = 0x113

abbrev pub f4 : ℕ
f4 = 0x114

abbrev pub f5 : ℕ
f5 = 0x115

abbrev pub f6 : ℕ
f6 = 0x116

abbrev pub f7 : ℕ
f7 = 0x117

abbrev pub f8 : ℕ
f8 = 0x118

abbrev pub f9 : ℕ
f9 = 0x119

abbrev pub f10 : ℕ
f10 = 0x11A

abbrev pub f11 : ℕ
f11 = 0x11B

abbrev pub f12 : ℕ
f12 = 0x11C

abbrev pub printscreen : ℕ
printscreen = 0x11D

abbrev pub pausebreak : ℕ
pausebreak = 0x11E

abbrev pub insert : ℕ
insert = 0x11F

abbrev pub delete : ℕ
delete = 0x120

abbrev pub home : ℕ
home = 0x121

abbrev pub end : ℕ
end = 0x122

abbrev pub pgup : ℕ
pgup = 0x123

abbrev pub pgdown : ℕ
pgdown = 0x124

abbrev pub up : ℕ
up = 0x125

abbrev pub down : ℕ
down = 0x126

abbrev pub left : ℕ
left = 0x127

abbrev pub right : ℕ
right = 0x128

abbrev pub power : ℕ
power = 0x129

abbrev pub sleep : ℕ
sleep = 0x12A

abbrev pub wake : ℕ
wake = 0x12B

abbrev pub pad_slash : ℕ
pad_slash = 0x12C

abbrev pub pad_star : ℕ
pad_star = 0x12D

abbrev pub pad_minus : ℕ
pad_minus = 0x12E

abbrev pub pad_plus : ℕ
pad_plus = 0x12F

abbrev pub pad_enter : ℕ
pad_enter = 0x130

abbrev pub pad_dot : ℕ
pad_dot = 0x131

abbrev pub pad_0 : ℕ
pad_0 = 0x132

abbrev pub pad_1 : ℕ
pad_1 = 0x133

abbrev pub pad_2 : ℕ
pad_2 = 0x134

abbrev pub pad_3 : ℕ
pad_3 = 0x135

abbrev pub pad_4 : ℕ
pad_4 = 0x136

abbrev pub pad_5 : ℕ
pad_5 = 0x137

abbrev pub pad_6 : ℕ
pad_6 = 0x138

abbrev pub pad_7 : ℕ
pad_7 = 0x139

abbrev pub pad_8 : ℕ
pad_8 = 0x13A

abbrev pub pad_9 : ℕ
pad_9 = 0x13B

abbrev pub pad_up : ℕ
pad_up = pad_8

abbrev pub pad_down : ℕ
pad_down = pad_2

abbrev pub pad_left : ℕ
pad_left = pad_4

abbrev pub pad_right : ℕ
pad_right = pad_6

abbrev pub pad_home : ℕ
pad_home = pad_7

abbrev pub pad_end : ℕ
pad_end = pad_1

abbrev pub pad_pgup : ℕ
pad_pgup = pad_9

abbrev pub pad_pgdown : ℕ
pad_pgdown = pad_3

abbrev pub pad_ins : ℕ
pad_ins = pad_0

abbrev pub pad_mid : ℕ
pad_mid = pad_5

abbrev pub pad_del : ℕ
pad_del = pad_dot
