-- ===== src/Auth/Password/Common.antt =====
-- internal/auth/commonpasswords.go: the passwords that are never accepted.
use cb_back.Prelude.{List, [], ◌∷◌, Text, codes}

abbrev pub common_passwords : List Text
common_passwords =
    codes "123456789012"
    ∷ codes "1234567890"
    ∷ codes "qwertyuiop"
    ∷ codes "password"
    ∷ codes "password1"
    ∷ codes "password123"
    ∷ codes "passw0rd123"
    ∷ codes "password1234"
    ∷ codes "welcome123456"
    ∷ codes "qwerty123456"
    ∷ codes "iloveyou1234"
    ∷ codes "letmein12345"
    ∷ codes "administrator"
    ∷ codes "changeme1234"
    ∷ codes "secretpassword"
    ∷ codes "trustno1234567"
    ∷ codes "whatever12345"
    ∷ codes "111111111111"
    ∷ codes "000000000000"
    ∷ codes "abcdefghijkl"
    ∷ codes "aaaaaaaaaaaa"
    ∷ codes "videocall1234"
    ∷ codes "audiocall1234"
    ∷ codes "cbback123456"
    ∷ codes "monkey123456"
    ∷ codes "dragon123456"
    ∷ codes "sunshine1234"
    ∷ codes "princess1234"
    ∷ codes "football1234"
    ∷ codes "baseball1234"
    ∷ codes "superman1234"
    ∷ codes "starwars1234"
    ∷ codes "qazwsxedcrfv"
    ∷ codes "zaq12wsxcde3"
    ∷ codes "1qaz2wsx3edc"
    ∷ codes "asdfghjkl123"
    ∷ codes "loveyou123456"
    ∷ codes "myp@ssw0rd123"
    ∷ codes "p@ssword1234"
    ∷ codes "admin1234567"
    ∷ codes "welcome1234567"
    ∷ codes "letmein1234567"
    ∷ codes "qwertyuiop1234"
    ∷ codes "thisisapassword"
    ∷ codes "correcthorse"
    ∷ codes "correctbatteryhs"
    ∷ []
