-- ===== src/Base/Utf8.antt =====
-- utf8.ValidString and strings.ContainsAny of Go's standard library, on bytes.
use Prim.Native.Nat.{ℕ, zero, suc, ◌+◌, ◌-◌, ◌*◌}
use mathlib.Core.Bool.{Bool, true, false, ◌&&◌, ◌||◌}
use mathlib.Core.Path.{◌≡◌, refl}
use mathlib.Core.List.{List, [], ◌∷◌}
use receiptd.Base.Tests.{leb, ◌==◌, if◌then◌else◌}
use receiptd.Base.Text.{Text}

-- What may follow a leading byte: how many bytes more, and the range of the first of them.
record Lead : Type 0 where
  more : ℕ
  low : ℕ
  high : ℕ
  legal : Bool

between : ℕ → ℕ → ℕ → Bool
between lo hi b = leb lo b && leb b hi

lead : ℕ → Lead
unfolding between
lead b =
    if between 0 0x7f b
    then record { more = 0; low = 0; high = 0; legal = true }
    else if between 0xc2 0xdf b
    then record { more = 1; low = 0x80; high = 0xbf; legal = true }
    else if b == 0xe0
    then record { more = 2; low = 0xa0; high = 0xbf; legal = true }
    else if b == 0xed
    then record { more = 2; low = 0x80; high = 0x9f; legal = true }
    else if between 0xe1 0xef b
    then record { more = 2; low = 0x80; high = 0xbf; legal = true }
    else if b == 0xf0
    then record { more = 3; low = 0x90; high = 0xbf; legal = true }
    else if between 0xf1 0xf3 b
    then record { more = 3; low = 0x80; high = 0xbf; legal = true }
    else if b == 0xf4
    then record { more = 3; low = 0x80; high = 0x8f; legal = true }
    else record { more = 0; low = 0; high = 0; legal = false }

utf8_from : ℕ → ℕ → ℕ → Text → Bool
unfolding lead
utf8_from zero lo hi [] = true
utf8_from (suc n) lo hi [] = false
utf8_from zero lo hi (b ∷ s) = let l = lead b in l.legal && utf8_from l.more l.low l.high s
utf8_from (suc n) lo hi (b ∷ s) = between lo hi b && utf8_from n 0x80 0xbf s

unfoldable pub valid_utf8 : Text → Bool
unfolding utf8_from
valid_utf8 s = utf8_from 0 0 0 s

contains_byte : ℕ → Text → Bool
contains_byte c [] = false
contains_byte c (b ∷ s) = c == b || contains_byte c s

unfoldable pub contains_any : Text → Text → Bool
unfolding contains_byte
contains_any [] chars = false
contains_any (b ∷ s) chars = contains_byte b chars || contains_any s chars

-- utf8.RuneError
abbrev pub rune_error : ℕ
rune_error = 65533

-- The payload of a byte that continues a rune.
abbrev low_bits : ℕ → ℕ
low_bits b = b - 128

-- The rune at a leading byte that `more` bytes follow, and how many of them it takes: an encoding that
-- is not valid is the error rune, one byte wide.
rune_at : ℕ → ℕ → ℕ → ℕ → Text → ℕ × ℕ
unfolding between
rune_at zero b lo hi s = (b, 0)
rune_at (suc zero) b lo hi (c ∷ s) =
    if between lo hi c then ((b - 192) * 64 + low_bits c, 1) else (rune_error, 0)
rune_at (suc (suc zero)) b lo hi (c ∷ d ∷ s) =
    if between lo hi c && between 128 191 d
    then ((b - 224) * 4096 + low_bits c * 64 + low_bits d, 2)
    else (rune_error, 0)
rune_at (suc (suc (suc more))) b lo hi (c ∷ d ∷ e ∷ s) =
    if between lo hi c && (between 128 191 d && between 128 191 e)
    then ((b - 240) * 262144 + low_bits c * 4096 + low_bits d * 64 + low_bits e, 3)
    else (rune_error, 0)
rune_at more b lo hi s = (rune_error, 0)

runes_from : ℕ → Text → List ℕ
unfolding lead rune_at
runes_from skip [] = []
runes_from (suc skip) (b ∷ s) = runes_from skip s
runes_from zero (b ∷ s) =
    let l = lead b in
    let (rune, more) = if l.legal then rune_at l.more b l.low l.high s else (rune_error, 0) in
    rune ∷ runes_from more s

-- The runes that `range` goes through.
unfoldable pub runes : Text → List ℕ
unfolding runes_from
runes s = runes_from 0 s

runes_ascii : runes (104 ∷ 105 ∷ []) ≡ 104 ∷ 105 ∷ []
unfolding runes
runes_ascii = refl

runes_mixed :
    runes (195 ∷ 169 ∷ 226 ∷ 130 ∷ 172 ∷ 255 ∷ 240 ∷ 159 ∷ 152 ∷ 128 ∷ [])
    ≡ 233 ∷ 8364 ∷ 65533 ∷ 128512 ∷ []
unfolding runes
runes_mixed = refl
