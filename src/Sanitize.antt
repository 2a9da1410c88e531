-- ===== src/Sanitize.antt =====
-- Cleaning of names and message bodies, and the short forms of ids (main.go, identity.go). A text
-- is its code points, so `[]rune` is the text itself.
pub mod Clean
use mathlib.Core.List.{reverse}
use lanrunner.Common.{
  ℕ, zero, suc, ◌+◌, ◌-◌, ◌/◌, ◌%◌, Bool, true, false, List, [], ◌∷◌, ◌++◌, leb, ltb, ◌==◌, ◌||◌,
  ◌&&◌, if◌then◌else◌, Text, byte_len, take, drop, length,
}

-- `unicode.IsControl`: the category Cc.
abbrev pub is_control : ℕ → Bool
is_control r = leb r 0x1f || leb 0x7f r && leb r 0x9f

-- `unicode.IsSpace`: the white space property.
abbrev pub is_space : ℕ → Bool
is_space r =
    leb 0x09 r && leb r 0x0d
    || (r == 0x20
        || (r == 0x85
            || (r == 0xa0
                || (r == 0x1680
                    || (leb 0x2000 r && leb r 0x200a
                        || (r == 0x2028
                            || (r == 0x2029 || (r == 0x202f || (r == 0x205f || r == 0x3000)))))))))

unfoldable pub trim_left : Text → Text
trim_left [] = []
trim_left (r ∷ s) = if is_space r then trim_left s else r ∷ s

-- `strings.TrimSpace`.
unfoldable pub trim_space : Text → Text
unfolding trim_left
trim_space s = reverse (trim_left (reverse (trim_left s)))

abbrev pub bad_in_nick : ℕ → Bool
bad_in_nick r = is_control r || (r == b'<' || (r == b'>' || r == b'|'))

strip_nick : Text → Text
strip_nick [] = []
strip_nick (r ∷ s) = if bad_in_nick r then strip_nick s else r ∷ strip_nick s

pub sanitize_nick : Text → Text
sanitize_nick s =
    let clean = strip_nick (trim_space s) in if ltb 24 (length clean) then take 24 clean else clean

-- A tab becomes a blank; other control characters go.
unfoldable pub strip_body : Text → Text
strip_body [] = []
strip_body (r ∷ s) =
    if r == 0x09
    then 0x20 ∷ strip_body s
    else if is_control r
    then strip_body s
    else r ∷ strip_body s

unfoldable pub had_control : Text → Bool
had_control [] = false
had_control (r ∷ s) = if r == 0x09 then had_control s else is_control r || had_control s

unfoldable pub sanitize_body : Text → Text × Bool
sanitize_body s = (trim_space (strip_body s), had_control s)

abbrev pub max_body_runes : ℕ
max_body_runes = 2048

-- The cut that every path makes after `sanitizeBody`.
pub cut_body : Text → Text
cut_body body = if ltb max_body_runes (length body) then take max_body_runes body else body

-- Fingerprints and ids are ASCII, where bytes are characters.
unfoldable pub short_fp : Text → Text
short_fp fp = if leb (byte_len fp) 8 then fp else take 8 fp
