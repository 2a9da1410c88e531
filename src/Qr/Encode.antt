-- ===== src/Qr/Encode.antt =====
-- From text to codewords (qr.go, `qrEncode` up to the matrix).
pub mod Smallest
use lanrunner.Common.{
  ℕ, zero, suc, ◌-◌, ◌*◌, ◌%◌, Bool, false, List, [], ◌∷◌, ◌++◌, Option, none, some, leb, ltb, ◌==◌,
  if◌then◌else◌, get_or, take, drop, length,
}
use lanrunner.Qr.Buffer.{append, bytes}
use lanrunner.Qr.Field.{rs_encode}
use lanrunner.Qr.Versions.{QrVersion, qr_versions, data_codewords, count_bits, byte_capacity}

-- The first version from `v` on, `left` of them at most, that carries `n` bytes; 0 if none does.
choose : ℕ → ℕ → ℕ → ℕ
choose zero v n = 0
choose (suc left) v n =
    let rest = choose left (suc v) n in if leb n (byte_capacity (qr_versions v) v) then v else rest

unfoldable pub choose_version : ℕ → ℕ
unfolding choose
choose_version n = choose 10 1 n

append_bytes : List Bool → List ℕ → List Bool
append_bytes bits [] = bits
append_bytes bits (d ∷ data') = append_bytes (append bits d 8) data'

-- Mode, length and payload.
unfoldable pub payload_bits : ℕ → List ℕ → List Bool
unfolding append_bytes
payload_bits version data' =
    append_bytes (append (append [] 4 4) (length data') (count_bits version)) data'

terminate : ℕ → ℕ → List Bool → List Bool
terminate zero capacity bits = bits
terminate (suc left) capacity bits =
    let rest = terminate left capacity (bits ++ false ∷ []) in
    if ltb (length bits) capacity then rest else bits

-- Seven rounds are enough to reach a multiple of eight.
align : ℕ → List Bool → List Bool
align zero bits = bits
align (suc left) bits =
    let rest = align left (bits ++ false ∷ []) in if length bits % 8 == 0 then bits else rest

-- One round for each codeword that is missing.
pad : ℕ → ℕ → List ℕ → List ℕ
pad zero i padded = padded
pad (suc left) i padded = pad left (suc i) (padded ++ (if i % 2 == 0 then 0xEC else 0x11) ∷ [])

unfoldable pub pad_codewords : ℕ → List Bool → List ℕ
unfolding terminate align pad
pad_codewords words bits =
    let packed = bytes (align 7 (terminate 4 (words * 8) bits)) in
    pad (words - length packed) 0 packed

pub record Block : Type 0 where
  pub codewords : List ℕ
  pub ec : List ℕ

-- `count` blocks of `size` codewords each from the front.
split_blocks : ℕ → ℕ → ℕ → List ℕ → List Block
split_blocks zero size ec padded = []
split_blocks (suc count) size ec padded =
    record { codewords = take size padded; ec = rs_encode (take size padded) ec }
    ∷ split_blocks count size ec (drop size padded)

unfoldable pub all_blocks : QrVersion → List ℕ → List Block
unfolding split_blocks
all_blocks spec padded =
    split_blocks spec.group1_blocks spec.group1_data spec.ec_per_block padded
    ++ split_blocks spec.group2_blocks spec.group2_data spec.ec_per_block
        (drop (spec.group1_blocks * spec.group1_data) padded)

-- Column `i` of the data parts; a shorter block has none.
data_column : ℕ → List Block → List ℕ
data_column i [] = []
data_column i (b ∷ blocks) =
    if ltb i (length b.codewords)
    then get_or b.codewords i 0 ∷ data_column i blocks
    else data_column i blocks

ec_column : ℕ → List Block → List ℕ
ec_column i [] = []
ec_column i (b ∷ blocks) = get_or b.ec i 0 ∷ ec_column i blocks

data_columns : ℕ → ℕ → List Block → List ℕ
unfolding data_column
data_columns zero i blocks = []
data_columns (suc left) i blocks = data_column i blocks ++ data_columns left (suc i) blocks

ec_columns : ℕ → ℕ → List Block → List ℕ
unfolding ec_column
ec_columns zero i blocks = []
ec_columns (suc left) i blocks = ec_column i blocks ++ ec_columns left (suc i) blocks

unfoldable pub interleave : QrVersion → List Block → List ℕ
unfolding data_columns ec_columns
interleave spec blocks =
    let max_data =
      if ltb spec.group1_data spec.group2_data then spec.group2_data else spec.group1_data in
    data_columns max_data 0 blocks ++ ec_columns spec.ec_per_block 0 blocks

-- The version and its codewords, or `none` where the text is too long.
unfoldable pub codewords_of : List ℕ → Option (ℕ × List ℕ)
unfolding all_blocks pad_codewords payload_bits interleave choose_version
codewords_of data' =
    let version = choose_version (length data') in
    let spec = qr_versions version in
    if version == 0
    then none
    else some (
      version,
      interleave spec
          (all_blocks spec (pad_codewords (data_codewords spec) (payload_bits version data'))),
    )
