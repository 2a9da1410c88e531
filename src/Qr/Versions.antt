-- ===== src/Qr/Versions.antt =====
-- The version tables and their capacities (qr.go, `qrVersion`, `qrVersions`, `qrFormatM`,
-- `qrVersionInfo`). A version that the table lacks is Go's zero value.
use lanrunner.Common.{
  ℕ, ◌+◌, ◌-◌, ◌*◌, ◌/◌, List, [], ◌∷◌, Option, none, some, leb, ◌==◌, if◌then◌else◌, get_or,
}

pub record QrVersion : Type 0 where
  pub total_codewords : ℕ
  pub ec_per_block : ℕ
  pub group1_blocks : ℕ
  pub group1_data : ℕ
  pub group2_blocks : ℕ
  pub group2_data : ℕ
  pub alignment : List ℕ

qr_version : ℕ → ℕ → ℕ → ℕ → ℕ → ℕ → List ℕ → QrVersion
qr_version total ec b1 d1 b2 d2 al = record {
  total_codewords = total;
  ec_per_block = ec;
  group1_blocks = b1;
  group1_data = d1;
  group2_blocks = b2;
  group2_data = d2;
  alignment = al;
}

qr_version_rows : List QrVersion
unfolding qr_version
qr_version_rows =
    qr_version 0 0 0 0 0 0 []
    ∷ qr_version 26 10 1 16 0 0 []
    ∷ qr_version 44 16 1 28 0 0 (6 ∷ 18 ∷ [])
    ∷ qr_version 70 26 1 44 0 0 (6 ∷ 22 ∷ [])
    ∷ qr_version 100 18 2 32 0 0 (6 ∷ 26 ∷ [])
    ∷ qr_version 134 24 2 43 0 0 (6 ∷ 30 ∷ [])
    ∷ qr_version 172 16 4 27 0 0 (6 ∷ 34 ∷ [])
    ∷ qr_version 196 18 4 31 0 0 (6 ∷ 22 ∷ 38 ∷ [])
    ∷ qr_version 242 22 2 38 2 39 (6 ∷ 24 ∷ 42 ∷ [])
    ∷ qr_version 292 22 3 36 2 37 (6 ∷ 26 ∷ 46 ∷ [])
    ∷ qr_version 346 26 4 43 1 44 (6 ∷ 28 ∷ 50 ∷ [])
    ∷ []

unfoldable pub qr_versions : ℕ → QrVersion
unfolding qr_version_rows qr_version
qr_versions v = get_or qr_version_rows v (qr_version 0 0 0 0 0 0 [])

unfoldable pub qr_format_m : ℕ → ℕ
qr_format_m mask =
    get_or (0x5412 ∷ 0x5125 ∷ 0x5E7C ∷ 0x5B4B ∷ 0x45F9 ∷ 0x40CE ∷ 0x4F97 ∷ 0x4AA0 ∷ []) mask 0

unfoldable pub qr_version_info : ℕ → Option ℕ
qr_version_info v =
    if v == 7
    then some 0x07C94
    else if v == 8
    then some 0x085BC
    else if v == 9
    then some 0x09A99
    else if v == 10
    then some 0x0A4D3
    else none

unfoldable pub data_codewords : QrVersion → ℕ
data_codewords v = v.group1_blocks * v.group1_data + v.group2_blocks * v.group2_data

unfoldable pub count_bits : ℕ → ℕ
count_bits version = if leb 10 version then 16 else 8

unfoldable pub byte_capacity : QrVersion → ℕ → ℕ
unfolding data_codewords count_bits
byte_capacity v version = (data_codewords v * 8 - 4 - count_bits version) / 8
