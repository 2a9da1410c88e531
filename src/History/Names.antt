-- ===== src/History/Names.antt =====
-- Which conversations share a transcript.
use lanrunner.Common.{
  ◌≤◌, ◌≡◌, refl, sym, ap, true, false, [], ◌∷◌, arith, Text, codes, byte_len, same, same_iff,
  Bool-cases, le→ltb, inl, inr,
}
use lanrunner.History.{safe_name, hex_only, all_hex, valid_conversation_id}

hex_only-all_hex : (conv : Text) → all_hex conv ≡ true → hex_only conv ≡ conv
unfolding all_hex hex_only
hex_only-all_hex [] h = refl
hex_only-all_hex (r ∷ conv) h = ground (arith, hex_only-all_hex conv)

valid-parts :
    (conv : Text)
    → valid_conversation_id conv ≡ true
    → same conv (codes "room") ≡ false
    → (all_hex conv ≡ true) × (8 ≤ byte_len conv)
unfolding valid_conversation_id
valid-parts conv v ne = ground arith

not-same-nil : (conv : Text) → 8 ≤ byte_len conv → same conv [] ≡ false
not-same-nil conv h = ground (arith, same_iff conv [], ap byte_len)

-- A conversation that the clear route accepts, of at most 32 characters, is stored under its own
-- name: no two of them share a transcript.
pub safe_name-valid :
    (conv : Text) → valid_conversation_id conv ≡ true → byte_len conv ≤ 32 → safe_name conv ≡ conv
unfolding safe_name
safe_name-valid conv v h = elim (Bool-cases (same conv (codes "room"))) [
  | inl room ↦ rw room (sym ((same_iff conv (codes "room")).0 room))
  | inr dm ↦
      let (hex, long) = valid-parts conv v dm in
      rw (dm, hex_only-all_hex conv hex, not-same-nil conv long, le→ltb _ 32 h)
]
