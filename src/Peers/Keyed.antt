-- ===== src/Peers/Keyed.antt =====
-- The table of sessions: each under the fingerprint of its peer, and none to this host itself.
use lanrunner.Common.{
  ℕ, ◌≡◌, refl, sym, ap, ◌∙◌, true, false, Option, none, some, none-ne-some, ◌==◌, Text, same,
  text_lt, inl, inr, Bool-cases,
}
use lanrunner.Common.Dict.{Dict, lookup, insert, insert_cases, erase_cases}
use lanrunner.Peers.{
  Net, Conn, dialer_of, shut, handle_bye, maintain, register, register_at, leave, leave_at,
  close_all_conns,
}

abbrev pub KeyedIn : Text → Dict Conn → Type 0
KeyedIn self conns =
    (k : Text) (conn : Conn) → lookup k conns ≡ some conn → (conn.fp ≡ k) × (same k self ≡ false)

abbrev pub Keyed : Text → Net → Type 0
Keyed self n = KeyedIn self n.conns

insert-KeyedIn :
    (self k : Text) (conn : Conn) (conns : Dict Conn)
    → conn.fp ≡ k
    → same k self ≡ false
    → KeyedIn self conns
    → KeyedIn self (insert k conn conns)
insert-KeyedIn self k conn conns own other keyed j held e =
    elim (insert_cases k j conn held conns e) [
      | inl (same_key, v) ↦ (
        ap (λ (x : Conn). x.fp) (sym v) ∙ own ∙ same_key,
        ap (λ t. same t self) (sym same_key) ∙ other,
      )
      | inr (d, old) ↦ keyed j held old
    ]

shut-KeyedIn :
    (self fp : Text) (o : Option Conn) (conns : Dict Conn)
    → lookup fp conns ≡ o
    → KeyedIn self conns
    → KeyedIn self (shut fp o conns)
unfolding shut
shut-KeyedIn self fp none conns e keyed = keyed
shut-KeyedIn self fp (some conn) conns e keyed =
    let (own, other) = keyed fp conn e in
    insert-KeyedIn self fp (record conn { closed = true }) conns own other keyed

pub handle_bye-Keyed :
    (self : Text) (n : Net) (fp : Text) → Keyed self n → Keyed self (handle_bye n fp)
unfolding handle_bye
handle_bye-Keyed self n fp keyed = shut-KeyedIn self fp (lookup fp n.conns) n.conns refl keyed

pub maintain-Keyed :
    (self : Text) (n : Net) (now : ℕ) → Keyed self n → Keyed self (maintain n now).0
unfolding maintain
maintain-Keyed self n now keyed = keyed

register_at-Keyed :
    (self : Text) (n : Net) (conn : Conn) (o : Option Conn)
    → same conn.fp self ≡ false
    → Keyed self n
    → Keyed self (register_at n conn o).0
unfolding register_at
register_at-Keyed self n conn none other keyed =
    insert-KeyedIn self conn.fp conn n.conns refl other keyed
register_at-Keyed self n conn (some existing) other keyed =
    elim (Bool-cases (text_lt (dialer_of conn n.self_fp) (dialer_of existing n.self_fp))) [
      | inl e ↦ rw e (insert-KeyedIn self conn.fp conn n.conns refl other keyed)
      | inr e ↦ rw e keyed
    ]

pub register-Keyed :
    (self : Text) (n : Net) (conn : Conn)
    → same conn.fp self ≡ false
    → Keyed self n
    → Keyed self (register n conn).0
unfolding register
register-Keyed self n conn = register_at-Keyed self n conn (lookup conn.fp n.conns)

leave_at-Keyed :
    (self : Text) (n : Net) (conn : Conn) (o : Option Conn)
    → Keyed self n
    → Keyed self (leave_at n conn o)
unfolding leave_at
leave_at-Keyed self n conn none keyed = keyed
leave_at-Keyed self n conn (some held) keyed = elim (Bool-cases (held.serial == conn.serial)) [
  | inl e ↦ rw e (λ j c at. keyed j c (erase_cases conn.fp j c n.conns at).1)
  | inr e ↦ rw e keyed
]

pub leave-Keyed : (self : Text) (n : Net) (conn : Conn) → Keyed self n → Keyed self (leave n conn)
unfolding leave
leave-Keyed self n conn = leave_at-Keyed self n conn (lookup conn.fp n.conns)

pub close_all_conns-Keyed :
    (self : Text) (n : Net) → Keyed self n → Keyed self (close_all_conns n).0
unfolding close_all_conns lookup
close_all_conns-Keyed self n keyed = λ k conn e. absurd (none-ne-some conn e)
